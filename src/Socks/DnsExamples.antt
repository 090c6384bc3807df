-- ===== src/Socks/DnsExamples.antt =====
-- The theorems on the resolution of names at concrete tables.
use silksocks.Text.{c_string}
use silksocks.SilkIo.{ReadEvent}
use silksocks.SilkIo.Read.{payload}
use silksocks.Socks.Reply.{from_client}
use silksocks.Socks.Domain.{readrequest-domain}
use silksocks.Base.{length, ◌++◌, inr, List, ◌≡◌, refl, some, [], ◌∷◌, replicate}
use silksocks.Cache.Hash.{hash_str}
use silksocks.HashTbl.{HashTable, link_from, hashtbl_check, hashtbl_put}
use silksocks.HashTbl.Valid.{IsValid, find}
use silksocks.HashTbl.Examples.{name, ip, stored, table-IsValid, stored-IsValid}
use silksocks.Socks.World.{Sockaddr, inet, World, System, ok}
use silksocks.Socks.Request.{resolve, socks5_readrequest}
use silksocks.Socks.Dns.{resolved, by_table, resolve_lem}
use silksocks.Socks.Examples.{world, system}

abbrev holding : World
holding = record (world [] []) { dns_table = stored }

resolve_lem_example :
    (t : HashTable) × (resolve system name holding
      ≡ by_table system holding name t (find stored name 0))
    × IsValid t
resolve_lem_example = resolve_lem system holding name stored-IsValid

held : find stored name 0 ≡ some ip
unfolding hashtbl_put hashtbl_check hash_str link_from replicate
held = refl

abbrev answer : Sockaddr
answer = record { family = inet; addr = ip; port = 0 ∷ 0 ∷ [] }

abbrev resolving : System
resolving = record system { getaddrinfo = λ host family. some answer }

asked :
    (t : HashTable) × (resolve resolving name (world [] [])
      ≡ ok tt (resolved (world [] []) answer t))
    × IsValid t
unfolding hash_str replicate
asked = resolve_lem resolving (world [] []) name table-IsValid

-- a request to connect to port 80 of the name, byte by byte, and a byte behind it
abbrev naming : World
naming = world (5 ∷ 1 ∷ 0 ∷ 3 ∷ length name ∷ (name ++ (0 ∷ 80 ∷ 71 ∷ []))) []

readrequest-domain_example :
    (es : List ReadEvent) × (t : HashTable) × (socks5_readrequest resolving naming
      ≡ ok tt (record (from_client es naming) {
        client = record naming.client {
          cmd = 1;
          request = record { family = inet; addr = ip; port = 0 ∷ 80 ∷ [] };
        };
        dns_table = t;
      }))
    × IsValid t
    × (payload es ≡ 71 ∷ [])
unfolding hash_str replicate c_string
readrequest-domain_example =
    readrequest-domain resolving naming 1 0 name (0 ∷ 80 ∷ []) (71 ∷ []) ip refl refl table-IsValid
      (inr (refl, (0 ∷ 0 ∷ [], refl))) refl refl
