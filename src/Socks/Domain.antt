-- ===== src/Socks/Domain.antt =====
-- `socks5_readrequest` on a request for a domain name.
use silksocks.Base.{
  ℕ, ◌≡◌, ◌⊎◌, inl, inr, refl, ◌∙◌, true, false, none, some, List, ◌∷◌, ◌++◌, ltb, ◌||◌, length,
}
use silksocks.SilkIo.{ReadEvent}
use silksocks.SilkIo.Read.{payload}
use silksocks.HashTbl.{HashTable}
use silksocks.HashTbl.Valid.{IsValid, find}
use silksocks.Text.{c_string}
use silksocks.Socks.World.{inet, Sockaddr, World, System, ok, client_side}
use silksocks.Socks.Request.{resolve, read_domain, read_address, socks5_readrequest}
use silksocks.Socks.Stream.{recv-payload, recv_sized, recv_byte-payload}
use silksocks.Socks.Reply.{from_client, fronted}
use silksocks.Socks.Dns.{resolved, resolve-held, resolve-asked}

-- the DNS table holds the address for a name; or it has none, and the resolver answers it
abbrev pub Resolves : System → World → List ℕ → (addr : List ℕ) → Type 0
Resolves sys w name addr =
    (find w.dns_table name sys.now_get ≡ some addr)
    ⊎ ((find w.dns_table name sys.now_get ≡ none)
        × ((port : List ℕ) × (sys.getaddrinfo name inet
              ≡ some (record { family = inet; addr = addr; port = port }))))

-- `resolve` stores the address, and a port that is overwritten later
resolve-Resolves :
    (sys : System) (w : World) (name addr : List ℕ)
    → IsValid w.dns_table
    → Resolves sys w name addr
    → (t : HashTable) × (port : List ℕ) × (resolve sys name w
        ≡ ok tt (resolved w (record { family = inet; addr = addr; port = port }) t))
      × IsValid t
resolve-Resolves sys w name addr valid (inl held) =
    let (t, run, kept) = resolve-held sys w name addr valid held in
    (t, w.client.request.port, run, kept)
resolve-Resolves sys w name addr valid (inr (missing, (port, given))) =
    let answer : Sockaddr = record { family = inet; addr = addr; port = port } in
    let (t, run, kept) = resolve-asked sys w name answer valid missing given in (t, port, run, kept)

-- A request for a domain name, whatever its command and in whatever chunks, is stored by
-- `socks5_readrequest` with the IPv4 address that the DNS table holds for the name, or with that of the
-- resolver where the table holds none, and with the port of the request. The DNS table stays valid, and
-- what follows the request is left in the stream.
pub readrequest-domain :
    (sys : System) (w : World) (cmd reserved : ℕ) (name port rest addr : List ℕ)
    → (ltb cmd 1 || ltb 3 cmd) ≡ false
    → w.cli.rcvtimeo ≡ true
    → IsValid w.dns_table
    → Resolves sys w (c_string name) addr
    → length port ≡ 2
    → payload w.cli.incoming ≡ 5 ∷ cmd ∷ reserved ∷ 3 ∷ length name ∷ (name ++ (port ++ rest))
    → (es : List ReadEvent) × (t : HashTable) × (socks5_readrequest sys w
        ≡ ok tt (record (from_client es w) {
          client = record w.client {
            cmd = cmd;
            request = record { family = inet; addr = addr; port = port };
          };
          dns_table = t;
        }))
      × IsValid t
      × (payload es ≡ rest)
unfolding read_address read_domain
readrequest-domain sys w cmd reserved name port rest addr known rcv valid resolves two eq =
    let told : World = record w { client = record w.client { cmd = cmd } } in
    let (es, run, left) = fronted sys w cmd reserved 3 _ known rcv eq in
    let (es1, run1, left1) =
      recv_byte-payload client_side 1 (length name) (name ++ (port ++ rest)) (from_client es told)
        rcv left in
    let (es2, run2, left2) =
      recv-payload client_side 1 name (port ++ rest) (from_client es1 told) rcv left1 in
    let (t, any, run3, kept) =
      resolve-Resolves sys (from_client es2 told) (c_string name) addr valid resolves in
    let w3 : World =
      resolved (from_client es2 told) (record { family = inet; addr = addr; port = any }) t in
    let (es4, run4, left4) = recv_sized client_side 1 2 port rest w3 two rcv left2 in
    (es4, t, run ∙ rw (run1, run2, run3, run4) refl, kept, left4)
