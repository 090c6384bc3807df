-- ===== src/Socks/Destination.antt =====
-- What a client asks for in `socks5_readrequest`: an IPv4 address, an IPv6 address or a domain name.
use silksocks.Base.{ℕ, ◌≡◌, Bool, true, false, List, ◌∷◌, ◌++◌, ltb, ◌||◌, length}
use silksocks.SilkIo.{ReadEvent}
use silksocks.SilkIo.Read.{payload}
use silksocks.HashTbl.{HashTable}
use silksocks.HashTbl.Valid.{IsValid}
use silksocks.Text.{c_string}
use silksocks.Socks.World.{Family, inet, Sockaddr, World, System, ok}
use silksocks.Socks.Upstream.{atyp_of, sock_addr_len}
use silksocks.Socks.Request.{socks5_readrequest}
use silksocks.Socks.Reply.{from_client, ip_family, readrequest-stores}
use silksocks.Socks.Domain.{Resolves, readrequest-domain}

pub data Destination : Type 0 where
  at_ip : (v6 : Bool) → Destination
  at_name : (name : List ℕ) → Destination

-- its address type and its bytes, for one whose address is `addr`
abbrev pub named_by : Destination → (addr rest : List ℕ) → List ℕ
named_by (at_ip v6) addr rest = atyp_of (ip_family v6) ∷ (addr ++ rest)
named_by (at_name name) addr rest = 3 ∷ length name ∷ (name ++ rest)

abbrev pub family_of : Destination → Family
family_of (at_ip v6) = ip_family v6
family_of (at_name name) = inet

-- `addr` is the address: the one that is asked for, or what the DNS table or the resolver has for the name
abbrev pub IsAt : System → World → Destination → (addr : List ℕ) → Type 0
IsAt sys w (at_ip v6) addr = length addr ≡ sock_addr_len (ip_family v6)
IsAt sys w (at_name name) addr = Resolves sys w (c_string name) addr

abbrev pub asked_for : Destination → (addr port : List ℕ) → Sockaddr
asked_for d addr port = record { family = family_of d; addr = addr; port = port }

-- the world when the request is read
abbrev pub requested : ℕ → Sockaddr → HashTable → World → World
requested cmd request t w = record w {
  client = record w.client { cmd = cmd; request = request };
  dns_table = t;
}

pub readrequest-requested :
    (sys : System) (w : World) (cmd reserved : ℕ) (d : Destination) (addr port rest : List ℕ)
    → (ltb cmd 1 || ltb 3 cmd) ≡ false
    → w.cli.rcvtimeo ≡ true
    → IsValid w.dns_table
    → IsAt sys w d addr
    → length port ≡ 2
    → payload w.cli.incoming ≡ 5 ∷ cmd ∷ reserved ∷ named_by d addr (port ++ rest)
    → (es : List ReadEvent) × (t : HashTable) × (socks5_readrequest sys w
        ≡ ok tt (requested cmd (asked_for d addr port) t (from_client es w)))
      × IsValid t
      × (payload es ≡ rest)
readrequest-requested sys w cmd reserved (at_ip v6) addr port rest known rcv valid at two eq =
    let (es, run, left) =
      readrequest-stores sys w v6 cmd reserved addr port rest known rcv at two eq in
    (es, w.dns_table, run, valid, left)
readrequest-requested sys w cmd reserved (at_name name) addr port rest known rcv valid at two eq =
    readrequest-domain sys w cmd reserved name port rest addr known rcv valid at two eq
