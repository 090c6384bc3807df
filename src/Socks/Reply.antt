-- ===== src/Socks/Reply.antt =====
-- `socks5_readreply` on the messages of the upstream proxy, and the request that is passed on to it.
use silksocks.Base.{
  if◌then◌else◌, Bool-cases, inl, inr, ℕ, ◌+◌, ◌≡◌, ◌≢◌, refl, ap, ◌∙◌, Bool, true, false, List, [],
  ◌∷◌, ◌++◌, ◌==◌, arith, ltb, ◌||◌, length,
}
use silksocks.SilkIo.{ReadEvent}
use silksocks.SilkIo.Read.{payload}
use silksocks.SilkIo.Exact.{reading, take-all}
use silksocks.Socks.World.{
  M, Family, inet, inet6, Sockaddr, World, System, ok, ret, client_side, proxy_side,
}
use silksocks.Socks.Upstream.{propagate, atyp_of, sock_addr_len, socks5_readreply, address_packet}
use silksocks.Socks.Request.{read_ipv4, read_ipv6, read_address, socks5_readrequest}
use silksocks.Socks.Stream.{recv-payload, recv_sized, recv_byte-payload}

abbrev pub from_proxy : List ReadEvent → World → World
from_proxy es w = record w { prx = reading es w.prx }

passed_on :
    (f : M (Unit {0})) (w w' : World) (code : ℕ)
    → f w ≡ ret code w'
    → propagate f w ≡ (if code == 0 then ok tt w' else ret code w')
passed_on f w w' code e =
    ap (λ o. propagate (λ v. o) w) e
    ∙ (elim (Bool-cases (code == 0)) [ inl z ↦ rw z refl | inr nz ↦ rw nz refl ])

-- A reply with a version other than 5 makes `socks5_readreply` return the reply's code, also where that
-- is 0, and `socks5_connectproxy` goes on after it if and only if the code is 0.
socks5_readreply-version :
    (w : World) (version code reserved atyp : ℕ) (rest : List ℕ)
    → w.prx.rcvtimeo ≡ true
    → version ≢ 5
    → payload w.prx.incoming ≡ version ∷ code ∷ reserved ∷ atyp ∷ rest
    → (es : List ReadEvent) × (socks5_readreply w ≡ ret code (from_proxy es w))
      × (propagate socks5_readreply w
          ≡ (if code == 0 then ok tt (from_proxy es w) else ret code (from_proxy es w)))
      × (payload es ≡ rest)
unfolding socks5_readreply
socks5_readreply-version w version code reserved atyp rest rcv ne eq =
    let (es, run, left) =
      recv-payload proxy_side 4 (version ∷ code ∷ reserved ∷ atyp ∷ []) rest w rcv eq in
    let bad : (version == 5) ≡ false = ground arith in
    let done : socks5_readreply w ≡ ret code (from_proxy es w) = rw (run, bad) refl in
    (es, done, passed_on socks5_readreply w (from_proxy es w) code done, left)

-- IPv6 or IPv4
abbrev pub ip_family : (v6 : Bool) → Family
ip_family true = inet6
ip_family false = inet

-- A reply of version 5 with code 0 and an IPv4 or IPv6 address, in whatever chunks, makes
-- `socks5_readreply` succeed and leave what follows the reply in the stream.
pub socks5_readreply_lem :
    (w : World) (v6 : Bool) (reserved : ℕ) (bound rest : List ℕ)
    → w.prx.rcvtimeo ≡ true
    → length bound ≡ sock_addr_len (ip_family v6) + 2
    → payload w.prx.incoming ≡ 5 ∷ 0 ∷ reserved ∷ atyp_of (ip_family v6) ∷ (bound ++ rest)
    → (es : List ReadEvent) × (socks5_readreply w ≡ ok tt (from_proxy es w)) × (payload es ≡ rest)
unfolding socks5_readreply
socks5_readreply_lem w true reserved bound rest rcv size eq =
    let (es, run, left) =
      recv-payload proxy_side 4 (5 ∷ 0 ∷ reserved ∷ 4 ∷ []) (bound ++ rest) w rcv eq in
    let (es', run', left') =
      recv_sized proxy_side 2 18 bound rest (from_proxy es w) size rcv left in
    (es', rw (run, run') refl, left')
socks5_readreply_lem w false reserved bound rest rcv size eq =
    let (es, run, left) =
      recv-payload proxy_side 4 (5 ∷ 0 ∷ reserved ∷ 1 ∷ []) (bound ++ rest) w rcv eq in
    let (es', run', left') = recv_sized proxy_side 2 6 bound rest (from_proxy es w) size rcv left in
    (es', rw (run, run') refl, left')

abbrev pub from_client : List ReadEvent → World → World
from_client es w = record w { cli = reading es w.cli }

abbrev pub sockaddr : Bool → List ℕ → List ℕ → Sockaddr
sockaddr v6 addr port = record { family = ip_family v6; addr = addr; port = port }

-- the world behind the four bytes at the front of a request
pub fronted :
    (sys : System) (w : World) (cmd reserved atyp : ℕ) (rest : List ℕ)
    → (ltb cmd 1 || ltb 3 cmd) ≡ false
    → w.cli.rcvtimeo ≡ true
    → payload w.cli.incoming ≡ 5 ∷ cmd ∷ reserved ∷ atyp ∷ rest
    → (es : List ReadEvent) × (socks5_readrequest sys w
        ≡ read_address sys atyp
            (record (from_client es w) { client = record w.client { cmd = cmd } }))
      × (payload es ≡ rest)
unfolding socks5_readrequest
fronted sys w cmd reserved atyp rest known rcv eq =
    let told : World = record w { client = record w.client { cmd = cmd } } in
    let (es1, run1, left1) = recv_byte-payload client_side 1 5 _ w rcv eq in
    let (es2, run2, left2) = recv_byte-payload client_side 1 cmd _ (from_client es1 w) rcv left1 in
    let (es3, run3, left3) =
      recv_byte-payload client_side 1 reserved _ (from_client es2 told) rcv left2 in
    let (es4, run4, left4) =
      recv_byte-payload client_side 1 atyp rest (from_client es3 told) rcv left3 in
    (es4, rw (run1, run2, known, run3, run4) refl, left4)

-- a request for an address is stored, whatever its command
pub readrequest-stores :
    (sys : System) (w : World) (v6 : Bool) (cmd reserved : ℕ) (addr port rest : List ℕ)
    → (ltb cmd 1 || ltb 3 cmd) ≡ false
    → w.cli.rcvtimeo ≡ true
    → length addr ≡ sock_addr_len (ip_family v6)
    → length port ≡ 2
    → payload w.cli.incoming
      ≡ 5 ∷ cmd ∷ reserved ∷ atyp_of (ip_family v6) ∷ (addr ++ (port ++ rest))
    → (es : List ReadEvent) × (socks5_readrequest sys w
        ≡ ok tt (record (from_client es w) {
          client = record w.client { cmd = cmd; request = sockaddr v6 addr port };
        }))
      × (payload es ≡ rest)
unfolding read_address read_ipv4 read_ipv6
readrequest-stores sys w false cmd reserved addr port rest known rcv size two eq =
    let told : World = record w { client = record w.client { cmd = cmd } } in
    let placed : World = record told {
      client = record told.client {
        request = record told.client.request { family = inet; addr = addr };
      };
    } in
    let (es, run, left) = fronted sys w cmd reserved 1 _ known rcv eq in
    let (es1, run1, left1) =
      recv_sized client_side 1 4 addr _ (from_client es told) size rcv left in
    let (es2, run2, left2) =
      recv_sized client_side 1 2 port rest (from_client es1 placed) two rcv left1 in
    (es2, run ∙ rw (run1, run2) refl, left2)
readrequest-stores sys w true cmd reserved addr port rest known rcv size two eq =
    let told : World = record w { client = record w.client { cmd = cmd } } in
    let placed : World = record told {
      client = record told.client {
        request = record told.client.request { family = inet6; addr = addr };
      };
    } in
    let (es, run, left) = fronted sys w cmd reserved 4 _ known rcv eq in
    let (es1, run1, left1) =
      recv_sized client_side 1 16 addr _ (from_client es told) size rcv left in
    let (es2, run2, left2) =
      recv_sized client_side 1 2 port rest (from_client es1 placed) two rcv left1 in
    (es2, run ∙ rw (run1, run2) refl, left2)

-- the packet for a stored address
packet_of :
    (v6 : Bool) (addr port : List ℕ)
    → length addr ≡ sock_addr_len (ip_family v6)
    → length port ≡ 2
    → address_packet 1 (sockaddr v6 addr port) ≡ 5 ∷ 1 ∷ 0 ∷ atyp_of (ip_family v6) ∷ (addr ++ port)
unfolding address_packet
packet_of false addr port size two =
    rw (take-all 4 addr (omega (arith, size)), take-all 2 port (omega (arith, two))) refl
packet_of true addr port size two =
    rw (take-all 16 addr (omega (arith, size)), take-all 2 port (omega (arith, two))) refl

-- A request of the client for a connection to an IPv4 or IPv6 address, in whatever chunks, is
-- stored by `socks5_readrequest`, which leaves what follows in the stream, and the packet that
-- `socks5_writerequest` sends for the stored request has the bytes of the client's, with 0 for the
-- reserved one.
pub socks5_readrequest-address_packet :
    (sys : System) (w : World) (v6 : Bool) (reserved : ℕ) (addr port rest : List ℕ)
    → w.cli.rcvtimeo ≡ true
    → length addr ≡ sock_addr_len (ip_family v6)
    → length port ≡ 2
    → payload w.cli.incoming ≡ 5 ∷ 1 ∷ reserved ∷ atyp_of (ip_family v6) ∷ (addr ++ (port ++ rest))
    → (es : List ReadEvent) × (socks5_readrequest sys w
        ≡ ok tt (record (from_client es w) {
          client = record w.client { cmd = 1; request = sockaddr v6 addr port };
        }))
      × (address_packet 1 (sockaddr v6 addr port)
          ≡ 5 ∷ 1 ∷ 0 ∷ atyp_of (ip_family v6) ∷ (addr ++ port))
      × (payload es ≡ rest)
socks5_readrequest-address_packet sys w v6 reserved addr port rest rcv size two eq =
    let (es, run, left) =
      readrequest-stores sys w v6 1 reserved addr port rest refl rcv size two eq in
    (es, run, packet_of v6 addr port size two, left)
