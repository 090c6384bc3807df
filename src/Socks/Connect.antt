-- ===== src/Socks/Connect.antt =====
-- `socks5_connectproxy` with an upstream proxy that lets it in.
use silksocks.Base.{
  ℕ, suc, ◌+◌, ◌<◌, ◌≤◌, ◌≡◌, refl, ap, ◌∙◌, Bool, true, some, List, [], ◌∷◌, ◌++◌, arith, ltb,
  length, take, length-append, length-take,
}
use silksocks.SilkIo.{ReadEvent, WriteEvent}
use silksocks.SilkIo.Read.{payload}
use silksocks.SilkIo.Exact.{wrote, serves, serves-Takes}
use silksocks.ConnectNonb.{connect_nonb}
use silksocks.Cache.Ip.{Creds, CacheIp}
use silksocks.Socks.World.{M, Family, inet6, Sockaddr, fd, World, System, ok, proxy_side}
use silksocks.Socks.Upstream.{
  atyp_of, sock_addr_len, address_packet, propagate, ntohl, open_proxy, auth_packet,
  socks5_writerequest, socks5_readreply, socks5_connectproxy,
}
use silksocks.Cache.Ip.Laws.{IsValidIp}
use silksocks.Socks.Lookup.{HasCreds, proxy_creds-HasCreds}
use silksocks.Socks.Stream.{recv-payload, send-Takes}
use silksocks.Socks.Reply.{ip_family, from_proxy, socks5_readreply_lem}
use silksocks.Socks.Password.{auth_packet_lem}

-- the greeting, with the login method
abbrev pub greeting : List ℕ
greeting = 5 ∷ 1 ∷ 2 ∷ []

-- the login of RFC 1929
abbrev pub login : Creds → List ℕ
login creds = 1 ∷ length creds.user ∷ (creds.user ++ (length creds.passwd ∷ creds.passwd))

pub propagated : (f : M (Unit {0})) (w w' : World) → f w ≡ ok tt w' → propagate f w ≡ ok tt w'
propagated f w w' e = ap (λ o. propagate (λ v. o) w) e

sock_addr_len-le : (f : Family) → sock_addr_len f ≤ 16
sock_addr_len-le inet6 = omega arith
sock_addr_len-le _ = omega arith

-- what follows the version in the packet for an address
abbrev pub address_tail : ℕ → Sockaddr → List ℕ
address_tail second sa =
    second ∷ 0 ∷ atyp_of sa.family ∷ (take (sock_addr_len sa.family) sa.addr ++ take 2 sa.port)

pub address_tail_short : (second : ℕ) (sa : Sockaddr) → suc (length (address_tail second sa)) ≤ 512
address_tail_short second sa = omega (
  arith,
  length-append (take (sock_addr_len sa.family) sa.addr) (take 2 sa.port),
  length-take (sock_addr_len sa.family) sa.addr,
  length-take 2 sa.port,
  sock_addr_len-le sa.family,
)

login_short :
    (creds : Creds)
    → length creds.user < 128
    → length creds.passwd < 128
    → length (login creds) ≤ 512
login_short creds short1 short2 =
    omega (arith, length-append creds.user (length creds.passwd ∷ creds.passwd))

auth_packet-login :
    (creds : Creds) (w : World)
    → length creds.user < 128
    → length creds.passwd < 128
    → auth_packet creds.user creds.passwd w ≡ ok (login creds) w
auth_packet-login creds w short1 short2 =
    let small1 : ltb (length creds.user) 128 ≡ true = ground arith in
    let small2 : ltb (length creds.passwd) 128 ≡ true = ground arith in
    auth_packet_lem creds.user creds.passwd w (omega arith) (omega arith) ∙ rw (small1, small2) refl

-- the world with the proxy's socket after some bytes of it are read and some are written
abbrev pub at_proxy : List ReadEvent → List ℕ → List WriteEvent → World → World
at_proxy es sent ws w = record w { prx = record w.prx { incoming = es; accepts = ws; sent = sent } }

-- With credentials of up to 127 bytes for the proxy in the cache, or in the database where the cache has
-- none, and a proxy that can be connected to, picks the login method, takes the login, and answers the request with code 0 and an
-- IPv4 or IPv6 address, in whatever chunks, and on a socket that takes three more writes of 512 bytes,
-- `socks5_connectproxy` succeeds. It has sent the greeting, the login with the credentials and the
-- packet for the client's request, in this order, has stored the descriptor, and leaves what follows
-- the reply in the stream. The cache was valid and is valid then. (If the cache has none, it has room or
-- is given memory, with fewer than 2 ^ 31 slots.)
pub socks5_connectproxy_lem :
    (sys : System) (w : World) (n : ℕ) (creds : Creds) (v6 : Bool) (reserved : ℕ)
    (bound rest : List ℕ)
    → sys.socket ≡ some n
    → (connect_nonb sys.connect).success ≡ true
    → IsValidIp w.cacheip
    → HasCreds sys w.cacheip (ntohl w.client.srv_addr) w.client.srv_port creds
    → length creds.user < 128
    → length creds.passwd < 128
    → w.prx.rcvtimeo ≡ true
    → w.prx.sndtimeo ≡ true
    → serves 3 w.prx.accepts ≡ true
    → length bound ≡ sock_addr_len (ip_family v6) + 2
    → payload w.prx.incoming
      ≡ 5 ∷ 2 ∷ 1 ∷ 0 ∷ 5 ∷ 0 ∷ reserved ∷ atyp_of (ip_family v6) ∷ (bound ++ rest)
    → (es : List ReadEvent) × (ws : List WriteEvent) × (c : CacheIp) × (socks5_connectproxy sys w
        ≡ ok tt (
            at_proxy es
              (((w.prx.sent ++ greeting) ++ login creds) ++ address_packet 1 w.client.request)
              ws
              (record w { client = record w.client { proxyfd = fd n }; cacheip = c })))
      × IsValidIp c
      × (payload es ≡ rest)
unfolding socks5_connectproxy open_proxy socks5_writerequest address_packet
socks5_connectproxy_lem sys w n creds v6 reserved bound rest made linked valid has short1 short2 rcv
      snd room size eq =
    let w0 : World = record w { client = record w.client { proxyfd = fd n } } in
    let run0 : open_proxy sys w ≡ ok tt w0 = rw (made, linked) refl in
    let (ws1, taken1, room1) = serves-Takes 2 w.prx.accepts 5 (1 ∷ 2 ∷ []) room (omega arith) in
    let run1 = send-Takes proxy_side 4 greeting ws1 w0 snd taken1 in
    let w1 : World = record w0 { prx = wrote greeting ws1 w0.prx } in
    let (es2, run2, left2) = recv-payload proxy_side 4 (5 ∷ 2 ∷ []) _ w1 rcv eq in
    let w2 : World = from_proxy es2 w1 in
    let (c, run3, kept) = proxy_creds-HasCreds sys w2 creds valid has in
    let w3 : World = record w2 { cacheip = c } in
    let run4 = auth_packet-login creds w3 short1 short2 in
    let (ws5, taken5, room5) =
      serves-Takes 1 ws1 1
        (length creds.user ∷ (creds.user ++ (length creds.passwd ∷ creds.passwd))) room1
        (login_short creds short1 short2) in
    let run5 = send-Takes proxy_side 4 (login creds) ws5 w3 snd taken5 in
    let w5 : World = record w3 { prx = wrote (login creds) ws5 w3.prx } in
    let (es6, run6, left6) = recv-payload proxy_side 4 (1 ∷ 0 ∷ []) _ w5 rcv left2 in
    let w6 : World = from_proxy es6 w5 in
    let (ws7, taken7, room7) =
      serves-Takes 0 ws5 5 (address_tail 1 w.client.request) room5
        (address_tail_short 1 w.client.request) in
    let packet = 5 ∷ address_tail 1 w.client.request in
    let run7 = send-Takes proxy_side 4 packet ws7 w6 snd taken7 in
    let w7 : World = record w6 { prx = wrote packet ws7 w6.prx } in
    let (es8, run8, left8) = socks5_readreply_lem w7 v6 reserved bound rest rcv size left6 in
    let w8 : World = from_proxy es8 w7 in
    let run9 = propagated socks5_writerequest w6 w7 run7 in
    let run10 = propagated socks5_readreply w7 w8 run8 in
    (es8, ws7, c, rw (run0, run1, run2, run3, run4, run5, run6, run9, run10) refl, kept, left8)
