-- ===== src/Socks/Served.antt =====
-- `serve` of a request for a connection, up to the relay.
use silksocks.Base.{ℕ, ◌+◌, ◌<◌, ◌≡◌, refl, ap, Bool, true, some, List, ◌∷◌, ◌++◌, length}
use silksocks.SilkIo.{ReadEvent, WriteEvent}
use silksocks.SilkIo.Read.{payload}
use silksocks.SilkIo.Exact.{serves, serves-Takes}
use silksocks.ConnectNonb.{connect_nonb}
use silksocks.Cache.Ip.{Creds, CacheIp}
use silksocks.Cache.Ip.Laws.{IsValidIp}
use silksocks.Cache.App.{CacheAp}
use silksocks.Socks.Lookup.{HasCreds}
use silksocks.Socks.World.{M, Sockaddr, fd, Client, World, System, ok, status_of, client_side}
use silksocks.Socks.Upstream.{
  atyp_of, sock_addr_len, address_packet, ntohl, socks5_connectproxy, socks5_writereply,
}
use silksocks.Socks.Stream.{send-Takes}
use silksocks.HashTbl.{HashTable}
use silksocks.HashTbl.Valid.{IsValid}
use silksocks.Socks.Destination.{
  Destination, named_by, IsAt, asked_for, requested, readrequest-requested,
}
use silksocks.Socks.Reply.{from_client, ip_family}
use silksocks.Socks.Connect.{
  greeting, login, address_tail, address_tail_short, at_proxy, socks5_connectproxy_lem,
}
use silksocks.Socks.Run.{relay, serve}

-- the world with the client's socket after some bytes of it are read and some are written
abbrev pub at_client : List ReadEvent → List ℕ → List WriteEvent → World → World
at_client es sent ws w = record w {
  cli = record w.cli { incoming = es; accepts = ws; sent = sent };
}

abbrev pub with_client : Client → World → World
with_client c w = record w { client = c }

abbrev pub with_tables : HashTable → CacheAp → CacheIp → World → World
with_tables t a c w = record w { dns_table = t; cacheapp = a; cacheip = c }

status_of-ok : (f : M (Unit {0})) (w w' : World) → f w ≡ ok tt w' → status_of f w ≡ ok 0 w'
status_of-ok f w w' e = ap (λ o. status_of (λ v. o) w) e

-- From the client's request for a connection on, with the upstream proxy of
-- `socks5_connectproxy_lem`.
pub serve-relays :
    (sys : System) (negotiate : M ℕ) (w : World) (d : Destination) (rsv1 : ℕ)
    (addr port rest : List ℕ) (n : ℕ) (creds : Creds) (v6 : Bool) (rsv2 : ℕ) (bound rest' : List ℕ)
    (local : Sockaddr)
    → w.cli.rcvtimeo ≡ true
    → w.cli.sndtimeo ≡ true
    → serves 1 w.cli.accepts ≡ true
    → IsValid w.dns_table
    → IsAt sys w d addr
    → length port ≡ 2
    → payload w.cli.incoming ≡ 5 ∷ 1 ∷ rsv1 ∷ named_by d addr (port ++ rest)
    → sys.socket ≡ some n
    → (connect_nonb sys.connect).success ≡ true
    → IsValidIp w.cacheip
    → HasCreds sys w.cacheip (ntohl w.client.srv_addr) w.client.srv_port creds
    → length creds.user < 128
    → length creds.passwd < 128
    → w.prx.rcvtimeo ≡ true
    → w.prx.sndtimeo ≡ true
    → serves 3 w.prx.accepts ≡ true
    → length bound ≡ sock_addr_len (ip_family v6) + 2
    → payload w.prx.incoming
      ≡ 5 ∷ 2 ∷ 1 ∷ 0 ∷ 5 ∷ 0 ∷ rsv2 ∷ atyp_of (ip_family v6) ∷ (bound ++ rest')
    → sys.getsockname (fd n) ≡ some local
    → (es es' : List ReadEvent) × (ws ws' : List WriteEvent) × (t : HashTable) × (c : CacheIp)
      × (serve sys negotiate w
          ≡ relay negotiate (
              at_client es (w.cli.sent ++ address_packet 0 local) ws (
                at_proxy es'
                  (((w.prx.sent ++ greeting) ++ login creds)
                    ++ address_packet 1 (asked_for d addr port))
                  ws'
                  (with_client
                    (record w.client { cmd = 1; request = asked_for d addr port; proxyfd = fd n })
                    (with_tables t w.cacheapp c w)))))
      × IsValid t
      × IsValidIp c
      × (payload es ≡ rest)
      × (payload es' ≡ rest')
unfolding serve socks5_writereply address_packet
serve-relays sys negotiate w d rsv1 addr port rest n creds v6 rsv2 bound rest' local rcv snd room
      valid at two eq made linked vip creds_known short1 short2 prcv psnd proom psize peq named =
    let (es1, t, run1, kept, left1) =
      readrequest-requested sys w 1 rsv1 d addr port rest refl rcv valid at two eq in
    let w1 : World = requested 1 (asked_for d addr port) t (from_client es1 w) in
    let (es2, ws2, c, run2, kept2, left2) =
      socks5_connectproxy_lem sys w1 n creds v6 rsv2 bound rest' made linked vip creds_known short1
        short2 prcv psnd proom psize peq in
    let w2 : World =
      at_proxy es2
        (((w.prx.sent ++ greeting) ++ login creds) ++ address_packet 1 (asked_for d addr port)) ws2
        (record w1 { client = record w1.client { proxyfd = fd n }; cacheip = c }) in
    let (ws3, taken3, room3) =
      serves-Takes 0 w.cli.accepts 5 (address_tail 0 local) room (address_tail_short 0 local) in
    let run3 = send-Takes client_side 1 (5 ∷ address_tail 0 local) ws3 w2 snd taken3 in
    (
      es1,
      es2,
      ws3,
      ws2,
      t,
      c,
      rw (run1, status_of-ok (socks5_connectproxy sys) w1 w2 run2, named, run3) refl,
      kept,
      kept2,
      left1,
      left2,
    )
