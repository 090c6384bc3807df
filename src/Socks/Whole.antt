-- ===== src/Socks/Whole.antt =====
-- A run of `socks5_run` up to the relay.
use silksocks.Base.{
  ℕ, ◌+◌, ◌%◌, ◌^◌, ◌<◌, ◌≤◌, ◌≡◌, refl, Bool, true, some, List, [], ◌∷◌, ◌++◌, arith, length,
}
use silksocks.SilkIo.{ReadEvent, WriteEvent}
use silksocks.SilkIo.Read.{payload}
use silksocks.SilkIo.Exact.{reading, wrote, serves, serves-Takes}
use silksocks.ConnectNonb.{connect_nonb}
use silksocks.Cache.Ip.{Creds, CacheIp}
use silksocks.Cache.Ip.Laws.{IsValidIp}
use silksocks.Cache.App.{CacheAp}
use silksocks.Cache.App.Laws.{IsValidAp}
use silksocks.Socks.Lookup.{HasPasswd, HasCreds}
use silksocks.Text.{c_string}
use silksocks.Socks.World.{M, Sockaddr, fd, Client, World, System}
use silksocks.Socks.Upstream.{atyp_of, sock_addr_len, address_packet, ntohl}
use silksocks.Socks.Method.{method_of, choosemethod-login}
use silksocks.Socks.Redirect.{is_field, redirected}
use silksocks.HashTbl.{HashTable}
use silksocks.HashTbl.Valid.{IsValid}
use silksocks.Socks.Destination.{Destination, named_by, IsAt, asked_for}
use silksocks.Socks.Reply.{ip_family}
use silksocks.Socks.Connect.{greeting, login, at_proxy}
use silksocks.Socks.Run.{relay, run_body, ran, new_client, socks5_run}
use silksocks.Socks.Serve.{authenticate-Takes}
use silksocks.Socks.Served.{at_client, with_client, with_tables, serve-relays}

-- A client that offers the login method, logs in with the name of an application, the address and the
-- port of a proxy, and the application's password, and asks for a connection to an IPv4 or IPv6 address,
-- or to a name that the DNS table or else the resolver has an address for, all in whatever chunks and on
-- a socket that takes three writes of 512 bytes, is served: if the proxy can be connected to and its
-- credentials have up to 127 bytes each, if it takes three such writes, picks the login method, takes the
-- login and answers with code 0 and an IPv4 or IPv6 address, and if `getsockname` gives an address, then
-- the run comes to the relay and ends as the relay does. The client has then been sent the method, that
-- the login is good and a reply of status 0 with that address; the proxy has been sent the greeting, the
-- login with its own credentials and the client's request; and what follows the handshake on both sides
-- is still to be read. The three tables were valid and are valid then. (The password and the credentials
-- are those in the caches, or in the database where a cache has none, and then that cache has room or is
-- given memory, with fewer than 2 ^ 31 slots.)
pub socks5_run-relays :
    (sys : System) (negotiate : M ℕ) (clientfd : ℕ) (w : World)
    (ms name ip proxy_port passwd : List ℕ) (sin_addr : List ℕ) (sin_port : ℕ) (d : Destination)
    (rsv1 : ℕ) (addr port rest : List ℕ) (n : ℕ) (creds : Creds) (v6 : Bool) (rsv2 : ℕ)
    (bound rest' : List ℕ) (local : Sockaddr)
    → w.cli.rcvtimeo ≡ true
    → w.cli.sndtimeo ≡ true
    → serves 3 w.cli.accepts ≡ true
    → method_of ms ≡ 2
    → is_field name ≡ true
    → is_field ip ≡ true
    → is_field proxy_port ≡ true
    → length ip ≤ 15
    → length proxy_port ≤ 5
    → sys.inet_pton ip ≡ some sin_addr
    → sys.strtol proxy_port ≡ (sin_port, [])
    → IsValidAp w.cacheapp
    → HasPasswd sys w.cacheapp (c_string name) (c_string passwd)
    → IsValid w.dns_table
    → IsAt sys w d addr
    → length port ≡ 2
    → payload w.cli.incoming
      ≡ 5
        ∷ length ms
        ∷ (ms
            ++ (1
                ∷ length (redirected name ip proxy_port)
                ∷ (redirected name ip proxy_port
                    ++ (length passwd
                        ∷ (passwd ++ (5 ∷ 1 ∷ rsv1 ∷ named_by d addr (port ++ rest)))))))
    → sys.socket ≡ some n
    → (connect_nonb sys.connect).success ≡ true
    → IsValidIp w.cacheip
    → HasCreds sys w.cacheip (ntohl sin_addr) (sin_port % 2 ^ 16) creds
    → length creds.user < 128
    → length creds.passwd < 128
    → w.prx.rcvtimeo ≡ true
    → w.prx.sndtimeo ≡ true
    → serves 3 w.prx.accepts ≡ true
    → length bound ≡ sock_addr_len (ip_family v6) + 2
    → payload w.prx.incoming
      ≡ 5 ∷ 2 ∷ 1 ∷ 0 ∷ 5 ∷ 0 ∷ rsv2 ∷ atyp_of (ip_family v6) ∷ (bound ++ rest')
    → sys.getsockname (fd n) ≡ some local
    → (es es' : List ReadEvent) × (ws ws' : List WriteEvent) × (t : HashTable) × (a : CacheAp)
      × (c : CacheIp) × (socks5_run sys negotiate true clientfd w
          ≡ ran (
              relay negotiate (
                at_client es
                  (((w.cli.sent ++ (5 ∷ 2 ∷ [])) ++ (1 ∷ 0 ∷ [])) ++ address_packet 0 local)
                  ws
                  (at_proxy es'
                    (((w.prx.sent ++ greeting) ++ login creds)
                      ++ address_packet 1 (asked_for d addr port))
                    ws'
                    (with_client
                      (record (new_client clientfd) {
                        user = name;
                        passwd = passwd;
                        srv_addr = sin_addr;
                        srv_port = sin_port % 2 ^ 16;
                        cmd = 1;
                        request = asked_for d addr port;
                        proxyfd = fd n;
                      })
                      (with_tables t a c w))))))
      × IsValid t
      × IsValidAp a
      × IsValidIp c
      × (payload es ≡ rest)
      × (payload es' ≡ rest')
unfolding socks5_run run_body
socks5_run-relays sys negotiate clientfd w ms name ip proxy_port passwd sin_addr sin_port d rsv1
      addr port rest n creds v6 rsv2 bound rest' local rcv snd room offered fn fi fp s1 s2 pton tol
      vap passwd_known valid at two eq made linked vip creds_known short1 short2 prcv psnd proom
      psize peq named =
    let w0 : World = with_client (new_client clientfd) w in
    let (ws1, taken1, room1) = serves-Takes 2 w.cli.accepts 5 (2 ∷ []) room (omega arith) in
    let (es1, run1, left1) = choosemethod-login w0 ms _ ws1 offered rcv snd taken1 eq in
    let w1 : World = record w0 { cli = wrote (5 ∷ 2 ∷ []) ws1 (reading es1 w.cli) } in
    let (ws2, taken2, room2) = serves-Takes 1 ws1 1 (0 ∷ []) room1 (omega arith) in
    let (es2, a, run2, kept2, left2) =
      authenticate-Takes sys w1 name ip proxy_port passwd _ sin_addr sin_port ws2 rcv snd taken2 fn
        fi fp s1 s2 pton tol vap passwd_known left1 in
    let c2 : Client = record (new_client clientfd) {
      user = name;
      passwd = passwd;
      srv_addr = sin_addr;
      srv_port = sin_port % 2 ^ 16;
    } in
    let w2 : World =
      with_client c2
        (record w1 { cli = wrote (1 ∷ 0 ∷ []) ws2 (reading es2 w1.cli); cacheapp = a }) in
    let (es3, es4, ws3, ws4, t, c, run3, kept, kept3, left3, left4) =
      serve-relays sys negotiate w2 d rsv1 addr port rest n creds v6 rsv2 bound rest' local rcv snd
        room2 valid at two left2 made linked vip creds_known short1 short2 prcv psnd proom psize peq
        named in
    (es3, es4, ws3, ws4, t, a, c, rw (run1, run2, run3) refl, kept, kept2, kept3, left3, left4)
