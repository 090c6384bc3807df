-- ===== src/Socks/Serve.antt =====
-- Whole runs of `socks5_run`: a client that is let in, one that is not, and what is closed at the end.
use silksocks.Base.{
  ℕ, ◌%◌, ◌^◌, ◌≤◌, ◌≡◌, ◌≢◌, refl, Bool, true, false, some, List, [], ◌∷◌, ◌++◌, ◌||◌, ◌==◌,
  ==_refl, ltb, arith, length,
}
use silksocks.SilkIo.{ReadEvent, WriteEvent}
use silksocks.SilkIo.Read.{payload}
use silksocks.SilkIo.Exact.{reading, wrote, Takes}
use silksocks.Cache.App.{CacheAp}
use silksocks.Cache.App.Laws.{IsValidAp}
use silksocks.Socks.Lookup.{with_apps, HasPasswd, app_passwd-HasPasswd}
use silksocks.Text.{c_string}
use silksocks.Socks.World.{fd, World, System, M, ok, ret, client_side}
use silksocks.Socks.Handshake.{same_string, socks5_choosemethod, socks5_doauth}
use silksocks.Socks.Upstream.{atyp_of, sock_addr_len}
use silksocks.Socks.Stream.{recv_byte-payload}
use silksocks.Socks.Method.{readauth-Takes}
use silksocks.Socks.Redirect.{is_field, redirected, strip_redirectaddr_lem}
use silksocks.Socks.Reply.{from_client, ip_family, sockaddr, readrequest-stores}
use silksocks.Socks.Run.{authenticate, serve, run_body, finished, new_client, socks5_run}

same_string_refl : (s : List ℕ) → same_string s s ≡ true
unfolding same_string
same_string_refl [] = refl
same_string_refl (c ∷ s) = ground (arith, same_string_refl s, ==_refl c)

-- the password that the cache or the database has for the name is accepted
doauth-HasPasswd :
    (sys : System) (w : World)
    → IsValidAp w.cacheapp
    → HasPasswd sys w.cacheapp (c_string w.client.user) (c_string w.client.passwd)
    → (c : CacheAp) × (socks5_doauth sys w ≡ ok tt (with_apps c w)) × IsValidAp c
unfolding socks5_doauth
doauth-HasPasswd sys w valid has =
    let (c, run, kept) =
      app_passwd-HasPasswd sys w (c_string w.client.user) (c_string w.client.passwd) valid has in
    (c, rw (run, same_string_refl (c_string w.client.passwd)) refl, kept)

-- A login with the name of an application, the address and the port of a proxy, and the application's
-- password, in whatever chunks, is good: the record has the bare name, the password and the proxy's
-- address.
pub authenticate-Takes :
    (sys : System) (w : World) (name ip port passwd rest : List ℕ) (sin_addr : List ℕ)
    (sin_port : ℕ) (ws : List WriteEvent)
    → w.cli.rcvtimeo ≡ true
    → w.cli.sndtimeo ≡ true
    → Takes (1 ∷ 0 ∷ []) w.cli.accepts ws
    → is_field name ≡ true
    → is_field ip ≡ true
    → is_field port ≡ true
    → length ip ≤ 15
    → length port ≤ 5
    → sys.inet_pton ip ≡ some sin_addr
    → sys.strtol port ≡ (sin_port, [])
    → IsValidAp w.cacheapp
    → HasPasswd sys w.cacheapp (c_string name) (c_string passwd)
    → payload w.cli.incoming
      ≡ 1
        ∷ length (redirected name ip port)
        ∷ (redirected name ip port ++ (length passwd ∷ (passwd ++ rest)))
    → (es : List ReadEvent) × (c : CacheAp) × (authenticate sys 2 w
        ≡ ok tt (record w {
          cacheapp = c;
          client = record w.client {
            user = name;
            passwd = passwd;
            srv_addr = sin_addr;
            srv_port = sin_port % 2 ^ 16;
          };
          cli = wrote (1 ∷ 0 ∷ []) ws (reading es w.cli);
        }))
      × IsValidAp c
      × (payload es ≡ rest)
unfolding authenticate
authenticate-Takes sys w name ip port passwd rest sin_addr sin_port ws rcv snd taken fn fi fp s1 s2
      pton tol valid has eq =
    let (es, run, left) =
      readauth-Takes w (redirected name ip port) passwd rest ws rcv snd taken eq in
    let w1 : World = record w {
      client = record w.client { user = redirected name ip port; passwd = passwd };
      cli = wrote (1 ∷ 0 ∷ []) ws (reading es w.cli);
    } in
    let strip =
      strip_redirectaddr_lem sys w1 name ip port sin_addr sin_port fn fi fp s1 s2 refl pton tol in
    let w2 : World = record w1 {
      client = record w1.client { user = name; srv_addr = sin_addr; srv_port = sin_port % 2 ^ 16 };
    } in
    let (c, accepted, kept) = doauth-HasPasswd sys w2 valid has in
    (es, c, rw (run, strip, accepted) refl, kept, left)

-- A request to bind or for UDP, with an IPv4 or IPv6 address and in whatever chunks, ends with status 7
-- once it is read: no proxy is contacted and nothing is sent to the client.
serve-not_implemented :
    (sys : System) (negotiate : M ℕ) (w : World) (v6 : Bool) (cmd reserved : ℕ)
    (addr port rest : List ℕ)
    → (ltb cmd 2 || ltb 3 cmd) ≡ false
    → w.cli.rcvtimeo ≡ true
    → length addr ≡ sock_addr_len (ip_family v6)
    → length port ≡ 2
    → payload w.cli.incoming
      ≡ 5 ∷ cmd ∷ reserved ∷ atyp_of (ip_family v6) ∷ (addr ++ (port ++ rest))
    → (es : List ReadEvent) × (serve sys negotiate w
        ≡ ret 7 (record (from_client es w) {
          client = record w.client { cmd = cmd; request = sockaddr v6 addr port };
        }))
unfolding serve
serve-not_implemented sys negotiate w v6 cmd reserved addr port rest two_or_three rcv size two eq =
    let known : (ltb cmd 1 || ltb 3 cmd) ≡ false = ground (arith, two_or_three) in
    let other : (cmd == 1) ≡ false = ground (arith, two_or_three) in
    let (es, run, left) =
      readrequest-stores sys w v6 cmd reserved addr port rest known rcv size two eq in
    (es, rw (run, other) refl)

-- A client whose first byte is not 5 ends the run with status 1, and the run closes the client's
-- descriptor and descriptor 0.
socks5_run-version :
    (sys : System) (negotiate : M ℕ) (clientfd version : ℕ) (rest : List ℕ) (w : World)
    → w.cli.rcvtimeo ≡ true
    → version ≢ 5
    → payload w.cli.incoming ≡ version ∷ rest
    → (w' : World) × (socks5_run sys negotiate true clientfd w
        ≡ finished (some 1) (fd clientfd ∷ fd 0 ∷ []) w')
unfolding socks5_run run_body socks5_choosemethod
socks5_run-version sys negotiate clientfd version rest w rcv ne eq =
    let w1 : World = record w { client = new_client clientfd } in
    let (es, run, left) = recv_byte-payload client_side 1 version rest w1 rcv eq in
    let bad : (version == 5) ≡ false = ground (arith, ne) in (from_client es w1, rw (run, bad) refl)
