-- ===== src/Socks/WholeExamples.antt =====
-- The theorems on `socks5_connectproxy` and on a whole run at a concrete client and proxy.
use silksocks.Base.{
  ◌%◌, ◌^◌, ◌≡◌, refl, true, false, some, inl, inr, List, [], ◌∷◌, ◌++◌, arith, length, replicate,
}
use silksocks.Cache.App.{no_passwd, same, CacheAp, cache_getapp}
use silksocks.Cache.Hash.{hash_str, hash32}
use silksocks.Cache.Ip.{Creds, CacheIp, no_creds, cache_getip}
use silksocks.Cache.Ip.Laws.{IsValidIp}
use silksocks.Cache.App.Laws.{IsValidAp}
use silksocks.Cache.Rehash.{fresh-IsValid}
use silksocks.Db.{row, fetched, sqlget_apppasswd, sqlget_proxycreds}
use silksocks.Cache.Table.{fetch, probe}
use silksocks.ConnectNonb.{connected, connect_nonb, writable}
use silksocks.SilkIo.{ReadEvent, WriteEvent, takes, Socket}
use silksocks.SilkIo.Read.{payload}
use silksocks.Text.{c_string}
use silksocks.Socks.World.{inet, Sockaddr, fd, World, System, ok}
use silksocks.Socks.Upstream.{address_packet, socks5_connectproxy}
use silksocks.Socks.Redirect.{redirected}
use silksocks.HashTbl.{HashTable}
use silksocks.HashTbl.Valid.{IsValid}
use silksocks.HashTbl.Examples.{name, ip, table-IsValid}
use silksocks.Socks.Destination.{at_name, asked_for}
use silksocks.Socks.Connect.{greeting, login, at_proxy, socks5_connectproxy_lem}
use silksocks.Socks.Run.{relay, ran, new_client, socks5_run}
use silksocks.Socks.Served.{at_client, with_client, with_tables}
use silksocks.Socks.Whole.{socks5_run-relays}
use silksocks.Socks.Examples.{world, system, relayed}

-- "ab" and "cd"
abbrev creds : Creds
creds = record { user = 97 ∷ 98 ∷ []; passwd = 99 ∷ 100 ∷ [] }

-- the server's own address, as the proxy sees it
abbrev local : Sockaddr
local = record { family = inet; addr = 10 ∷ 0 ∷ 0 ∷ 9 ∷ []; port = 4 ∷ 56 ∷ [] }

-- with a database that has the credentials for the proxy
abbrev linked : System
linked = record system {
  db = record system.db {
    proxy = λ ip port status. record {
      alloc_handle = true;
      bind_col = λ n. true;
      bind_parameter = λ n. true;
      exec_direct = true;
      fetch = row (creds.user, creds.passwd);
    };
  };
  getsockname = λ f. some local;
  connect = record {
    getfl = true;
    setfl = true;
    connect = connected;
    waits = writable true false ∷ [];
    restore = true;
  };
}

abbrev wide : Socket → Socket
wide s = record s { accepts = takes 600 ∷ WriteEvent.eintr ∷ takes 511 ∷ takes 4000 ∷ [] }

-- a proxy that takes "ab" with "cd", and bytes behind its reply
abbrev proxied : World
proxied =
    let w =
      world
        (5
          ∷ 1
          ∷ 2
          ∷ 1
          ∷ 5
          ∷ (redirected (97 ∷ []) (49 ∷ []) (50 ∷ [])
              ++ (1 ∷ 112 ∷ 5 ∷ 1 ∷ 0 ∷ 1 ∷ 10 ∷ 0 ∷ 0 ∷ 2 ∷ 0 ∷ 80 ∷ 71 ∷ [])))
        (5 ∷ 2 ∷ 1 ∷ 0 ∷ 5 ∷ 0 ∷ 0 ∷ 1 ∷ 10 ∷ 0 ∷ 0 ∷ 1 ∷ 4 ∷ 56 ∷ 72 ∷ []) in
    record w {
      client = record w.client { srv_addr = 10 ∷ 0 ∷ 0 ∷ 1 ∷ [] };
      cli = wide w.cli;
      prx = wide w.prx;
    }

socks5_connectproxy_lem_example :
    (es : List ReadEvent) × (ws : List WriteEvent) × (c : CacheIp) × (socks5_connectproxy linked
        proxied
      ≡ ok tt (
          at_proxy es
            ((greeting ++ login creds) ++ address_packet 1 proxied.client.request)
            ws
            (record proxied { client = record proxied.client { proxyfd = fd 8 }; cacheip = c })))
    × IsValidIp c
    × (payload es ≡ 72 ∷ [])
unfolding cache_getip fetch probe hash32 connect_nonb replicate sqlget_proxycreds fetched
socks5_connectproxy_lem_example =
    socks5_connectproxy_lem linked proxied 8 creds false 0 (10 ∷ 0 ∷ 0 ∷ 1 ∷ 4 ∷ 56 ∷ []) (72 ∷ [])
      refl refl (fresh-IsValid no_creds hash32 4 (omega arith))
      (inr (omega arith, inl (omega arith), refl, refl)) (omega arith) (omega arith) refl refl refl
      refl refl

-- a client that asks for port 80 of a name, with a byte behind it
abbrev visitor : World
visitor =
    let w =
      world
        (5
          ∷ 1
          ∷ 2
          ∷ 1
          ∷ 5
          ∷ (redirected (97 ∷ []) (49 ∷ []) (50 ∷ [])
              ++ (1 ∷ 112 ∷ 5 ∷ 1 ∷ 0 ∷ 3 ∷ length name ∷ (name ++ (0 ∷ 80 ∷ 71 ∷ [])))))
        [] in
    record proxied { cli = wide w.cli }

-- the resolver knows the name
abbrev resolving : System
resolving = record linked {
  getaddrinfo = λ host family. some (record { family = inet; addr = ip; port = 0 ∷ 0 ∷ [] });
}

socks5_run-relays_example :
    (es es' : List ReadEvent) × (ws ws' : List WriteEvent) × (t : HashTable) × (a : CacheAp)
    × (c : CacheIp) × (socks5_run resolving relayed true 7 visitor
        ≡ ran (
            relay relayed (
              at_client es ((5 ∷ 2 ∷ []) ++ ((1 ∷ 0 ∷ []) ++ address_packet 0 local)) ws (
                at_proxy es'
                  ((greeting ++ login creds)
                    ++ address_packet 1 (asked_for (at_name name) ip (0 ∷ 80 ∷ [])))
                  ws'
                  (with_client
                    (record (new_client 7) {
                      user = 97 ∷ [];
                      passwd = 112 ∷ [];
                      srv_addr = 10 ∷ 0 ∷ 0 ∷ 1 ∷ [];
                      srv_port = 1080 % 2 ^ 16;
                      cmd = 1;
                      request = asked_for (at_name name) ip (0 ∷ 80 ∷ []);
                      proxyfd = fd 8;
                    })
                    (with_tables t a c visitor))))))
    × IsValid t
    × IsValidAp a
    × IsValidIp c
    × (payload es ≡ 71 ∷ [])
    × (payload es' ≡ 72 ∷ [])
unfolding cache_getip cache_getapp fetch probe hash32 hash_str c_string connect_nonb replicate
    sqlget_apppasswd sqlget_proxycreds fetched
socks5_run-relays_example =
    socks5_run-relays resolving relayed 7 visitor (2 ∷ []) (97 ∷ []) (49 ∷ []) (50 ∷ []) (112 ∷ [])
      (10 ∷ 0 ∷ 0 ∷ 1 ∷ []) 1080 (at_name name) 0 ip (0 ∷ 80 ∷ []) (71 ∷ []) 8 creds false 0
      (10 ∷ 0 ∷ 0 ∷ 1 ∷ 4 ∷ 56 ∷ []) (72 ∷ []) local refl refl refl refl refl refl refl
      (omega arith) (omega arith) refl refl (fresh-IsValid no_passwd same 4 (omega arith))
      (inr (omega arith, inl (omega arith), refl, refl)) table-IsValid
      (inr (refl, (0 ∷ 0 ∷ [], refl))) refl refl refl refl
      (fresh-IsValid no_creds hash32 4 (omega arith))
      (inr (omega arith, inl (omega arith), refl, refl)) (omega arith) (omega arith) refl refl refl
      refl refl refl
