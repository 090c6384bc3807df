-- ===== src/Socks/LookupExamples.antt =====
-- First lookups in empty caches.
use silksocks.Base.{◌≡◌, refl, inl, arith, true, false, [], ◌∷◌, replicate}
use silksocks.Cache.Hash.{hash_str, hash32}
use silksocks.Cache.Table.{fetch, probe}
use silksocks.Cache.Rehash.{fresh-IsValid}
use silksocks.Cache.Ip.{no_creds, CacheIp, cache_getip}
use silksocks.Cache.Ip.Laws.{IsValidIp}
use silksocks.Cache.App.{no_passwd, same, CacheAp, cache_getapp}
use silksocks.Cache.App.Laws.{IsValidAp}
use silksocks.Db.{row, fetched, sqlget_apppasswd, sqlget_proxycreds}
use silksocks.Socks.World.{World, System, ok}
use silksocks.Socks.Handshake.{app_passwd}
use silksocks.Socks.Upstream.{proxy_creds}
use silksocks.Socks.Lookup.{
  with_apps, with_proxies, with_port, app_passwd-app_passwd, proxy_creds-proxy_creds,
}
use silksocks.Socks.Examples.{world, system}

-- a system that later has lost its database
abbrev no_database : System
no_database = record system { db = record system.db { henv = false } }

-- the name "a"
app_passwd-app_passwd_example :
    (c : CacheAp) × (app_passwd system (97 ∷ []) (world [] [])
      ≡ ok (112 ∷ []) (with_apps c (world [] [])))
    × IsValidAp c
    × (app_passwd no_database (97 ∷ []) (with_apps c (world [] []))
        ≡ ok (112 ∷ []) (with_apps c (world [] [])))
unfolding cache_getapp fetch probe hash_str replicate sqlget_apppasswd fetched
app_passwd-app_passwd_example =
    app_passwd-app_passwd system no_database (world [] []) (97 ∷ []) (112 ∷ [])
      (fresh-IsValid no_passwd same 4 (omega arith)) (omega arith) (inl (omega arith)) refl refl
      (omega arith)

-- a database with "u" and "p" for 10.0.0.1
abbrev with_row : System
with_row = record system {
  db = record system.db {
    proxy = λ ip port status. record {
      alloc_handle = true;
      bind_col = λ n. true;
      bind_parameter = λ n. true;
      exec_direct = true;
      fetch = row (117 ∷ [], 112 ∷ []);
    };
  };
}

abbrev bound_for : World
bound_for =
    let w = world [] [] in
    record w { client = record w.client { srv_addr = 10 ∷ 0 ∷ 0 ∷ 1 ∷ []; srv_port = 1080 } }

proxy_creds-proxy_creds_example :
    (c : CacheIp) × (proxy_creds with_row bound_for
      ≡ ok (record { user = 117 ∷ []; passwd = 112 ∷ [] }) (with_proxies c bound_for))
    × IsValidIp c
    × (proxy_creds no_database (with_proxies c (with_port 1081 bound_for))
        ≡ ok
            (record { user = 117 ∷ []; passwd = 112 ∷ [] })
            (with_proxies c (with_port 1081 bound_for)))
unfolding cache_getip fetch probe hash32 replicate sqlget_proxycreds fetched
proxy_creds-proxy_creds_example =
    proxy_creds-proxy_creds with_row no_database bound_for (117 ∷ []) (112 ∷ []) 1081
      (fresh-IsValid no_creds hash32 4 (omega arith)) (omega arith) (inl (omega arith)) refl refl
      (omega arith)
