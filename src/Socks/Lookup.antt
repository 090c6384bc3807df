-- ===== src/Socks/Lookup.antt =====
-- The first lookup of a password or of a proxy's login: the database is asked, and the cache keeps it.
use silksocks.Base.{
  ℕ, ◌*◌, ◌/◌, ◌^◌, ◌<◌, ◌≡◌, ◌≢◌, ◌⊎◌, inl, inr, refl, ◌∙◌, true, false, none, some, List, ◌==◌,
  ==_refl, arith,
}
use silksocks.Cache.Hash.{hash_str}
use silksocks.Cache.Ip.{Creds, CacheIp, sizeof_ip2creds, cache_getip}
use silksocks.Cache.Ip.Laws.{IsValidIp, cache_putip_stores}
use silksocks.Cache.App.{CacheAp, sizeof_app2passwd, cache_getapp}
use silksocks.Cache.App.Laws.{IsValidAp, cache_putapp_stores}
use silksocks.Db.{sqlget_apppasswd, sqlget_proxycreds}
use silksocks.Socks.World.{World, System, ok}
use silksocks.Socks.Handshake.{app_passwd}
use silksocks.Socks.Upstream.{ntohl, proxy_creds}

-- the world with another cache of passwords
abbrev pub with_apps : CacheAp → World → World
with_apps c w = record w { cacheapp = c }

abbrev pub with_proxies : CacheIp → World → World
with_proxies c w = record w { cacheip = c }

abbrev pub with_port : ℕ → World → World
with_port port w = record w { client = record w.client { srv_port = port } }

-- the cache has this password for the name; or it has none and the database does, and the cache has room
-- or is given memory (with fewer than 2 ^ 31 slots)
abbrev pub HasPasswd : System → CacheAp → (user passwd : List ℕ) → Type 0
HasPasswd sys c user passwd =
    (cache_getapp c user ≡ some (some passwd))
    ⊎ ((c.size < 2 ^ 31)
        × ((c.elements < c.size / 2) ⊎ (sys.map_malloc (c.size * 2 * sizeof_app2passwd) ≡ true))
        × (cache_getapp c user ≡ some none)
        × (sqlget_apppasswd sys.db user ≡ some passwd))

pub app_passwd-HasPasswd :
    (sys : System) (w : World) (user passwd : List ℕ)
    → IsValidAp w.cacheapp
    → HasPasswd sys w.cacheapp user passwd
    → (c : CacheAp) × (app_passwd sys user w ≡ ok passwd (with_apps c w)) × IsValidAp c
unfolding app_passwd
app_passwd-HasPasswd sys w user passwd valid (inl hit) = (w.cacheapp, rw hit refl, valid)
app_passwd-HasPasswd sys w user passwd valid (inr (bound, room, miss, row)) =
    let (c, put, kept, reads) =
      cache_putapp_stores sys.map_malloc w.cacheapp user passwd valid bound room in
    (c, rw (miss, row, put) refl, kept)

-- the same for the credentials of the proxy at an address and a port
abbrev pub HasCreds : System → CacheIp → (ip port : ℕ) → Creds → Type 0
HasCreds sys c ip port creds =
    (cache_getip c ip ≡ some (some creds))
    ⊎ ((c.size < 2 ^ 31)
        × ((c.elements < c.size / 2) ⊎ (sys.map_malloc (c.size * 2 * sizeof_ip2creds) ≡ true))
        × (cache_getip c ip ≡ some none)
        × (sqlget_proxycreds sys.db ip port 1 ≡ some (creds.user, creds.passwd)))

pub proxy_creds-HasCreds :
    (sys : System) (w : World) (creds : Creds)
    → IsValidIp w.cacheip
    → HasCreds sys w.cacheip (ntohl w.client.srv_addr) w.client.srv_port creds
    → (c : CacheIp) × (proxy_creds sys w ≡ ok creds (with_proxies c w)) × IsValidIp c
unfolding proxy_creds
proxy_creds-HasCreds sys w creds valid (inl hit) = (w.cacheip, rw hit refl, valid)
proxy_creds-HasCreds sys w creds valid (inr (bound, room, miss, row)) =
    let (c, put, kept, reads) =
      cache_putip_stores sys.map_malloc 0 w.cacheip (ntohl w.client.srv_addr) creds valid bound
        room in
    (c, rw (miss, row, put) refl, kept)

-- When a valid cache has no password for a name, the database has one, and the cache has room or is
-- given memory (with fewer than 2 ^ 31 slots), `app_passwd` gives the database's password and leaves a
-- valid cache. The next call for this name, if no other call comes between them, gives that password
-- from the cache, whatever any database says then, if the name's hash is not 0.
pub app_passwd-app_passwd :
    (sys later : System) (w : World) (user passwd : List ℕ)
    → IsValidAp w.cacheapp
    → w.cacheapp.size < 2 ^ 31
    → (w.cacheapp.elements < w.cacheapp.size / 2)
      ⊎ (sys.map_malloc (w.cacheapp.size * 2 * sizeof_app2passwd) ≡ true)
    → cache_getapp w.cacheapp user ≡ some none
    → sqlget_apppasswd sys.db user ≡ some passwd
    → hash_str user ≢ 0
    → (c : CacheAp) × (app_passwd sys user w ≡ ok passwd (with_apps c w))
      × IsValidAp c
      × (app_passwd later user (with_apps c w) ≡ ok passwd (with_apps c w))
unfolding app_passwd
app_passwd-app_passwd sys later w user passwd valid bound room miss row keyed =
    let (c, put, kept, reads) =
      cache_putapp_stores sys.map_malloc w.cacheapp user passwd valid bound room in
    let here : (hash_str user == hash_str user) ≡ true = ==_refl (hash_str user) in
    let counts : (hash_str user == 0) ≡ false = ground (arith, keyed) in
    let found : cache_getapp c user ≡ some (some passwd) = reads user ∙ rw (here, counts) refl in
    (c, rw (miss, row, put) refl, kept, rw found refl)

-- When a valid cache has no credentials for a proxy's address, which is not 0.0.0.0, the database has
-- some for the address and the port, and the cache has room or is given memory (with fewer than 2 ^ 31
-- slots), `proxy_creds` gives the database's and leaves a valid cache. The next call for this address
-- with any port, if no other call comes between them, gives the same from the cache, whatever any
-- database says.
pub proxy_creds-proxy_creds :
    (sys later : System) (w : World) (user passwd : List ℕ) (any_port : ℕ)
    → IsValidIp w.cacheip
    → w.cacheip.size < 2 ^ 31
    → (w.cacheip.elements < w.cacheip.size / 2)
      ⊎ (sys.map_malloc (w.cacheip.size * 2 * sizeof_ip2creds) ≡ true)
    → cache_getip w.cacheip (ntohl w.client.srv_addr) ≡ some none
    → sqlget_proxycreds sys.db (ntohl w.client.srv_addr) w.client.srv_port 1 ≡ some (user, passwd)
    → ntohl w.client.srv_addr ≢ 0
    → (c : CacheIp) × (proxy_creds sys w
        ≡ ok (record { user = user; passwd = passwd }) (with_proxies c w))
      × IsValidIp c
      × (proxy_creds later (with_proxies c (with_port any_port w))
          ≡ ok (record { user = user; passwd = passwd }) (with_proxies c (with_port any_port w)))
unfolding proxy_creds
proxy_creds-proxy_creds sys later w user passwd any_port valid bound room miss row keyed =
    let creds : Creds = record { user = user; passwd = passwd } in
    let ip : ℕ = ntohl w.client.srv_addr in
    let (c, put, kept, reads) =
      cache_putip_stores sys.map_malloc 0 w.cacheip ip creds valid bound room in
    let here : (ip == ip) ≡ true = ==_refl ip in
    let counts : (ip == 0) ≡ false = ground (arith, keyed) in
    let found : cache_getip c ip ≡ some (some creds) = reads ip ∙ rw (here, counts) refl in
    (c, rw (miss, row, put) refl, kept, rw found refl)
