-- ===== src/Cache/Ip.antt =====
-- `struct cache_ip` of cache.c: proxy credentials by IPv4 address. Every function runs under the
-- cache's mutex from its first statement to its last, so a call is one step. A string is its bytes
-- before the terminator. `map_malloc` says whether `malloc` gives `c->map` so many bytes. The code does
-- not test what `strdup` returns, which is taken to be given its memory: a null string in a slot or from
-- a lookup is not modelled.
pub mod Laws
use silksocks.Base.{
  ℕ, zero, suc, ◌*◌, ◌^◌, ◌%◌, Bool, Option, none, some, List, [], if◌then◌else◌, and_then,
}
use silksocks.Cache.Hash.{hash32}
use silksocks.Cache.Table.{Cache, cache_init, insert, fetch, resize, make_room}

-- the value part of `struct ip2creds`, whose key is `ipkey`
pub record Creds : Type 0 where
  pub user : List ℕ
  pub passwd : List ℕ

abbrev pub no_creds : Creds
no_creds = record { user = []; passwd = [] }

abbrev pub sizeof_ip2creds : ℕ
sizeof_ip2creds = 24

abbrev pub CacheIp : Type 0
CacheIp = Cache Creds

module _ (map_malloc : ℕ → Bool) where
  unfoldable pub cache_initip : ℕ → Option CacheIp
  unfolding cache_init
  cache_initip initsize = cache_init no_creds map_malloc sizeof_ip2creds initsize

  -- `putip` is the call of `cache_putip` that moves an entry over.
  unfoldable pub cache_resizeip :
      (putip : CacheIp → ℕ → Creds → Option CacheIp) → CacheIp → ℕ → Option (Bool × CacheIp)
  unfolding resize
  cache_resizeip putip c newsize = resize no_creds map_malloc sizeof_ip2creds putip c newsize

  -- `cache_putip` and `cache_resizeip` call each other; `depth` bounds how deep. The result is
  -- `none` when the calls go deeper, or a loop does not end.
  unfoldable pub cache_putip : (depth : ℕ) → CacheIp → ℕ → Creds → Option CacheIp
  unfolding make_room cache_resizeip insert
  cache_putip zero c key creds = none
  cache_putip (suc depth) c key creds =
      and_then (make_room (cache_resizeip (cache_putip depth)) c)
        (λ r. if r.0 then insert no_creds hash32 r.1 key creds else some r.1)

-- The outer option is `none` when the loop does not end; the inner one is the result 0.
unfoldable pub cache_getip : CacheIp → ℕ → Option (Option Creds)
unfolding fetch
cache_getip c key = fetch no_creds hash32 c key
