-- ===== src/Cache/App.antt =====
-- `struct cache_ap` of cache.c: application passwords by the djb2 hash of the user's name. The
-- functions run under the mutex; `map_malloc`, strings and `strdup` are as in the cache of addresses.
pub mod Laws
use silksocks.Base.{ℕ, Bool, Option, some, List, [], if◌then◌else◌, and_then}
use silksocks.Cache.Hash.{hash_str}
use silksocks.Cache.Table.{Cache, cache_init, insert, fetch, resize, make_room}

abbrev pub no_passwd : List ℕ
no_passwd = []

abbrev pub sizeof_app2passwd : ℕ
sizeof_app2passwd = 16

abbrev pub CacheAp : Type 0
CacheAp = Cache (List ℕ)

-- `hash % c->size`: the key is the hash
abbrev pub same : ℕ → ℕ
same hash = hash

unfoldable pub cache_putapp_hash : CacheAp → ℕ → List ℕ → Option CacheAp
unfolding insert
cache_putapp_hash c hash passwd = insert no_passwd same c hash passwd

module _ (map_malloc : ℕ → Bool) where
  unfoldable pub cache_initapp : ℕ → Option CacheAp
  unfolding cache_init
  cache_initapp initsize = cache_init no_passwd map_malloc sizeof_app2passwd initsize

  unfoldable pub cache_resizeapp : CacheAp → ℕ → Option (Bool × CacheAp)
  unfolding resize cache_putapp_hash
  cache_resizeapp c newsize =
      resize no_passwd map_malloc sizeof_app2passwd cache_putapp_hash c newsize

  -- `none` when a loop does not end
  unfoldable pub cache_putapp : CacheAp → List ℕ → List ℕ → Option CacheAp
  unfolding make_room cache_resizeapp cache_putapp_hash hash_str
  cache_putapp c app passwd =
      and_then (make_room cache_resizeapp c)
        (λ r. if r.0 then cache_putapp_hash r.1 (hash_str app) passwd else some r.1)

-- The outer option is `none` when the loop does not end; the inner one is the result 0.
unfoldable pub cache_getapp : CacheAp → List ℕ → Option (Option (List ℕ))
unfolding fetch hash_str
cache_getapp c app = fetch no_passwd same c (hash_str app)
