-- ===== src/Cache/Examples.antt =====
-- The theorems on cache.c at concrete caches, and runs of it.
use silksocks.Base.{ℕ, ◌≡◌, refl, Bool, true, false, some, List, [], ◌∷◌, arith, and_then}
use silksocks.Cache.Hash.{hash_str}
use silksocks.Cache.History.{put_all, recall}
use silksocks.Cache.Rehash.{fresh, fresh-IsValid}
use silksocks.Cache.Ip.{Creds, no_creds, CacheIp, cache_initip, cache_putip, cache_getip}
use silksocks.Cache.Ip.Laws.{cache_ip_refines}
use silksocks.Cache.App.{no_passwd, same, CacheAp, cache_initapp, cache_putapp, cache_getapp}
use silksocks.Cache.App.Laws.{cache_app_refines, cache_getapp_collides}

abbrev gives : ℕ → Bool
gives n = true

abbrev refuses : ℕ → Bool
refuses n = false

-- "ab" and "cd"
abbrev someone : Creds
someone = record { user = 97 ∷ 98 ∷ []; passwd = 99 ∷ 100 ∷ [] }

abbrev eight : CacheIp
eight = fresh no_creds 8

-- one slot, which the cache counts as full
abbrev single : CacheIp
single = fresh no_creds 1

abbrev eight_apps : CacheAp
eight_apps = fresh no_passwd 8

abbrev two_logins : List (ℕ × Creds)
two_logins = (167772161, someone) ∷ (167772162, no_creds) ∷ []

cache_ip_refines_example :
    (c' : CacheIp) × (and_then (cache_initip gives 1) (put_all (cache_putip gives 2) two_logins)
      ≡ some c')
    × ((j : ℕ) → cache_getip c' j ≡ some (recall (λ k. k) j two_logins))
cache_ip_refines_example =
    cache_ip_refines gives 1 two_logins (λ bytes. refl) (omega arith) (omega arith)

abbrev two_apps : List (List ℕ × List ℕ)
two_apps = (97 ∷ [], 98 ∷ []) ∷ (99 ∷ [], 100 ∷ []) ∷ []

cache_app_refines_example :
    (c' : CacheAp) × (and_then
        (cache_initapp gives 1)
        (put_all (λ c app passwd. cache_putapp gives c app passwd) two_apps)
      ≡ some c')
    × ((name : List ℕ) → cache_getapp c' name ≡ some (recall hash_str (hash_str name) two_apps))
cache_app_refines_example =
    cache_app_refines gives 1 two_apps (λ bytes. refl) (omega arith) (omega arith)

-- "ab" and "bA"
cache_getapp_collides_example :
    and_then
      (cache_putapp gives eight_apps (97 ∷ 98 ∷ []) (112 ∷ []))
      (λ c'. cache_getapp c' (98 ∷ 65 ∷ []))
    ≡ some (some (112 ∷ []))
cache_getapp_collides_example =
    cache_getapp_collides gives eight_apps [] [] 97 65 (112 ∷ [])
      (fresh-IsValid no_passwd same 8 (omega arith)) (omega arith) (omega arith) (omega arith)
      (omega arith) (unfold hash_str in ground arith)
