-- ===== src/Cache/App/Laws.antt =====
-- What `cache_putapp` does to a valid cache, and what users with one hash share.
use silksocks.Base.{
  ℕ, ◌+◌, ◌*◌, ◌/◌, ◌^◌, ◌<◌, ◌≡◌, refl, ◌≢◌, ◌∙◌, ◌⊎◌, inl, inr, List, ◌∷◌, ◌++◌, length, Bool,
  true, some, arith, ◌==◌, ==_refl, ◌&&◌, not, if◌then◌else◌, and_then,
}
use silksocks.Cache.Hash.{hash_str, hash_str_collision}
use silksocks.Cache.Insert.{IsValid}
use silksocks.Cache.Rehash.{fresh, fresh-IsValid, fetch-fresh}
use silksocks.Cache.Grow.{Stored, put-Stored, cache_init_given}
use silksocks.Cache.History.{put_all, recall, put_all-recall}
use silksocks.Cache.App.{
  no_passwd, sizeof_app2passwd, CacheAp, same, cache_initapp, cache_putapp_hash, cache_putapp,
  cache_getapp,
}

abbrev pub IsValidAp : CacheAp → Type 0
IsValidAp = IsValid no_passwd same

module _ (map_malloc : ℕ → Bool) where
  pub put-Stored_app :
      (c : CacheAp) (app passwd : List ℕ)
      → IsValidAp c
      → c.size < 2 ^ 31
      → (c.elements < c.size / 2) ⊎ (map_malloc (c.size * 2 * sizeof_app2passwd) ≡ true)
      → (c' : CacheAp) × (cache_putapp map_malloc c app passwd ≡ some c')
        × Stored no_passwd same c (hash_str app) passwd c'
  unfolding cache_putapp
  put-Stored_app c app passwd valid bound given =
      put-Stored no_passwd same map_malloc sizeof_app2passwd c valid (omega arith)
        (omega (arith, bound)) bound cache_putapp_hash (hash_str app) passwd (λ d k w v room. refl)
        given

  -- If the cache is valid, it has fewer than 2 ^ 31 slots, and it has room or memory is
  -- given for that table, `cache_putapp` ends. It leaves a valid cache that finds the password
  -- under every name with the hash of the given one, unless that hash is 0, and finds under every
  -- other name what it found before.
  pub cache_putapp_stores :
      (c : CacheAp) (app passwd : List ℕ)
      → IsValidAp c
      → c.size < 2 ^ 31
      → (c.elements < c.size / 2) ⊎ (map_malloc (c.size * 2 * sizeof_app2passwd) ≡ true)
      → (c' : CacheAp) × (cache_putapp map_malloc c app passwd ≡ some c')
        × IsValidAp c'
        × ((name : List ℕ)
            → cache_getapp c' name ≡ (
                if (hash_str name == hash_str app) && not (hash_str app == 0)
                then some (some passwd)
                else cache_getapp c name))
  unfolding cache_getapp
  cache_putapp_stores c app passwd valid bound given =
      let (c', run, s) = put-Stored_app c app passwd valid bound given in
      (c', run, s.valid, λ name. s.reads (hash_str name))

  -- With memory always given, a cache made by `cache_initapp` for `n` slots and then given any
  -- calls of `cache_putapp` (with fewer than 2 ^ 31 slots throughout) is a dictionary
  -- by the hash of a name: every call ends, and a lookup finds the password of the last call for a
  -- name with that hash, none if there was no such call or the hash is 0.
  pub cache_app_refines :
      (n : ℕ) (puts : List (List ℕ × List ℕ))
      → ((bytes : ℕ) → map_malloc bytes ≡ true)
      → 0 < n
      → n + 4 * length puts + 2 < 2 ^ 31
      → (c' : CacheAp) × (and_then
            (cache_initapp map_malloc n)
            (put_all (λ c app passwd. cache_putapp map_malloc c app passwd) puts)
          ≡ some c')
        × ((name : List ℕ) → cache_getapp c' name ≡ some (recall hash_str (hash_str name) puts))
  unfolding cache_getapp cache_initapp
  cache_app_refines n puts given pos bound =
      let (c', run, valid, reads) =
        put_all-recall no_passwd same hash_str
          (λ c app passwd. cache_putapp map_malloc c app passwd)
          (λ c app v valid b. put-Stored_app c app v valid b (inr (given _))) puts
          (fresh no_passwd n) (n + 4 * length puts + 2) (fresh-IsValid no_passwd same n pos) bound
          (omega arith) (omega arith) in
      (
        c',
        rw
            (cache_init_given no_passwd map_malloc sizeof_app2passwd n pos (omega arith)
              (omega arith) (given _))
            run,
        λ name.
            ground (arith, reads (hash_str name), fetch-fresh no_passwd same n (hash_str name) pos),
      )

  -- Two names that differ by one in a byte and by 33, the other way, in the next share an entry:
  -- after `cache_putapp` for the one, `cache_getapp` answers for the other with its password. The
  -- cache is valid with room, and the names' hash is not 0.
  pub cache_getapp_collides :
      (c : CacheAp) (xs ys : List ℕ) (a b : ℕ) (passwd : List ℕ)
      → IsValidAp c
      → c.size < 2 ^ 31
      → c.elements < c.size / 2
      → a ≢ 0
      → b ≢ 0
      → hash_str (xs ++ (a ∷ (b + 33) ∷ ys)) ≢ 0
      → and_then
          (cache_putapp map_malloc c (xs ++ (a ∷ (b + 33) ∷ ys)) passwd)
          (λ c'. cache_getapp c' (xs ++ ((a + 1) ∷ b ∷ ys)))
        ≡ some (some passwd)
  cache_getapp_collides c xs ys a b passwd valid bound room az bz nz =
      let (c', run, v', reads) =
        cache_putapp_stores c (xs ++ (a ∷ (b + 33) ∷ ys)) passwd valid bound (inl room) in
      let e = hash_str_collision xs ys a b az bz in
      rw run (reads _ ∙ ground (arith, ==_refl (hash_str (xs ++ (a ∷ (b + 33) ∷ ys)))))
