-- ===== src/Cache/Ends.antt =====
-- The functions of cache.c end on a valid cache, whatever memory is given.
use silksocks.Base.{
  refl, true, ◌&&◌, not, ℕ, ◌*◌, ◌/◌, ◌^◌, ◌<◌, ◌≡◌, ◌+◌, ◌⊎◌, inl, inr, Bool, false, Option, some,
  List, arith, leb, ◌==◌, if◌then◌else◌, none, ◌≤◌, Bool-cases,
}
use silksocks.Cache.Hash.{hash32, hash_str}
use silksocks.Cache.Table.{Cache, slot, fetch}
use silksocks.Cache.Insert.{IsValid, probe-total, fetch_at}
use silksocks.Cache.Grow.{make_room-refused}
use silksocks.Cache.Ip.{Creds, no_creds, sizeof_ip2creds, CacheIp, cache_putip, cache_getip}
use silksocks.Cache.Ip.Laws.{IsValidIp, put-Stored_ip, cache_putip_refused}
use silksocks.Cache.App.{
  no_passwd, sizeof_app2passwd, CacheAp, same, cache_putapp_hash, cache_putapp, cache_getapp,
}
use silksocks.Cache.App.Laws.{IsValidAp, put-Stored_app}

fetch_ends :
    {V : Type 0} (zeroed : V) (hash : ℕ → ℕ) (c : Cache V) (key : ℕ)
    → IsValid zeroed hash c
    → (r : Option V) × (fetch zeroed hash c key ≡ some r)
fetch_ends zeroed hash c key valid =
    let (p, found, lt, at) = probe-total zeroed hash c key valid in
    (
      (if (slot zeroed c p).key == 0 then none else some (slot zeroed c p).value),
      fetch_at zeroed hash c key p found,
    )

pub cache_getip_ends :
    (c : CacheIp) (key : ℕ) → IsValidIp c → (r : Option Creds) × (cache_getip c key ≡ some r)
unfolding cache_getip
cache_getip_ends c key valid = fetch_ends no_creds hash32 c key valid

pub cache_getapp_ends :
    (c : CacheAp) (app : List ℕ)
    → IsValidAp c
    → (r : Option (List ℕ)) × (cache_getapp c app ≡ some r)
unfolding cache_getapp
cache_getapp_ends c app valid = fetch_ends no_passwd same c (hash_str app) valid

-- a cache of so many elements at most, and of four slots for each of them and two more
abbrev pub InBudget : {V : Type 0} → ℕ → Cache V → Type 0
InBudget n c = (c.elements ≤ n) × (c.size ≤ 4 * n + 2)

-- after one more entry, or none: as large as it was, or four slots for each entry
abbrev pub Fits : {V : Type 0} → Cache V → Cache V → Type 0
Fits c c' = (c'.elements ≤ c.elements + 1) × ((c'.size ≤ c.size) ⊎ (c'.size ≤ 4 * c.elements + 2))

-- a lookup after a write gives what was written, or what it gave before
old_or_new :
    {V : Type 0} (v : V) (b : Bool) {r r' : Option (Option V)}
    → r' ≡ (if b then some (some v) else r)
    → (r' ≡ some (some v)) ⊎ (r' ≡ r)
old_or_new v true e = inl e
old_or_new v false e = inr e

module _ (map_malloc : ℕ → Bool) where
  cache_putapp_refused :
      (c : CacheAp) (app passwd : List ℕ)
      → IsValidAp c
      → c.size < 2 ^ 31
      → c.size / 2 ≤ c.elements
      → map_malloc (c.size * 2 * sizeof_app2passwd) ≡ false
      → cache_putapp map_malloc c app passwd ≡ some c
  unfolding cache_putapp
  cache_putapp_refused c app passwd valid bound full refused = rw (
      make_room-refused no_passwd same map_malloc sizeof_app2passwd c valid (omega arith)
        (omega (arith, bound)) bound cache_putapp_hash full refused)

  pub cache_putip_ends :
      (c : CacheIp) (key : ℕ) (creds : Creds)
      → IsValidIp c
      → c.size < 2 ^ 31
      → (c' : CacheIp) × (cache_putip map_malloc 2 c key creds ≡ some c')
        × IsValidIp c'
        × Fits c c'
        × ((j : ℕ) → (cache_getip c' j ≡ some (some creds)) ⊎ (cache_getip c' j ≡ cache_getip c j))
  unfolding cache_getip
  cache_putip_ends c key creds valid bound = elim (Bool-cases (leb (c.size / 2) c.elements)) [
    | inr roomy ↦
        let (c', run, s) =
          put-Stored_ip map_malloc 0 c key creds valid bound (inl (ground arith)) in
        (
          c',
          run,
          s.valid,
          (s.elements, s.fits),
          λ j. old_or_new creds ((j == key) && not (key == 0)) (s.reads j),
        )
    | inl full ↦ elim (Bool-cases (map_malloc (c.size * 2 * sizeof_ip2creds))) [
      | inl given ↦
          let (c', run, s) = put-Stored_ip map_malloc 0 c key creds valid bound (inr given) in
          (
            c',
            run,
            s.valid,
            (s.elements, s.fits),
            λ j. old_or_new creds ((j == key) && not (key == 0)) (s.reads j),
          )
      | inr refused ↦ (
        c,
        cache_putip_refused map_malloc 1 c key creds valid bound (ground arith) refused,
        valid,
        (omega arith, inl (omega arith)),
        λ j. inr refl,
      )
    ]
  ]

  pub cache_putapp_ends :
      (c : CacheAp) (app passwd : List ℕ)
      → IsValidAp c
      → c.size < 2 ^ 31
      → (c' : CacheAp) × (cache_putapp map_malloc c app passwd ≡ some c') × IsValidAp c' × Fits c c'
  cache_putapp_ends c app passwd valid bound = elim (Bool-cases (leb (c.size / 2) c.elements)) [
    | inr roomy ↦
        let (c', run, s) =
          put-Stored_app map_malloc c app passwd valid bound (inl (ground arith)) in
        (c', run, s.valid, (s.elements, s.fits))
    | inl full ↦ elim (Bool-cases (map_malloc (c.size * 2 * sizeof_app2passwd))) [
      | inl given ↦
          let (c', run, s) = put-Stored_app map_malloc c app passwd valid bound (inr given) in
          (c', run, s.valid, (s.elements, s.fits))
      | inr refused ↦ (
        c,
        cache_putapp_refused c app passwd valid bound (ground arith) refused,
        valid,
        (omega arith, inl (omega arith)),
      )
    ]
  ]
