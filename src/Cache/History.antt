-- ===== src/Cache/History.antt =====
-- A cache against the history of its `put` calls.
use silksocks.Base.{
  ℕ, ◌+◌, ◌*◌, ◌^◌, ◌<◌, ◌≤◌, ◌≡◌, refl, Option, none, some, List, [], ◌∷◌, arith, ◌==◌, ◌&&◌, not,
  if◌then◌else◌, and_then, length,
}
use silksocks.Cache.Table.{Cache, fetch}
use silksocks.Cache.Insert.{IsValid}
use silksocks.Cache.Grow.{Stored}

-- `put` for each entry in turn
unfoldable pub put_all : {K V C : Type 0} → (C → K → V → Option C) → List (K × V) → C → Option C
put_all put [] c = some c
put_all put ((k, v) ∷ puts) c = and_then (put c k v) (λ c'. put_all put puts c')

-- The value of the last entry with the key `j`; the key 0 keeps none.
abbrev pub recall : {K V : Type 0} → (K → ℕ) → ℕ → List (K × V) → Option V
recall key j [] = none
recall key j ((k, v) ∷ puts) = elim (recall key j puts) [
  | some w ↦ some w
  | none ↦ if (j == key k) && not (key k == 0) then some v else none
]

module _ {K V : Type 0} (zeroed : V) (hash : ℕ → ℕ) (key : K → ℕ)
    (put : Cache V → K → V → Option (Cache V))
    (stores : (c : Cache V) (k : K) (v : V)
      → IsValid zeroed hash c
      → c.size < 2 ^ 31
      → (c' : Cache V) × (put c k v ≡ some c') × Stored zeroed hash c (key k) v c') where
  -- Every lookup after the calls is the last value put, or the lookup before them.
  pub put_all-recall :
      (puts : List (K × V)) (c : Cache V) (top : ℕ)
      → IsValid zeroed hash c
      → top < 2 ^ 31
      → c.size ≤ top
      → 4 * (c.elements + length puts) + 2 ≤ top
      → (c' : Cache V) × (put_all put puts c ≡ some c')
        × IsValid zeroed hash c'
        × ((j : ℕ)
            → fetch zeroed hash c' j
              ≡ elim (recall key j puts) [ some v ↦ some (some v) | none ↦ fetch zeroed hash c j ])
  unfolding put_all
  put_all-recall [] c top valid bound small room = (c, refl, valid, λ j. refl)
  put_all-recall ((k, v) ∷ puts) c top valid bound small room =
      let (c₁, one, s) = stores c k v valid (omega arith) in
      let (c', run, valid', reads) =
        put_all-recall puts c₁ top s.valid bound (omega (arith, s.fits))
          (omega (arith, s.elements)) in
      (c', rw one run, valid', λ j. ground (arith, reads j, s.reads j))
