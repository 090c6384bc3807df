-- ===== src/Cache/Rehash.antt =====
-- A fresh cache, and the loop of the `resize` functions that moves every entry into one.
use silksocks.Base.{
  ℕ, zero, suc, ◌+◌, ◌/◌, ◌%◌, ◌<◌, ◌≤◌, ◌≡◌, refl, sym, ◌∙◌, ◌≢◌, inl, inr, Option, none, some,
  List, [], ◌∷◌, arith, ◌==◌, ==_refl, if◌then◌else◌, length, get_or, replicate, length-replicate,
  get_or-replicate, Bool-cases, Option-cases,
}
use silksocks.Cache.Table.{Slot, Cache, free_slot, slot, probe, insert, fetch, rehash}
use silksocks.Cache.Used.{used}
use silksocks.Cache.Insert.{IsValid, insert-Inserted, probe-total, fetch_at, fetch_free}
use mathlib.Core.Path.{subst}

module _ {V : Type 0} where
  -- the value of the last slot that holds `j`
  abbrev pub last_value : ℕ → List (Slot V) → Option V
  last_value j [] = none
  last_value j (s ∷ slots) = elim (last_value j slots) [
    | some v ↦ some v
    | none ↦ if s.key == j then some s.value else none
  ]

  used-replicate : (n : ℕ) (d : Slot V) → d.key ≡ 0 → used (replicate n d) ≡ 0
  unfolding replicate
  used-replicate zero d e = refl
  used-replicate (suc n) d e = ground (arith, used-replicate n d e)

  last_value_at :
      (j : ℕ) (slots : List (Slot V)) (d : Slot V) {v : V}
      → last_value j slots ≡ some v
      → (i : ℕ) × (i < length slots) × ((get_or slots i d).key ≡ j) × ((get_or slots i d).value ≡ v)
  last_value_at j [] d h = absurd (ground arith)
  last_value_at j (s ∷ slots) d h = elim (Option-cases (last_value j slots)) [
    | inl e ↦ (0, omega arith, ground (arith, e), ground (arith, e))
    | inr (w, e) ↦
        let (i, lt, key, value) = last_value_at j slots d e in
        (suc i, omega arith, key, ground arith)
  ]

  last_value-none :
      (j : ℕ) (slots : List (Slot V)) (d : Slot V) (i : ℕ)
      → last_value j slots ≡ none
      → i < length slots
      → (get_or slots i d).key ≢ j
  last_value-none j [] d i h lt = absurd (omega arith)
  last_value-none j (s ∷ slots) d zero h lt = λ e. ground (arith, ==_refl j)
  last_value-none j (s ∷ slots) d (suc i) h lt =
      last_value-none j slots d i (ground arith) (omega arith)

-- what `init` returns: all slots free
abbrev pub fresh : {V : Type 0} → V → ℕ → Cache V
fresh zeroed n = record { elements = 0; size = n; map = replicate n (free_slot zeroed) }

module _ {V : Type 0} (zeroed : V) (hash : ℕ → ℕ) where
  slot-fresh : (n i : ℕ) → (slot zeroed (fresh zeroed n) i).key ≡ 0
  slot-fresh n i = rw get_or-replicate

  -- A fresh cache of `n` slots is valid and holds nothing.
  pub fresh-IsValid : (n : ℕ) → 0 < n → IsValid zeroed hash (fresh zeroed n)
  fresh-IsValid n pos = record {
    width = length-replicate n _;
    pos = pos;
    counted = omega (arith, used-replicate n (free_slot zeroed) refl);
    half = omega arith;
    placed = λ i lt held. absurd (held (slot-fresh n i));
  }

  pub fetch-fresh : (n : ℕ) (j : ℕ) → 0 < n → fetch zeroed hash (fresh zeroed n) j ≡ some none
  fetch-fresh n j pos =
      let (q, found, lt, at) = probe-total zeroed hash (fresh zeroed n) j (fresh-IsValid n pos) in
      fetch_at zeroed hash (fresh zeroed n) j q found ∙ ground (arith, slot-fresh n q)

  -- What a cache holds is what its slots hold.
  pub fetch-last_value :
      (c : Cache V) (j : ℕ)
      → IsValid zeroed hash c
      → j ≢ 0
      → fetch zeroed hash c j ≡ some (last_value j c.map)
  fetch-last_value c j valid jz = elim (Option-cases (last_value j c.map)) [
    | inr (v, e) ↦
        let (i, lt, key, value) = last_value_at j c.map (free_slot zeroed) e in
        let here = valid.placed i (omega (arith, valid.width)) (λ z. jz (sym key ∙ z)) in
        let here' = subst (λ k. probe zeroed c k c.size (hash k % c.size) ≡ some i) key here in
        fetch_at zeroed hash c j i here' ∙ ground arith
    | inl e ↦
        let (q, found, lt, at) = probe-total zeroed hash c j valid in
        let free : (slot zeroed c q).key ≡ 0 = elim at [
          | inl f ↦ f
          | inr f ↦
              absurd (last_value-none j c.map (free_slot zeroed) q e (omega (arith, valid.width)) f)
        ] in
        fetch_free zeroed hash c j q found free ∙ rw e
  ]

  -- The entries go over one by one.
  pub record Rehashed (slots : List (Slot V)) (temp temp' : Cache V) : Type 0 where
    pub valid : IsValid zeroed hash temp'
    pub size : temp'.size ≡ temp.size
    pub elements : temp'.elements ≤ temp.elements + used slots
    pub reads :
        (j : ℕ)
        → j ≢ 0
        → fetch zeroed hash temp' j
          ≡ elim (last_value j slots) [ some v ↦ some (some v) | none ↦ fetch zeroed hash temp j ]

  -- The loop ends with room for all the entries. `put` is any function that inserts while fewer
  -- than half of the slots are counted.
  pub rehash-Rehashed :
      (put : Cache V → ℕ → V → Option (Cache V)) (slots : List (Slot V)) (temp : Cache V)
      → ((c : Cache V) (key : ℕ) (v : V)
          → IsValid zeroed hash c
          → c.elements < c.size / 2
          → put c key v ≡ insert zeroed hash c key v)
      → IsValid zeroed hash temp
      → temp.elements + used slots ≤ temp.size / 2
      → (temp' : Cache V) × (rehash put slots temp ≡ some temp') × Rehashed slots temp temp'
  unfolding rehash
  rehash-Rehashed put [] temp same valid room = (
    temp,
    refl,
    record { valid = valid; size = refl; elements = omega arith; reads = λ j nz. refl },
  )
  rehash-Rehashed put (s ∷ slots) temp same valid room = elim (Bool-cases (s.key == 0)) [
    | inl z ↦
        let (temp', run, r) = rehash-Rehashed put slots temp same valid (ground arith) in
        (
          temp',
          rw z run,
          record {
            valid = r.valid;
            size = r.size;
            elements = ground (arith, r.elements);
            reads = λ j nz. ground (arith, r.reads j nz);
          },
        )
    | inr nz ↦
        let (t, one, i) =
          insert-Inserted zeroed hash temp s.key s.value valid (ground arith) (λ e. ground arith) in
        let (temp', run, r) =
          rehash-Rehashed put slots t same i.valid (ground (arith, i.elements, i.size)) in
        (
          temp',
          rw (nz, same temp s.key s.value valid (ground arith), one) run,
          record {
            valid = r.valid;
            size = r.size ∙ i.size;
            elements = ground (arith, r.elements, i.elements);
            reads = λ j jz. ground (arith, r.reads j jz, i.reads j, ==_refl j);
          },
        )
  ]
