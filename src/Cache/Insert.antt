-- ===== src/Cache/Insert.antt =====
-- The invariant of a cache, and what an insertion does to it and to every lookup.
use silksocks.Base.{
  ℕ, ◌+◌, ◌/◌, ◌%◌, ◌<◌, ◌≤◌, ◌≡◌, refl, ap, sym, ◌∙◌, ◌≢◌, ◌⊎◌, inl, inr, none, some, arith, ◌==◌,
  ==→eq, ==_refl, if◌then◌else◌, length, length-set, get_or-set, Bool-cases, Option-cases,
}
use silksocks.Cache.Table.{Slot, Cache, free_slot, slot, probe, store, home, insert, fetch}
use silksocks.Cache.Probe.{probe-ne-none, probe_found, probe-store, probe-store_own}
use native.Mathlib.Nat.{mod-lt}
use native.Mathlib.Decide.{ℕ_discrete}
use mathlib.Core.Path.{subst}
use silksocks.Cache.Used.{used, used-set-le, used-set-used, free_exists}

module _ {V : Type 0} (zeroed : V) (hash : ℕ → ℕ) where
  -- Every used slot is where the loop for its key ends, the map has `size` slots, and the counter
  -- is at least the number of used slots and at most half of them.
  pub record IsValid (c : Cache V) : Type 0 where
    pub width : length c.map ≡ c.size
    pub pos : 0 < c.size
    pub counted : used c.map ≤ c.elements
    pub half : c.elements ≤ c.size / 2
    pub placed :
        (i : ℕ)
        → i < c.size
        → (slot zeroed c i).key ≢ 0
        → probe zeroed c (slot zeroed c i).key c.size (home zeroed hash c (slot zeroed c i).key)
          ≡ some i

  -- In a valid cache the loop ends, at a free slot or at the key's own.
  pub probe-total :
      (c : Cache V) (key : ℕ)
      → IsValid c
      → (p : ℕ) × (probe zeroed c key c.size (home zeroed hash c key) ≡ some p)
        × (p < c.size)
        × (((slot zeroed c p).key ≡ 0) ⊎ ((slot zeroed c p).key ≡ key))
  probe-total c key v =
      let (e, lt, free) = free_exists c.map (free_slot zeroed) (omega arith) in
      let h = home zeroed hash c key in
      let hlt : h < c.size = mod-lt (hash key) v.pos in
      elim (Option-cases (probe zeroed c key c.size h)) [
        | inl stuck ↦ absurd (probe-ne-none zeroed c key h e hlt (omega arith) free stuck)
        | inr (p, found) ↦
            let (lt', at) = probe_found zeroed c key c.size h p hlt found in (p, found, lt', at)
      ]

  -- where the loop ends decides a lookup
  pub fetch_at :
      (d : Cache V) (j q : ℕ)
      → probe zeroed d j d.size (home zeroed hash d j) ≡ some q
      → fetch zeroed hash d j
        ≡ some (if (slot zeroed d q).key == 0 then none else some (slot zeroed d q).value)
  unfolding fetch
  fetch_at d j q e = rw e

  pub fetch_free :
      (d : Cache V) (j q : ℕ)
      → probe zeroed d j d.size (home zeroed hash d j) ≡ some q
      → (slot zeroed d q).key ≡ 0
      → fetch zeroed hash d j ≡ some none
  fetch_free d j q e free = fetch_at d j q e ∙ ground arith

  -- What an insertion of `v` under `key` leaves: a valid cache of the same size, at most one more
  -- element, and every lookup as before but that of `key`.
  pub record Inserted (c : Cache V) (key : ℕ) (v : V) (c' : Cache V) : Type 0 where
    pub valid : IsValid c'
    pub size : c'.size ≡ c.size
    pub elements : c'.elements ≤ c.elements + 1
    pub reads :
        (j : ℕ)
        → fetch zeroed hash c' j ≡ (if j == key then some (some v) else fetch zeroed hash c j)

  module _ (c : Cache V) (key : ℕ) (v : V) (p : ℕ) (valid : IsValid c)
      (room : c.elements < c.size / 2) (nz : key ≢ 0)
      (found : probe zeroed c key c.size (home zeroed hash c key) ≡ some p) (lt : p < c.size)
      (at : ((slot zeroed c p).key ≡ 0) ⊎ ((slot zeroed c p).key ≡ key)) where
    abbrev after : Cache V
    after = store zeroed c p key v

    slot-after :
        (i : ℕ)
        → slot zeroed after i
          ≡ (if p == i then record { key = key; value = v } else slot zeroed c i)
    unfolding store
    slot-after i = get_or-set c.map p i _ _ (omega (arith, valid.width))

    -- A loop for another key that ended elsewhere ends there still.
    kept :
        (j q : ℕ)
        → j ≢ key
        → q ≢ p
        → probe zeroed c j c.size (home zeroed hash c j) ≡ some q
        → probe zeroed after j c.size (home zeroed hash c j) ≡ some q
    kept j q ne off =
        probe-store zeroed c key j p q c.size (home zeroed hash c j) v (omega (arith, valid.width))
          at nz ne off

    own : probe zeroed after key c.size (home zeroed hash c key) ≡ some p
    own =
        probe-store_own zeroed c key p c.size (home zeroed hash c key) v
          (omega (arith, valid.width)) nz found

    -- An old slot other than `p` does not hold `key`.
    elsewhere : (i : ℕ) → i < c.size → p ≢ i → (slot zeroed c i).key ≢ key
    elsewhere i lt' ne same =
        let here = valid.placed i lt' (λ z. nz (sym same ∙ z)) in
        let e : some p ≡ some i =
          sym found ∙ subst (λ k. probe zeroed c k c.size (hash k % c.size) ≡ some i) same here in
        ne (cc)

    store-placed :
        (i : ℕ)
        → i < c.size
        → (slot zeroed after i).key ≢ 0
        → probe zeroed after
            (slot zeroed after i).key
            c.size
            (hash (slot zeroed after i).key % c.size)
          ≡ some i
    store-placed i lt' used' = elim (Bool-cases (p == i)) [
      | inl e ↦
          let same : (slot zeroed after i).key ≡ key = rw (slot-after i, e) in
          rw (same, ← ==→eq p i e) own
      | inr ne ↦
          let same : slot zeroed after i ≡ slot zeroed c i = rw (slot-after i, ne) in
          let off : p ≢ i = λ e. ground arith in
          rw (ap (λ (s : Slot V). s.key) same) (
            kept _ i (elsewhere i lt' off) (λ e. off (sym e))
              (valid.placed i lt' (λ z. used' (ap (λ (s : Slot V). s.key) same ∙ z))))
    ]

    store-IsValid : IsValid after
    unfolding store
    store-IsValid = record {
      width = length-set c.map p _ ∙ valid.width;
      pos = valid.pos;
      counted = ground (
        arith,
        valid.counted,
        used-set-le c.map p (record { key = key; value = v }),
        used-set-used c.map p (record { key = key; value = v }) (free_slot zeroed)
            (omega (arith, valid.width)),
      );
      half = ground (arith, valid.half);
      placed = store-placed;
    }

    Reads-own : fetch zeroed hash after key ≡ some (some v)
    unfolding store
    Reads-own = fetch_at after key p own ∙ ground (arith, slot-after p, ==_refl p)

    -- If the old loop for `j` ended at the free slot `p`, no slot holds `j`.
    absent :
        (j q : ℕ)
        → j ≢ key
        → j ≢ 0
        → q < c.size
        → probe zeroed c j c.size (home zeroed hash c j) ≡ some p
        → (slot zeroed after q).key ≢ j
    absent j q ne jz qlt old holds = elim (Bool-cases (p == q)) [
      | inl e ↦ ne (sym holds ∙ rw (slot-after q, e))
      | inr off ↦
          let same : (slot zeroed c q).key ≡ j = sym (rw (slot-after q, off)) ∙ holds in
          let here = valid.placed q qlt (λ z. jz (sym same ∙ z)) in
          let e : some p ≡ some q =
            sym old ∙ subst (λ k. probe zeroed c k c.size (hash k % c.size) ≡ some q) same here in
          ground arith
    ]

    -- a loop for another key ends at a slot that the write left alone
    Reads-other : (j : ℕ) → j ≢ key → fetch zeroed hash after j ≡ fetch zeroed hash c j
    unfolding store
    Reads-other j ne =
        let (q, old, qlt, qat) = probe-total c j valid in
        let (q', new, qlt', qat') = probe-total after j store-IsValid in
        elim (Bool-cases (p == q)) [
          | inr off ↦
              let same : slot zeroed after q ≡ slot zeroed c q = rw (slot-after q, off) in
              let new' = kept j q ne (λ e. ground arith) old in
              fetch_at after j q new' ∙ rw same (sym (fetch_at c j q old))
          | inl e ↦
              let e' : p ≡ q = ==→eq p q e in
              let free : (slot zeroed c q).key ≡ 0 = ground arith in
              let free' : (slot zeroed after q').key ≡ 0 = elim (ℕ_discrete j 0) [
                | yes z ↦ ground arith
                | no z ↦ elim qat' [
                  | inl f ↦ f
                  | inr f ↦ absurd (absent j q' ne z qlt' (rw e' old) f)
                ]
              ] in
              fetch_free after j q' new free' ∙ sym (fetch_free c j q old free)
        ]

  -- An insertion under a key other than 0 into a cache with room ends, and has that effect.
  pub insert-Inserted :
      (c : Cache V) (key : ℕ) (v : V)
      → IsValid c
      → c.elements < c.size / 2
      → key ≢ 0
      → (c' : Cache V) × (insert zeroed hash c key v ≡ some c') × Inserted c key v c'
  unfolding insert
  insert-Inserted c key v valid room nz =
      let (p, found, lt, at) = probe-total c key valid in
      (
        store zeroed c p key v,
        rw found,
        record {
          valid = store-IsValid c key v p valid room nz found lt at;
          size = unfold store in refl;
          elements = unfold store in ground arith;
          reads = λ j. elim (Bool-cases (j == key)) [
            | inl e ↦ rw (e, ==→eq j key e) (Reads-own c key v p valid room nz found lt at)
            | inr e ↦ rw e (Reads-other c key v p valid room nz found lt at j (λ z. ground arith))
          ];
        },
      )
