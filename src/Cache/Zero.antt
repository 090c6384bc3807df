-- ===== src/Cache/Zero.antt =====
-- An insertion under the key 0, which is also the mark of a free slot.
use silksocks.Base.{
  ℕ, ◌+◌, ◌/◌, ◌<◌, ◌≡◌, refl, ap, sym, ◌∙◌, some, List, [], ◌∷◌, zero, suc, arith, ◌==◌,
  if◌then◌else◌, get_or, set, get_or-set, length-set,
}
use silksocks.Cache.Table.{Slot, Cache, free_slot, slot, probe, store, insert, fetch}
use silksocks.Cache.Probe.{probe-store_zero}
use silksocks.Cache.Used.{used}
use silksocks.Cache.Insert.{IsValid, probe-total, fetch_at}

module _ {V : Type 0} where
  used-set_zero :
      (xs : List (Slot V)) (i : ℕ) (v : V) (d : Slot V)
      → (get_or xs i d).key ≡ 0
      → used (set xs i (record { key = 0; value = v })) ≡ used xs
  used-set_zero [] i v d e = refl
  used-set_zero (x ∷ xs) zero v d e = ground arith
  used-set_zero (x ∷ xs) (suc i) v d e = ground (arith, used-set_zero xs i v d e)

module _ {V : Type 0} (zeroed : V) (hash : ℕ → ℕ) (c : Cache V)
    (valid : IsValid zeroed hash c) where
  module _ (p : ℕ) (v : V) (lt : p < c.size) (free : (slot zeroed c p).key ≡ 0) where
    slot-store :
        (i : ℕ)
        → slot zeroed (store zeroed c p 0 v) i
          ≡ (if p == i then record { key = 0; value = v } else slot zeroed c i)
    unfolding store
    slot-store i = get_or-set c.map p i _ _ (omega (arith, valid.width))

    key-store : (i : ℕ) → (slot zeroed (store zeroed c p 0 v) i).key ≡ (slot zeroed c i).key
    key-store i = ground (arith, slot-store i, ap (λ k. (slot zeroed c k).key) {x = p} {y = i})

    probes : (j r id : ℕ) → probe zeroed (store zeroed c p 0 v) j r id ≡ probe zeroed c j r id
    probes j r id = probe-store_zero zeroed c j p r id v (omega (arith, valid.width)) free

    store-IsValid : c.elements < c.size / 2 → IsValid zeroed hash (store zeroed c p 0 v)
    unfolding store
    store-IsValid room = record {
      width = length-set c.map p _ ∙ valid.width;
      pos = valid.pos;
      counted = ground (arith, valid.counted, used-set_zero c.map p v (free_slot zeroed) free);
      half = ground (arith, valid.half);
      placed =
          λ i ilt held. rw (probes, key-store i) (valid.placed i ilt (λ z. held (key-store i ∙ z)));
    }

    fetch-store : (j : ℕ) → fetch zeroed hash (store zeroed c p 0 v) j ≡ fetch zeroed hash c j
    unfolding store
    fetch-store j =
        let (q, found, qlt, at) = probe-total zeroed hash c j valid in
        fetch_at zeroed hash (store zeroed c p 0 v) j q (probes j c.size _ ∙ found)
        ∙ ground (arith, slot-store q, free, ap (λ k. (slot zeroed c k).key) {x = p} {y = q})
        ∙ sym (fetch_at zeroed hash c j q found)

  -- It ends in a valid cache that counts one element more and finds nothing new.
  pub insert-zero :
      (v : V)
      → c.elements < c.size / 2
      → (c' : Cache V) × (insert zeroed hash c 0 v ≡ some c')
        × IsValid zeroed hash c'
        × (c'.elements ≡ c.elements + 1)
        × (c'.size ≡ c.size)
        × ((j : ℕ) → fetch zeroed hash c' j ≡ fetch zeroed hash c j)
  unfolding insert
  insert-zero v room =
      let (p, found, lt, at) = probe-total zeroed hash c 0 valid in
      let free : (slot zeroed c p).key ≡ 0 = ground arith in
      (
        store zeroed c p 0 v,
        rw found,
        store-IsValid p v lt free room,
        unfold store in ground arith,
        unfold store in refl,
        λ j. fetch-store p v lt free j,
      )
