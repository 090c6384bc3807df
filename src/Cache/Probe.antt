-- ===== src/Cache/Probe.antt =====
-- Linear probing: the loop ends, and where; what a write to a slot does to later loops.
use silksocks.Base.{
  ℕ, zero, suc, ◌+◌, ◌-◌, ◌%◌, ◌<◌, ◌≡◌, refl, ap, ◌∙◌, ◌≢◌, ◌⊎◌, none, some, arith, ==→eq, ==_refl,
  length, get_or-set,
}
use silksocks.Cache.Table.{Cache, free_slot, slot, probe, store}
use native.Mathlib.Nat.{mod-add-mod, mod-eq_of_lt, mod-lt, add-mod_right}
use native.Mathlib.Decide.{dec_lt}

module _ {V : Type 0} (zeroed : V) where
  -- A free slot that lies less than `rounds` steps ahead ends the loop.
  probe-ne-none_ahead :
      (c : Cache V) (key rounds d id : ℕ)
      → d < rounds
      → id < c.size
      → (slot zeroed c ((id + d) % c.size)).key ≡ 0
      → probe zeroed c key rounds id ≢ none
  unfolding probe
  probe-ne-none_ahead c key zero d id h lt free = absurd (omega arith)
  probe-ne-none_ahead c key (suc rounds) zero id h lt free =
      let e : (id + 0) % c.size ≡ id = mod-eq_of_lt (omega arith) ∙ omega arith in
      ground (arith, ap (λ i. (slot zeroed c i).key) e)
  probe-ne-none_ahead c key (suc rounds) (suc d) id h lt free =
      let e : ((id + 1) % c.size + d) % c.size ≡ (id + suc d) % c.size =
        mod-add-mod (id + 1) c.size d ∙ ap (λ k. k % c.size) (omega arith) in
      let ih =
        probe-ne-none_ahead c key rounds d ((id + 1) % c.size) (omega arith)
          (mod-lt (id + 1) (omega arith)) (ap (λ i. (slot zeroed c i).key) e ∙ free) in
      ground (arith, ih)

  -- A free slot anywhere ends the loop within as many rounds as there are slots.
  pub probe-ne-none :
      (c : Cache V) (key id e : ℕ)
      → id < c.size
      → e < c.size
      → (slot zeroed c e).key ≡ 0
      → probe zeroed c key c.size id ≢ none
  probe-ne-none c key id e lt le free = elim (dec_lt e id) [
    | no p ↦
        let q : (id + (e - id)) % c.size ≡ e =
          ap (λ k. k % c.size) (omega arith) ∙ mod-eq_of_lt le in
        probe-ne-none_ahead c key c.size (e - id) id (omega arith) lt
          (ap (λ i. (slot zeroed c i).key) q ∙ free)
    | yes p ↦
        let q : (id + (e + c.size - id)) % c.size ≡ e =
          ap (λ k. k % c.size) {x = id + (e + c.size - id)} {y = e + c.size} (omega arith)
          ∙ add-mod_right e c.size
          ∙ mod-eq_of_lt le in
        probe-ne-none_ahead c key c.size (e + c.size - id) id (omega arith) lt
          (ap (λ i. (slot zeroed c i).key) q ∙ free)
  ]

  -- Where the loop ends.
  pub probe_found :
      (c : Cache V) (key rounds id q : ℕ)
      → id < c.size
      → probe zeroed c key rounds id ≡ some q
      → (q < c.size) × (((slot zeroed c q).key ≡ 0) ⊎ ((slot zeroed c q).key ≡ key))
  unfolding probe
  probe_found c key zero id q lt h = absurd (ground arith)
  probe_found c key (suc rounds) id q lt h =
      ground (arith, probe_found c key rounds ((id + 1) % c.size) q, ==→eq (slot zeroed c id).key 0)

  -- After a write of `key` at a slot that is free or its own, a loop for another key ends where
  -- it ended, unless that was the slot.
  pub probe-store :
      (c : Cache V) (key j p q rounds id : ℕ) (v : V)
      → p < length c.map
      → ((slot zeroed c p).key ≡ 0) ⊎ ((slot zeroed c p).key ≡ key)
      → key ≢ 0
      → j ≢ key
      → q ≢ p
      → probe zeroed c j rounds id ≡ some q
      → probe zeroed (store zeroed c p key v) j rounds id ≡ some q
  unfolding probe store
  probe-store c key j p q zero id v lt at nz ne off h = h
  probe-store c key j p q (suc rounds) id v lt at nz ne off h = ground (
    arith,
    get_or-set c.map p id (record { key = key; value = v }) (free_slot zeroed) lt,
    probe-store c key j p q rounds ((id + 1) % c.size) v lt at nz ne off,
  )

  -- After the write, the loop for the key itself ends where it ended.
  pub probe-store_own :
      (c : Cache V) (key p rounds id : ℕ) (v : V)
      → p < length c.map
      → key ≢ 0
      → probe zeroed c key rounds id ≡ some p
      → probe zeroed (store zeroed c p key v) key rounds id ≡ some p
  unfolding probe store
  probe-store_own c key p zero id v lt nz h = h
  probe-store_own c key p (suc rounds) id v lt nz h = ground (
    arith,
    get_or-set c.map p id (record { key = key; value = v }) (free_slot zeroed) lt,
    ==_refl key,
    probe-store_own c key p rounds ((id + 1) % c.size) v lt nz,
  )

  -- A write of the key 0 to a free slot moves no loop.
  pub probe-store_zero :
      (c : Cache V) (j p rounds id : ℕ) (v : V)
      → p < length c.map
      → (slot zeroed c p).key ≡ 0
      → probe zeroed (store zeroed c p 0 v) j rounds id ≡ probe zeroed c j rounds id
  unfolding probe store
  probe-store_zero c j p zero id v lt free = refl
  probe-store_zero c j p (suc rounds) id v lt free = ground (
    arith,
    get_or-set c.map p id (record { key = 0; value = v }) (free_slot zeroed) lt,
    probe-store_zero c j p rounds ((id + 1) % c.size) v lt free,
  )
