-- ===== src/Cache/Used.antt =====
-- How many slots of a map are in use.
use silksocks.Base.{
  ℕ, zero, suc, ◌+◌, ◌<◌, ◌≤◌, ◌≡◌, ◌≢◌, inl, inr, List, [], ◌∷◌, arith, ◌==◌, ==→eq, if◌then◌else◌,
  length, get_or, set, Bool-cases,
}
use silksocks.Cache.Table.{Slot}

module _ {V : Type 0} where
  -- the slots in use
  abbrev pub used : List (Slot V) → ℕ
  used [] = 0
  used (s ∷ slots) = (if s.key == 0 then 0 else 1) + used slots

  pub used-set-le : (xs : List (Slot V)) (i : ℕ) (s : Slot V) → used (set xs i s) ≤ used xs + 1
  used-set-le [] i s = omega arith
  used-set-le (x ∷ xs) zero s = ground arith
  used-set-le (x ∷ xs) (suc i) s = ground (arith, used-set-le xs i s)

  pub used-set-used :
      (xs : List (Slot V)) (i : ℕ) (s d : Slot V)
      → i < length xs
      → (get_or xs i d).key ≢ 0
      → used (set xs i s) ≤ used xs
  used-set-used [] i s d h nz = absurd (omega arith)
  used-set-used (x ∷ xs) zero s d h nz = ground arith
  used-set-used (x ∷ xs) (suc i) s d h nz = ground (arith, used-set-used xs i s d)

  -- fewer used slots than slots: there is a free one
  pub free_exists :
      (xs : List (Slot V)) (d : Slot V)
      → used xs < length xs
      → (e : ℕ) × (e < length xs) × ((get_or xs e d).key ≡ 0)
  free_exists [] d h = absurd (omega arith)
  free_exists (x ∷ xs) d h = elim (Bool-cases (x.key == 0)) [
    | inl z ↦ (0, omega arith, ==→eq _ _ z)
    | inr z ↦ let (e, lt, free) = free_exists xs d (ground arith) in (suc e, omega arith, free)
  ]
