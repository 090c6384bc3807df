-- ===== src/Log/Examples.antt =====
-- The log on concrete lines.
use silksocks.Base.{
  ℕ, ◌+◌, ◌≤◌, ◌≡◌, refl, ◌/◌, ◌%◌, true, false, List, [], ◌∷◌, ◌++◌, take, length,
}
use silksocks.Log.{err_doit, report, err_sys, stderr, exit}
use silksocks.Log.Laws.{error_part, err_doit_lem}

-- "no" and "why"
err_doit_lem_example :
    ((err_doit true true 3 (110 ∷ 111 ∷ []) (119 ∷ 104 ∷ 121 ∷ [])).1
      ≡ take 4095 ((110 ∷ 111 ∷ []) ++ error_part true (119 ∷ 104 ∷ 121 ∷ [])) ++ (10 ∷ []))
    × (length (err_doit true true 3 (110 ∷ 111 ∷ []) (119 ∷ 104 ∷ 121 ∷ [])).1 + 1 ≤ 4097)
err_doit_lem_example = err_doit_lem true true 3 (110 ∷ 111 ∷ []) (119 ∷ 104 ∷ 121 ∷ [])

fatal :
    report err_sys false (110 ∷ 111 ∷ []) (119 ∷ [])
    ≡ ((stderr, 110 ∷ 111 ∷ 58 ∷ 32 ∷ 119 ∷ 10 ∷ []), exit 1)
unfolding report err_doit
fatal = refl

-- the last two digits
abbrev two_digits : ℕ → List ℕ
two_digits n = (48 + n / 10 % 10) ∷ (48 + n % 10) ∷ []
