-- ===== src/Load/Examples.antt =====
-- A list of two proxies.
use silksocks.Base.{ℕ, ◌≡◌, refl, List, [], ◌∷◌}
use silksocks.Load.Laws.{entries}

-- "1.2" and "111111111111111"
abbrev proxies : List (List ℕ)
proxies =
    (49 ∷ 46 ∷ 50 ∷ [])
    ∷ (49 ∷ 49 ∷ 49 ∷ 49 ∷ 49 ∷ 49 ∷ 49 ∷ 49 ∷ 49 ∷ 49 ∷ 49 ∷ 49 ∷ 49 ∷ 49 ∷ 49 ∷ [])
    ∷ (50 ∷ [])
    ∷ []

with_empty :
    entries proxies
    ≡ (49 ∷ 46 ∷ 50 ∷ [])
      ∷ (49 ∷ 49 ∷ 49 ∷ 49 ∷ 49 ∷ 49 ∷ 49 ∷ 49 ∷ 49 ∷ 49 ∷ 49 ∷ 49 ∷ 49 ∷ 49 ∷ 49 ∷ [])
      ∷ []
      ∷ (50 ∷ [])
      ∷ []
with_empty = refl
