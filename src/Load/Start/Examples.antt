-- ===== src/Load/Start/Examples.antt =====
-- A load generator with the proxies 10.0.0.2 and 10.0.0.3.
use silksocks.Base.{ℕ, zero, suc, ◌-◌, ◌≡◌, refl, true, ℤ, pos, some, List, [], ◌∷◌, arith}
use silksocks.UrlQueue.Examples.{give, gives}
use silksocks.Href.Examples.{letters, letters_promised}
use silksocks.Load.Laws.{unlines, entries}
use silksocks.Load.Fire.{done, other, Round, curl_multi_fire}
use silksocks.Load.Fire.Laws.{IsAnswer}
use silksocks.Load.Fire.Rounds.{IsFiring}
use silksocks.Load.Start.{starts, max_threads, load_main}
use silksocks.Load.Start.Laws.{load_main-IsFiring}

abbrev first : List ℕ
first = 49 ∷ 48 ∷ 46 ∷ 48 ∷ 46 ∷ 48 ∷ 46 ∷ 50 ∷ []

abbrev second : List ℕ
second = 49 ∷ 48 ∷ 46 ∷ 48 ∷ 46 ∷ 48 ∷ 46 ∷ 51 ∷ []

-- "4" is 4
abbrev digit : List ℕ → ℤ
digit [] = pos 0
digit (c ∷ s) = pos (c - 48)

-- the oldest transfer is done, and the others run; a page has come
abbrev answer : ℕ → Round
answer zero = record {
  chunks = [];
  running = 0;
  fdset = true;
  timeout = true;
  waits = true;
  messages = other ∷ [];
}
answer (suc n) = record {
  chunks = (97 ∷ 104 ∷ 98 ∷ 104 ∷ []) ∷ [];
  running = n;
  fdset = true;
  timeout = true;
  waits = true;
  messages = done 0 ∷ other ∷ [];
}

answer-IsAnswer : (n : ℕ) → IsAnswer n (answer n)
answer-IsAnswer zero = record {
  some_run = omega arith;
  reported = omega arith;
  there = tt;
  small = tt;
}
answer-IsAnswer (suc n) = record {
  some_run = omega arith;
  reported = omega arith;
  there = ((omega arith), tt);
  small = ((omega arith), tt);
}

load_main-IsFiring_example :
    (load_main digit (λ path. some (unlines (first ∷ second ∷ []))) ((52 ∷ []) ∷ (108 ∷ []) ∷ [])
      ≡ starts 1 4 (entries (first ∷ second ∷ [])))
    × IsFiring (97 ∷ 45 ∷ []) (entries (first ∷ second ∷ [])) 4 (
        curl_multi_fire
          (97 ∷ 45 ∷ [])
          (entries (first ∷ second ∷ []))
          give
          letters
          4
          0
          []
          (answer ∷ answer ∷ []))
unfolding max_threads
load_main-IsFiring_example =
    load_main-IsFiring digit (λ path. some (unlines (first ∷ second ∷ []))) (52 ∷ []) (108 ∷ []) []
      3 first (second ∷ []) (97 ∷ 45 ∷ []) give letters 0 [] (answer ∷ answer ∷ []) refl refl refl
      (omega arith) gives refl letters_promised (answer-IsAnswer, (answer-IsAnswer, tt))
