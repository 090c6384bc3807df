-- ===== src/Load/Start/Laws.antt =====
-- The load generator from its arguments to the rounds of its threads.
use silksocks.Base.{
  ℕ, suc, ◌<◌, ◌≤◌, ◌≡◌, refl, Bool, true, ℤ, pos, Option, none, some, List, [], ◌∷◌, ◌++◌, ◌==◌,
  length, length-append, arith, Bool-cases, inl, inr,
}
use silksocks.UrlQueue.{Heap, lookup}
use silksocks.Href.{Pcre}
use silksocks.Href.Laws.{IsMatch}
use silksocks.Load.{max_proxies}
use silksocks.Load.Laws.{unlines, all_addresses, entry, entries, load_proxies_lem}
use silksocks.Load.Fire.{Round, curl_multi_fire}
use silksocks.Load.Fire.Laws.{all_short, AllAnswers}
use silksocks.Load.Fire.Rounds.{IsFiring, curl_multi_fire-IsFiring}
use silksocks.Load.Start.{starts, max_threads, load_main}

all_short-append :
    (xs ys : List (List ℕ))
    → all_short xs ≡ true
    → all_short ys ≡ true
    → all_short (xs ++ ys) ≡ true
all_short-append [] ys h k = k
all_short-append (x ∷ xs) ys h k = ground (arith, all_short-append xs ys (ground (arith, h)) k)

entry-short : (l : List ℕ) → length l ≤ 15 → all_short (entry l) ≡ true
entry-short l h = elim (Bool-cases (length l == 15)) [
  | inl e ↦ rw e (ground arith)
  | inr e ↦ rw e (ground arith)
]

entries-short : (ls : List (List ℕ)) → all_addresses ls ≡ true → all_short (entries ls) ≡ true
entries-short [] h = refl
entries-short (l ∷ ls) h =
    all_short-append (entry l) (entries ls) (entry-short l (ground (arith, h)))
      (entries-short ls (ground (arith, h)))

entry-some : (l : List ℕ) → 0 < length (entry l)
entry-some l = elim (Bool-cases (length l == 15)) [
  | inl e ↦ rw e (omega arith)
  | inr e ↦ rw e (omega arith)
]

-- With a number of connections above 0 and a file of lines of up to 15 bytes each, at least one, none of
-- them zero and no more than there is room for, the load generator starts its threads: one, or as many
-- as a third operand says. The list has the lines, but for an empty entry behind each of 15 bytes. Each
-- thread, whatever libcurl answers within its promises, however many rounds it takes, and whatever pages
-- come, in pieces below 2 ^ 31 bytes, never crashes, keeps its queue a queue, has at most that number of
-- transfers, each with the login for an entry of the list, and ends its loop by the test only when no
-- transfer is left. (Memory is always given, and PCRE2 keeps its promises.)
pub load_main-IsFiring :
    (atoi : List ℕ → ℤ) (fopen : List ℕ → Option (List ℕ)) (conn path : List ℕ)
    (args : List (List ℕ)) (max_conn : ℕ) (l : List ℕ) (ls : List (List ℕ)) (usr : List ℕ)
    (malloc : Heap → Option ℕ) (p : Pcre) (turn : ℕ) (h : Heap) (rs : List (ℕ → Round))
    → atoi conn ≡ pos (suc max_conn)
    → fopen path ≡ some (unlines (l ∷ ls))
    → all_addresses (l ∷ ls) ≡ true
    → length (entries (l ∷ ls)) ≤ max_proxies
    → ((g : Heap) → (a : ℕ) × (malloc g ≡ some a) × (lookup g a ≡ none))
    → p.compiles ≡ true
    → ((subject : List ℕ) (start : ℕ) (anchored : Bool)
        → start ≤ length subject
        → IsMatch p subject start anchored (p.match_from subject start anchored))
    → AllAnswers rs
    → (load_main atoi fopen (conn ∷ path ∷ args)
        ≡ starts (max_threads atoi args) (suc max_conn) (entries (l ∷ ls)))
      × IsFiring usr
          (entries (l ∷ ls))
          (suc max_conn)
          (curl_multi_fire usr (entries (l ∷ ls)) malloc p (suc max_conn) turn h rs)
unfolding load_main
load_main-IsFiring atoi fopen conn path args max_conn l ls usr malloc p turn h rs number opened all
      room gives compiled promised answers =
    (
      rw (opened, load_proxies_lem (l ∷ ls) all room, number) refl,
      curl_multi_fire-IsFiring usr (entries (l ∷ ls))
          (omega (arith, entry-some l, length-append (entry l) (entries ls)))
          (entries-short (l ∷ ls) all) (suc max_conn) malloc gives p compiled promised turn h rs
          (omega arith) answers,
    )
