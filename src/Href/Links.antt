-- ===== src/Href/Links.antt =====
-- What the search for links puts in the queue, for a pattern that never matches the empty string.
use silksocks.Base.{
  ℕ, zero, suc, ◌+◌, ◌-◌, ◌*◌, ◌^◌, ◌<◌, ◌≤◌, ◌≡◌, refl, sym, ap, ◌∙◌, true, false, Option, none,
  some, List, [], ◌∷◌, ◌++◌, append_assoc, append-nil, ◌==◌, length, arith,
}
use mathlib.Core.Path.{subst}
use silksocks.UrlQueue.{Heap, lookup, UrlQueue}
use silksocks.UrlQueue.Segment.{Cells}
use silksocks.UrlQueue.Laws.{IsQueue, strings}
use silksocks.Href.{
  Match, found, no_match, error, Pcre, Href, returned, created, release, by_match, with_queue,
  put_groups, href_loop, my_pcre_href,
}
use silksocks.Href.Groups.{AllWithin, texts, strings-append, put_groups-texts}

-- the texts for the match from an offset on, then those from its end on
abbrev pub links_of :
    Match → (ℕ → List (List ℕ)) → (ℕ × ℕ → List (ℕ × ℕ) → List (List ℕ)) → List (List ℕ)
links_of no_match later k = []
links_of error later k = []
links_of (found whole groups) later k = k whole groups ++ later whole.1

-- The reference: the texts of the matches that follow one another from an offset on, `fuel` many at most.
unfoldable pub links : Pcre → List ℕ → (fuel : ℕ) → (start : ℕ) → List (List ℕ)
links p subject zero start = []
links p subject (suc fuel) start =
    links_of (p.match_from subject start false) (links p subject fuel)
      λ whole groups. texts subject (whole ∷ groups) p.name_table

-- What the PCRE2 library promises of a match from `start` on, for such a pattern whose named groups take
-- part in every match and that has no `\K`: it lies within the page, and starts at `start` or behind.
abbrev pub IsLink : Pcre → List ℕ → (start : ℕ) → Match → Type 0
IsLink p subject start (found whole groups) =
    (start ≤ whole.0)
    × (whole.0 < whole.1)
    × (whole.1 ≤ length subject)
    × AllWithin subject (whole ∷ groups) p.name_table
IsLink p subject start no_match = Unit
IsLink p subject start error = Unit

-- It returns with nothing held, and has put these strings in the queue.
abbrev pub Puts : Cells → List (List ℕ) → Href → Type 0
Puts cells us r =
    (status : ℕ) × (q' : UrlQueue) × (new : Cells) × (r ≡ returned status (release created) q')
    × IsQueue q' (cells ++ new)
    × (strings new ≡ us)

module _ (malloc : Heap → Option ℕ)
    (gives : (h : Heap) → (a : ℕ) × (malloc h ≡ some a) × (lookup h a ≡ none)) (p : Pcre)
    (subject : List ℕ) (small : length subject < 2 ^ 31)
    (promised : (start : ℕ)
      → start ≤ length subject
      → IsLink p subject start (p.match_from subject start false)) where
  nothing_put :
      (status : ℕ) (q : UrlQueue) (cells : Cells)
      → IsQueue q cells
      → Puts cells [] (returned status (release created) q)
  nothing_put status q cells v =
      (status, q, [], refl, subst (IsQueue q) (sym (append-nil cells)) v, refl)

  -- one match, and what follows it
  by_match-Puts :
      (start : ℕ) (m : Match) (missing failed : ℕ) (q : UrlQueue) (cells : Cells)
      (k : ℕ × ℕ → UrlQueue → Href) (later : ℕ → List (List ℕ))
      → IsLink p subject start m
      → IsQueue q cells
      → ((whole : ℕ × ℕ) (q' : UrlQueue) (cells' : Cells)
          → start ≤ whole.0
          → whole.0 < whole.1
          → whole.1 ≤ length subject
          → IsQueue q' cells'
          → Puts cells' (later whole.1) (k whole q'))
      → Puts cells (links_of m later λ whole groups. texts subject (whole ∷ groups) p.name_table) (
          by_match m
            (returned missing (release created) q)
            (returned failed (release created) q)
            λ whole groups.
              with_queue (put_groups malloc p subject (whole ∷ groups) p.name_table q) (k whole))
  by_match-Puts start no_match missing failed q cells k later is v go =
      nothing_put missing q cells v
  by_match-Puts start error missing failed q cells k later is v go = nothing_put failed q cells v
  by_match-Puts start (found whole groups) missing failed q cells k later is v go =
      let (q1, new, put, v1, same) =
        put_groups-texts malloc gives p subject small (whole ∷ groups) p.name_table q cells is.3
          v in
      let (status, q2, more, run, v2, same2) = go whole q1 (cells ++ new) is.0 is.1 is.2 v1 in
      (
        status,
        q2,
        new ++ more,
        rw put run,
        subst (IsQueue q2) (append_assoc cells new more) v2,
        strings-append new more
            ∙ ap (λ xs. xs ++ strings more) same
            ∙ ap (λ xs. texts subject (whole ∷ groups) p.name_table ++ xs) same2,
      )

  loop-Puts :
      (fuel rounds a b : ℕ) (q : UrlQueue) (cells : Cells)
      → a < b
      → b ≤ length subject
      → length subject - b < fuel
      → length subject - b < rounds
      → IsQueue q cells
      → Puts cells (links p subject rounds b) (href_loop malloc p subject fuel (a, b) q)
  unfolding href_loop links
  loop-Puts zero rounds a b q cells lt within f r v = absurd (omega (arith, f))
  loop-Puts (suc fuel) zero a b q cells lt within f r v = absurd (omega (arith, r))
  loop-Puts (suc fuel) (suc rounds) a b q cells lt within f r v =
      let further : (a == b) ≡ false = ground arith in
      rw further (
        by_match-Puts b (p.match_from subject b false) 0 1 q cells (href_loop malloc p subject fuel)
          (links p subject rounds) (promised b within) v
          λ whole q' cells' from some_bytes inside v'.
            loop-Puts fuel rounds whole.0 whole.1 q' cells' some_bytes inside (omega (arith, f))
              (omega (arith, r)) v')

  -- For a pattern that compiles, has no match that is empty or starts before the offset of the search
  -- or ends behind the page, and whose named groups lie within the page in every match (as holds of a
  -- pattern without `\K` that cannot match the empty string and sets all its groups), a page below 2 ^
  -- 31 bytes and memory always given, `myPCRE_href` returns with the match data and the pattern freed,
  -- and has put in the queue the texts of all named groups of all the matches that follow one another
  -- from the start of the page, in order, each up to a zero.
  pub my_pcre_href-links :
      (q : UrlQueue) (cells : Cells)
      → p.compiles ≡ true
      → IsQueue q cells
      → Puts cells (links p subject (length subject + 2) 0) (my_pcre_href malloc p subject q)
  unfolding my_pcre_href links
  my_pcre_href-links q cells compiled v =
      let one_more : length subject + 2 ≡ suc (length subject + 1) = omega arith in
      rw (compiled, one_more)
        (by_match-Puts 0 (p.match_from subject 0 false) 1 1 q cells
          (href_loop malloc p subject (2 * length subject + 2))
          (links p subject (length subject + 1)) (promised 0 (omega arith)) v
          λ whole q' cells' from some_bytes inside v'.
            loop-Puts (2 * length subject + 2) (length subject + 1) whole.0 whole.1 q' cells'
              some_bytes inside (omega arith) (omega arith) v')
