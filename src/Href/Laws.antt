-- ===== src/Href/Laws.antt =====
-- The search for links ends, and puts parts of the page in the queue.
use silksocks.Base.{
  ℕ, zero, suc, ◌+◌, ◌-◌, ◌*◌, ◌^◌, ◌<◌, ◌≤◌, ◌≡◌, refl, sym, inl, inr, Bool, true, false, Option,
  none, some, List, [], ◌∷◌, ◌++◌, append_assoc, append-nil, ◌==◌, if◌then◌else◌, length, get_or,
  take, drop, Bool-cases, arith,
}
use mathlib.Core.Path.{subst}
use silksocks.Text.{c_string}
use silksocks.UrlQueue.{Heap, lookup, UrlQueue}
use silksocks.UrlQueue.Segment.{Cells}
use silksocks.UrlQueue.Laws.{IsQueue, strings}
use silksocks.Href.Offsets.{next_offset_bounds}
use silksocks.Href.Groups.{Within, AllWithin, texts, strings-append, put_groups-texts}
use silksocks.Href.{
  Match, found, no_match, error, Pcre, Href, returned, created, release, by_match, with_queue,
  next_offset, put_groups, href_loop, my_pcre_href,
}

-- What the PCRE2 library promises of a match from `start` on, for a pattern whose named groups take part
-- in every match and that has no `\K`: it lies within the page, it starts at `start` or behind, and with
-- `PCRE2_NOTEMPTY_ATSTART | PCRE2_ANCHORED` it is not empty.
abbrev pub IsMatch : Pcre → List ℕ → (start : ℕ) → (anchored : Bool) → Match → Type 0
IsMatch p subject start anchored (found whole groups) =
    Within subject whole
    × (start ≤ whole.0)
    × ((anchored ≡ true) → whole.0 < whole.1)
    × AllWithin subject (whole ∷ groups) p.name_table
IsMatch p subject start anchored no_match = Unit
IsMatch p subject start anchored error = Unit

-- a part of the page, up to a zero
abbrev pub IsPart : List ℕ → List ℕ → Type 0
IsPart subject u = (s n : ℕ) × (s + n ≤ length subject) × (u ≡ c_string (take n (drop s subject)))

abbrev pub AllParts : List ℕ → List (List ℕ) → Type 0
AllParts subject [] = Unit
AllParts subject (u ∷ us) = IsPart subject u × AllParts subject us

AllParts-append :
    (subject : List ℕ) (us vs : List (List ℕ))
    → AllParts subject us
    → AllParts subject vs
    → AllParts subject (us ++ vs)
AllParts-append subject [] vs h k = k
AllParts-append subject (u ∷ us) vs h k = (h.0, AllParts-append subject us vs h.1 k)

texts-AllParts :
    (subject : List ℕ) (ovector names : List (ℕ × ℕ))
    → AllWithin subject ovector names
    → AllParts subject (texts subject ovector names)
texts-AllParts subject ovector [] within = tt
texts-AllParts subject ovector ((hi, lo) ∷ names) (here, within) =
    let r : ℕ × ℕ = get_or ovector (hi * 256 + lo) (0, 0) in
    (
      (r.0, r.1 - r.0, omega (arith, here.0, here.1), refl),
      texts-AllParts subject ovector names within,
    )

-- the steps that are left at an offset: a match leaves it behind or is empty there
abbrev measure : List ℕ → ℕ → ℕ → ℕ
measure subject a b = 2 * (length subject - b) + (if a == b then 0 else 1)

module _ (malloc : Heap → Option ℕ)
    (gives : (h : Heap) → (a : ℕ) × (malloc h ≡ some a) × (lookup h a ≡ none)) (p : Pcre)
    (subject : List ℕ) (small : length subject < 2 ^ 31)
    (promised : (start : ℕ) (anchored : Bool)
      → start ≤ length subject
      → IsMatch p subject start anchored (p.match_from subject start anchored)) where
  -- It returns with nothing held, and the queue has parts of the page behind what it had.
  abbrev pub Delivers : Cells → Href → Type 0
  Delivers cells r =
      (status : ℕ) × (q' : UrlQueue) × (new : Cells) × (r ≡ returned status (release created) q')
      × IsQueue q' (cells ++ new)
      × AllParts subject (strings new)

  stops :
      (status : ℕ) (q : UrlQueue) (cells : Cells)
      → IsQueue q cells
      → Delivers cells (returned status (release created) q)
  stops status q cells v = (status, q, [], refl, subst (IsQueue q) (sym (append-nil cells)) v, tt)

  -- a match puts its links, and what follows it goes on from there
  goes_on :
      (whole : ℕ × ℕ) (groups : List (ℕ × ℕ)) (q : UrlQueue) (cells : Cells) (k : UrlQueue → Href)
      → AllWithin subject (whole ∷ groups) p.name_table
      → IsQueue q cells
      → ((q' : UrlQueue) (cells' : Cells) → IsQueue q' cells' → Delivers cells' (k q'))
      → Delivers cells (with_queue (put_groups malloc p subject (whole ∷ groups) p.name_table q) k)
  goes_on whole groups q cells k within v later =
      let ovector : List (ℕ × ℕ) = whole ∷ groups in
      let (q1, new, put, v1, same) =
        put_groups-texts malloc gives p subject small ovector p.name_table q cells within v in
      let parts = texts-AllParts subject ovector p.name_table within in
      let (status, q2, more, run, v2, parts2) = later q1 (cells ++ new) v1 in
      (
        status,
        q2,
        new ++ more,
        rw put run,
        subst (IsQueue q2) (append_assoc cells new more) v2,
        rw (strings-append new more, same)
            (AllParts-append subject (texts subject ovector p.name_table) (strings more) parts
              parts2),
      )

  by_match-Delivers :
      (start : ℕ) (anchored : Bool) (m : Match) (q : UrlQueue) (cells : Cells)
      (missing failed : Href) (k : ℕ × ℕ → List (ℕ × ℕ) → UrlQueue → Href)
      → IsMatch p subject start anchored m
      → IsQueue q cells
      → Delivers cells missing
      → Delivers cells failed
      → ((whole : ℕ × ℕ) (groups : List (ℕ × ℕ)) (q' : UrlQueue) (cells' : Cells)
          → IsMatch p subject start anchored (found whole groups)
          → IsQueue q' cells'
          → Delivers cells' (k whole groups q'))
      → Delivers cells (
          by_match m missing failed λ whole groups.
            with_queue
              (put_groups malloc p subject (whole ∷ groups) p.name_table q)
              (k whole groups))
  by_match-Delivers start anchored no_match q cells missing failed k is v h1 h2 h3 = h1
  by_match-Delivers start anchored error q cells missing failed k is v h1 h2 h3 = h2
  by_match-Delivers start anchored (found whole groups) q cells missing failed k is v h1 h2 h3 =
      goes_on whole groups q cells (k whole groups) is.3 v
        (λ q' cells' v'. h3 whole groups q' cells' is v')

  loop-Delivers :
      (fuel a b : ℕ) (q : UrlQueue) (cells : Cells)
      → a ≤ b
      → b ≤ length subject
      → measure subject a b < fuel
      → IsQueue q cells
      → Delivers cells (href_loop malloc p subject fuel (a, b) q)
  unfolding href_loop
  loop-Delivers zero a b q cells le within m v = absurd (omega (arith, m))
  loop-Delivers (suc fuel) a b q cells le within m v = elim (Bool-cases (a == b)) [
    | inr ne ↦ rw ne (
        by_match-Delivers b false (p.match_from subject b false) q cells
          (returned 0 (release created) q) (returned 1 (release created) q)
          (λ whole groups q'. href_loop malloc p subject fuel whole q') (promised b false within) v
          (stops 0 q cells v) (stops 1 q cells v)
          λ whole groups q' cells' is v'.
            loop-Delivers fuel whole.0 whole.1 q' cells' is.0.0 is.0.1 (ground arith) v')
    | inl e ↦ elim (Bool-cases (a == length subject)) [
      | inl end ↦ rw (e, end) (stops 0 q cells v)
      | inr more ↦
          let next = next_offset_bounds p subject b (ground arith) small in
          rw (e, more)
            (by_match-Delivers b true (p.match_from subject b true) q cells
              (href_loop malloc p subject fuel (a, next_offset p subject b) q)
              (returned 1 (release created) q)
              (λ whole groups q'. href_loop malloc p subject fuel whole q') (promised b true within)
              v
              (loop-Delivers fuel a (next_offset p subject b) q cells (omega (arith, next)) next.1
                (ground (arith, next)) v)
              (stops 1 q cells v)
              λ whole groups q' cells' is v'.
                loop-Delivers fuel whole.0 whole.1 q' cells' is.0.0 is.0.1
                  (ground (arith, is.2 refl)) v')
    ]
  ]

  -- The search for links in a page below 2 ^ 31 bytes ends, with a library that keeps its promises and
  -- memory always given: `myPCRE_href` returns with the match data and the pattern freed, and has put
  -- strings in the queue behind those that were there, each a part of the page up to a zero.
  pub my_pcre_href-Delivers :
      (q : UrlQueue) (cells : Cells)
      → p.compiles ≡ true
      → IsQueue q cells
      → Delivers cells (my_pcre_href malloc p subject q)
  unfolding my_pcre_href
  my_pcre_href-Delivers q cells compiled v = rw compiled (
      by_match-Delivers 0 false (p.match_from subject 0 false) q cells
        (returned 1 (release created) q) (returned 1 (release created) q)
        (λ whole groups q'. href_loop malloc p subject (2 * length subject + 2) whole q')
        (promised 0 false (omega arith)) v (stops 1 q cells v) (stops 1 q cells v)
        λ whole groups q' cells' is v'.
          loop-Delivers (2 * length subject + 2) whole.0 whole.1 q' cells' is.0.0 is.0.1
            (ground arith) v')
