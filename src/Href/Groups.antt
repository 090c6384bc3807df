-- ===== src/Href/Groups.antt =====
-- The strings of the named groups of one match, and how they come into the queue.
use silksocks.Base.{
  ℕ, ◌+◌, ◌-◌, ◌*◌, ◌^◌, ◌<◌, ◌≤◌, ◌≡◌, refl, sym, ap, ◌∙◌, Option, none, some, List, [], ◌∷◌, ◌++◌,
  append_assoc, append-nil, length, get_or, take, drop,
}
use mathlib.Core.Path.{subst}
use silksocks.Text.{c_string}
use silksocks.UrlQueue.{Heap, lookup, UrlQueue, strndup}
use silksocks.UrlQueue.Segment.{Cells}
use silksocks.UrlQueue.Laws.{IsQueue, put-IsQueue, strings}
use silksocks.Href.{Pcre, url_len, put_groups}
use silksocks.Href.Offsets.{url_len-within}

-- a range of the page
abbrev pub Within : List ℕ → ℕ × ℕ → Type 0
Within subject r = (r.0 ≤ r.1) × (r.1 ≤ length subject)

-- the ranges of the named groups
abbrev pub AllWithin : List ℕ → List (ℕ × ℕ) → (names : List (ℕ × ℕ)) → Type 0
AllWithin subject ovector [] = Unit
AllWithin subject ovector ((hi, lo) ∷ names) =
    Within subject (get_or ovector (hi * 256 + lo) (0, 0)) × AllWithin subject ovector names

-- the text of a range
abbrev pub text : List ℕ → ℕ × ℕ → List ℕ
text subject r = c_string (take (r.1 - r.0) (drop r.0 subject))

-- the texts of the named groups
abbrev pub texts : List ℕ → List (ℕ × ℕ) → (names : List (ℕ × ℕ)) → List (List ℕ)
texts subject ovector [] = []
texts subject ovector ((hi, lo) ∷ names) =
    text subject (get_or ovector (hi * 256 + lo) (0, 0)) ∷ texts subject ovector names

pub strings-append : (xs ys : Cells) → strings (xs ++ ys) ≡ strings xs ++ strings ys
strings-append [] ys = refl
strings-append ((a, u) ∷ xs) ys = ap (λ r. u ∷ r) (strings-append xs ys)

module _ (malloc : Heap → Option ℕ)
    (gives : (h : Heap) → (a : ℕ) × (malloc h ≡ some a) × (lookup h a ≡ none)) (p : Pcre)
    (subject : List ℕ) (small : length subject < 2 ^ 31) where
  pub put_groups-texts :
      (ovector names : List (ℕ × ℕ)) (q : UrlQueue) (cells : Cells)
      → AllWithin subject ovector names
      → IsQueue q cells
      → (q' : UrlQueue) × (new : Cells) × (put_groups malloc p subject ovector names q ≡ some q')
        × IsQueue q' (cells ++ new)
        × (strings new ≡ texts subject ovector names)
  unfolding put_groups
  put_groups-texts ovector [] q cells within v =
      (q, [], refl, subst (IsQueue q) (sym (append-nil cells)) v, refl)
  put_groups-texts ovector ((hi, lo) ∷ names) q cells (here, within) v =
      let r : ℕ × ℕ = get_or ovector (hi * 256 + lo) (0, 0) in
      let (q1, a, made, v1) =
        put-IsQueue malloc gives q.heap q.head q.tail q.size cells (drop r.0 subject) (url_len r)
          v.seg v.ends v.counted in
      let u : List ℕ = strndup (drop r.0 subject) (url_len r) in
      let (q2, new, later, v2, same) =
        put_groups-texts ovector names q1 (cells ++ ((a, u) ∷ [])) within v1 in
      let size : url_len r ≡ r.1 - r.0 = url_len-within r (length subject) here.0 here.1 small in
      let first : u ≡ text subject r = ap (λ n. c_string (take n (drop r.0 subject))) size in
      (
        q2,
        (a, u) ∷ new,
        rw made later,
        subst (IsQueue q2) (append_assoc cells ((a, u) ∷ []) new) v2,
        ap (λ x. x ∷ strings new) first ∙ ap (λ xs. text subject r ∷ xs) same,
      )
