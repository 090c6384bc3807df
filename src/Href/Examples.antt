-- ===== src/Href/Examples.antt =====
-- Pages on which every byte `h` is a match of one byte, whose only group is the whole.
use silksocks.Base.{
  ℕ, ◌+◌, ◌≤◌, ◌≡◌, refl, inl, inr, Bool, true, false, List, [], ◌∷◌, ◌==◌, if◌then◌else◌, length,
  drop, length-drop, Bool-cases, arith, ℤ, pos,
}
use silksocks.Text.{c_string}
use silksocks.UrlQueue.{UrlQueue, urlq_init, urlq_size}
use silksocks.UrlQueue.Segment.{Cells, nil}
use silksocks.UrlQueue.Laws.{IsQueue, strings}
use silksocks.UrlQueue.Examples.{give, gives}
use silksocks.Href.{
  Match, found, no_match, Href, fault, unfinished, Newline, Pcre, returned, created, release,
  my_pcre_href,
}
use silksocks.Href.Laws.{IsMatch, AllParts, my_pcre_href-Delivers}
use silksocks.Href.Links.{IsLink, links, my_pcre_href-links}

-- the first `h`, counted from `o`; only at the front if `anchored`
abbrev pub find_h : (o : ℕ) → (anchored : Bool) → List ℕ → Match
find_h o anchored [] = no_match
find_h o anchored (c ∷ s) =
    let later = find_h (o + 1) anchored s in
    if c == b'h' then found (o, o + 1) [] else if anchored then no_match else later

abbrev pub letters : Pcre
letters = record {
  compiles = true;
  match_from = λ subject start anchored. find_h start anchored (drop start subject);
  name_table = (0, 0) ∷ [];
  utf8 = true;
  newline = Newline.crlf;
}

find_h-IsMatch :
    (subject : List ℕ) (anchored : Bool) (start o : ℕ) (s : List ℕ)
    → start ≤ o
    → o + length s ≤ length subject
    → IsMatch letters subject start anchored (find_h o anchored s)
find_h-IsMatch subject true start o [] le within = tt
find_h-IsMatch subject false start o [] le within = tt
find_h-IsMatch subject true start o (c ∷ s) le within = elim (Bool-cases (c == b'h')) [
  | inl e ↦ rw e (
    ((omega arith), (omega (arith, within))),
    le,
    (λ h. omega arith),
    (((omega arith), (omega (arith, within))), tt),
  )
  | inr e ↦ rw e tt
]
find_h-IsMatch subject false start o (c ∷ s) le within = elim (Bool-cases (c == b'h')) [
  | inl e ↦ rw e (
    ((omega arith), (omega (arith, within))),
    le,
    (λ h. omega arith),
    (((omega arith), (omega (arith, within))), tt),
  )
  | inr e ↦
      rw e
        (find_h-IsMatch subject false start (o + 1) s (omega (arith, le)) (omega (arith, within)))
]

pub letters_promised :
    (subject : List ℕ) (start : ℕ) (anchored : Bool)
    → start ≤ length subject
    → IsMatch letters subject start anchored (letters.match_from subject start anchored)
letters_promised subject start anchored le =
    find_h-IsMatch subject anchored start start (drop start subject) (omega arith)
      (omega (arith, length-drop start subject))

-- "ahbh"
abbrev page : List ℕ
page = 97 ∷ 104 ∷ 98 ∷ 104 ∷ []

-- on an empty queue
my_pcre_href-Delivers_example :
    (status : ℕ) × (q : UrlQueue) × (new : Cells) × (my_pcre_href give letters page (urlq_init [])
      ≡ returned status (release created) q)
    × IsQueue q new
    × AllParts page (strings new)
unfolding urlq_init
my_pcre_href-Delivers_example =
    my_pcre_href-Delivers give gives letters page (omega arith) (letters_promised page)
      (urlq_init []) [] refl (record { seg = nil; ends = tt; counted = refl })

abbrev size_after : Href → ℤ
size_after (returned status held q) = urlq_size q
size_after fault = pos 0
size_after unfinished = pos 0

both_links : size_after (my_pcre_href give letters page (urlq_init [])) ≡ pos 2
unfolding urlq_init my_pcre_href c_string urlq_size
both_links = refl

find_h-IsLink :
    (subject : List ℕ) (start o : ℕ) (s : List ℕ)
    → start ≤ o
    → o + length s ≤ length subject
    → IsLink letters subject start (find_h o false s)
find_h-IsLink subject start o [] le within = tt
find_h-IsLink subject start o (c ∷ s) le within = elim (Bool-cases (c == b'h')) [
  | inl e ↦
      rw e
        (le, (omega arith), (omega (arith, within)), (((omega arith), (omega (arith, within))), tt))
  | inr e ↦ rw e (find_h-IsLink subject start (o + 1) s (omega (arith, le)) (omega (arith, within)))
]

letters-IsLink :
    (start : ℕ)
    → start ≤ length page
    → IsLink letters page start (letters.match_from page start false)
letters-IsLink start le =
    find_h-IsLink page start start (drop start page) (omega arith)
      (omega (arith, length-drop start page))

my_pcre_href-links_example :
    (status : ℕ) × (q : UrlQueue) × (new : Cells) × (my_pcre_href give letters page (urlq_init [])
      ≡ returned status (release created) q)
    × IsQueue q new
    × (strings new ≡ links letters page (length page + 2) 0)
unfolding urlq_init
my_pcre_href-links_example =
    my_pcre_href-links give gives letters page (omega arith) letters-IsLink (urlq_init []) [] refl
      (record { seg = nil; ends = tt; counted = refl })

-- the reference on this page
two_links : links letters page 6 0 ≡ (104 ∷ []) ∷ (104 ∷ []) ∷ []
unfolding links c_string
two_links = refl
