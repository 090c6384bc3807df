-- ===== src/Load/Laws.antt =====
-- The list of proxies that a file gives.
use silksocks.Base.{
  ℕ, zero, suc, ◌+◌, ◌<◌, ◌≤◌, ◌≡◌, refl, sym, ap, ◌∙◌, Bool, true, false, ◌&&◌, some, List, [],
  ◌∷◌, ◌++◌, append_assoc, append-nil, ◌==◌, leb, if◌then◌else◌, length, length-append, arith,
  Bool-cases, inl, inr,
}
use mathlib.Core.Path.{subst}
use silksocks.Text.{newline, take_line, chomp}
use silksocks.Text.Lines.{
  is_line, take_line-ended, c_string-ended, chomp-ended, take_line-full, c_string-line,
  chomp_from-line,
}
use silksocks.Load.{loaded, max_proxies, read_entry, load_from, load_proxies}

abbrev pub unlines : List (List ℕ) → List ℕ
unlines [] = []
unlines (l ∷ ls) = l ++ (newline ∷ unlines ls)

-- a line of up to 15 bytes
abbrev pub is_address : List ℕ → Bool
is_address l = is_line l && leb (length l) 15

abbrev pub all_addresses : List (List ℕ) → Bool
all_addresses [] = true
all_addresses (l ∷ ls) = is_address l && all_addresses ls

-- the entries for a line: behind one of 15 bytes there is an empty one
abbrev pub entry : List ℕ → List (List ℕ)
entry l = if length l == 15 then l ∷ [] ∷ [] else l ∷ []

abbrev pub entries : List (List ℕ) → List (List ℕ)
entries [] = []
entries (l ∷ ls) = entry l ++ entries ls

-- one round that reads a line
load_from-round :
    (fuel : ℕ) (file rest line : List ℕ) (proxies : List (List ℕ))
    → read_entry file ≡ (some line, rest)
    → length proxies < max_proxies
    → 0 < length file
    → load_from (suc fuel) file proxies ≡ load_from fuel rest (proxies ++ (line ∷ []))
unfolding load_from
load_from-round fuel [] rest line proxies took room pos = absurd (omega arith)
load_from-round fuel (c ∷ file) rest line proxies took room pos =
    let more : leb max_proxies (length proxies) ≡ false = ground arith in rw (took, more) refl

read_entry-short :
    (l rest : List ℕ)
    → is_line l ≡ true
    → length l < 15
    → read_entry (l ++ (newline ∷ rest)) ≡ (some l, rest)
unfolding read_entry
read_entry-short l rest plain short =
    rw (take_line-ended 15 l rest plain short, c_string-ended l plain, chomp-ended l) refl

-- a line of 15 bytes, of which the newline is left
read_entry-long :
    (l rest : List ℕ) → is_line l ≡ true → length l ≡ 15 → read_entry (l ++ rest) ≡ (some l, rest)
unfolding read_entry chomp
read_entry-long [] rest plain long = absurd (omega (arith, long))
read_entry-long (c ∷ l) rest plain long =
    let whole =
      subst (λ n. take_line n ((c ∷ l) ++ rest) ≡ (c ∷ l, rest)) long
        (take_line-full (c ∷ l) rest plain) in
    rw (whole, c_string-line (c ∷ l) plain, chomp_from-line c l plain) refl

load_from-line :
    (l rest : List ℕ) (fuel : ℕ) (proxies : List (List ℕ))
    → is_line l ≡ true
    → length l ≤ 15
    → length (l ++ (newline ∷ rest)) ≤ fuel
    → length proxies + length (entry l) ≤ max_proxies
    → (f : ℕ) × (length rest ≤ f)
      × (load_from fuel (l ++ (newline ∷ rest)) proxies ≡ load_from f rest (proxies ++ entry l))
load_from-line l rest zero proxies plain le fuelled room =
    absurd (omega (arith, length-append l (newline ∷ rest)))
load_from-line l rest (suc f) proxies plain le fuelled room = elim (Bool-cases (length l == 15)) [
  | inr shorter ↦
      let short : length l < 15 = ground (arith, shorter) in
      let one : length (entry l) ≡ 1 = rw shorter refl in
      let run =
        load_from-round f (l ++ (newline ∷ rest)) rest l proxies
          (read_entry-short l rest plain short) (omega (arith, one))
          (omega (arith, length-append l (newline ∷ rest))) in
      (f, omega (arith, length-append l (newline ∷ rest)), run ∙ rw shorter refl)
  | inl longest ↦ two_rounds f (ground (arith, longest)) longest fuelled
]
  where
    two_rounds :
        (f : ℕ)
        → length l ≡ 15
        → (length l == 15) ≡ true
        → length (l ++ (newline ∷ rest)) ≤ suc f
        → (g : ℕ) × (length rest ≤ g)
          × (load_from (suc f) (l ++ (newline ∷ rest)) proxies
              ≡ load_from g rest (proxies ++ entry l))
    two_rounds zero long longest fuelled =
        absurd (omega (arith, length-append l (newline ∷ rest), long))
    two_rounds (suc g) long longest fuelled =
        let two : length (entry l) ≡ 2 = rw longest refl in
        let run =
          load_from-round (suc g) (l ++ (newline ∷ rest)) (newline ∷ rest) l proxies
            (read_entry-long l (newline ∷ rest) plain long) (omega (arith, two))
            (omega (arith, length-append l (newline ∷ rest))) in
        let run' =
          load_from-round g (newline ∷ rest) rest [] (proxies ++ (l ∷ []))
            (read_entry-short [] rest refl (omega arith))
            (omega (arith, two, length-append proxies (l ∷ []))) (omega arith) in
        (
          g,
          omega (arith, length-append l (newline ∷ rest), long),
          run ∙ run' ∙ rw (longest, append_assoc) refl,
        )

all-cons :
    (l : List ℕ) (ls : List (List ℕ))
    → all_addresses (l ∷ ls) ≡ true
    → (is_line l ≡ true) × (length l ≤ 15) × (all_addresses ls ≡ true)
all-cons l ls h = (ground (arith, h), ground (arith, h), ground (arith, h))

load_from-entries :
    (ls : List (List ℕ)) (fuel : ℕ) (proxies : List (List ℕ))
    → all_addresses ls ≡ true
    → length (unlines ls) ≤ fuel
    → length proxies + length (entries ls) ≤ max_proxies
    → load_from fuel (unlines ls) proxies ≡ loaded (proxies ++ entries ls)
unfolding load_from
load_from-entries [] fuel proxies all fuelled room = ap loaded (sym (append-nil proxies))
load_from-entries (l ∷ ls) fuel proxies all fuelled room =
    let (plain, le, more) = all-cons l ls all in
    let both = length-append (entry l) (entries ls) in
    let (f, enough, run) =
      load_from-line l (unlines ls) fuel proxies plain le fuelled (omega (arith, both)) in
    let later =
      load_from-entries ls f (proxies ++ entry l) more enough
        (omega (arith, both, length-append proxies (entry l))) in
    run ∙ later ∙ ap loaded (append_assoc proxies (entry l) (entries ls))

-- A file of lines of up to 15 bytes each, none of them zero, gives the list of these lines, if there is
-- room for it, but for an empty entry behind each line of exactly 15 bytes, the longest that an IPv4
-- address can have.
pub load_proxies_lem :
    (ls : List (List ℕ))
    → all_addresses ls ≡ true
    → length (entries ls) ≤ max_proxies
    → load_proxies (unlines ls) ≡ loaded (entries ls)
unfolding load_proxies
load_proxies_lem ls all room =
    load_from-entries ls (length (unlines ls)) [] all (omega arith) (omega (arith, room))
