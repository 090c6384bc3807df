-- ===== src/Text/Lines.antt =====
-- What `fgets` and the cutting of a newline do to the lines of a text.
use silksocks.Base.{
  ℕ, zero, suc, ◌<◌, ◌≡◌, refl, ap, Bool, true, false, some, List, [], ◌∷◌, ◌++◌, ◌==◌, ◌&&◌, not,
  length, arith,
}
use silksocks.Text.{newline, c_string, take_line, fgets, chomp_from, chomp}

-- neither a newline nor a zero
abbrev pub is_line : List ℕ → Bool
is_line [] = true
is_line (c ∷ s) = not (c == newline) && (not (c == 0) && is_line s)

pub is_line-cons :
    (c : ℕ) (s : List ℕ)
    → is_line (c ∷ s) ≡ true
    → ((c == newline) ≡ false) × ((c == 0) ≡ false) × (is_line s ≡ true)
is_line-cons c s h = ground (arith, h)

abbrev pub ended : List ℕ → List ℕ
ended s = s ++ (newline ∷ [])

pub take_line-ended :
    (n : ℕ) (s rest : List ℕ)
    → is_line s ≡ true
    → length s < n
    → take_line n (s ++ (newline ∷ rest)) ≡ (ended s, rest)
unfolding take_line
take_line-ended zero s rest h lt = absurd (omega arith)
take_line-ended (suc n) [] rest h lt = refl
take_line-ended (suc n) (c ∷ s) rest h lt =
    let (other, z, more) = is_line-cons c s h in
    rw (other, take_line-ended n s rest more (omega (arith, lt))) refl

pub fgets-ended :
    (n : ℕ) (s rest : List ℕ)
    → is_line s ≡ true
    → length s < n
    → fgets n (s ++ (newline ∷ rest)) ≡ some (ended s, rest)
unfolding fgets
fgets-ended n [] rest h lt = ap some (take_line-ended n [] rest h lt)
fgets-ended n (c ∷ s) rest h lt = ap some (take_line-ended n (c ∷ s) rest h lt)

pub c_string-ended : (s : List ℕ) → is_line s ≡ true → c_string (ended s) ≡ ended s
unfolding c_string
c_string-ended [] h = refl
c_string-ended (c ∷ s) h =
    let (other, z, more) = is_line-cons c s h in rw z (ap (λ r. c ∷ r) (c_string-ended s more))

chomp_from-ended : (c : ℕ) (s : List ℕ) → chomp_from c (ended s) ≡ c ∷ s
unfolding chomp_from
chomp_from-ended c [] = refl
chomp_from-ended c (d ∷ s) = ap (λ r. c ∷ r) (chomp_from-ended d s)

pub chomp-ended : (s : List ℕ) → chomp (ended s) ≡ some s
unfolding chomp chomp_from
chomp-ended [] = refl
chomp-ended (c ∷ s) = ap some (chomp_from-ended c s)

-- a line that is as long as `fgets` reads
pub take_line-full :
    (s rest : List ℕ) → is_line s ≡ true → take_line (length s) (s ++ rest) ≡ (s, rest)
unfolding take_line
take_line-full [] rest h = refl
take_line-full (c ∷ s) rest h =
    let (other, z, more) = is_line-cons c s h in rw (other, take_line-full s rest more) refl

pub c_string-line : (s : List ℕ) → is_line s ≡ true → c_string s ≡ s
unfolding c_string
c_string-line [] h = refl
c_string-line (c ∷ s) h =
    let (other, z, more) = is_line-cons c s h in rw z (ap (λ r. c ∷ r) (c_string-line s more))

pub chomp_from-line : (c : ℕ) (s : List ℕ) → is_line (c ∷ s) ≡ true → chomp_from c s ≡ c ∷ s
unfolding chomp_from
chomp_from-line c [] h = let (other, z, more) = is_line-cons c [] h in rw other refl
chomp_from-line c (d ∷ s) h =
    let (other, z, more) = is_line-cons c (d ∷ s) h in ap (λ r. c ∷ r) (chomp_from-line d s more)
