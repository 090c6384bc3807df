-- ===== src/Text.antt =====
-- What socks.c, and others, use of the C library on strings. A buffer is the list of its bytes.
pub mod Lines
use silksocks.Base.{ℕ, zero, suc, Option, none, some, List, [], ◌∷◌, ◌==◌, if◌then◌else◌}

abbrev pub dash : ℕ
dash = b'-'

-- the string in a buffer: its bytes before the first zero
unfoldable pub c_string : List ℕ → List ℕ
c_string [] = []
c_string (c ∷ s) = if c == 0 then [] else c ∷ c_string s

module _ (sep : ℕ) where
  -- the bytes before the first separator
  unfoldable pub token : List ℕ → List ℕ
  token [] = []
  token (c ∷ s) = if c == sep then [] else c ∷ token s

  -- the bytes behind the first separator
  unfoldable pub behind : List ℕ → List ℕ
  behind [] = []
  behind (c ∷ s) = if c == sep then s else behind s

  -- the separators at the front, and what follows them
  unfoldable pub separators : List ℕ → List ℕ
  separators [] = []
  separators (c ∷ s) = if c == sep then c ∷ separators s else []

  unfoldable pub skip_separators : List ℕ → List ℕ
  skip_separators [] = []
  skip_separators (c ∷ s) = if c == sep then skip_separators s else c ∷ s

  -- `strtok_r(s, sep, &ptr)`: the token and the string at `ptr`, or `NULL`
  unfoldable pub strtok : List ℕ → Option (List ℕ × List ℕ)
  unfolding skip_separators token behind
  strtok s = elim (skip_separators s) [ [] ↦ none | c ∷ t ↦ some (token (c ∷ t), behind (c ∷ t)) ]

abbrev pub newline : ℕ
newline = 10

-- the bytes up to the first newline, and it too, `n` at most; and the bytes that are left
unfoldable pub take_line : (n : ℕ) → List ℕ → List ℕ × List ℕ
take_line zero s = ([], s)
take_line (suc n) [] = ([], [])
take_line (suc n) (c ∷ s) =
    let more = take_line n s in if c == newline then (c ∷ [], s) else (c ∷ more.0, more.1)

-- `fgets(buf, n + 1, f)` with `n` not 0: the bytes before the terminator and the file behind them, or
-- `NULL`
unfoldable pub fgets : (n : ℕ) → List ℕ → Option (List ℕ × List ℕ)
unfolding take_line
fgets n [] = none
fgets n (c ∷ s) = some (take_line n (c ∷ s))

unfoldable pub chomp_from : ℕ → List ℕ → List ℕ
chomp_from c [] = if c == newline then [] else c ∷ []
chomp_from c (d ∷ s) = c ∷ chomp_from d s

-- `if (s[strlen(s)-1] == '\n') s[strlen(s)-1] = '\0';`, which reads before the buffer if the string is
-- empty
unfoldable pub chomp : List ℕ → Option (List ℕ)
unfolding chomp_from
chomp [] = none
chomp (c ∷ s) = some (chomp_from c s)
