-- ===== src/Href/Offsets.antt =====
-- The offsets of the search for links.
use silksocks.Base.{
  ℕ, zero, suc, ◌+◌, ◌-◌, ◌%◌, ◌^◌, ◌<◌, ◌≤◌, ◌≡◌, refl, true, List, ltb, length, arith,
}
use silksocks.Href.{Pcre, url_len, skip_continuation, next_offset}

pub url_len-within : (r : ℕ × ℕ) (n : ℕ) → r.0 ≤ r.1 → r.1 ≤ n → n < 2 ^ 31 → url_len r ≡ r.1 - r.0
unfolding url_len
url_len-within (s, e) n le within small =
    let whole : (e + 2 ^ 64 - s) % 2 ^ 64 % 2 ^ 32 ≡ e - s = omega arith in
    let short : ltb (e - s) (2 ^ 31) ≡ true = ground arith in rw (whole, short) refl

skip_continuation_bounds :
    (subject : List ℕ) (rounds o : ℕ)
    → (o ≤ skip_continuation subject rounds o) × (skip_continuation subject rounds o ≤ o + rounds)
unfolding skip_continuation
skip_continuation_bounds subject zero o = (omega arith, omega arith)
skip_continuation_bounds subject (suc rounds) o =
    ground (arith, skip_continuation_bounds subject rounds (o + 1))

-- the search goes on further behind, and not behind the page
pub next_offset_bounds :
    (p : Pcre) (subject : List ℕ) (start : ℕ)
    → start < length subject
    → length subject < 2 ^ 31
    → (start < next_offset p subject start) × (next_offset p subject start ≤ length subject)
unfolding next_offset
next_offset_bounds p subject start lt small =
    let before : (length subject + 2 ^ 64 - 1) % 2 ^ 64 ≡ length subject - 1 = omega arith in
    rw before
      (ground (arith, skip_continuation_bounds subject (length subject - (start + 1)) (start + 1)))
