-- ===== src/Href.antt =====
-- `myPCRE_href` of socksload/href.c: the links of a page are put in the queue. The calls of the PCRE2
-- library are a parameter.
mod Offsets
mod Groups
pub mod Laws
pub mod Links
pub mod Examples
use silksocks.Base.{
  ℕ, zero, suc, ◌+◌, ◌-◌, ◌*◌, ◌/◌, ◌%◌, ◌^◌, Bool, true, false, ◌&&◌, not, Option, none, some,
  List, [], ◌∷◌, ◌==◌, ltb, if◌then◌else◌, length, get_or, drop, and_then,
}
use silksocks.UrlQueue.{Heap, UrlQueue, urlq_put}

-- what `pcre2_pattern_info` says with `PCRE2_INFO_NEWLINE`
pub data Newline : Type 0 where
  cr : Newline
  lf : Newline
  crlf : Newline
  any : Newline
  any_crlf : Newline

-- What `pcre2_match` returns: the pairs of the output vector, `PCRE2_ERROR_NOMATCH`, which leaves the
-- vector as it was, or another error.
pub data Match : Type 0 where
  found : (whole : ℕ × ℕ) → (groups : List (ℕ × ℕ)) → Match
  no_match : Match
  error : Match

-- The pattern as the library sees it: whether it compiles, the match from an offset on, with
-- `PCRE2_NOTEMPTY_ATSTART | PCRE2_ANCHORED` or without options, and what it says of the pattern; of each
-- entry in the name table, the two bytes of its number.
pub record Pcre : Type 0 where
  pub compiles : Bool
  pub match_from : List ℕ → (start_offset : ℕ) → (anchored : Bool) → Match
  pub name_table : List (ℕ × ℕ)
  pub utf8 : Bool
  pub newline : Newline

-- `re` and `match_data`, as far as they are not freed
pub record Held : Type 0 where
  pub code : Bool
  pub match_data : Bool

pub data Href : Type 0 where
  returned : (status : ℕ) → Held → UrlQueue → Href
  fault : Href
  unfinished : Href

-- after `pcre2_match_data_create_from_pattern`
abbrev pub created : Held
created = record { code = true; match_data = true }

-- `pcre2_match_data_free(match_data); pcre2_code_free(re);`
abbrev pub release : Held → Held
release h = record h { match_data = false; code = false }

unfoldable pub crlf_is_newline : Newline → Bool
crlf_is_newline cr = false
crlf_is_newline lf = false
crlf_is_newline crlf = true
crlf_is_newline any = true
crlf_is_newline any_crlf = true

-- `(int)(end - start)`, as the `size_t` that `URLQput` takes
unfoldable pub url_len : ℕ × ℕ → ℕ
url_len r =
    let n = (r.1 + 2 ^ 64 - r.0) % 2 ^ 64 % 2 ^ 32 in
    if ltb n (2 ^ 31) then n else n + 2 ^ 64 - 2 ^ 32

-- `while (ovector[1] < subject_length)`, with as many rounds as bytes are left
unfoldable pub skip_continuation : List ℕ → (rounds : ℕ) → ℕ → ℕ
skip_continuation subject zero o = o
skip_continuation subject (suc rounds) o =
    let rest = skip_continuation subject rounds (o + 1) in
    if get_or subject o 0 / 64 % 4 == 2 then rest else o

-- where to go on when there is no match but an empty one at the offset
unfoldable pub next_offset : Pcre → List ℕ → (start_offset : ℕ) → ℕ
unfolding crlf_is_newline skip_continuation
next_offset p subject start_offset =
    let n = length subject in
    let o = start_offset + 1 in
    if crlf_is_newline p.newline
      && ltb start_offset ((n + 2 ^ 64 - 1) % 2 ^ 64)
      && get_or subject start_offset 0 == 13
      && get_or subject (start_offset + 1) 0 == 10
    then o + 1
    else if p.utf8
    then skip_continuation subject (n - o) o
    else o

-- what follows for each answer of `pcre2_match`
abbrev pub by_match : Match → Href → Href → (ℕ × ℕ → List (ℕ × ℕ) → Href) → Href
by_match no_match missing failed k = missing
by_match error missing failed k = failed
by_match (found whole groups) missing failed k = k whole groups

-- with the queue, where no call faulted
abbrev pub with_queue : Option UrlQueue → (UrlQueue → Href) → Href
with_queue none k = fault
with_queue (some q) k = k q

module _ (malloc : Heap → Option ℕ) (p : Pcre) (subject : List ℕ) where
  -- the loop over the name table
  unfoldable pub put_groups : List (ℕ × ℕ) → (names : List (ℕ × ℕ)) → UrlQueue → Option UrlQueue
  unfolding url_len urlq_put
  put_groups ovector [] q = some q
  put_groups ovector ((hi, lo) ∷ names) q =
      let r = get_or ovector (hi * 256 + lo) (0, 0) in
      and_then (urlq_put malloc q (drop r.0 subject) (url_len r)) (put_groups ovector names)

  -- The loop for the second match and those behind it, from `ovector[0]` and `ovector[1]` on.
  unfoldable pub href_loop : (fuel : ℕ) → ℕ × ℕ → UrlQueue → Href
  unfolding next_offset put_groups
  href_loop zero o q = unfinished
  href_loop (suc fuel) o q =
      let empty = o.0 == o.1 in
      let further = href_loop fuel (o.0, next_offset p subject o.1) q in
      let finished = returned 0 (release created) q in
      let failed = returned 1 (release created) q in
      let again =
        by_match (p.match_from subject o.1 empty) (if empty then further else finished) failed
          λ whole groups.
            with_queue (put_groups (whole ∷ groups) p.name_table q) λ q'. href_loop fuel whole q' in
      if empty && o.0 == length subject then finished else again

  -- A round leaves the offset behind or finds the empty string there once: twice the bytes are enough.
  unfoldable pub my_pcre_href : UrlQueue → Href
  unfolding href_loop put_groups
  my_pcre_href q =
      if not p.compiles
      then returned 1 (record { code = false; match_data = false }) q
      else by_match (p.match_from subject 0 false) (returned 1 (release created) q)
          (returned 1 (release created) q)
          λ whole groups.
            with_queue (put_groups (whole ∷ groups) p.name_table q)
              λ q'. href_loop (2 * length subject + 2) whole q'
