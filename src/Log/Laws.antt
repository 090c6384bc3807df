-- ===== src/Log/Laws.antt =====
-- The bounds of the log's buffers and of its table of names.
use silksocks.Base.{
  ℕ, zero, suc, ◌+◌, ◌-◌, ◌≤◌, ◌≡◌, refl, sym, ap, ◌∙◌, append-nil, pos, negsuc, Bool, true, false,
  Option, none, some, List, [], ◌∷◌, ◌++◌, ltb, leb, take, length, length-append, length-take,
  length-replicate, arith, Bool-cases, inl, inr,
}
use silksocks.Log.{
  syslog_lvl, get_elem?, syslog_lvl2str, maxline, err_doit, spaces, pad_right, pad_left, peer_text,
  addr2logbuf,
}

abbrev pub is_some : {A : Type 0} → Option A → Bool
is_some none = false
is_some (some a) = true

in_table : (n : ℕ) → leb n 7 ≡ true → is_some (get_elem? syslog_lvl n) ≡ true
in_table zero h = refl
in_table (suc zero) h = refl
in_table (suc (suc zero)) h = refl
in_table (suc (suc (suc zero))) h = refl
in_table (suc (suc (suc (suc zero)))) h = refl
in_table (suc (suc (suc (suc (suc zero))))) h = refl
in_table (suc (suc (suc (suc (suc (suc zero)))))) h = refl
in_table (suc (suc (suc (suc (suc (suc (suc zero))))))) h = refl
in_table (suc (suc (suc (suc (suc (suc (suc (suc n)))))))) h = absurd (ground (arith, h))

-- `syslog_lvl2str` gives a name for the levels from 0 to 7 and reads behind its table for every other
-- one, negative levels included.
pub syslog_lvl2str_lem :
    (n : ℕ)
    → (is_some (syslog_lvl2str (pos n)) ≡ leb n 7) × (is_some (syslog_lvl2str (negsuc n)) ≡ false)
unfolding syslog_lvl2str
syslog_lvl2str_lem n = (by_level, refl)
  where
    by_level : is_some (syslog_lvl2str (pos n)) ≡ leb n 7
    by_level = elim (Bool-cases (leb n 7)) [
      | inl low ↦
          let least : ltb 7 n ≡ false = ground (arith, low) in
          rw (syslog_lvl2str, least) (in_table n low ∙ rw low refl)
      | inr high ↦
          let more : ltb 7 n ≡ true = ground (arith, high) in rw (syslog_lvl2str, more, high) refl
    ]

take-append {ℓ} :
    {A : Type ℓ} (n : ℕ) (xs ys : List A)
    → take n xs ++ take (n - length (take n xs)) ys ≡ take n (xs ++ ys)
take-append zero xs ys = refl
take-append (suc n) [] ys = let whole : suc n - 0 ≡ suc n = omega arith in ap (λ k. take k ys) whole
take-append (suc n) (x ∷ xs) ys =
    ap (λ k. x ∷ (take n xs ++ take k ys)) (omega arith) ∙ ap (λ r. x ∷ r) (take-append n xs ys)

-- what is behind the text: a colon, a space and the error, if it is asked for
abbrev pub error_part : (errnoflag : Bool) → List ℕ → List ℕ
error_part true strerror = b':' ∷ b' ' ∷ strerror
error_part false strerror = []

-- `err_doit` logs the text, with the error behind it if that is asked for, cut to 4095 bytes, and a
-- newline; with the terminator that fits in its buffer of 4097 bytes, whatever the text and the error.
pub err_doit_lem :
    (daemon_proc errnoflag : Bool) (level : ℕ) (text strerror : List ℕ)
    → ((err_doit daemon_proc errnoflag level text strerror).1
        ≡ take 4095 (text ++ error_part errnoflag strerror) ++ (10 ∷ []))
      × (length (err_doit daemon_proc errnoflag level text strerror).1 + 1 ≤ 4097)
unfolding err_doit
err_doit_lem d e level text strerror =
    let line = line_of e in
    (
      line,
      omega (
        arith,
        ap length line,
        length-append (take 4095 (text ++ error_part e strerror)) (10 ∷ []),
        length-take 4095 (text ++ error_part e strerror),
      ),
    )
  where
    line_of :
        (f : Bool)
        → (err_doit d f level text strerror).1
          ≡ take 4095 (text ++ error_part f strerror) ++ (10 ∷ [])
    line_of true =
        let n = length (take 4095 text) in
        let left : maxline - n - 1 ≡ 4095 - n = omega arith in
        ap (λ r. r ++ (10 ∷ []))
          (ap (λ k. take 4095 text ++ take k (b':' ∷ b' ' ∷ strerror)) left
            ∙ take-append 4095 text (b':' ∷ b' ' ∷ strerror))
    line_of false = ap (λ r. take 4095 r ++ (10 ∷ [])) (sym (append-nil text))

length-padded : (s : List ℕ) → length s ≤ 51 → length (spaces (25 - length s)) + length s ≤ 51
length-padded s le = omega (arith, length-replicate {A = ℕ} (25 - length s) b' ')

-- With addresses of at most 45 bytes and ports of at most 5 digits, the strings of `addr2logbuf` fit:
-- each of the two in `buf`, which has 52 bytes, and the whole in `log_buf`, which has 256.
pub addr2logbuf_fits :
    (decimal : ℕ → List ℕ) (clipeer srvpeer : List ℕ × ℕ)
    → length clipeer.0 ≤ 45
    → length srvpeer.0 ≤ 45
    → length (decimal clipeer.1) ≤ 5
    → length (decimal srvpeer.1) ≤ 5
    → (length (peer_text decimal (some clipeer.0) clipeer.1) + 1 ≤ 52)
      × (length (peer_text decimal (some srvpeer.0) srvpeer.1) + 1 ≤ 52)
      × (length (addr2logbuf decimal (some clipeer.0, clipeer.1) (some srvpeer.0, srvpeer.1)) + 1
          ≤ 256)
unfolding addr2logbuf peer_text
addr2logbuf_fits decimal clipeer srvpeer a1 a2 d1 d2 =
    let c = peer_text decimal (some clipeer.0) clipeer.1 in
    let s = peer_text decimal (some srvpeer.0) srvpeer.1 in
    let lc : length c ≤ 51 = omega (arith, length-append clipeer.0 (b':' ∷ decimal clipeer.1)) in
    let ls : length s ≤ 51 = omega (arith, length-append srvpeer.0 (b':' ∷ decimal srvpeer.1)) in
    (
      omega (arith, lc),
      omega (arith, ls),
      omega (
        arith,
        length-append (pad_right c ++ (b'-' ∷ [])) (pad_left s),
        length-append (pad_right c) (b'-' ∷ []),
        length-append c (spaces (25 - length c)),
        length-append (spaces (25 - length s)) s,
        length-padded c lc,
        length-padded s ls,
      ),
    )
