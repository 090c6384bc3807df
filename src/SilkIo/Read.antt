-- ===== src/SilkIo/Read.antt =====
-- `readn_timeo` of silkio.c and the byte stream.
use silksocks.Base.{
  ℕ, zero, suc, ◌-◌, ◌<◌, ◌≤◌, ◌≡◌, refl, sym, ap, ◌∙◌, ◌⊎◌, inl, inr, Bool, true, false, none,
  some, List, [], ◌∷◌, ◌++◌, arith, append_assoc, append-nil, leb, if◌then◌else◌, length, take,
  drop, length-append,
}
use silksocks.SilkIo.{ReadEvent, chunk, Received, readn_loop, Socket, readn_timeo}

-- the bytes that can be read before the stream ends or fails
abbrev pub payload : List ReadEvent → List ℕ
payload [] = []
payload (ReadEvent.eof ∷ es) = []
payload (ReadEvent.eintr ∷ es) = payload es
payload (ReadEvent.error ∷ es) = []
payload (chunk b bs ∷ es) = (b ∷ bs) ++ payload es

-- whether the stream ends by the peer's close
abbrev pub closes : List ReadEvent → Bool
closes [] = false
closes (ReadEvent.eof ∷ es) = true
closes (ReadEvent.eintr ∷ es) = closes es
closes (ReadEvent.error ∷ es) = false
closes (chunk b bs ∷ es) = closes es

module _ {ℓ} {A : Type ℓ} where
  take-append_le : (n : ℕ) (xs ys : List A) → n ≤ length xs → take n (xs ++ ys) ≡ take n xs
  take-append_le zero xs ys h = refl
  take-append_le (suc n) [] ys h = absurd (omega arith)
  take-append_le (suc n) (x ∷ xs) ys h = ap (λ r. x ∷ r) (take-append_le n xs ys (omega arith))

  drop-append_le : (n : ℕ) (xs ys : List A) → n ≤ length xs → drop n (xs ++ ys) ≡ drop n xs ++ ys
  drop-append_le zero xs ys h = refl
  drop-append_le (suc n) [] ys h = absurd (omega arith)
  drop-append_le (suc n) (x ∷ xs) ys h = drop-append_le n xs ys (omega arith)

  take-append_ge :
      (n : ℕ) (xs ys : List A) → length xs ≤ n → take n (xs ++ ys) ≡ xs ++ take (n - length xs) ys
  take-append_ge n [] ys h = ap (λ k. take k ys) (omega arith)
  take-append_ge zero (x ∷ xs) ys h = absurd (omega arith)
  take-append_ge (suc n) (x ∷ xs) ys h =
      ap (λ r. x ∷ r)
        (take-append_ge n xs ys (omega arith) ∙ ap (λ k. xs ++ take k ys) (omega arith))

  drop-append_ge :
      (n : ℕ) (xs ys : List A) → length xs ≤ n → drop n (xs ++ ys) ≡ drop (n - length xs) ys
  drop-append_ge n [] ys h = ap (λ k. drop k ys) (omega arith)
  drop-append_ge zero (x ∷ xs) ys h = absurd (omega arith)
  drop-append_ge (suc n) (x ∷ xs) ys h =
      drop-append_ge n xs ys (omega arith) ∙ ap (λ k. drop k ys) (omega arith)

  take-all : (n : ℕ) (xs : List A) → drop n xs ≡ [] → (take n xs ≡ xs) × (length xs ≤ n)
  take-all zero [] h = (refl, omega arith)
  take-all zero (x ∷ xs) h = absurd (ground arith)
  take-all (suc n) [] h = (refl, omega arith)
  take-all (suc n) (x ∷ xs) h = let (t, l) = take-all n xs h in (ap (λ r. x ∷ r) t, omega arith)

  drop-more : (n : ℕ) (xs : List A) {c : A} {cs : List A} → drop n xs ≡ c ∷ cs → n < length xs
  drop-more zero [] h = absurd (ground arith)
  drop-more zero (x ∷ xs) h = omega arith
  drop-more (suc n) [] h = absurd (ground arith)
  drop-more (suc n) (x ∷ xs) h = omega (arith, drop-more n xs h)

List-cases : (xs : List ℕ) → (xs ≡ []) ⊎ ((c : ℕ) × (cs : List ℕ) × (xs ≡ c ∷ cs))
List-cases [] = inl refl
List-cases (c ∷ cs) = inr (c, cs, refl)

-- What the loop returns, from the stream alone: the next bytes if there are enough, else all there
-- are, and then a short count at a close and -1 at an error.
pub record Reads (n nleft : ℕ) (got : List ℕ) (es : List ReadEvent) (r : Received) : Type 0 where
  pub bytes : r.bytes ≡ got ++ take nleft (payload es)
  pub rest : nleft ≤ length (payload es) → payload r.rest ≡ drop nleft (payload es)
  pub count : r.count ≡ (
      if leb nleft (length (payload es))
      then some n
      else if closes es
      then some (n - (nleft - length (payload es)))
      else none)

take-nil_lem : (n : ℕ) → take {A = ℕ} n [] ≡ []
take-nil_lem zero = refl
take-nil_lem (suc n) = refl

drop-nil_lem : (n : ℕ) → drop {A = ℕ} n [] ≡ []
drop-nil_lem zero = refl
drop-nil_lem (suc n) = refl

-- A chunk that is used up, and one that is not.
loop_whole :
    (n k b : ℕ) (got bs : List ℕ) (es : List ReadEvent)
    → drop k bs ≡ []
    → readn_loop n (suc k) got (chunk b bs ∷ es) ≡ readn_loop n (k - length bs) (got ++ b ∷ bs) es
unfolding readn_loop
loop_whole n k b got bs es e =
    rw (readn_loop, e, (take-all k bs e).0)
      (ap (λ m. readn_loop n m (got ++ b ∷ bs) es) (omega arith))

loop_part :
    (n k b c : ℕ) (got bs cs : List ℕ) (es : List ReadEvent)
    → drop k bs ≡ c ∷ cs
    → readn_loop n (suc k) got (chunk b bs ∷ es)
      ≡ record { count = some n; bytes = got ++ b ∷ take k bs; rest = chunk c cs ∷ es }
unfolding readn_loop
loop_part n k b c got bs cs es e = rw (readn_loop, e)

pub readn_loop-Reads :
    (n nleft : ℕ) (got : List ℕ) (es : List ReadEvent)
    → Reads n nleft got es (readn_loop n nleft got es)
unfolding readn_loop
readn_loop-Reads n zero got es = record {
  bytes = sym (append-nil got);
  rest = λ h. refl;
  count = ground arith;
}
readn_loop-Reads n (suc k) got [] = record {
  bytes = sym (append-nil got);
  rest = λ h. refl;
  count = ground arith;
}
readn_loop-Reads n (suc k) got (ReadEvent.eof ∷ es) = record {
  bytes = sym (append-nil got);
  rest = λ h. refl;
  count = ground arith;
}
readn_loop-Reads n (suc k) got (ReadEvent.error ∷ es) = record {
  bytes = sym (append-nil got);
  rest = λ h. absurd (omega arith);
  count = ground arith;
}
readn_loop-Reads n (suc k) got (ReadEvent.eintr ∷ es) =
    let r = readn_loop-Reads n (suc k) got es in
    record { bytes = r.bytes; rest = r.rest; count = r.count }
readn_loop-Reads n (suc k) got (chunk b bs ∷ es) = elim (List-cases (drop k bs)) [
  | inl e ↦
      let (all, short) = take-all k bs e in
      let r = readn_loop-Reads n (k - length bs) (got ++ b ∷ bs) es in
      let ge = take-append_ge k bs (payload es) short in
      let dge = drop-append_ge k bs (payload es) short in
      rw (loop_whole n k b got bs es e) (record {
        bytes =
            r.bytes
            ∙ append_assoc got (b ∷ bs) (take (k - length bs) (payload es))
            ∙ ap (λ (t : List ℕ). got ++ b ∷ t) (sym ge);
        rest = λ h. r.rest (omega (arith, length-append bs (payload es))) ∙ sym dge;
        count = r.count ∙ ground (arith, length-append bs (payload es));
      })
  | inr (c, cs, e) ↦
      let more = drop-more k bs e in
      rw (loop_part n k b c got bs cs es e) (record {
        bytes =
            ap (λ (t : List ℕ). got ++ b ∷ t)
              (sym (take-append_le k bs (payload es) (omega arith)));
        rest = λ h.
            ap (λ (t : List ℕ). t ++ payload es) (sym e)
            ∙ sym (drop-append_le k bs (payload es) (omega arith));
        count = ground (arith, length-append bs (payload es));
      })
]

-- `readn_timeo` returns what the stream says, if the timeout can be set: with `n` bytes to come it
-- returns `n` and those bytes, and else -1, or the number of bytes that came before the peer closed.
-- How the stream is cut into chunks, and interrupted calls, make no difference.
pub readn_timeo_lem :
    (fd : Socket) (n : ℕ)
    → fd.rcvtimeo ≡ true
    → ((readn_timeo fd n).0 ≡ (
        if leb n (length (payload fd.incoming))
        then some n
        else if closes fd.incoming
        then some (length (payload fd.incoming))
        else none))
      × ((readn_timeo fd n).1 ≡ take n (payload fd.incoming))
unfolding readn_timeo
readn_timeo_lem fd n set =
    let r = readn_loop-Reads n n [] fd.incoming in rw set (r.count ∙ ground arith, r.bytes)

-- A `readn_timeo` that gets its `n` bytes leaves the stream behind them: two in a row read what one
-- read of both lengths would.
pub readn_timeo_rest :
    (fd : Socket) (n : ℕ)
    → fd.rcvtimeo ≡ true
    → n ≤ length (payload fd.incoming)
    → payload (readn_timeo fd n).2.incoming ≡ drop n (payload fd.incoming)
unfolding readn_timeo
readn_timeo_rest fd n set enough =
    let r = readn_loop-Reads n n [] fd.incoming in rw set (r.rest enough)
