-- ===== src/SilkIo/Write.antt =====
-- `writen_timeo` of silkio.c and what the writes take.
use silksocks.Base.{
  ℕ, zero, suc, ◌+◌, ◌-◌, ◌≡◌, refl, sym, ap, ◌∙◌, true, none, some, List, [], ◌∷◌, ◌++◌, arith,
  append_assoc, append-nil, leb, if◌then◌else◌, length, take, drop, length-drop,
}
use silksocks.SilkIo.{WriteEvent, takes, Written, writen_loop, Socket, writen_timeo}

-- the bytes that the writes take before one fails
abbrev pub capacity : List WriteEvent → ℕ
capacity [] = 0
capacity (WriteEvent.nothing ∷ es) = 0
capacity (WriteEvent.error ∷ es) = 0
capacity (WriteEvent.eintr ∷ es) = capacity es
capacity (takes k ∷ es) = suc k + capacity es

take-nil {ℓ} : {A : Type ℓ} (n : ℕ) → take {A = A} n [] ≡ []
take-nil zero = refl
take-nil (suc n) = refl

take-add {ℓ} :
    {A : Type ℓ} (m n : ℕ) (xs : List A) → take m xs ++ take n (drop m xs) ≡ take (m + n) xs
take-add zero n xs = ap (λ k. take k xs) (omega arith)
take-add (suc m) n [] = take-nil n ∙ sym (take-nil (suc m + n))
take-add (suc m) n (x ∷ xs) =
    ap (λ r. x ∷ r) (take-add m n xs)
    ∙ ap (λ k. take k (x ∷ xs)) {x = suc (m + n)} {y = suc m + n} (omega arith)

count_after :
    (k c rest all n : ℕ)
    → rest ≡ all - k
    → (if leb rest c then some n else none) ≡ (if leb (suc all) (suc k + c) then some n else none)
count_after k c rest all n e = ground arith

pub record Writes (n : ℕ) (out vptr : List ℕ) (es : List WriteEvent) (w : Written) : Type 0 where
  pub bytes : w.bytes ≡ out ++ take (capacity es) vptr
  pub count : w.count ≡ (if leb (length vptr) (capacity es) then some n else none)

pub writen_loop-Writes :
    (n : ℕ) (out vptr : List ℕ) (es : List WriteEvent)
    → Writes n out vptr es (writen_loop n out vptr es)
unfolding writen_loop
writen_loop-Writes n out [] es = record {
  bytes = sym (append-nil out) ∙ ap (λ t. out ++ t) (sym (take-nil (capacity es)));
  count = ground arith;
}
writen_loop-Writes n out (b ∷ bs) [] = record { bytes = sym (append-nil out); count = ground arith }
writen_loop-Writes n out (b ∷ bs) (WriteEvent.nothing ∷ es) = record {
  bytes = sym (append-nil out);
  count = ground arith;
}
writen_loop-Writes n out (b ∷ bs) (WriteEvent.error ∷ es) = record {
  bytes = sym (append-nil out);
  count = ground arith;
}
writen_loop-Writes n out (b ∷ bs) (WriteEvent.eintr ∷ es) =
    let w = writen_loop-Writes n out (b ∷ bs) es in record { bytes = w.bytes; count = w.count }
writen_loop-Writes n out (b ∷ bs) (takes k ∷ es) =
    let w = writen_loop-Writes n (out ++ take (suc k) (b ∷ bs)) (drop (suc k) (b ∷ bs)) es in
    record {
      bytes =
          w.bytes
          ∙ append_assoc out _ _
          ∙ ap (λ t. out ++ t) (take-add (suc k) (capacity es) (b ∷ bs));
      count =
          w.count
          ∙ count_after k (capacity es) (length (drop k bs)) (length bs) n (length-drop k bs);
    }

-- If the timeout can be set, `writen_timeo` returns the length of the data, with all of it sent, if the writes take that much
-- before one fails, and else -1, with the part sent that they took.
pub writen_timeo_lem :
    (fd : Socket) (vptr : List ℕ)
    → fd.sndtimeo ≡ true
    → ((writen_timeo fd vptr).0
        ≡ (if leb (length vptr) (capacity fd.accepts) then some (length vptr) else none))
      × ((writen_timeo fd vptr).1.sent ≡ fd.sent ++ take (capacity fd.accepts) vptr)
unfolding writen_timeo
writen_timeo_lem fd vptr set =
    let w = writen_loop-Writes (length vptr) [] vptr fd.accepts in
    rw set (w.count, ap (λ t. fd.sent ++ t) w.bytes)
