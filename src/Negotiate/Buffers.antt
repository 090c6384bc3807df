-- ===== src/Negotiate/Buffers.antt =====
-- The two buffers of the relay of negotiate.c, and their pointers.
use silksocks.Base.{
  ℕ, zero, suc, ◌+◌, ◌-◌, ◌≤◌, ◌≡◌, ◌≢◌, ◌⊎◌, inl, inr, refl, sym, ap, ◌∙◌, List, [], ◌∷◌, ◌++◌,
  ◌==◌, arith, length, take, drop, length-append, length-drop,
}
use silksocks.Negotiate.Stages.{Buffer, empty, bufsize, pending, arrived, stores, advance, drained}

pub record IsBuffer (b : Buffer) : Type 0 where
  pub ordered : b.optr ≤ length b.stored
  pub bounded : length b.stored ≤ bufsize

drop-append {ℓ} :
    {A : Type ℓ} (n : ℕ) (xs ys : List A) → n ≤ length xs → drop n (xs ++ ys) ≡ drop n xs ++ ys
drop-append zero xs ys h = refl
drop-append (suc n) [] ys h = ground arith
drop-append (suc n) (x ∷ xs) ys h = drop-append n xs ys (ground arith)

pub length-take_le {ℓ} : {A : Type ℓ} (n : ℕ) (xs : List A) → length (take n xs) ≤ n
length-take_le zero xs = omega arith
length-take_le (suc n) [] = omega arith
length-take_le (suc n) (x ∷ xs) = let h = length-take_le n xs in ground arith

length-take_le_all {ℓ} : {A : Type ℓ} (n : ℕ) (xs : List A) → length (take n xs) ≤ length xs
length-take_le_all zero xs = omega arith
length-take_le_all (suc n) [] = omega arith
length-take_le_all (suc n) (x ∷ xs) = let h = length-take_le_all n xs in ground arith

take-drop-length {ℓ} :
    {A : Type ℓ} (n : ℕ) (xs : List A) → take n xs ++ drop (length (take n xs)) xs ≡ xs
take-drop-length zero xs = refl
take-drop-length (suc n) [] = refl
take-drop-length (suc n) (x ∷ xs) = ap (λ r. x ∷ r) (take-drop-length n xs)

pub take-take-drop {ℓ} :
    {A : Type ℓ} (m k : ℕ) (xs : List A)
    → take m (take k xs) ++ drop (length (take m (take k xs))) xs ≡ xs
take-take-drop zero k xs = refl
take-take-drop (suc m) zero xs = refl
take-take-drop (suc m) (suc k) [] = refl
take-take-drop (suc m) (suc k) (x ∷ xs) = ap (λ r. x ∷ r) (take-take-drop m k xs)

drop-nil {ℓ} : {A : Type ℓ} (n : ℕ) → drop {A = A} n [] ≡ []
drop-nil zero = refl
drop-nil (suc n) = refl

drop-drop {ℓ} : {A : Type ℓ} (m n : ℕ) (xs : List A) → drop n (drop m xs) ≡ drop (m + n) xs
drop-drop zero n xs = ap (λ k. drop k xs) (omega arith)
drop-drop (suc m) n [] = drop-nil n ∙ sym (drop-nil (suc m + n))
drop-drop (suc m) n (x ∷ xs) =
    drop-drop m n xs ∙ ap (λ k. drop k (x ∷ xs)) {x = suc (m + n)} {y = suc m + n} (omega arith)

drop-length {ℓ} : {A : Type ℓ} (xs : List A) → drop (length xs) xs ≡ []
drop-length [] = refl
drop-length (x ∷ xs) = drop-length xs

pub empty-IsBuffer : IsBuffer empty
empty-IsBuffer = record { ordered = omega arith; bounded = omega arith }

pub stores-IsBuffer :
    (b : Buffer) (x : ℕ) (xs : List ℕ) → IsBuffer b → IsBuffer (stores b (arrived b x xs))
unfolding arrived
stores-IsBuffer b x xs v =
    let h = length-take_le (bufsize - length b.stored) (x ∷ xs) in
    let e = length-append b.stored (arrived b x xs) in
    let h1 = v.ordered in
    let h2 = v.bounded in record { ordered = omega arith; bounded = omega arith }

pub pending-stores :
    (b : Buffer) (bytes : List ℕ) → IsBuffer b → pending (stores b bytes) ≡ pending b ++ bytes
unfolding pending
pending-stores b bytes v = drop-append b.optr b.stored bytes v.ordered

pub length-pending : (b : Buffer) → length (pending b) ≡ length b.stored - b.optr
unfolding pending
length-pending b = length-drop b.optr b.stored

-- the cases of the write's end
advance-cases :
    (b : Buffer) (n : ℕ)
    → ((b.optr + n ≡ length b.stored) × (advance b n ≡ empty))
      ⊎ ((b.optr + n ≢ length b.stored) × (advance b n ≡ record b { optr = b.optr + n }))
unfolding advance
advance-cases b n = ground arith

pub advance-IsBuffer :
    (b : Buffer) (k : ℕ) → IsBuffer b → IsBuffer (advance b (length (take k (pending b))))
advance-IsBuffer b k v =
    let h = length-take_le_all k (pending b) in
    let e = length-pending b in
    let h1 = v.ordered in
    elim (advance-cases b (length (take k (pending b)))) [
      | inl (p, q) ↦ rw q empty-IsBuffer
      | inr (p, q) ↦ rw q (record { ordered = omega arith; bounded = v.bounded })
    ]

pub take-advance :
    (b : Buffer) (k : ℕ)
    → take k (pending b) ++ pending (advance b (length (take k (pending b)))) ≡ pending b
unfolding pending
take-advance b k =
    let n = length (take k (pending b)) in
    let step = take-drop-length k (pending b) in
    let back = drop-drop b.optr n b.stored in
    elim (advance-cases b n) [
      | inl (p, q) ↦ rw q (
          ap (λ t. take k (pending b) ++ t)
            (sym (back ∙ ap (λ j. drop j b.stored) p ∙ drop-length b.stored))
          ∙ step)
      | inr (p, q) ↦ rw q (ap (λ t. take k (pending b) ++ t) (sym back) ∙ step)
    ]

pub drained-advance : (b : Buffer) (n : ℕ) → drained (advance b n) ≡ (b.optr + n == length b.stored)
drained-advance b n = elim (advance-cases b n) [
  | inl (p, q) ↦ rw q (ground arith)
  | inr (p, q) ↦ rw q refl
]
