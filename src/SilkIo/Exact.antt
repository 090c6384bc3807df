-- ===== src/SilkIo/Exact.antt =====
-- Reads and writes that the socket's script satisfies, as one equation each.
use silksocks.Base.{
  Bool, false, ◌&&◌, ℕ, zero, suc, ◌+◌, ◌≤◌, ◌≡◌, refl, ap, ◌∙◌, true, some, List, [], ◌∷◌, ◌++◌,
  leb, arith, length, take, drop, length-append,
}
use silksocks.SilkIo.{
  ReadEvent, WriteEvent, takes, Socket, readn_loop, readn_timeo, writen_loop, writen_timeo,
}
use silksocks.SilkIo.Read.{payload, readn_loop-Reads}
use silksocks.SilkIo.Write.{capacity, writen_loop-Writes}

take-append {ℓ} : {A : Type ℓ} (xs ys : List A) → take (length xs) (xs ++ ys) ≡ xs
take-append [] ys = refl
take-append (x ∷ xs) ys = ap (λ r. x ∷ r) (take-append xs ys)

drop-append {ℓ} : {A : Type ℓ} (xs ys : List A) → drop (length xs) (xs ++ ys) ≡ ys
drop-append [] ys = refl
drop-append (x ∷ xs) ys = drop-append xs ys

-- the socket with other events to come
abbrev pub reading : List ReadEvent → Socket → Socket
reading es s = record s { incoming = es }

leb-prefix : (a b c : ℕ) → c ≡ a + b → leb a c ≡ true
leb-prefix a b c e = ground arith

-- `readn_timeo` of the bytes at the front of the stream
pub readn_exact :
    (s : Socket) (bytes rest : List ℕ)
    → s.rcvtimeo ≡ true
    → payload s.incoming ≡ bytes ++ rest
    → (es : List ReadEvent) × (readn_timeo s (length bytes)
        ≡ (some (length bytes), bytes, reading es s))
      × (payload es ≡ rest)
unfolding readn_timeo
readn_exact s bytes rest set eq =
    let n = length bytes in
    let loop = readn_loop n n [] s.incoming in
    let r = readn_loop-Reads n n [] s.incoming in
    let total = ap length eq ∙ length-append bytes rest in
    let enough = leb-prefix n (length rest) (length (payload s.incoming)) total in
    let count : loop.count ≡ some n = r.count ∙ rw enough refl in
    let got : loop.bytes ≡ bytes = r.bytes ∙ ap (take n) eq ∙ take-append bytes rest in
    (
      loop.rest,
      rw (set, count, got) refl,
      r.rest (omega (arith, total)) ∙ ap (drop n) eq ∙ drop-append bytes rest,
    )

pub take-all {ℓ} : {A : Type ℓ} (n : ℕ) (xs : List A) → length xs ≤ n → take n xs ≡ xs
take-all zero [] h = refl
take-all zero (x ∷ xs) h = absurd (omega arith)
take-all (suc n) [] h = refl
take-all (suc n) (x ∷ xs) h = ap (λ r. x ∷ r) (take-all n xs (omega arith))

leb-le : (a b : ℕ) → a ≤ b → leb a b ≡ true
leb-le a b h = ground arith

abbrev pub wrote : List ℕ → List WriteEvent → Socket → Socket
wrote bytes es s = record s { accepts = es; sent = s.sent ++ bytes }

-- Writes that take all the bytes, with the ones that are left.
abbrev pub Takes : List ℕ → List WriteEvent → List WriteEvent → Type 0
Takes bytes accepts es =
    writen_loop (length bytes) [] bytes accepts
    ≡ record { count = some (length bytes); bytes = bytes; rest = es }

pub writen-Takes :
    (s : Socket) (bytes : List ℕ) (es : List WriteEvent)
    → s.sndtimeo ≡ true
    → Takes bytes s.accepts es
    → writen_timeo s bytes ≡ (some (length bytes), wrote bytes es s)
unfolding writen_timeo
writen-Takes s bytes es set run = rw (set, run) refl

-- no more bytes than the writes take
pub capacity-Takes :
    (accepts : List WriteEvent) (bytes : List ℕ)
    → length bytes ≤ capacity accepts
    → (es : List WriteEvent) × Takes bytes accepts es
capacity-Takes accepts bytes enough =
    let n = length bytes in
    let loop = writen_loop n [] bytes accepts in
    let w = writen_loop-Writes n [] bytes accepts in
    let count : loop.count ≡ some n = w.count ∙ rw (leb-le n (capacity accepts) enough) refl in
    let all : loop.bytes ≡ bytes = w.bytes ∙ take-all (capacity accepts) bytes enough in
    (loop.rest, λ i. record { count = count i; bytes = all i; rest = loop.rest })

-- There come `n` writes of up to 512 bytes each before one fails.
abbrev pub serves : ℕ → List WriteEvent → Bool
serves zero es = true
serves (suc n) [] = false
serves (suc n) (WriteEvent.nothing ∷ es) = false
serves (suc n) (WriteEvent.error ∷ es) = false
serves (suc n) (WriteEvent.eintr ∷ es) = serves (suc n) es
serves (suc n) (takes k ∷ es) = leb 511 k && serves n es

serves-first : (a b : Bool) → (a && b) ≡ true → (a ≡ true) × (b ≡ true)
serves-first a b h = ground (arith, h)

drop-all {ℓ} : {A : Type ℓ} (n : ℕ) (xs : List A) → length xs ≤ n → drop n xs ≡ []
drop-all zero [] h = refl
drop-all zero (x ∷ xs) h = absurd (omega arith)
drop-all (suc n) [] h = refl
drop-all (suc n) (x ∷ xs) h = drop-all n xs (omega arith)

long_enough : (k m : ℕ) → leb 511 k ≡ true → suc m ≤ 512 → m ≤ k
long_enough k m h le = ground arith

serves_loop :
    (n size : ℕ) (b : ℕ) (bs : List ℕ) (accepts : List WriteEvent)
    → serves (suc n) accepts ≡ true
    → suc (length bs) ≤ 512
    → (es : List WriteEvent) × (writen_loop size [] (b ∷ bs) accepts
        ≡ record { count = some size; bytes = b ∷ bs; rest = es })
      × (serves n es ≡ true)
unfolding writen_loop
serves_loop n size b bs [] h le = absurd (ground (arith, h))
serves_loop n size b bs (WriteEvent.nothing ∷ es) h le = absurd (ground (arith, h))
serves_loop n size b bs (WriteEvent.error ∷ es) h le = absurd (ground (arith, h))
serves_loop n size b bs (WriteEvent.eintr ∷ es) h le = serves_loop n size b bs es h le
serves_loop n size b bs (takes k ∷ es) h le =
    let (wide, more) = serves-first (leb 511 k) (serves n es) h in
    let fits = long_enough k (length bs) wide le in
    (es, rw (drop-all k bs fits, take-all k bs fits, writen_loop) refl, more)

-- one of the writes that are served
pub serves-Takes :
    (n : ℕ) (accepts : List WriteEvent) (b : ℕ) (bs : List ℕ)
    → serves (suc n) accepts ≡ true
    → suc (length bs) ≤ 512
    → (es : List WriteEvent) × Takes (b ∷ bs) accepts es × (serves n es ≡ true)
serves-Takes n accepts b bs h le = serves_loop n (length (b ∷ bs)) b bs accepts h le
