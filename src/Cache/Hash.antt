-- ===== src/Cache/Hash.antt =====
-- The two hash functions of cache.c. `uint32_t` arithmetic wraps at 2 ^ 32, `unsigned long` at
-- 2 ^ 64; a C string is the bytes of its buffer, read up to the first zero.
use silksocks.Base.{
  ℕ, ◌+◌, ◌*◌, ◌/◌, ◌%◌, ◌^◌, bit_xor, ◌≡◌, ap, ◌≢◌, List, [], ◌∷◌, ◌++◌, arith, ◌==◌,
  if◌then◌else◌,
}

abbrev pub u32 : ℕ → ℕ
u32 a = a % 2 ^ 32

abbrev pub u64 : ℕ → ℕ
u64 a = a % 2 ^ 64

-- Robert Jenkins' 32 bit integer hash function
unfoldable pub hash32 : ℕ → ℕ
hash32 a =
    let a₁ = u32 (u32 (a + 0x7ed55d16) + u32 (a * 2 ^ 12)) in
    let a₂ = bit_xor (bit_xor a₁ 0xc761c23c) (a₁ / 2 ^ 19) in
    let a₃ = u32 (u32 (a₂ + 0x165667b1) + u32 (a₂ * 2 ^ 5)) in
    let a₄ = bit_xor (u32 (a₃ + 0xd3a2646c)) (u32 (a₃ * 2 ^ 9)) in
    let a₅ = u32 (u32 (a₄ + 0xfd7046c5) + u32 (a₄ * 2 ^ 3)) in
    bit_xor (bit_xor a₅ 0xb55a4f09) (a₅ / 2 ^ 16)

-- `hash = ((hash << 5) + hash) + c`
unfoldable pub mix : ℕ → ℕ → ℕ
mix hash c = u64 (u64 (u64 (hash * 2 ^ 5) + hash) + c)

-- the loop of `hashStr`, from a value of `hash`
unfoldable pub hash_from : ℕ → List ℕ → ℕ
unfolding mix
hash_from hash [] = hash
hash_from hash (c ∷ str) = if c == 0 then hash else hash_from (mix hash c) str

-- djb2
unfoldable pub hash_str : List ℕ → ℕ
unfolding hash_from
hash_str str = hash_from 5381 str

mix-mix : (h c d : ℕ) → mix (mix h c) (d + 33) ≡ mix (mix h (c + 1)) d
unfolding mix
mix-mix h c d = omega arith

-- Raising one byte by one and lowering the next by 33 keeps the djb2 hash.
pub hash_str_collision :
    (xs ys : List ℕ) (c d : ℕ)
    → c ≢ 0
    → d ≢ 0
    → hash_str (xs ++ (c ∷ (d + 33) ∷ ys)) ≡ hash_str (xs ++ ((c + 1) ∷ d ∷ ys))
unfolding hash_str
hash_str_collision xs ys c d cz dz = hash_from_collision 5381 xs
  where
    hash_from_collision :
        (h : ℕ) (xs : List ℕ)
        → hash_from h (xs ++ (c ∷ (d + 33) ∷ ys)) ≡ hash_from h (xs ++ ((c + 1) ∷ d ∷ ys))
    hash_from_collision h [] = ground (arith, ap (λ k. hash_from k ys) (mix-mix h c d))
    hash_from_collision h (x ∷ xs) = ground (arith, hash_from_collision (mix h x) xs)
