-- ===== src/HashTbl/Lists.antt =====
-- What the loops of hashtbl.c do to one list: which entries they keep, and how a lookup reads it.
use silksocks.Base.{
  not, ℕ, zero, suc, ◌+◌, ◌%◌, ◌<◌, ◌≤◌, ◌≡◌, refl, ◌≢◌, Option, none, some, List, [], ◌∷◌, arith,
  ◌&&◌, ◌==◌, ltb, if◌then◌else◌, get_or, set, take, length, replicate,
}
use silksocks.HashTbl.{Node, link_from, sweep_put, sweep_get}

-- The value of the first entry that has the hash and has not expired at `now`.
abbrev pub live : (hash now record_size : ℕ) → List Node → Option (List ℕ)
live hash now r [] = none
live hash now r (n ∷ chain) =
    if n.hash == hash && not (ltb n.expires now)
    then some (take r n.value)
    else live hash now r chain

-- how often an index occurs
abbrev pub count : ℕ → List Node → ℕ
count s [] = 0
count s (n ∷ chain) = (if n.slot == s then 1 else 0) + count s chain

-- every entry belongs in bucket `b` of `size`
abbrev pub All : ℕ → ℕ → List Node → Type 0
All size b [] = Unit
All size b (n ∷ chain) = (n.hash % size ≡ b) × All size b chain

module _ (hash now : ℕ) where
  pub count-sweep_put :
      (s : ℕ) (chain empty : List Node)
      → count s (sweep_put hash now chain empty).0 + count s (sweep_put hash now chain empty).1
        ≡ count s chain + count s empty
  unfolding sweep_put
  count-sweep_put s [] empty = omega arith
  count-sweep_put s (n ∷ chain) empty = ground (
    arith,
    count-sweep_put s chain empty,
    count-sweep_put s chain (record n { expires = 0 } ∷ empty),
  )

  pub All-sweep_put :
      (size b : ℕ) (chain empty : List Node)
      → All size b chain
      → All size b (sweep_put hash now chain empty).0
  unfolding sweep_put
  All-sweep_put size b [] empty a = tt
  All-sweep_put size b (n ∷ chain) empty a = ground (
    arith,
    All-sweep_put size b chain empty a.1,
    All-sweep_put size b chain (record n { expires = 0 } ∷ empty) a.1,
  )

  -- An entry with another hash that has not expired is found as before.
  pub live-sweep_put :
      (h later r : ℕ) (chain empty : List Node)
      → h ≢ hash
      → now ≤ later
      → live h later r (sweep_put hash now chain empty).0 ≡ live h later r chain
  unfolding sweep_put
  live-sweep_put h later r [] empty ne le = refl
  live-sweep_put h later r (n ∷ chain) empty ne le = ground (
    arith,
    live-sweep_put h later r chain empty ne le,
    live-sweep_put h later r chain (record n { expires = 0 } ∷ empty) ne le,
  )

  module _ (r : ℕ) where
    pub count-sweep_get :
        (s : ℕ) (chain empty : List Node)
        → count s (sweep_get hash now r chain empty).chain
            + count s (sweep_get hash now r chain empty).pool
          ≡ count s chain + count s empty
    unfolding sweep_get
    count-sweep_get s [] empty = omega arith
    count-sweep_get s (n ∷ chain) empty = ground (
      arith,
      count-sweep_get s chain empty,
      count-sweep_get s chain (record n { expires = 0 } ∷ empty),
    )

    pub All-sweep_get :
        (size b : ℕ) (chain empty : List Node)
        → All size b chain
        → All size b (sweep_get hash now r chain empty).chain
    unfolding sweep_get
    All-sweep_get size b [] empty a = tt
    All-sweep_get size b (n ∷ chain) empty a = ground (
      arith,
      All-sweep_get size b chain empty a.1,
      All-sweep_get size b chain (record n { expires = 0 } ∷ empty) a.1,
    )

    pub result-sweep_get :
        (chain empty : List Node)
        → (sweep_get hash now r chain empty).result ≡ live hash now r chain
    unfolding sweep_get
    result-sweep_get [] empty = refl
    result-sweep_get (n ∷ chain) empty = ground (
      arith,
      result-sweep_get chain empty,
      result-sweep_get chain (record n { expires = 0 } ∷ empty),
    )

    pub live-sweep_get :
        (h later r' : ℕ) (chain empty : List Node)
        → now ≤ later
        → live h later r' (sweep_get hash now r chain empty).chain ≡ live h later r' chain
    unfolding sweep_get
    live-sweep_get h later r' [] empty le = refl
    live-sweep_get h later r' (n ∷ chain) empty le = ground (
      arith,
      live-sweep_get h later r' chain empty le,
      live-sweep_get h later r' chain (record n { expires = 0 } ∷ empty) le,
    )

-- No entry with the hash stays.
pub live-sweep_put_own :
    (hash now later r : ℕ) (chain empty : List Node)
    → live hash later r (sweep_put hash now chain empty).0 ≡ none
unfolding sweep_put
live-sweep_put_own hash now later r [] empty = refl
live-sweep_put_own hash now later r (n ∷ chain) empty = ground (
  arith,
  live-sweep_put_own hash now later r chain empty,
  live-sweep_put_own hash now later r chain (record n { expires = 0 } ∷ empty),
)

-- how often an index occurs in the buckets
abbrev pub count_all : ℕ → List (List Node) → ℕ
count_all s [] = 0
count_all s (chain ∷ table) = count s chain + count_all s table

pub count_all-set :
    (s : ℕ) (table : List (List Node)) (i : ℕ) (chain : List Node)
    → i < length table
    → count_all s (set table i chain) + count s (get_or table i [])
      ≡ count_all s table + count s chain
count_all-set s [] i chain h = absurd (omega arith)
count_all-set s (c ∷ table) zero chain h = omega arith
count_all-set s (c ∷ table) (suc i) chain h =
    omega (arith, count_all-set s table i chain (omega arith))

pub count_all-replicate : (s n : ℕ) → count_all s (replicate n []) ≡ 0
unfolding replicate
count_all-replicate s zero = refl
count_all-replicate s (suc n) = omega (arith, count_all-replicate s n)

pub count-link_from :
    (s i n : ℕ) → count s (link_from i n) ≡ (if not (ltb s i) && ltb s (i + n) then 1 else 0)
unfolding link_from
count-link_from s i zero = ground arith
count-link_from s i (suc n) = ground (arith, count-link_from s (i + 1) n)
