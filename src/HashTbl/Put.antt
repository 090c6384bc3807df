-- ===== src/HashTbl/Put.antt =====
-- `hashtbl_put`: the invariant, and what a lookup finds afterwards.
use silksocks.Base.{
  ℕ, ◌%◌, ◌≤◌, ◌≡◌, refl, sym, ap, ◌∙◌, ◌≢◌, ◌⊎◌, inl, inr, true, false, none, some, List, [], ◌∷◌,
  arith, ◌==◌, ==_refl, ltb, if◌then◌else◌, take, length, take-take, Bool-cases,
}
use silksocks.Cache.Hash.{hash_str}
use silksocks.HashTbl.{
  ipv4_size, Node, HashTable, bucket, hashtbl_check, put_from, hashtbl_put, fill, sweep_put,
}
use silksocks.HashTbl.Lists.{
  live, count, count-sweep_put, All-sweep_put, live-sweep_put, live-sweep_put_own,
}
use mathlib.Core.Path.{subst}
use native.Mathlib.Decide.{ℕ_discrete}
use silksocks.HashTbl.Valid.{IsValid, find, idx-lt, replace-IsValid, find-replace}

module _ (t : HashTable) (valid : IsValid t) where
  module _ (key val : List ℕ) (expires now : ℕ) (first : Node) (rest : List Node)
      (pool : t.empty ≡ first ∷ rest) where
    abbrev hentry : Node
    hentry = record first { hash = hash_str key; expires = expires; value = take ipv4_size val }

    abbrev swept : List Node × List Node
    swept = sweep_put (hash_str key) now (bucket t (hash_str key % t.size)) rest

    fill-IsValid : IsValid (fill t key val expires now first rest)
    unfolding fill
    fill-IsValid =
        let idx = hash_str key % t.size in
        replace-IsValid t valid idx (hentry ∷ swept.0) swept.1 (idx-lt t valid key)
          (
            refl,
            All-sweep_put (hash_str key) now t.size idx (bucket t idx) rest
                (valid.placed idx (idx-lt t valid key)),
          )
          (λ s.
            omega
              (arith, count-sweep_put (hash_str key) now s (bucket t idx) rest, ap (count s) pool))

    -- what a lookup by the hash `h` reads in the filled table
    abbrev Reads : ℕ → ℕ → Type 0
    Reads later h =
        (if hash_str key % t.size == h % t.size
          then live h later ipv4_size (hentry ∷ swept.0)
          else live h later ipv4_size (bucket t (h % t.size)))
        ≡ (if h == hash_str key
            then if ltb expires later then none else some (take ipv4_size val)
            else live h later ipv4_size (bucket t (h % t.size)))

    Reads-own : (later : ℕ) → Reads later (hash_str key)
    Reads-own later =
        let idx = hash_str key % t.size in
        ground (
          arith,
          ==_refl (hash_str key),
          ==_refl idx,
          take-take ipv4_size val,
          live-sweep_put_own (hash_str key) now later ipv4_size (bucket t idx) rest,
        )

    Reads-other : (later h : ℕ) → now ≤ later → h ≢ hash_str key → Reads later h
    Reads-other later h le ne =
        let idx = hash_str key % t.size in
        ground (
          arith,
          live-sweep_put (hash_str key) now h later ipv4_size (bucket t idx) rest ne le,
          ap (bucket t) {x = idx} {y = h % t.size},
        )

    find-fill :
        (other : List ℕ) (later : ℕ)
        → now ≤ later
        → find (fill t key val expires now first rest) other later ≡ (
            if hash_str other == hash_str key
            then if ltb expires later then none else some (take ipv4_size val)
            else find t other later)
    unfolding fill
    find-fill other later le =
        find-replace t valid (hash_str key % t.size) (hentry ∷ swept.0) swept.1 other later
          (idx-lt t valid key)
        ∙ (elim (ℕ_discrete (hash_str other) (hash_str key)) [
          | yes q ↦ subst (Reads later) (sym q) (Reads-own later)
          | no ne ↦ Reads-other later (hash_str other) le ne
        ])

  -- `hashtbl_put` on what the pool is
  put-pool :
      (e : List Node) (key val : List ℕ) (expires checked now : ℕ)
      → t.empty ≡ e
      → hashtbl_put t key val expires checked now ≡ put_from e t key val expires checked now
  unfolding hashtbl_put
  put-pool e key val expires checked now eq = ap (λ l. put_from l t key val expires checked now) eq

  -- `hashtbl_put` leaves a valid table valid, so it neither loses nor doubles an entry, and returns 1
  -- exactly when the pool has an entry.
  pub hashtbl_put-IsValid :
      (key val : List ℕ) (expires checked now : ℕ)
      → IsValid (hashtbl_put t key val expires checked now).1
        × ((hashtbl_put t key val expires checked now).0 ≡ ltb 0 (length t.empty))
  hashtbl_put-IsValid key val expires checked now = by_pool t.empty refl
    where
      by_pool :
          (e : List Node)
          → t.empty ≡ e
          → IsValid (hashtbl_put t key val expires checked now).1
            × ((hashtbl_put t key val expires checked now).0 ≡ ltb 0 (length e))
      by_pool [] e =
          rw (put-pool [] key val expires checked now e) (unfold put_from in (valid, refl))
      by_pool (first ∷ rest) e = rw (put-pool (first ∷ rest) key val expires checked now e) (
          unfold put_from in
          elim (Bool-cases (hashtbl_check t key checked)) [
            | inl l ↦ rw l (valid, ground arith)
            | inr n ↦ rw n (fill-IsValid key val expires now first rest e, ground arith)
          ])

  -- A key that is live, or an exhausted pool, makes `hashtbl_put` change nothing.
  hashtbl_put_refused :
      (key val : List ℕ) (expires checked now : ℕ)
      → (hashtbl_check t key checked ≡ true) ⊎ (t.empty ≡ [])
      → (hashtbl_put t key val expires checked now).1 ≡ t
  hashtbl_put_refused key val expires checked now h = by_pool t.empty refl h
    where
      by_pool :
          (e : List Node)
          → t.empty ≡ e
          → (hashtbl_check t key checked ≡ true) ⊎ (t.empty ≡ [])
          → (hashtbl_put t key val expires checked now).1 ≡ t
      by_pool [] e h = rw (put-pool [] key val expires checked now e) (unfold put_from in refl)
      by_pool (first ∷ rest) e (inl l) =
          rw (put-pool (first ∷ rest) key val expires checked now e) (unfold put_from in rw l refl)
      by_pool (first ∷ rest) e (inr n) = absurd (ground (arith, e, n))

  -- If `hashtbl_put` returns 1 for a key that is not live, then from that time on the table holds
  -- the first 4 bytes of the value for every key with the hash of the given one, until
  -- the entry has expired, and for every other key what it held before.
  pub hashtbl_put_stores :
      (key val : List ℕ) (expires checked now : ℕ)
      → (hashtbl_put t key val expires checked now).0 ≡ true
      → hashtbl_check t key checked ≡ false
      → (other : List ℕ) (later : ℕ) → now ≤ later
      → find (hashtbl_put t key val expires checked now).1 other later ≡ (
          if hash_str other == hash_str key
          then if ltb expires later then none else some (take ipv4_size val)
          else find t other later)
  hashtbl_put_stores key val expires checked now done dead other later le = by_pool t.empty refl
    where
      by_pool :
          (e : List Node)
          → t.empty ≡ e
          → find (hashtbl_put t key val expires checked now).1 other later ≡ (
              if hash_str other == hash_str key
              then if ltb expires later then none else some (take ipv4_size val)
              else find t other later)
      by_pool [] e = absurd (
          unfold put_from in
          let r = sym (put-pool [] key val expires checked now e) in ground arith)
      by_pool (first ∷ rest) e =
          rw (put-pool (first ∷ rest) key val expires checked now e)
            (unfold put_from in rw dead (find-fill key val expires now first rest e other later le))
