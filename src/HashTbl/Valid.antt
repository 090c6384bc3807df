-- ===== src/HashTbl/Valid.antt =====
-- The invariant of the DNS table, what a lookup in it means, and a write to one bucket.
use silksocks.Base.{
  ℕ, ◌+◌, ◌%◌, ◌<◌, ◌≡◌, ◌∙◌, inl, inr, Bool, Option, none, some, List, [], arith, ◌==◌, ==→eq, ltb,
  if◌then◌else◌, set, length, length-set, get_or-set, replicate, length-replicate, get_or-replicate,
  Bool-cases,
}
use silksocks.Cache.Hash.{hash_str}
use silksocks.HashTbl.{ipv4_size, Node, HashTable, bucket, hashtbl_init, link_from}
use silksocks.HashTbl.Lists.{
  live, count, All, count_all, count_all-set, count_all-replicate, count-link_from,
}
use mathlib.Core.Path.{subst}
use native.Mathlib.Nat.{mod-lt}

-- There are `size` buckets, an entry is in the bucket of its hash, and each of the `size` indices
-- occurs exactly once, in the pool or in a bucket.
pub record IsValid (t : HashTable) : Type 0 where
  pub width : length t.table ≡ t.size
  pub pos : 0 < t.size
  pub placed : (b : ℕ) → b < t.size → All t.size b (bucket t b)
  pub owned : (s : ℕ) → count s t.empty + count_all s t.table ≡ (if ltb s t.size then 1 else 0)

-- the address that the table holds for a key at a time, if any
abbrev pub find : HashTable → List ℕ → (now : ℕ) → Option (List ℕ)
find t key now = live (hash_str key) now ipv4_size (bucket t (hash_str key % t.size))

abbrev pub fresh_table : ℕ → HashTable
fresh_table size = record { size = size; table = replicate size []; empty = link_from 0 size }

fresh_table-IsValid :
    (size : ℕ)
    → 0 < size
    → IsValid (fresh_table size)
      × ((key : List ℕ) (now : ℕ) → find (fresh_table size) key now ≡ none)
fresh_table-IsValid size pos = (
  record {
    width = length-replicate size [];
    pos = pos;
    placed = λ b lt. rw get_or-replicate tt;
    owned = λ s. ground (arith, count-link_from s 0 size, count_all-replicate s size);
  },
  λ key now. rw get_or-replicate,
)

-- A table that `hashtbl_init` makes for at least one entry is valid and holds nothing.
pub hashtbl_init-IsValid :
    (a b : Bool) (size : ℕ) (t : HashTable)
    → 0 < size
    → hashtbl_init a b size ≡ some t
    → IsValid t × ((key : List ℕ) (now : ℕ) → find t key now ≡ none)
unfolding hashtbl_init
hashtbl_init-IsValid a b size t pos h =
    let e : fresh_table size ≡ t = ground arith in
    subst (λ u. IsValid u × ((key : List ℕ) (now : ℕ) → find u key now ≡ none)) e
      (fresh_table-IsValid size pos)

module _ (t : HashTable) (valid : IsValid t) where
  pub idx-lt : (key : List ℕ) → hash_str key % t.size < t.size
  idx-lt key = mod-lt (hash_str key) valid.pos

  -- another list in one bucket, and a pool, that own the same entries
  pub replace-IsValid :
      (idx : ℕ) (chain pool : List Node)
      → idx < t.size
      → All t.size idx chain
      → ((s : ℕ) → count s chain + count s pool ≡ count s (bucket t idx) + count s t.empty)
      → IsValid (record t { table = set t.table idx chain; empty = pool })
  replace-IsValid idx chain pool lt all same = record {
    width = length-set t.table idx chain ∙ valid.width;
    pos = valid.pos;
    placed = λ b blt.
        rw (get_or-set t.table idx b chain [] (omega (arith, valid.width)))
          (elim (Bool-cases (idx == b)) [
            | inl e ↦ rw e (subst (λ k. All t.size k chain) (==→eq idx b e) all)
            | inr e ↦ rw e (valid.placed b blt)
          ]);
    owned = λ s. omega (
      arith,
      same s,
      valid.owned s,
      count_all-set s t.table idx chain (omega (arith, valid.width)),
    );
  }

  -- what a lookup reads after the list at `idx` is replaced
  pub find-replace :
      (idx : ℕ) (chain pool : List Node) (key : List ℕ) (now : ℕ)
      → idx < t.size
      → find (record t { table = set t.table idx chain; empty = pool }) key now ≡ (
          if idx == hash_str key % t.size
          then live (hash_str key) now ipv4_size chain
          else find t key now)
  find-replace idx chain pool key now lt =
      ground (
        arith,
        get_or-set t.table idx (hash_str key % t.size) chain [] (omega (arith, valid.width)),
      )
