-- ===== src/HashTbl/Collide.antt =====
-- The key is kept as its hash alone: what that means for two names with one hash, and when
-- `hashtbl_check` and `hashtbl_get` take an entry for expired.
use silksocks.Base.{
  ℕ, ◌+◌, ◌%◌, ◌≤◌, ◌≡◌, refl, ◌∙◌, ◌≢◌, Bool, true, false, Option, none, some, List, [], ◌∷◌, ◌++◌,
  arith, ==_refl, take,
}
use silksocks.Cache.Hash.{hash_str, hash_str_collision}
use silksocks.HashTbl.{
  ipv4_size, Node, HashTable, bucket, check_chain, hashtbl_check, hashtbl_put, hashtbl_get,
}
use silksocks.HashTbl.Lists.{live}
use silksocks.HashTbl.Valid.{IsValid, find}
use silksocks.HashTbl.Get.{hashtbl_get_lem}
use silksocks.HashTbl.Put.{hashtbl_put-IsValid, hashtbl_put_stores}

abbrev pub is_some : Option (List ℕ) → Bool
is_some none = false
is_some (some v) = true

check_chain-live :
    (hash now r : ℕ) (chain : List Node)
    → check_chain hash now chain ≡ is_some (live hash (now + 1) r chain)
unfolding check_chain
check_chain-live hash now r [] = refl
check_chain-live hash now r (n ∷ chain) = ground (arith, check_chain-live hash now r chain)

-- `hashtbl_check` says yes exactly when a lookup one second later would still find the key.
pub hashtbl_check-find :
    (t : HashTable) (key : List ℕ) (now : ℕ)
    → hashtbl_check t key now ≡ is_some (find t key (now + 1))
unfolding hashtbl_check
hashtbl_check-find t key now =
    check_chain-live (hash_str key) now ipv4_size (bucket t (hash_str key % t.size))

-- In a valid table, after `hashtbl_put` has stored an address for a name (it returned 1 and the
-- name was not live), `hashtbl_get` answers with that address, until it has expired, for the other
-- name that differs by one in a byte and by 33, the other way, in the next.
pub hashtbl_get_collides :
    (t : HashTable) (xs ys : List ℕ) (a b : ℕ) (val : List ℕ) (expires checked now later : ℕ)
    → IsValid t
    → a ≢ 0
    → b ≢ 0
    → (hashtbl_put t (xs ++ (a ∷ (b + 33) ∷ ys)) val expires checked now).0 ≡ true
    → hashtbl_check t (xs ++ (a ∷ (b + 33) ∷ ys)) checked ≡ false
    → now ≤ later
    → later ≤ expires
    → (hashtbl_get
        (hashtbl_put t (xs ++ (a ∷ (b + 33) ∷ ys)) val expires checked now).1
        (xs ++ ((a + 1) ∷ b ∷ ys))
        later).0
      ≡ some (take ipv4_size val)
hashtbl_get_collides t xs ys a b val expires checked now later valid az bz done dead le fresh =
    let key = xs ++ (a ∷ (b + 33) ∷ ys) in
    let other = xs ++ ((a + 1) ∷ b ∷ ys) in
    let t' = (hashtbl_put t key val expires checked now).1 in
    (hashtbl_get_lem t' (hashtbl_put-IsValid t valid key val expires checked now).0 other later
      other later (omega arith)).0
    ∙ hashtbl_put_stores t valid key val expires checked now done dead other later le
    ∙ ground (arith, hash_str_collision xs ys a b az bz, ==_refl (hash_str key))
