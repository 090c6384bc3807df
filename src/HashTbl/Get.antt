-- ===== src/HashTbl/Get.antt =====
-- `hashtbl_get`: the answer, and what it leaves.
use silksocks.Base.{ℕ, ◌%◌, ◌≤◌, ◌≡◌, ap, ◌∙◌, List, arith}
use silksocks.Cache.Hash.{hash_str}
use silksocks.HashTbl.{ipv4_size, HashTable, bucket, hashtbl_get, sweep_get}
use silksocks.HashTbl.Lists.{count-sweep_get, All-sweep_get, result-sweep_get, live-sweep_get}
use silksocks.HashTbl.Valid.{IsValid, find, idx-lt, replace-IsValid, find-replace}

module _ (t : HashTable) (valid : IsValid t) where
  -- In a valid table `hashtbl_get` returns the address that the table holds for the key at the
  -- time, if any, leaves a valid table, and changes no lookup at that time or later.
  pub hashtbl_get_lem :
      (key : List ℕ) (now : ℕ) (other : List ℕ) (later : ℕ)
      → now ≤ later
      → ((hashtbl_get t key now).0 ≡ find t key now)
        × IsValid (hashtbl_get t key now).1
        × (find (hashtbl_get t key now).1 other later ≡ find t other later)
  unfolding hashtbl_get
  hashtbl_get_lem key now other later le =
      let h = hash_str key in
      let idx = h % t.size in
      let lt = idx-lt t valid key in
      let chain = bucket t idx in
      let r = ipv4_size in
      (
        result-sweep_get h now r chain t.empty,
        replace-IsValid t valid idx (sweep_get h now r chain t.empty).chain
            (sweep_get h now r chain t.empty).pool lt
            (All-sweep_get h now r t.size idx chain t.empty (valid.placed idx lt))
            (λ s. count-sweep_get h now r s chain t.empty),
        find-replace t valid idx (sweep_get h now r chain t.empty).chain
              (sweep_get h now r chain t.empty).pool other later lt
            ∙ ground (
              arith,
              live-sweep_get h now r (hash_str other) later r chain t.empty le,
              ap (bucket t) {x = idx} {y = hash_str other % t.size},
            ),
      )
