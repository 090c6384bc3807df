-- ===== src/HashTbl.antt =====
-- The DNS table of hashtbl.c: buckets of linked entries over a fixed pool. A linked list is the
-- list of its nodes, and a node carries its index in `entries` as `slot`, which stands for its
-- address. The functions that change the table hold its mutex, so a call is one step. `now` is what
-- `time(NULL)` returns, and a key's bytes end at the first zero.
pub mod Layout
pub mod Lists
pub mod Valid
pub mod Get
pub mod Put
pub mod Collide
pub mod Examples
use silksocks.Base.{
  ℕ, zero, suc, ◌+◌, ◌%◌, ◌≡◌, Bool, true, false, Option, none, some, List, [], ◌∷◌, ◌&&◌, ◌||◌,
  ◌==◌, ltb, if◌then◌else◌, get_or, set, take, replicate,
}
use silksocks.Cache.Hash.{hash_str}

-- `struct hash_entry`
pub record Node : Type 0 where
  pub slot : ℕ
  pub hash : ℕ
  pub expires : ℕ
  pub value : List ℕ

-- `record_size` of the one table there is, for IPv4 addresses. For another, `empty_entry` and the entries
-- of `he_idx` are not laid out as the code takes them to be (HashTbl/Layout.antt): those are not modelled.
abbrev pub ipv4_size : ℕ
ipv4_size = 4

-- `struct hash_table` with records of that size; `empty` is the list that starts at `empty_entry`
pub record HashTable : Type 0 where
  pub size : ℕ
  pub table : List (List Node)
  pub empty : List Node

-- the entries from index `i` on, as `calloc` and the loop leave them
unfoldable pub link_from : ℕ → ℕ → List Node
link_from i zero = []
link_from i (suc n) = record { slot = i; hash = 0; expires = 0; value = [] } ∷ link_from (i + 1) n

-- `hashtbl_init(hashtbl, size, 4)`. The two `calloc` calls are given their memory or not; -1 is `none`.
-- `size` is not 0, and an `int` can count to it.
unfoldable pub hashtbl_init : (table_given entries_given : Bool) → ℕ → Option HashTable
unfolding link_from
hashtbl_init table_given entries_given size =
    if table_given && entries_given
    then some (record { size = size; table = replicate size []; empty = link_from 0 size })
    else none

-- the list at `table+idx`
abbrev pub bucket : HashTable → ℕ → List Node
bucket t idx = get_or t.table idx []

-- the loop of `hashtbl_check`
unfoldable pub check_chain : (hash now : ℕ) → List Node → Bool
check_chain hash now [] = false
check_chain hash now (phe ∷ chain) =
    if phe.hash == hash && ltb now phe.expires then true else check_chain hash now chain

unfoldable pub hashtbl_check : HashTable → List ℕ → (now : ℕ) → Bool
unfolding check_chain
hashtbl_check t key now = let hash = hash_str key in check_chain hash now (bucket t (hash % t.size))

-- The loop of `hashtbl_put`: what stays in the list, and the pool with what is taken out.
unfoldable pub sweep_put : (hash now : ℕ) → List Node → List Node → List Node × List Node
sweep_put hash now [] empty = ([], empty)
sweep_put hash now (phe ∷ chain) empty =
    let gone = hash == phe.hash || ltb phe.expires now in
    let rest =
      sweep_put hash now chain (if gone then record phe { expires = 0 } ∷ empty else empty) in
    (if gone then rest.0 else phe ∷ rest.0, rest.1)

-- the statements of `hashtbl_put` after its two tests, with the entry taken from the pool
unfoldable pub fill : HashTable → List ℕ → List ℕ → (expires now : ℕ) → Node → List Node → HashTable
unfolding sweep_put
fill t key val expires now first rest =
    let hash = hash_str key in
    let idx = hash % t.size in
    let hentry = record first { hash = hash; expires = expires; value = take ipv4_size val } in
    let swept = sweep_put hash now (bucket t idx) rest in
    record t { table = set t.table idx (hentry ∷ swept.0); empty = swept.1 }

-- the tests of `hashtbl_put`, on the list at `empty_entry`
unfoldable pub put_from :
    List Node → HashTable → List ℕ → List ℕ → (expires checked now : ℕ) → Bool × HashTable
unfolding hashtbl_check fill
put_from [] t key val expires checked now = (false, t)
put_from (first ∷ rest) t key val expires checked now =
    if hashtbl_check t key checked then (true, t) else (true, fill t key val expires now first rest)

-- `checked` is the time in `hashtbl_check`, `now` the time after it. The Boolean is the result.
unfoldable pub hashtbl_put :
    HashTable → List ℕ → List ℕ → (expires checked now : ℕ) → Bool × HashTable
unfolding put_from
hashtbl_put t key val expires checked now = put_from t.empty t key val expires checked now

-- what the loop of `hashtbl_get` leaves of the list and the pool, and the value that it copies
pub record Swept : Type 0 where
  pub chain : List Node
  pub pool : List Node
  pub result : Option (List ℕ)

unfoldable pub sweep_get : (hash now record_size : ℕ) → List Node → List Node → Swept
sweep_get hash now record_size [] empty = record { chain = []; pool = empty; result = none }
sweep_get hash now record_size (phe ∷ chain) empty =
    let gone = ltb phe.expires now in
    let rest =
      sweep_get hash now record_size chain
        (if gone then record phe { expires = 0 } ∷ empty else empty) in
    if gone
    then rest
    else if phe.hash == hash
    then record { chain = phe ∷ chain; pool = empty; result = some (take record_size phe.value) }
    else record rest { chain = phe ∷ rest.chain }

unfoldable pub hashtbl_get : HashTable → List ℕ → (now : ℕ) → Option (List ℕ) × HashTable
unfolding sweep_get
hashtbl_get t key now =
    let hash = hash_str key in
    let idx = hash % t.size in
    let swept = sweep_get hash now ipv4_size (bucket t idx) t.empty in
    (swept.result, record t { table = set t.table idx swept.chain; empty = swept.pool })
