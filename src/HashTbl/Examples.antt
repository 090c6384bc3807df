-- ===== src/HashTbl/Examples.antt =====
-- The theorems on hashtbl.c at a concrete table.
use silksocks.Base.{
  ℕ, ◌+◌, ◌≡◌, leb, refl, true, none, some, List, [], ◌∷◌, arith, ◌==◌, ltb, if◌then◌else◌, length,
  take, replicate,
}
use silksocks.Cache.Hash.{hash_str}
use silksocks.HashTbl.{HashTable, hashtbl_init, hashtbl_check, hashtbl_put, hashtbl_get, link_from}
use silksocks.HashTbl.Layout.{he_idx, value_end, he_idx_fits}
use silksocks.HashTbl.Valid.{IsValid, find, fresh_table, hashtbl_init-IsValid}
use silksocks.HashTbl.Get.{hashtbl_get_lem}
use silksocks.HashTbl.Put.{hashtbl_put-IsValid, hashtbl_put_stores}
use silksocks.HashTbl.Collide.{hashtbl_get_collides}

-- four entries of four bytes
abbrev pub table : HashTable
table = fresh_table 4

-- "ab", "bA" and 10.0.0.1
abbrev pub name : List ℕ
name = 97 ∷ 98 ∷ []

abbrev other_name : List ℕ
other_name = 98 ∷ 65 ∷ []

abbrev pub ip : List ℕ
ip = 10 ∷ 0 ∷ 0 ∷ 1 ∷ []

pub table-IsValid : IsValid table
unfolding hashtbl_init
table-IsValid = (hashtbl_init-IsValid true true 4 table (omega arith) refl).0

-- the table with the name, until time 300
abbrev pub stored : HashTable
stored = (hashtbl_put table name ip 300 0 0).1

pub stored-IsValid : IsValid stored
stored-IsValid = (hashtbl_put-IsValid table table-IsValid name ip 300 0 0).0

hashtbl_get_lem_example :
    ((hashtbl_get stored name 301).0 ≡ find stored name 301)
    × IsValid (hashtbl_get stored name 301).1
    × (find (hashtbl_get stored name 301).1 name 302 ≡ find stored name 302)
hashtbl_get_lem_example = hashtbl_get_lem stored stored-IsValid name 301 name 302 (omega arith)

hashtbl_put-IsValid_example :
    IsValid (hashtbl_put stored other_name ip 301 1 1).1
    × ((hashtbl_put stored other_name ip 301 1 1).0 ≡ ltb 0 (length stored.empty))
hashtbl_put-IsValid_example = hashtbl_put-IsValid stored stored-IsValid other_name ip 301 1 1

hashtbl_put_stores_example : find (hashtbl_put table name ip 300 0 0).1 name 300 ≡ (
    if hash_str name == hash_str name
    then if ltb 300 300 then none else some (take 4 ip)
    else find table name 300)
unfolding hashtbl_put hashtbl_check hash_str link_from replicate
hashtbl_put_stores_example =
    hashtbl_put_stores table table-IsValid name ip 300 0 0 refl refl name 300 (omega arith)

hashtbl_get_collides_example :
    (hashtbl_get (hashtbl_put table name ip 300 0 0).1 other_name 300).0 ≡ some (take 4 ip)
unfolding hashtbl_put hashtbl_check hash_str link_from replicate
hashtbl_get_collides_example =
    hashtbl_get_collides table [] [] 97 65 ip 300 0 0 300 table-IsValid (omega arith) (omega arith)
      refl refl (omega arith) (omega arith)

he_idx_fits_example : leb (value_end 16 7) (he_idx 16 (7 + 1)) ≡ leb 16 8
he_idx_fits_example = he_idx_fits 16 7 (omega arith) (omega arith) (omega arith)
