-- ===== src/HashTbl/Layout.antt =====
-- Where hashtbl.c puts the entries in the memory of `entries`: the macro `he_idx`, with the layout
-- of `struct hash_entry` where `long`, `time_t` and pointers are eight bytes.
use silksocks.Base.{ℕ, ◌+◌, ◌-◌, ◌*◌, ◌%◌, ◌^◌, ◌<◌, ◌≤◌, ◌≡◌, arith, leb}

abbrev pub sizeof_hash_entry : ℕ
sizeof_hash_entry = 32

-- the offset of `value`
abbrev pub value_offset : ℕ
value_offset = 24

-- the offset of `he_idx(i)` in `entries`, a `size_t`
unfoldable pub he_idx : (record_size i : ℕ) → ℕ
he_idx record_size i = (i * sizeof_hash_entry + record_size + 2 ^ 64 - 4) % 2 ^ 64

-- the bytes asked of the second `calloc`
unfoldable pub entries_bytes : (size record_size : ℕ) → ℕ
entries_bytes size record_size = size * (sizeof_hash_entry + record_size - 4)

-- The first byte after the value that `memcpy` writes into entry `i`.
unfoldable pub value_end : (record_size i : ℕ) → ℕ
unfolding he_idx
value_end record_size i = he_idx record_size i + value_offset + record_size

-- With four bytes to a value, as in `dns_table`, and fewer than 2 ^ 32 entries, `he_idx(0)` is
-- `entries`, a value ends before the next entry starts, and every entry lies in the allocation.
pub he_idx_disjoint :
    (size i : ℕ)
    → size < 2 ^ 32
    → i < size
    → (he_idx 4 0 ≡ 0)
      × (value_end 4 i ≤ he_idx 4 (i + 1))
      × (he_idx 4 i + sizeof_hash_entry ≤ entries_bytes size 4)
unfolding value_end entries_bytes
he_idx_disjoint size i small lt = omega arith

-- The value of an entry ends before the next entry starts exactly if it has at most eight bytes: four,
-- as in `dns_table`, fit, and sixteen, as for `dns6_table`, do not.
pub he_idx_fits :
    (record_size i : ℕ)
    → 4 ≤ record_size
    → record_size < 2 ^ 32
    → i < 2 ^ 32
    → leb (value_end record_size i) (he_idx record_size (i + 1)) ≡ leb record_size 8
unfolding value_end
he_idx_fits record_size i least most small = ground arith

-- With sixteen bytes to a value, as `dns6_table` would have, the value of every entry runs over the
-- start of the next one, and `empty_entry`, which is `entries`, is not `he_idx(0)`.
pub he_idx_overlaps :
    (i : ℕ) → i < 2 ^ 32 → (he_idx 16 (i + 1) < value_end 16 i) × (0 < he_idx 16 0)
unfolding value_end
he_idx_overlaps i small = omega arith
