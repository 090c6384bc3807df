-- ===== src/Cache/Table.antt =====
-- What the two caches of cache.c share: a table of slots, found by a key from its home index on.
-- A slot is free when its key is 0. `V` is what a slot holds beside its key (`user` and `passwd`
-- in `struct ip2creds`, `passwd` in `struct app2passwd`); `hash` gives the home index.
use silksocks.Base.{
  ℕ, zero, suc, ◌+◌, ◌*◌, ◌/◌, ◌%◌, ◌^◌, Bool, true, false, Option, none, some, List, [], ◌∷◌, ◌==◌,
  and_then, leb, ltb, if◌then◌else◌, get_or, set, replicate,
}

pub record Slot (V : Type 0) : Type 0 where
  pub key : ℕ
  pub value : V

pub record Cache (V : Type 0) : Type 0 where
  pub elements : ℕ
  pub size : ℕ
  pub map : List (Slot V)

module _ {V : Type 0} (zeroed : V) where
  abbrev pub free_slot : Slot V
  free_slot = record { key = 0; value = zeroed }

  -- `malloc` of `bytes` for `c->map`, if it gives them, and the `memset` of them: the slots that fit
  unfoldable pub cache_init : (map_malloc : ℕ → Bool) → (slot_size : ℕ) → ℕ → Option (Cache V)
  cache_init map_malloc slot_size initsize =
      let bytes = (initsize * slot_size) % 2 ^ 64 in
      if initsize == 0
      then none
      else if map_malloc bytes
      then some
          (record { elements = 0; size = initsize; map = replicate (bytes / slot_size) free_slot })
      else none

  abbrev pub slot : Cache V → ℕ → Slot V
  slot c id = get_or c.map id free_slot

  -- `for (id = …; map[id].key != 0; id = (id+1) % size) if (map[id].key == key) break;`
  -- `none` when the rounds run out.
  unfoldable pub probe : Cache V → ℕ → (rounds : ℕ) → ℕ → Option ℕ
  probe c key zero id = none
  probe c key (suc rounds) id =
      let next = probe c key rounds ((id + 1) % c.size) in
      if (slot c id).key == 0 then some id else if (slot c id).key == key then some id else next

  -- the writes after the loop: a new element is counted, an old one replaced
  unfoldable pub store : Cache V → ℕ → ℕ → V → Cache V
  store c id key v = record {
    elements = if (slot c id).key == 0 then c.elements + 1 else c.elements;
    size = c.size;
    map = set c.map id (record { key = key; value = v });
  }

  module _ (hash : ℕ → ℕ) where
    abbrev pub home : Cache V → ℕ → ℕ
    home c key = hash key % c.size

    -- the loop, then the writes: as many rounds as there are slots
    unfoldable pub insert : Cache V → ℕ → V → Option (Cache V)
    insert c key v = and_then (probe c key c.size (home c key)) (λ id. some (store c id key v))

    -- The outer option is `none` when the loop does not end, the inner one when it ends at a free
    -- slot, where the code returns 0.
    unfoldable pub fetch : Cache V → ℕ → Option (Option V)
    fetch c key =
        and_then (probe c key c.size (home c key))
          (λ id. some (if (slot c id).key == 0 then none else some (slot c id).value))

-- The loop of the two `resize` functions over the old slots, of which `resize` sees to it that an `int`
-- can count them; `put` adds one entry to `temp`.
unfoldable pub rehash :
    {V : Type 0} → (Cache V → ℕ → V → Option (Cache V)) → List (Slot V) → Cache V → Option (Cache V)
rehash put [] temp = some temp
rehash put (s ∷ slots) temp =
    and_then (if s.key == 0 then some temp else put temp s.key s.value) (λ t. rehash put slots t)

-- The two `resize` functions: 0 and `c` as it was when `temp` cannot be made, else 1 and `temp`.
-- The index of the loop is an `int`, which overflows from 2 ^ 31 slots on: then, and when a `put` does
-- not end, the outer option is `none`.
unfoldable pub resize :
    {V : Type 0} (zeroed : V) (map_malloc : ℕ → Bool) (slot_size : ℕ)
    → (Cache V → ℕ → V → Option (Cache V))
    → Cache V
    → ℕ
    → Option (Bool × Cache V)
resize zeroed map_malloc slot_size put c newsize =
    elim (cache_init zeroed map_malloc slot_size newsize) [
      | none ↦ some (false, c)
      | some temp ↦
          let moved = rehash put c.map temp in
          if ltb c.size (2 ^ 31) then and_then moved (λ temp'. some (true, temp')) else none
    ]

-- The first statements of the two `put` functions: doubling when half of the slots are counted.
unfoldable pub make_room :
    {V : Type 0} → (Cache V → ℕ → Option (Bool × Cache V)) → Cache V → Option (Bool × Cache V)
make_room grow c =
    if leb (c.size / 2) c.elements then grow c ((c.size * 2) % 2 ^ 64) else some (true, c)
