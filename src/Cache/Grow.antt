-- ===== src/Cache/Grow.antt =====
-- Doubling a cache: the first statements of the two `put` functions of cache.c.
use silksocks.Base.{
  ℕ, ◌+◌, ◌*◌, ◌/◌, ◌%◌, ◌^◌, ◌<◌, ◌≤◌, ◌≡◌, refl, sym, ◌∙◌, ◌⊎◌, inl, inr, Bool, true, false,
  Option, none, some, arith, ◌==◌, if◌then◌else◌, and_then, leb, ltb, ◌&&◌, not, Bool-cases,
}
use silksocks.Cache.Table.{Cache, cache_init, insert, fetch, resize, make_room}
use silksocks.Cache.Zero.{insert-zero}
use silksocks.Cache.Insert.{IsValid, insert-Inserted, probe-total, fetch_free}
use silksocks.Cache.Rehash.{fresh, fresh-IsValid, fetch-fresh, fetch-last_value, rehash-Rehashed}
use native.Mathlib.Decide.{ℕ_discrete}
use native.Mathlib.Nat.{mod-eq_of_lt, mul-div_cancel}

-- `init` where memory is given: all slots free
pub cache_init_given :
    {V : Type 0} (zeroed : V) (map_malloc : ℕ → Bool) (slot_size n : ℕ)
    → 0 < n
    → 0 < slot_size
    → n * slot_size < 2 ^ 64
    → map_malloc (n * slot_size) ≡ true
    → cache_init zeroed map_malloc slot_size n ≡ some (fresh zeroed n)
unfolding cache_init
cache_init_given zeroed map_malloc slot_size n pos sized bound given =
    let b : (n * slot_size) % 2 ^ 64 ≡ n * slot_size = mod-eq_of_lt bound in
    rw (b, given, mul-div_cancel n sized) (ground arith)

module _ {V : Type 0} (zeroed : V) (hash : ℕ → ℕ) where
  -- The key 0 is never found.
  pub fetch-zero : (c : Cache V) → IsValid zeroed hash c → fetch zeroed hash c 0 ≡ some none
  fetch-zero c v =
      let (p, found, lt, at) = probe-total zeroed hash c 0 v in
      fetch_free zeroed hash c 0 p found (ground arith)

  -- a valid cache with room for an entry, and with the lookups of `c`
  pub record HasRoom (c c' : Cache V) : Type 0 where
    pub valid : IsValid zeroed hash c'
    pub room : c'.elements < c'.size / 2
    pub few : c'.elements ≤ c.elements
    pub fits : (c'.size ≤ c.size) ⊎ (c'.size ≤ 4 * c.elements + 2)
    pub reads : (j : ℕ) → fetch zeroed hash c' j ≡ fetch zeroed hash c j

  -- What a `put` of `v` under `key` leaves. Under the key 0 nothing is found.
  pub record Stored (c : Cache V) (key : ℕ) (v : V) (c' : Cache V) : Type 0 where
    pub valid : IsValid zeroed hash c'
    pub elements : c'.elements ≤ c.elements + 1
    pub fits : (c'.size ≤ c.size) ⊎ (c'.size ≤ 4 * c.elements + 2)
    pub reads :
        (j : ℕ)
        → fetch zeroed hash c' j
          ≡ (if (j == key) && not (key == 0) then some (some v) else fetch zeroed hash c j)

  -- An insertion with room stores, under any key.
  insert-Stored :
      (c c₁ : Cache V) (key : ℕ) (v : V)
      → HasRoom c c₁
      → (c' : Cache V) × (insert zeroed hash c₁ key v ≡ some c') × Stored c key v c'
  insert-Stored c c₁ key v h = elim (ℕ_discrete key 0) [
    | yes z ↦
        let (c', run, valid, more, size, reads) = insert-zero zeroed hash c₁ h.valid v h.room in
        (
          c',
          rw z run,
          record {
            valid = valid;
            elements = omega (arith, h.few);
            fits = rw size h.fits;
            reads = λ j. ground (arith, reads j, h.reads j);
          },
        )
    | no nz ↦
        let (c', run, i) = insert-Inserted zeroed hash c₁ key v h.valid h.room nz in
        (
          c',
          run,
          record {
            valid = i.valid;
            elements = omega (arith, h.few, i.elements);
            fits = rw i.size h.fits;
            reads = λ j. ground (arith, i.reads j, h.reads j);
          },
        )
  ]

  module _ (map_malloc : ℕ → Bool) (slot_size : ℕ) (c : Cache V) (valid : IsValid zeroed hash c)
      (sized : 0 < slot_size) (bound : c.size * 2 * slot_size < 2 ^ 64)
      (small : c.size < 2 ^ 31) where
    cache_init-none :
        map_malloc (c.size * 2 * slot_size) ≡ false
        → cache_init zeroed map_malloc slot_size (c.size * 2) ≡ none
    unfolding cache_init
    cache_init-none refused =
        let b : (c.size * 2 * slot_size) % 2 ^ 64 ≡ c.size * 2 * slot_size = mod-eq_of_lt bound in
        rw (b, refused) (ground arith)

    double : (c.size * 2) % 2 ^ 64 ≡ c.size * 2
    double = mod-eq_of_lt grind arith

    counted_by_int : ltb c.size (2 ^ 31) ≡ true
    counted_by_int = ground (arith, small)

    module _ (put : Cache V → ℕ → V → Option (Cache V))
        (same : (d : Cache V) (key : ℕ) (v : V)
          → IsValid zeroed hash d
          → d.elements < d.size / 2
          → put d key v ≡ insert zeroed hash d key v) where
      -- A resize to twice the size ends and keeps every lookup.
      pub resize-HasRoom :
          map_malloc (c.size * 2 * slot_size) ≡ true
          → c.size / 2 ≤ c.elements
          → (c' : Cache V) × (resize zeroed map_malloc slot_size put c ((c.size * 2) % 2 ^ 64)
              ≡ some (true, c'))
            × HasRoom c c'
      unfolding resize
      resize-HasRoom given full =
          let (c', run, r) =
            rehash-Rehashed zeroed hash put c.map (fresh zeroed (c.size * 2)) same
              (fresh-IsValid zeroed hash (c.size * 2) (omega (arith, valid.pos)))
              (omega (arith, valid.counted, valid.half)) in
          (
            c',
            rw double (
                ground (
                  arith,
                  cache_init_given zeroed map_malloc slot_size (c.size * 2)
                      (omega (arith, valid.pos)) sized bound given,
                  run,
                  counted_by_int,
                )),
            record {
              valid = r.valid;
              room = omega (arith, r.elements, r.size, valid.counted, valid.half, valid.pos);
              few = omega (arith, r.elements, valid.counted);
              fits = inr (omega (arith, r.size));
              reads = λ j. elim (ℕ_discrete j 0) [
                | yes z ↦ rw z (fetch-zero c' r.valid ∙ sym (fetch-zero c valid))
                | no nz ↦
                    r.reads j nz
                    ∙ ground (
                      arith,
                      fetch-last_value zeroed hash c j valid nz,
                      fetch-fresh zeroed hash (c.size * 2) j (omega (arith, valid.pos)),
                    )
              ];
            },
          )

      -- The first statements of a `put` leave room for an entry, if memory is given where it is asked.
      pub make_room-HasRoom :
          (c.elements < c.size / 2) ⊎ (map_malloc (c.size * 2 * slot_size) ≡ true)
          → (c' : Cache V) × (make_room (resize zeroed map_malloc slot_size put) c
              ≡ some (true, c'))
            × HasRoom c c'
      unfolding make_room
      make_room-HasRoom given = elim (Bool-cases (leb (c.size / 2) c.elements)) [
        | inr roomy ↦ (
          c,
          rw roomy,
          record {
            valid = valid;
            room = ground arith;
            few = omega arith;
            fits = inl (omega arith);
            reads = λ j. refl;
          },
        )
        | inl full ↦
            let (c', run, h) =
              resize-HasRoom (elim given [ inl r ↦ absurd (ground arith) | inr m ↦ m ])
                (ground arith) in
            (c', rw full run, h)
      ]

    -- Refused memory leaves the cache as it was.
    pub make_room-refused :
        (put : Cache V → ℕ → V → Option (Cache V))
        → c.size / 2 ≤ c.elements
        → map_malloc (c.size * 2 * slot_size) ≡ false
        → make_room (resize zeroed map_malloc slot_size put) c ≡ some (false, c)
    unfolding make_room resize
    make_room-refused put full refused = rw double (ground (arith, cache_init-none refused))

    -- A `put` whose first statements leave room ends and stores.
    pub put-Stored :
        (put : Cache V → ℕ → V → Option (Cache V)) (key : ℕ) (v : V)
        → ((d : Cache V) (k : ℕ) (w : V)
            → IsValid zeroed hash d
            → d.elements < d.size / 2
            → put d k w ≡ insert zeroed hash d k w)
        → (c.elements < c.size / 2) ⊎ (map_malloc (c.size * 2 * slot_size) ≡ true)
        → (c' : Cache V) × (and_then
              (make_room (resize zeroed map_malloc slot_size put) c)
              (λ r. if r.0 then insert zeroed hash r.1 key v else some r.1)
            ≡ some c')
          × Stored c key v c'
    put-Stored put key v same given =
        let (c₁, run, h) = make_room-HasRoom put same given in
        let (c', done, s) = insert-Stored c c₁ key v h in (c', rw run done, s)

-- With room, the first statements of a `put` change nothing.
pub make_room-roomy :
    {V : Type 0} (grow : Cache V → ℕ → Option (Bool × Cache V)) (c : Cache V)
    → c.elements < c.size / 2
    → make_room grow c ≡ some (true, c)
unfolding make_room
make_room-roomy grow c room = ground arith
