-- ===== src/Cache/Ip/Laws.antt =====
-- `cache_putip` of cache.c on a valid cache.
use silksocks.Base.{
  ℕ, suc, ◌+◌, ◌*◌, ◌/◌, ◌^◌, ◌<◌, ◌≤◌, ◌≡◌, ◌⊎◌, inr, List, length, Bool, true, false, some, arith,
  ◌==◌, ◌&&◌, not, if◌then◌else◌, and_then,
}
use silksocks.Cache.Hash.{hash32}
use silksocks.Cache.Table.{insert}
use silksocks.Cache.Insert.{IsValid}
use silksocks.Cache.Grow.{Stored, put-Stored, make_room-roomy, make_room-refused, cache_init_given}
use silksocks.Cache.History.{put_all, recall, put_all-recall}
use silksocks.Cache.Rehash.{fresh, fresh-IsValid, fetch-fresh}
use silksocks.Cache.Ip.{
  Creds, no_creds, sizeof_ip2creds, CacheIp, cache_initip, cache_putip, cache_getip,
}

abbrev pub IsValidIp : CacheIp → Type 0
IsValidIp = IsValid no_creds hash32

module _ (map_malloc : ℕ → Bool) where
  -- A call into a cache with room makes no call of `cache_resizeip`.
  cache_putip-roomy :
      (depth : ℕ) (d : CacheIp) (key : ℕ) (creds : Creds)
      → IsValidIp d
      → d.elements < d.size / 2
      → cache_putip map_malloc (suc depth) d key creds ≡ insert no_creds hash32 d key creds
  unfolding cache_putip
  cache_putip-roomy depth d key creds valid room = rw (make_room-roomy _ d room)

  pub put-Stored_ip :
      (depth : ℕ) (c : CacheIp) (key : ℕ) (creds : Creds)
      → IsValidIp c
      → c.size < 2 ^ 31
      → (c.elements < c.size / 2) ⊎ (map_malloc (c.size * 2 * sizeof_ip2creds) ≡ true)
      → (c' : CacheIp) × (cache_putip map_malloc (suc (suc depth)) c key creds ≡ some c')
        × Stored no_creds hash32 c key creds c'
  unfolding cache_putip
  put-Stored_ip depth c key creds valid bound given =
      put-Stored no_creds hash32 map_malloc sizeof_ip2creds c valid (omega arith)
        (omega (arith, bound)) bound (cache_putip map_malloc (suc depth)) key creds
        (cache_putip-roomy depth) given

  -- If the cache is valid, it has fewer than 2 ^ 31 slots, and it has room or memory is
  -- given for that table, `cache_putip` ends with calls two deep or deeper allowed. It leaves a
  -- valid cache that finds the credentials under the address, unless that is 0, and finds under
  -- every other address what it found before.
  pub cache_putip_stores :
      (depth : ℕ) (c : CacheIp) (key : ℕ) (creds : Creds)
      → IsValidIp c
      → c.size < 2 ^ 31
      → (c.elements < c.size / 2) ⊎ (map_malloc (c.size * 2 * sizeof_ip2creds) ≡ true)
      → (c' : CacheIp) × (cache_putip map_malloc (suc (suc depth)) c key creds ≡ some c')
        × IsValidIp c'
        × ((j : ℕ)
            → cache_getip c' j
              ≡ (if (j == key) && not (key == 0) then some (some creds) else cache_getip c j))
  unfolding cache_getip
  cache_putip_stores depth c key creds valid bound given =
      let (c', run, s) = put-Stored_ip depth c key creds valid bound given in
      (c', run, s.valid, s.reads)

  -- If half of the slots are counted and memory for the doubled table is refused, `cache_putip`
  -- returns and leaves the cache as it was: the credentials are dropped.
  pub cache_putip_refused :
      (depth : ℕ) (c : CacheIp) (key : ℕ) (creds : Creds)
      → IsValidIp c
      → c.size < 2 ^ 31
      → c.size / 2 ≤ c.elements
      → map_malloc (c.size * 2 * sizeof_ip2creds) ≡ false
      → cache_putip map_malloc (suc depth) c key creds ≡ some c
  unfolding cache_putip
  cache_putip_refused depth c key creds valid bound full refused = rw (
      make_room-refused no_creds hash32 map_malloc sizeof_ip2creds c valid (omega arith)
        (omega (arith, bound)) bound (cache_putip map_malloc depth) full refused)

  -- With memory always given, a cache made by `cache_initip` for `n` slots and then given any
  -- calls of `cache_putip` (with fewer than 2 ^ 31 slots throughout) is a dictionary:
  -- every call ends, and a lookup finds the credentials of the last call with that address, none if
  -- there was no such call or the address is 0.
  pub cache_ip_refines :
      (n : ℕ) (puts : List (ℕ × Creds))
      → ((bytes : ℕ) → map_malloc bytes ≡ true)
      → 0 < n
      → n + 4 * length puts + 2 < 2 ^ 31
      → (c' : CacheIp) × (and_then
            (cache_initip map_malloc n)
            (put_all (cache_putip map_malloc 2) puts)
          ≡ some c')
        × ((j : ℕ) → cache_getip c' j ≡ some (recall (λ k. k) j puts))
  unfolding cache_getip cache_initip
  cache_ip_refines n puts given pos bound =
      let (c', run, valid, reads) =
        put_all-recall no_creds hash32 (λ k. k) (cache_putip map_malloc 2)
          (λ c k v valid b. put-Stored_ip 0 c k v valid b (inr (given _))) puts (fresh no_creds n)
          (n + 4 * length puts + 2) (fresh-IsValid no_creds hash32 n pos) bound (omega arith)
          (omega arith) in
      (
        c',
        rw
            (cache_init_given no_creds map_malloc sizeof_ip2creds n pos (omega arith) (omega arith)
              (given _))
            run,
        λ j. ground (arith, reads j, fetch-fresh no_creds hash32 n j pos),
      )
