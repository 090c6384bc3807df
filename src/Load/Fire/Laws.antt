-- ===== src/Load/Fire/Laws.antt =====
-- A thread of the load generator: no fault, no more transfers than asked for, and logins for the proxies
-- of the list.
use silksocks.Base.{
  ℕ, zero, suc, ◌+◌, ◌-◌, ◌%◌, ◌^◌, ◌<◌, ◌≤◌, ◌≡◌, refl, Bool, true, false, ◌&&◌, some, List, [],
  ◌∷◌, ◌++◌, ◌==◌, leb, ltb, length, length-append, get_or, arith,
}
use native.Mathlib.Nat.{mod-lt}
use silksocks.UrlQueue.{UrlQueue}
use silksocks.UrlQueue.Segment.{Cells}
use silksocks.UrlQueue.Laws.{IsQueue}
use silksocks.UrlQueue.Calls.{urlq_empty-IsQueue, urlq_get-IsQueue}
use silksocks.Load.Fire.{
  port_suffix, Transfer, Fleet, remove_at, Message, done, other, Round, proxy_login, add_transfer,
  init, refill,
}

-- entries of up to 15 bytes
abbrev pub all_short : List (List ℕ) → Bool
all_short [] = true
all_short (l ∷ ls) = leb (length l) 15 && all_short ls

get_or-short : (ls : List (List ℕ)) (k : ℕ) → all_short ls ≡ true → length (get_or ls k []) ≤ 15
get_or-short [] k h = omega arith
get_or-short (l ∷ ls) zero h = ground arith
get_or-short (l ∷ ls) (suc k) h = get_or-short ls k (ground arith)

-- The login fits into `prxuser`.
pub proxy_login-short :
    (usr proxy : List ℕ)
    → length proxy ≤ 15
    → proxy_login usr proxy ≡ some (usr ++ (proxy ++ port_suffix))
unfolding proxy_login
proxy_login-short usr proxy short =
    let whole = length-append usr (proxy ++ port_suffix) in
    let tail = length-append proxy port_suffix in
    let fits : ltb (length (usr ++ (proxy ++ port_suffix))) (length usr + 32) ≡ true =
      ground (arith, whole, tail) in
    rw fits refl

-- the messages that a transfer is done
abbrev pub dones : List Message → ℕ
dones [] = 0
dones (done k ∷ ms) = suc (dones ms)
dones (other ∷ ms) = dones ms

-- each names a handle that is there
abbrev pub AllThere : ℕ → List Message → Type 0
AllThere n [] = Unit
AllThere n (done k ∷ ms) = (k < n) × AllThere (n - 1) ms
AllThere n (other ∷ ms) = AllThere n ms

abbrev pub AllSmall : List (List ℕ) → Type 0
AllSmall [] = Unit
AllSmall (d ∷ chunks) = (length d < 2 ^ 31) × AllSmall chunks

-- What libcurl promises with `n` transfers: those that run are some of them, there is a message for each
-- of the others, and each message is for another of them. The data come in pieces below 2 ^ 31 bytes.
pub record IsAnswer (n : ℕ) (r : Round) : Type 0 where
  pub some_run : r.running ≤ n
  pub reported : n ≤ r.running + dones r.messages
  pub there : AllThere n r.messages
  pub small : AllSmall r.chunks

abbrev pub AllAnswers : List (ℕ → Round) → Type 0
AllAnswers [] = Unit
AllAnswers (r ∷ rs) = ((n : ℕ) → IsAnswer n (r n)) × AllAnswers rs

pub remove_at-length :
    (ts : List Transfer) (k : ℕ) → k < length ts → length (remove_at k ts) + 1 ≡ length ts
remove_at-length [] k h = absurd (omega arith)
remove_at-length (t ∷ ts) zero h = omega arith
remove_at-length (t ∷ ts) (suc k) h = omega (arith, remove_at-length ts k (omega arith))

module _ (usr : List ℕ) (proxylist : List (List ℕ)) where
  -- The login of a transfer is for an entry of the list.
  abbrev pub IsLogin : Transfer → Type 0
  IsLogin t =
      (k : ℕ) × (k < length proxylist) × (t.prxuser ≡ usr ++ (get_or proxylist k [] ++ port_suffix))

  abbrev pub AllLogins : List Transfer → Type 0
  AllLogins [] = Unit
  AllLogins (t ∷ ts) = IsLogin t × AllLogins ts

  pub record IsFleet (f : Fleet) : Type 0 where
    pub cells : Cells
    pub queued : IsQueue f.queue cells
    pub logins : AllLogins f.transfers

  AllLogins-append :
      (ts : List Transfer) (t : Transfer) → AllLogins ts → IsLogin t → AllLogins (ts ++ (t ∷ []))
  AllLogins-append [] t h l = (l, tt)
  AllLogins-append (s ∷ ts) t h l = (h.0, AllLogins-append ts t h.1 l)

  pub AllLogins-remove_at : (ts : List Transfer) (k : ℕ) → AllLogins ts → AllLogins (remove_at k ts)
  AllLogins-remove_at [] k h = h
  AllLogins-remove_at (t ∷ ts) zero h = h.1
  AllLogins-remove_at (t ∷ ts) (suc k) h = (h.0, AllLogins-remove_at ts k h.1)

  -- more transfers by at most `n`
  pub record Grown (n : ℕ) (f f' : Fleet) : Type 0 where
    pub kept : IsFleet f'
    pub no_less : length f.transfers ≤ length f'.transfers
    pub no_more : length f'.transfers ≤ length f.transfers + n

  module _ (some_proxy : 0 < length proxylist) (short : all_short proxylist ≡ true) where
    add_transfer-Grown :
        (f : Fleet) (url : List ℕ) (q : UrlQueue) (cells : Cells)
        → IsFleet f
        → IsQueue q cells
        → (f' : Fleet) × (add_transfer usr proxylist f (url, q) ≡ some f') × Grown 1 f f'
    unfolding add_transfer
    add_transfer-Grown f url q cells v w =
        let k = f.turn % length proxylist in
        let proxy : List ℕ = get_or proxylist k [] in
        let nonzero : (length proxylist == 0) ≡ false = ground arith in
        let login = proxy_login-short usr proxy (get_or-short proxylist k short) in
        let t : Transfer = record { url = url; prxuser = usr ++ (proxy ++ port_suffix) } in
        let longer = length-append f.transfers (t ∷ []) in
        (
          record f { queue = q; turn = (f.turn + 1) % 2 ^ 32; transfers = f.transfers ++ (t ∷ []) },
          rw (nonzero, login) refl,
          record {
            kept = record {
              cells = cells;
              queued = w;
              logins = AllLogins-append f.transfers t v.logins (k, mod-lt f.turn some_proxy, refl);
            };
            no_less = omega (arith, longer);
            no_more = omega (arith, longer);
          },
        )

    pub init-Grown :
        (f : Fleet) (cells : Cells)
        → IsFleet f
        → IsQueue f.queue cells
        → (f' : Fleet) × (init usr proxylist f ≡ some f') × Grown 1 f f'
    unfolding init
    init-Grown f [] v w =
        let none_left = urlq_empty-IsQueue f.queue [] w in
        (
          record f { dropped = f.dropped + 1 },
          rw none_left refl,
          record {
            kept = record { cells = []; queued = w; logins = v.logins };
            no_less = omega arith;
            no_more = omega arith;
          },
        )
    init-Grown f ((a, u) ∷ cells) v w =
        let more = urlq_empty-IsQueue f.queue ((a, u) ∷ cells) w in
        let (q, got, w') = urlq_get-IsQueue f.queue a u cells w in
        let (f', run, g) = add_transfer-Grown f u q cells v w' in (f', rw (more, got) run, g)

    pub refill-Grown :
        (n : ℕ) (f : Fleet)
        → IsFleet f
        → (f' : Fleet) × (refill usr proxylist n f ≡ some f') × Grown n f f'
    unfolding refill
    refill-Grown zero f v =
        (f, refl, record { kept = v; no_less = omega arith; no_more = omega arith })
    refill-Grown (suc n) f v =
        let (f1, run1, g1) = init-Grown f v.cells v v.queued in
        let (f2, run2, g2) = refill-Grown n f1 g1.kept in
        (
          f2,
          rw run1 run2,
          record {
            kept = g2.kept;
            no_less = omega (arith, g1.no_less, g2.no_less);
            no_more = omega (arith, g1.no_more, g2.no_more);
          },
        )
