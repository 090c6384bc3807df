-- ===== src/Load/Fire/Rounds.antt =====
-- The rounds of `curl_multi_fire`.
use silksocks.Base.{
  ℕ, zero, suc, ◌+◌, ◌-◌, ◌^◌, ◌<◌, ◌≤◌, ◌≡◌, refl, ◌∙◌, inl, inr, Bool, true, false, Option, none,
  some, List, [], ◌∷◌, ◌++◌, ◌==◌, ltb, lt_ℕ, if◌then◌else◌, length, Bool-cases, arith,
}
use silksocks.UrlQueue.{Heap, lookup, UrlQueue, urlq_init, urlq_size, strndup}
use silksocks.UrlQueue.Segment.{Cells, nil}
use silksocks.UrlQueue.Laws.{IsQueue, put-IsQueue}
use silksocks.Href.{Pcre}
use silksocks.Href.Laws.{IsMatch, my_pcre_href-Delivers}
use silksocks.Load.Fire.{
  q_backlog, start_page, Fleet, Message, done, other, Round, Fired, ended, failed, fires, crashes,
  remove, cb, deliver, on_messages, with_messages, poll_round, fire_rounds, curl_multi_fire,
}
use silksocks.Load.Fire.Laws.{
  all_short, dones, AllThere, AllSmall, IsAnswer, AllAnswers, remove_at-length, IsFleet,
  AllLogins-remove_at, init-Grown, refill-Grown,
}

module _ (malloc : Heap → Option ℕ)
    (gives : (h : Heap) → (a : ℕ) × (malloc h ≡ some a) × (lookup h a ≡ none)) (p : Pcre)
    (compiled : p.compiles ≡ true)
    (promised : (subject : List ℕ) (start : ℕ) (anchored : Bool)
      → start ≤ length subject
      → IsMatch p subject start anchored (p.match_from subject start anchored)) where
  cb-IsQueue :
      (d : List ℕ) (q : UrlQueue) (cells : Cells)
      → length d < 2 ^ 31
      → IsQueue q cells
      → (q' : UrlQueue) × (cells' : Cells) × (cb malloc p d q ≡ some q') × IsQueue q' cells'
  unfolding cb
  cb-IsQueue d q cells small v = elim (Bool-cases (lt_ℕ (urlq_size q) q_backlog)) [
    | inr full ↦ (q, cells, rw full refl, v)
    | inl room ↦
        let (status, q', new, run, v', parts) =
          my_pcre_href-Delivers malloc gives p d small (promised d) q cells compiled v in
        (q', cells ++ new, rw (room, run) refl, v')
  ]

  pub deliver-IsQueue :
      (chunks : List (List ℕ)) (q : UrlQueue) (cells : Cells)
      → AllSmall chunks
      → IsQueue q cells
      → (q' : UrlQueue) × (cells' : Cells) × (deliver malloc p chunks q ≡ some q')
        × IsQueue q' cells'
  unfolding deliver
  deliver-IsQueue [] q cells small v = (q, cells, refl, v)
  deliver-IsQueue (d ∷ chunks) q cells small v =
      let (q1, cells1, run1, v1) = cb-IsQueue d q cells small.0 v in
      let (q2, cells2, run2, v2) = deliver-IsQueue chunks q1 cells1 small.1 v1 in
      (q2, cells2, rw run1 run2, v2)

-- Whenever the thread is between two rounds or has left the loop: a fleet, of at most `max_conn`
-- transfers; none are left when the loop ends by its test.
abbrev pub IsFiring : (usr : List ℕ) (proxylist : List (List ℕ)) (max_conn : ℕ) → Fired → Type 0
IsFiring usr proxylist max_conn (ended f) = IsFleet usr proxylist f × (length f.transfers ≡ 0)
IsFiring usr proxylist max_conn (failed f) =
    IsFleet usr proxylist f × (length f.transfers ≤ max_conn)
IsFiring usr proxylist max_conn (fires f) =
    IsFleet usr proxylist f × (length f.transfers ≤ max_conn)
IsFiring usr proxylist max_conn crashes = ⊥

module _ (usr : List ℕ) (proxylist : List (List ℕ)) (some_proxy : 0 < length proxylist)
    (short : all_short proxylist ≡ true) (max_conn : ℕ) where
  -- a message leaves a fleet, with at most the transfer of the message gone
  remove-IsFleet :
      (m : Message) (ms : List Message) (f : Fleet) (n : ℕ)
      → IsFleet usr proxylist f
      → AllThere n (m ∷ ms)
      → n ≤ length f.transfers
      → (n' : ℕ) × AllThere n' ms
        × (n' ≤ length (remove m f).transfers)
        × (length (remove m f).transfers + dones (m ∷ ms) ≡ length f.transfers + dones ms)
        × IsFleet usr proxylist (remove m f)
  unfolding remove
  remove-IsFleet (done k) ms f n v there le =
      let gone = remove_at-length f.transfers k (omega (arith, there.0)) in
      (
        n - 1,
        there.1,
        omega (arith, gone),
        omega (arith, gone),
        record {
          cells = v.cells;
          queued = v.queued;
          logins = AllLogins-remove_at usr proxylist f.transfers k v.logins;
        },
      )
  remove-IsFleet other ms f n v there le = (n, there, le, refl, v)

  on_messages-IsFleet :
      (ms : List Message) (u : ℕ) (f : Fleet) (n : ℕ)
      → IsFleet usr proxylist f
      → AllThere n ms
      → n ≤ length f.transfers
      → length f.transfers ≤ u + dones ms
      → u ≤ max_conn
      → (u' : ℕ) × (f' : Fleet) × (on_messages usr proxylist max_conn ms u f ≡ some (u', f'))
        × IsFleet usr proxylist f'
        × (length f'.transfers ≤ u')
        × (u' ≤ max_conn)
  unfolding on_messages
  on_messages-IsFleet [] u f n v there le few room = (u, f, refl, v, omega (arith, few), room)
  on_messages-IsFleet (m ∷ ms) u f n v there le few room =
      let (n1, there1, le1, gone, v1) = remove-IsFleet m ms f n v there le in
      let (f2, run2, g) =
        refill-Grown usr proxylist some_proxy short (max_conn - u) (remove m f) v1 in
      let full : (if ltb u max_conn then max_conn else u) ≡ max_conn = ground arith in
      let (u3, f3, run3, v3, few3, room3) =
        on_messages-IsFleet ms max_conn f2 n1 g.kept there1 (omega (arith, g.no_less, le1))
          (omega (arith, g.no_more, gone)) (omega arith) in
      let step : on_messages usr proxylist max_conn (m ∷ ms) u f
          ≡ on_messages usr proxylist max_conn ms max_conn f2 =
        rw (run2, full) refl in
      (u3, f3, step ∙ run3, v3, few3, room3)

  with_messages-IsFiring :
      (u : ℕ) (f : Fleet) (next : Fleet → Fired)
      → IsFleet usr proxylist f
      → length f.transfers ≤ u
      → u ≤ max_conn
      → ((g : Fleet)
          → IsFleet usr proxylist g
          → length g.transfers ≤ max_conn
          → IsFiring usr proxylist max_conn (next g))
      → IsFiring usr proxylist max_conn (with_messages (some (u, f)) next)
  with_messages-IsFiring zero f next v few room go = (v, omega (arith, few))
  with_messages-IsFiring (suc u) f next v few room go = go f v (omega (arith, few, room))

  poll_round-IsFiring :
      (r : Round) (f : Fleet) (next : Fleet → Fired)
      → IsFleet usr proxylist f
      → length f.transfers ≤ max_conn
      → IsAnswer (length f.transfers) r
      → ((g : Fleet)
          → IsFleet usr proxylist g
          → length g.transfers ≤ max_conn
          → IsFiring usr proxylist max_conn (next g))
      → IsFiring usr proxylist max_conn (poll_round usr proxylist max_conn r f next)
  unfolding poll_round
  poll_round-IsFiring r f next v few is go =
      let (u, g, run, v', few', room') =
        on_messages-IsFleet r.messages r.running f (length f.transfers) v is.there (omega arith)
          is.reported (omega (arith, is.some_run)) in
      let served = with_messages-IsFiring u g next v' few' room' go in
      rw run (
        by_tests (r.running == 0) r.fdset r.timeout r.waits (with_messages (some (u, g)) next)
          served)
    where
      by_tests :
          (quiet a b c : Bool) (s : Fired)
          → IsFiring usr proxylist max_conn s
          → IsFiring usr proxylist max_conn (
              if quiet
              then s
              else if a
              then (if b then (if c then s else failed f) else failed f)
              else failed f)
      by_tests true a b c s h = h
      by_tests false false b c s h = (v, few)
      by_tests false true false c s h = (v, few)
      by_tests false true true false s h = (v, few)
      by_tests false true true true s h = h

  module _ (malloc : Heap → Option ℕ)
      (gives : (h : Heap) → (a : ℕ) × (malloc h ≡ some a) × (lookup h a ≡ none)) (p : Pcre)
      (compiled : p.compiles ≡ true)
      (promised : (subject : List ℕ) (start : ℕ) (anchored : Bool)
        → start ≤ length subject
        → IsMatch p subject start anchored (p.match_from subject start anchored)) where
    fire_rounds-IsFiring :
        (rs : List (ℕ → Round)) (f : Fleet)
        → AllAnswers rs
        → IsFleet usr proxylist f
        → length f.transfers ≤ max_conn
        → IsFiring usr proxylist max_conn (fire_rounds usr proxylist malloc p max_conn rs f)
    unfolding fire_rounds
    fire_rounds-IsFiring [] f all v few = (v, few)
    fire_rounds-IsFiring (r ∷ rs) f all v few =
        let is = all.0 (length f.transfers) in
        let (q, cells, run, w) =
          deliver-IsQueue malloc gives p compiled promised (r (length f.transfers)).chunks f.queue
            v.cells is.small v.queued in
        rw run (
          poll_round-IsFiring (r (length f.transfers)) (record f { queue = q })
            (fire_rounds usr proxylist malloc p max_conn rs)
            (record { cells = cells; queued = w; logins = v.logins }) few is
            (λ g v' few'. fire_rounds-IsFiring rs g all.1 v' few'))

    -- A thread of the load generator, with a list of proxies of up to 15 bytes each, at least one, and a
    -- connection at least: whatever libcurl answers within its promises, however many rounds it
    -- takes, and whatever pages come in pieces below 2 ^ 31 bytes, it never crashes, its queue stays a
    -- queue, it has at most `max_conn` transfers, each with the login for an entry of the list, and its
    -- loop ends by the test only when no transfer is left.
    pub curl_multi_fire-IsFiring :
        (turn : ℕ) (h : Heap) (rs : List (ℕ → Round))
        → 0 < max_conn
        → AllAnswers rs
        → IsFiring usr proxylist max_conn
            (curl_multi_fire usr proxylist malloc p max_conn turn h rs)
    unfolding curl_multi_fire urlq_init
    curl_multi_fire-IsFiring turn h rs one all =
        let (q, a, made, v) =
          put-IsQueue malloc gives h none none 0 [] start_page (length start_page) nil tt refl in
        let f : Fleet = record { queue = q; turn = turn; transfers = []; dropped = 0 } in
        let cells : Cells = (a, strndup start_page (length start_page)) ∷ [] in
        let (f', run, g) =
          init-Grown usr proxylist some_proxy short f cells
            (record { cells = cells; queued = v; logins = tt }) v in
        rw (made, run) (fire_rounds-IsFiring rs f' all g.kept (omega (arith, g.no_more)))
