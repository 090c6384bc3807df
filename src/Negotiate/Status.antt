-- ===== src/Negotiate/Status.antt =====
-- The values that the poll and the select build of `negotiate` return.
use silksocks.Base.{
  ℕ, ◌≡◌, ◌⊎◌, inl, inr, refl, Bool, true, false, List, [], ◌∷◌, ◌&&◌, Bool-cases, ltb, length,
}
use silksocks.Negotiate.{round, rounds, negotiate}
use silksocks.Negotiate.Select.{select_round, select_rounds, negotiate_select}
use silksocks.Negotiate.Stages.{
  start, pending, Relay, Polled, ready, timeout, interrupted, failed, Reading, chunk, eof, Writing,
  takes, Round, Stage, go, continue, exit, then_stage, read_client, read_proxy, write_client,
  write_proxy, Progress, running, returned, after,
}

-- 0 only after the client has closed, else 1, or what `late` says of a timeout's 6
abbrev Status : (late : Type 0) → ℕ → Relay → Type 0
Status late k r = ((k ≡ 0) × (r.clienteof ≡ true)) ⊎ ((k ≡ 1) ⊎ ((k ≡ 6) × late))

abbrev StageEnds : Type 0 → Stage → Type 0
StageEnds late (go r) = Unit
StageEnds late (continue r) = Unit
StageEnds late (exit k r) = Status late k r

abbrev pub Ends : (late : Type 0) → Progress → Type 0
Ends late (running r) = Unit
Ends late (returned k r) = Status late k r

module _ (late : Type 0) (pass : Relay → Stage)
    (passes : (r : Relay) → StageEnds late (pass r)) where
  then-ends :
      (s : Stage) (f : Relay → Stage)
      → StageEnds late s
      → ((r : Relay) → StageEnds late (f r))
      → StageEnds late (then_stage s f)
  then-ends (go r) f h k = k r
  then-ends (continue r) f h k = h
  then-ends (exit n r) f h k = h

  read_client-ends :
      (asked : Bool) (e : Reading) (r : Relay) → StageEnds late (read_client pass asked e r)
  unfolding read_client
  read_client-ends false e r = tt
  read_client-ends true Reading.broken r = inr (inl refl)
  read_client-ends true Reading.again r = passes r
  read_client-ends true eof r = tt
  read_client-ends true (chunk x xs) r = tt

  read_proxy-ends :
      (asked : Bool) (e : Reading) (r : Relay) → StageEnds late (read_proxy pass asked e r)
  unfolding read_proxy
  read_proxy-ends false e r = tt
  read_proxy-ends true Reading.broken r = inr (inl refl)
  read_proxy-ends true Reading.again r = passes r
  read_proxy-ends true eof r = elim (Bool-cases r.clienteof) [
    | inl p ↦ rw p (inl (refl, refl))
    | inr p ↦ rw p (inr (inl refl))
  ]
  read_proxy-ends true (chunk x xs) r = tt

  write_client-ends :
      (asked : Bool) (e : Writing) (r : Relay) → StageEnds late (write_client pass asked e r)
  unfolding write_client
  write_client-ends asked Writing.broken r =
      elim (Bool-cases (asked && ltb 0 (length (pending r.fr)))) [
        | inr p ↦ rw p tt
        | inl p ↦ rw p (inr (inl refl))
      ]
  write_client-ends asked Writing.again r =
      elim (Bool-cases (asked && ltb 0 (length (pending r.fr)))) [
        | inr p ↦ rw p tt
        | inl p ↦ rw p (passes r)
      ]
  write_client-ends asked (takes k) r = elim (Bool-cases (asked && ltb 0 (length (pending r.fr)))) [
    | inr p ↦ rw p tt
    | inl p ↦ rw p tt
  ]

  write_proxy-ends :
      (asked : Bool) (e : Writing) (r : Relay) → StageEnds late (write_proxy pass asked e r)
  unfolding write_proxy
  write_proxy-ends asked Writing.broken r =
      elim (Bool-cases (asked && ltb 0 (length (pending r.to)))) [
        | inr p ↦ rw p tt
        | inl p ↦ rw p (inr (inl refl))
      ]
  write_proxy-ends asked Writing.again r =
      elim (Bool-cases (asked && ltb 0 (length (pending r.to)))) [
        | inr p ↦ rw p tt
        | inl p ↦ rw p (passes r)
      ]
  write_proxy-ends asked (takes k) r = elim (Bool-cases (asked && ltb 0 (length (pending r.to)))) [
    | inr p ↦ rw p tt
    | inl p ↦ rw p tt
  ]

  parts-ends :
      (a b c d : Bool) (e : Round) (r : Relay)
      → StageEnds late (
          then_stage (read_client pass a e.client_read r) λ r1.
            then_stage (read_proxy pass b e.proxy_read r1) λ r2.
              then_stage
                (write_client pass c e.client_write r2)
                λ r3. write_proxy pass d e.proxy_write r3)
  parts-ends a b c d e r =
      then-ends (read_client pass a e.client_read r)
        (λ r1. then_stage (read_proxy pass b e.proxy_read r1) λ r2.
          then_stage (write_client pass c e.client_write r2) (write_proxy pass d e.proxy_write))
        (read_client-ends a e.client_read r)
        λ r1.
          then-ends (read_proxy pass b e.proxy_read r1)
            (λ r2.
              then_stage (write_client pass c e.client_write r2) (write_proxy pass d e.proxy_write))
            (read_proxy-ends b e.proxy_read r1)
            λ r2.
              then-ends (write_client pass c e.client_write r2) (write_proxy pass d e.proxy_write)
                (write_client-ends c e.client_write r2) (write_proxy-ends d e.proxy_write)

-- What a round returns, by the answer of its poll: 6 exactly on a timeout, 1 when the poll fails, nothing
-- on an error that is passed over, and otherwise 1, or 0 where the client has closed.
abbrev pub Cause : Polled → ℕ → Relay → Type 0
Cause failed k r = k ≡ 1
Cause interrupted k r = ⊥
Cause timeout k r = k ≡ 6
Cause (ready client_in client_out proxy_in proxy_out) k r =
    ((k ≡ 0) × (r.clienteof ≡ true)) ⊎ (k ≡ 1)

abbrev StageBy : Polled → Stage → Type 0
StageBy p (go r) = Unit
StageBy p (continue r) = Unit
StageBy p (exit k r) = Cause p k r

-- by one of the rounds
abbrev pub EndedBy : List Round → ℕ → Relay → Type 0
EndedBy [] k r = ⊥
EndedBy (e ∷ es) k r = Cause e.polled k r ⊎ EndedBy es k r

abbrev pub EndsBy : List Round → Progress → Type 0
EndsBy es (running r) = Unit
EndsBy es (returned k r) = EndedBy es k r

by_ready :
    (client_in client_out proxy_in proxy_out : Bool) (s : Stage)
    → StageEnds ⊥ s
    → StageBy (ready client_in client_out proxy_in proxy_out) s
by_ready a b c d (go r) h = tt
by_ready a b c d (continue r) h = tt
by_ready a b c d (exit k r) (inl zero) = inl zero
by_ready a b c d (exit k r) (inr (inl one)) = inr one
by_ready a b c d (exit k r) (inr (inr six)) = absurd six.1

round-ends : (p : Polled) (e : Round) (r : Relay) → StageBy p (round (record e { polled = p }) r)
unfolding round
round-ends failed e r = refl
round-ends interrupted e r = tt
round-ends timeout e r = refl
round-ends (ready client_in client_out proxy_in proxy_out) e r =
    by_ready client_in client_out proxy_in proxy_out _ (parts-ends ⊥ continue (λ s. tt) _ _ _ _ e r)

select_round-ends :
    (p : Polled) (e : Round) (r : Relay) → StageEnds ⊥ (select_round (record e { polled = p }) r)
unfolding select_round
select_round-ends failed e r = inr (inl refl)
select_round-ends interrupted e r = inr (inl refl)
select_round-ends timeout e r = inr (inl refl)
select_round-ends (ready client_in client_out proxy_in proxy_out) e r =
    parts-ends ⊥ go (λ s. tt) _ _ _ _ e r

after-Ends :
    (late : Type 0) (s : Stage) (f : Relay → Progress)
    → StageEnds late s
    → ((r : Relay) → Ends late (f r))
    → Ends late (after s f)
after-Ends late (go r) f h k = k r
after-Ends late (continue r) f h k = k r
after-Ends late (exit n r) f h k = h

later : (e : Round) (es : List Round) (p : Progress) → EndsBy es p → EndsBy (e ∷ es) p
later e es (running r) h = tt
later e es (returned k r) h = inr h

after-EndsBy :
    (e : Round) (es : List Round) (s : Stage)
    → StageBy e.polled s
    → ((r : Relay) → EndsBy es (rounds es r))
    → EndsBy (e ∷ es) (after s (rounds es))
after-EndsBy e es (go r) h k = later e es (rounds es r) (k r)
after-EndsBy e es (continue r) h k = later e es (rounds es r) (k r)
after-EndsBy e es (exit n r) h k = inl h

rounds-EndsBy : (es : List Round) (r : Relay) → EndsBy es (rounds es r)
unfolding rounds
rounds-EndsBy [] r = tt
rounds-EndsBy (e ∷ es) r =
    after-EndsBy e es (round e r) (round-ends e.polled e r) (rounds-EndsBy es)

select_rounds-Ends : (es : List Round) (r : Relay) → Ends ⊥ (select_rounds es r)
unfolding select_rounds
select_rounds-Ends [] r = tt
select_rounds-Ends (e ∷ es) r =
    after-Ends ⊥ (select_round e r) (select_rounds es) (select_round-ends e.polled e r)
      (select_rounds-Ends es)

-- The relay does not return, or it returns 1 where a socket cannot be made non-blocking, and else what
-- the answers say.
abbrev pub EndsAll : (both_set : Bool) → List Round → Progress → Type 0
EndsAll false es (running r) = ⊥
EndsAll false es (returned k r) = k ≡ 1
EndsAll true es p = EndsBy es p

-- The poll build returns 1 at once when a socket cannot be made non-blocking. Else, if it returns, one of
-- its rounds has the answer of `poll` that the status belongs to: 6 a timeout, 1 a failure of `poll`, and
-- 1 or, only if the client has closed, 0 a report on the sockets.
pub negotiate-Ends :
    (setnonblock_client setnonblock_proxy : Bool) (es : List Round)
    → EndsAll
        (setnonblock_client && setnonblock_proxy)
        es
        (negotiate setnonblock_client setnonblock_proxy es)
unfolding negotiate
negotiate-Ends false b es = refl
negotiate-Ends true false es = refl
negotiate-Ends true true es = rounds-EndsBy es start

-- The select build returns 0 only when the client has closed, and else 1: it never reports a timeout.
pub negotiate_select-Ends :
    (setnonblock_client setnonblock_proxy : Bool) (es : List Round)
    → Ends ⊥ (negotiate_select setnonblock_client setnonblock_proxy es)
unfolding negotiate_select
negotiate_select-Ends false b es = inr (inl refl)
negotiate_select-Ends true false es = inr (inl refl)
negotiate_select-Ends true true es = select_rounds-Ends es start
