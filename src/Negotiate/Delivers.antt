-- ===== src/Negotiate/Delivers.antt =====
-- What the client sent reaches the proxy.
use silksocks.Base.{
  ℕ, suc, ◌+◌, ◌-◌, ◌<◌, ◌≤◌, ◌≡◌, inl, inr, refl, sym, ap, ◌∙◌, Bool, true, false, List, [], ◌∷◌,
  ◌++◌, append-nil, ◌&&◌, not, ◌==◌, Bool-cases, ltb, arith, length, length-append, length-take,
  take,
}
use silksocks.Negotiate.{round, rounds}
use silksocks.Negotiate.Stages.{
  bufsize, Buffer, pending, Relay, Reading, eof, Writing, takes, ready, Round, go, fin_when,
  advance, returned, read_client, read_proxy, write_client, write_proxy,
}
use silksocks.Negotiate.Buffers.{take-advance, length-pending}
use silksocks.Negotiate.Kept.{Relays, left, flushed}

-- a round in which the proxy's socket alone can be used, and takes at least one byte of what is offered
abbrev pub flushing : ℕ → Round
flushing k = record {
  polled = ready false false false true;
  client_read = Reading.again;
  proxy_read = Reading.again;
  client_write = Writing.again;
  proxy_write = takes (suc k);
}

-- such rounds, and then others
abbrev pub flushes : List ℕ → List Round → List Round
flushes [] es = es
flushes (k ∷ ks) es = flushing k ∷ flushes ks es

-- a round in which the proxy closes
abbrev pub closing : Round
closing = record {
  polled = ready false false true false;
  client_read = Reading.again;
  proxy_read = eof;
  client_write = Writing.again;
  proxy_write = Writing.again;
}

-- What a round for the proxy leaves, of a relay whose client is done.
record Flushed (r r' : Relay) : Type 0 where
  relays : Relays r'
  done : r'.clienteof ≡ true
  same : r'.client.received ≡ r.client.received
  back : r'.fr ≡ r.fr
  fewer : length (pending r'.to) ≤ length (pending r.to) - 1

nil_of_length {ℓ} : {A : Type ℓ} (xs : List A) → length xs ≡ 0 → xs ≡ []
nil_of_length [] h = refl
nil_of_length (x ∷ xs) h = absurd (omega (arith, h))

wants : (optr size left : ℕ) → left ≡ size - optr → 0 < left → not (optr == size) ≡ true
wants optr size left e h = ground arith

idle : (optr size left : ℕ) → left ≡ size - optr → optr ≤ size → left ≡ 0 → (optr == size) ≡ true
idle optr size left e le h = ground arith

-- `fin_when` changes nothing else
fin_keeps :
    (b : Bool) (r : Relay)
    → ((fin_when b r).clienteof ≡ r.clienteof)
      × ((fin_when b r).client ≡ r.client)
      × ((fin_when b r).to ≡ r.to)
      × ((fin_when b r).fr ≡ r.fr)
unfolding fin_when
fin_keeps true r = (refl, refl, refl, refl)
fin_keeps false r = (refl, refl, refl, refl)

-- a write of at least one byte takes one off
takes_some :
    (b : Buffer) (k : ℕ)
    → 0 < length (pending b)
    → length (pending (advance b (length (take (suc k) (pending b))))) ≤ length (pending b) - 1
takes_some b k some_left = omega (
  arith,
  some_left,
  ap length (take-advance b (suc k)),
  length-append (take (suc k) (pending b))
      (pending (advance b (length (take (suc k) (pending b))))),
  length-take (suc k) (pending b),
)

flushing-Flushed :
    (k : ℕ) (r : Relay)
    → Relays r
    → r.clienteof ≡ true
    → (r' : Relay) × (round (flushing k) r ≡ go r') × Flushed r r'
unfolding round read_client read_proxy write_client write_proxy
flushing-Flushed k r v done = elim (Bool-cases (ltb 0 (length (pending r.to)))) [
  | inl more ↦
      let some_left : 0 < length (pending r.to) = ground (arith, more) in
      let n = length (take (suc k) (pending r.to)) in
      let last = r.to.optr + n == length r.to.stored && r.clienteof in
      let s : Relay = record r {
        to = advance r.to n;
        proxy = record r.proxy { sent = r.proxy.sent ++ take (suc k) (pending r.to) };
      } in
      let (e1, e2, e3, e4) = fin_keeps last s in
      let asked = wants r.to.optr (length r.to.stored) _ (length-pending r.to) some_left in
      (
        fin_when last s,
        rw (write_proxy, asked, more) refl,
        record {
          relays = flushed (suc k) r v some_left;
          done = e1 ∙ done;
          same = ap (λ c. c.received) e2;
          back = e4;
          fewer = rw e3 (takes_some r.to k some_left);
        },
      )
  | inr none_left ↦
      let empty : length (pending r.to) ≡ 0 = ground (arith, none_left) in
      let all = idle r.to.optr (length r.to.stored) _ (length-pending r.to) v.to.ordered empty in
      (
        r,
        rw (write_proxy, all) refl,
        record { relays = v; done = done; same = refl; back = refl; fewer = omega (arith, empty) },
      )
]

-- as many such rounds as there are bytes left
flushing_all :
    (ks : List ℕ) (r : Relay)
    → Relays r
    → r.clienteof ≡ true
    → length (pending r.to) ≤ length ks
    → (r' : Relay) × ((es : List Round) → rounds (flushes ks es) r ≡ rounds es r')
      × Relays r'
      × (r'.clienteof ≡ true)
      × (r'.client.received ≡ r.client.received)
      × (r'.fr ≡ r.fr)
      × (length (pending r'.to) ≡ 0)
unfolding rounds
flushing_all [] r v done enough = (r, λ es. refl, v, done, refl, refl, omega (arith, enough))
flushing_all (k ∷ ks) r v done enough =
    let (r1, run, f) = flushing-Flushed k r v done in
    let (r2, runs, v2, done2, same2, back2, none_left) =
      flushing_all ks r1 f.relays f.done (omega (arith, enough, f.fewer)) in
    (r2, λ es. rw run (runs es), v2, done2, same2 ∙ f.same, back2 ∙ f.back, none_left)

closes_done :
    (r : Relay)
    → r.clienteof ≡ true
    → length r.fr.stored < bufsize
    → rounds (closing ∷ []) r ≡ returned 0 r
unfolding rounds round read_client read_proxy
closes_done r done room = by_eof r.clienteof done (ground (arith, room))
  where
    by_eof :
        (b : Bool)
        → b ≡ true
        → ltb (length r.fr.stored) bufsize ≡ true
        → rounds (closing ∷ []) (record r { clienteof = b })
          ≡ returned 0 (record r { clienteof = b })
    by_eof true e wanted = rw wanted refl
    by_eof false e wanted = absurd (ground (arith, e))

-- When the client is done and the buffer for the client has room, and the rounds to come are these:
-- first rounds in which `poll` reports only that the proxy can be written to, which then takes at
-- least one byte, and which are as many as the bytes that wait for it, or more, and then one in which
-- `poll` reports only that the proxy has closed; then everything that was read from the client is
-- written to the proxy, in order, FIN is sent to it, and the relay returns 0.
pub rounds_deliver :
    (ks : List ℕ) (r : Relay)
    → Relays r
    → r.clienteof ≡ true
    → length r.fr.stored < bufsize
    → length (pending r.to) ≤ length ks
    → (r' : Relay) × (rounds (flushes ks (closing ∷ [])) r ≡ returned 0 r')
      × (r'.proxy.sent ≡ r.client.received)
      × (r'.proxy.fin ≡ true)
unfolding rounds round read_client read_proxy
rounds_deliver ks r v done room enough =
    let (r', runs, v', done', same, back, none_left) = flushing_all ks r v done enough in
    let nothing = nil_of_length (pending r'.to) none_left in
    let all =
      idle r'.to.optr (length r'.to.stored) _ (length-pending r'.to) v'.to.ordered none_left in
    (
      r',
      runs (closing ∷ []) ∙ closes_done r' done' (rw back room),
      sym (append-nil r'.proxy.sent)
          ∙ ap (λ t. r'.proxy.sent ++ t) (sym nothing)
          ∙ v'.to_proxy
          ∙ same,
      v'.fin ∙ rw (done', all) refl,
    )
