-- ===== src/Negotiate/Kept.antt =====
-- What a relay keeps, and the two steps that can send FIN.
use silksocks.Base.{
  ℕ, ◌+◌, ◌-◌, ◌<◌, ◌≡◌, inl, inr, refl, sym, ap, ◌∙◌, Bool, true, false, ◌++◌, ◌&&◌, ◌==◌,
  Bool-cases, ltb, arith, append_assoc, length, take,
}
use silksocks.Negotiate.Stages.{
  start, pending, Relay, Stage, go, continue, exit, then_stage, fin_when, advance, drained,
}
use silksocks.Negotiate.Buffers.{
  IsBuffer, empty-IsBuffer, advance-IsBuffer, take-advance, drained-advance, length-pending,
}

-- A relay has lost and reordered nothing, has its buffers in bounds, and has sent FIN to the proxy if
-- and only if the client is done and nothing is left for the proxy.
pub record Relays (r : Relay) : Type 0 where
  pub to : IsBuffer r.to
  pub fr : IsBuffer r.fr
  pub to_proxy : r.proxy.sent ++ pending r.to ≡ r.client.received
  pub to_client : r.client.sent ++ pending r.fr ≡ r.proxy.received
  pub fin : r.proxy.fin ≡ (r.clienteof && drained r.to)

pub start-Relays : Relays start
unfolding pending
start-Relays = record {
  to = empty-IsBuffer;
  fr = empty-IsBuffer;
  to_proxy = refl;
  to_client = refl;
  fin = refl;
}

-- the relay that a part leaves
abbrev pub left : Stage → Relay
left (go r) = r
left (continue r) = r
left (exit status r) = r

-- what a part passes over leaves the relay
abbrev pub Passes : (Relay → Stage) → Type 0
Passes pass = (r : Relay) → left (pass r) ≡ r

pub then_stage-Relays :
    (s : Stage) (f : Relay → Stage)
    → Relays (left s)
    → ((r : Relay) → Relays r → Relays (left (f r)))
    → Relays (left (then_stage s f))
then_stage-Relays (go r) f v h = h r v
then_stage-Relays (continue r) f v h = v
then_stage-Relays (exit status r) f v h = v

pub eof-Relays :
    (r : Relay)
    → r.clienteof ≡ false
    → Relays r
    → Relays (fin_when (drained r.to) (record r { clienteof = true }))
unfolding fin_when
eof-Relays r unclosed v = elim (Bool-cases (drained r.to)) [
  | inl p ↦
      rw p (record {
        to = v.to;
        fr = v.fr;
        to_proxy = v.to_proxy;
        to_client = v.to_client;
        fin = sym p;
      })
  | inr p ↦ rw p (record {
    to = v.to;
    fr = v.fr;
    to_proxy = v.to_proxy;
    to_client = v.to_client;
    fin = v.fin ∙ ap (λ b. b && drained r.to) unclosed ∙ sym p;
  })
]

pub nonempty : (asked : Bool) (n : ℕ) → (asked && ltb 0 n) ≡ true → 0 < n
nonempty asked n h = ground arith

commutes : (last c d b : Bool) → d ≡ last → (last && c) ≡ b → (c && d) ≡ b
commutes last c d b h k = ground arith

unfinished : (c d : Bool) → d ≡ false → (c && d) ≡ false
unfinished c d h = ground arith

not_drained : (optr size left : ℕ) → left ≡ size - optr → 0 < left → (optr == size) ≡ false
not_drained optr size left e h = ground arith

-- a write to the proxy, with the FIN that follows it
pub flushed :
    (k : ℕ) (r : Relay)
    → Relays r
    → 0 < length (pending r.to)
    → Relays (
        fin_when
          (r.to.optr + length (take k (pending r.to)) == length r.to.stored && r.clienteof)
          (record r {
            to = advance r.to (length (take k (pending r.to)));
            proxy = record r.proxy { sent = r.proxy.sent ++ take k (pending r.to) };
          }))
unfolding fin_when
flushed k r v some_left =
    let n = length (take k (pending r.to)) in
    let last = r.to.optr + n == length r.to.stored in
    let e = length-pending r.to in
    let to' = advance-IsBuffer r.to k v.to in
    let to_proxy' : (r.proxy.sent ++ take k (pending r.to)) ++ pending (advance r.to n)
        ≡ r.client.received =
      append_assoc r.proxy.sent (take k (pending r.to)) _
      ∙ ap (λ t. r.proxy.sent ++ t) (take-advance r.to k)
      ∙ v.to_proxy in
    let ends = drained-advance r.to n in
    let before = v.fin in
    elim (Bool-cases (last && r.clienteof)) [
      | inl p ↦ rw p (record {
        to = to';
        fr = v.fr;
        to_proxy = to_proxy';
        to_client = v.to_client;
        fin = sym (commutes last r.clienteof _ _ ends p);
      })
      | inr p ↦ rw p (record {
        to = to';
        fr = v.fr;
        to_proxy = to_proxy';
        to_client = v.to_client;
        fin =
            before
            ∙ unfinished _ _ (not_drained r.to.optr (length r.to.stored) _ e some_left)
            ∙ sym (commutes last r.clienteof _ _ ends p);
      })
    ]
