-- ===== src/Negotiate/Laws.antt =====
-- What the relay does in its poll and its select build, whatever the system answers.
use silksocks.Base.{◌≡◌, refl, Bool, true, false, List, [], ◌∷◌, ◌&&◌, not, ltb, arith, length}
use silksocks.Negotiate.{round, rounds, negotiate}
use silksocks.Negotiate.Select.{select_round, select_rounds, negotiate_select}
use silksocks.Negotiate.Stages.{
  start, bufsize, Relay, Polled, ready, timeout, interrupted, failed, Round, Stage, go, continue,
  exit, Progress, running, returned, after,
}
use silksocks.Negotiate.Kept.{Relays, start-Relays, left}
use silksocks.Negotiate.Parts.{parts-Relays}

while_unclosed : (asked done room : Bool) → (asked && (not done && room)) ≡ true → done ≡ false
while_unclosed asked done room h = ground arith

round_on-Relays :
    (p : Polled) (e : Round) (r : Relay)
    → Relays r
    → Relays (left (round (record e { polled = p }) r))
unfolding round
round_on-Relays failed e r v = v
round_on-Relays interrupted e r v = v
round_on-Relays timeout e r v = v
round_on-Relays (ready client_in client_out proxy_in proxy_out) e r v =
    parts-Relays continue (λ s. refl) _ _ _ _ e r
      (while_unclosed client_in r.clienteof (ltb (length r.to.stored) bufsize)) v

select_round_on-Relays :
    (p : Polled) (e : Round) (r : Relay)
    → Relays r
    → Relays (left (select_round (record e { polled = p }) r))
unfolding select_round
select_round_on-Relays failed e r v = v
select_round_on-Relays interrupted e r v = v
select_round_on-Relays timeout e r v = v
select_round_on-Relays (ready client_in client_out proxy_in proxy_out) e r v =
    parts-Relays go (λ s. refl) _ _ _ _ e r
      (while_unclosed client_in r.clienteof (ltb (length r.to.stored) bufsize)) v

-- the relay that the loop has reached or left
abbrev pub reached : Progress → Relay
reached (running r) = r
reached (returned status r) = r

after-Relays :
    (s : Stage) (f : Relay → Progress)
    → Relays (left s)
    → ((r : Relay) → Relays r → Relays (reached (f r)))
    → Relays (reached (after s f))
after-Relays (go r) f v h = h r v
after-Relays (continue r) f v h = h r v
after-Relays (exit status r) f v h = v

rounds-Relays : (es : List Round) (r : Relay) → Relays r → Relays (reached (rounds es r))
unfolding rounds
rounds-Relays [] r v = v
rounds-Relays (e ∷ es) r v =
    after-Relays (round e r) (rounds es) (round_on-Relays e.polled e r v) (rounds-Relays es)

select_rounds-Relays :
    (es : List Round) (r : Relay) → Relays r → Relays (reached (select_rounds es r))
unfolding select_rounds
select_rounds-Relays [] r v = v
select_rounds-Relays (e ∷ es) r v =
    after-Relays (select_round e r) (select_rounds es) (select_round_on-Relays e.polled e r v)
      (select_rounds-Relays es)

-- Whatever the system answers, at every point of the poll build's relay: what was written to each side
-- followed by what waits in its buffer is what was read from the other side, in order; both buffers
-- are within BUFSIZE bytes; and FIN has been sent to the proxy if and only if the client has closed
-- and nothing waits for the proxy.
pub negotiate-Relays :
    (setnonblock_client setnonblock_proxy : Bool) (es : List Round)
    → Relays (reached (negotiate setnonblock_client setnonblock_proxy es))
unfolding negotiate
negotiate-Relays false b es = start-Relays
negotiate-Relays true false es = start-Relays
negotiate-Relays true true es = rounds-Relays es start start-Relays

-- The select build keeps the same: nothing is lost or reordered in either direction, the buffers are
-- within BUFSIZE bytes, and FIN goes to the proxy exactly when the client has closed and nothing waits.
pub negotiate_select-Relays :
    (setnonblock_client setnonblock_proxy : Bool) (es : List Round)
    → Relays (reached (negotiate_select setnonblock_client setnonblock_proxy es))
unfolding negotiate_select
negotiate_select-Relays false b es = start-Relays
negotiate_select-Relays true false es = start-Relays
negotiate_select-Relays true true es = select_rounds-Relays es start start-Relays
