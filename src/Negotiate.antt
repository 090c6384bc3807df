-- ===== src/Negotiate.antt =====
-- The relay of negotiate.c between the client and the proxy, in its default build, with `poll`; its
-- children hold the builds with `select` and with `splice`. Each round of the loop asks the system
-- for one answer of `poll` and at most one of each `read` and `write`; a `shutdown` is a mark on the
-- peer. `setnonblock` is a parameter.
pub mod Stages
pub mod Select
pub mod Splice
pub mod Buffers
pub mod Kept
pub mod Parts
pub mod Laws
pub mod Delivers
pub mod Status
mod Examples
use silksocks.Base.{
  ℕ, ◌-◌, Bool, true, false, List, [], ◌∷◌, ◌++◌, ◌&&◌, not, ◌==◌, ltb, if◌then◌else◌, length, drop,
}
use silksocks.Negotiate.Stages.{
  start, bufsize, Relay, Polled, ready, timeout, interrupted, failed, Round, Stage, go, continue,
  exit, then_stage, read_client, read_proxy, write_client, write_proxy, Progress, running, returned,
  after,
}

-- the events that are asked for, of which `poll` reports some
abbrev pub wants_client_in : Relay → Bool
wants_client_in r = not r.clienteof && ltb (length r.to.stored) bufsize

abbrev pub wants_proxy_in : Relay → Bool
wants_proxy_in r = ltb (length r.fr.stored) bufsize

abbrev pub wants_proxy_out : Relay → Bool
wants_proxy_out r = not (r.to.optr == length r.to.stored)

abbrev pub wants_client_out : Relay → Bool
wants_client_out r = not (r.fr.optr == length r.fr.stored)

-- one run of the loop's body
unfoldable pub round : Round → Relay → Stage
unfolding read_client read_proxy write_client write_proxy
round e r = elim e.polled [
  | failed ↦ exit 1 r
  | interrupted ↦ continue r
  | timeout ↦ exit 6 r
  | ready client_in client_out proxy_in proxy_out ↦
      let reads_client = client_in && wants_client_in r in
      let reads_proxy = proxy_in && wants_proxy_in r in
      let writes_client = client_out && wants_client_out r in
      let writes_proxy = proxy_out && wants_proxy_out r in
      then_stage (read_client continue reads_client e.client_read r) λ r1.
        then_stage (read_proxy continue reads_proxy e.proxy_read r1) λ r2.
          then_stage (write_client continue writes_client e.client_write r2)
            λ r3. write_proxy continue writes_proxy e.proxy_write r3
]

unfoldable pub rounds : List Round → Relay → Progress
unfolding round
rounds [] r = running r
rounds (e ∷ es) r = after (round e r) (rounds es)

unfoldable pub negotiate : (setnonblock_client setnonblock_proxy : Bool) → List Round → Progress
unfolding rounds
negotiate setnonblock_client setnonblock_proxy es =
    if not setnonblock_client
    then returned 1 start
    else if not setnonblock_proxy
    then returned 1 start
    else rounds es start
