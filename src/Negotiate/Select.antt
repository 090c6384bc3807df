-- ===== src/Negotiate/Select.antt =====
-- The `select` build of `negotiate` (USE_SELECT_NEGOTIATE). It waits without a timeout, takes any
-- error of `select` for the end, goes on with the round after an error that it passes over, and
-- tries a write in the round of the read: the reads set the bit in the set of results. The log of
-- the peers in a DEBUG build is left out.
use silksocks.Base.{
  Bool, true, false, List, [], ◌∷◌, ◌&&◌, ◌||◌, not, ◌==◌, ltb, if◌then◌else◌, length,
}
use silksocks.Negotiate.Stages.{
  start, bufsize, Relay, ready, Reading, chunk, Round, Stage, go, exit, then_stage, read_client,
  read_proxy, write_client, write_proxy, Progress, running, returned, after,
}

-- the bits of the read sets and of the write sets
abbrev pub in_rset_client : Relay → Bool
in_rset_client r = not r.clienteof && ltb (length r.to.stored) bufsize

abbrev pub in_rset_proxy : Relay → Bool
in_rset_proxy r = ltb (length r.fr.stored) bufsize

abbrev pub in_wset_proxy : Relay → Bool
in_wset_proxy r = not (r.to.optr == length r.to.stored)

abbrev pub in_wset_client : Relay → Bool
in_wset_client r = not (r.fr.optr == length r.fr.stored)

-- whether the read took data and sets the other side's bit
abbrev pub took : Bool → Reading → Bool
took true (chunk x xs) = true
took asked e = false

-- one run of the loop's body; `select` answers with some of the bits, or fails
unfoldable pub select_round : Round → Relay → Stage
unfolding read_client read_proxy write_client write_proxy
select_round e r = elim e.polled [
  | ready client_in client_out proxy_in proxy_out ↦
      let reads_client = client_in && in_rset_client r in
      let reads_proxy = proxy_in && in_rset_proxy r in
      let writes_client = client_out && in_wset_client r || took reads_proxy e.proxy_read in
      let writes_proxy = proxy_out && in_wset_proxy r || took reads_client e.client_read in
      then_stage (read_client go reads_client e.client_read r) λ r1.
        then_stage (read_proxy go reads_proxy e.proxy_read r1) λ r2.
          then_stage (write_client go writes_client e.client_write r2)
            λ r3. write_proxy go writes_proxy e.proxy_write r3
  | _ ↦ exit 1 r
]

unfoldable pub select_rounds : List Round → Relay → Progress
unfolding select_round
select_rounds [] r = running r
select_rounds (e ∷ es) r = after (select_round e r) (select_rounds es)

unfoldable pub negotiate_select :
    (setnonblock_client setnonblock_proxy : Bool) → List Round → Progress
unfolding select_rounds
negotiate_select setnonblock_client setnonblock_proxy es =
    if not setnonblock_client
    then returned 1 start
    else if not setnonblock_proxy
    then returned 1 start
    else select_rounds es start
