-- ===== src/Negotiate/Splice.antt =====
-- The `splice` build of `negotiate` (USE_SPLICE_NEGOTIATE): the data goes through two pipes, which the
-- kernel holds, and the program keeps only how many bytes are in each. The log of the peers in a DEBUG
-- build is left out.
pub mod Parts
pub mod Laws
use silksocks.Base.{
  ℕ, ◌+◌, ◌-◌, Bool, true, false, List, [], ◌∷◌, ◌++◌, ◌&&◌, not, ◌==◌, ltb, if◌then◌else◌, length,
  take, drop,
}
use silksocks.Negotiate.Stages.{
  bufsize, Peer, Polled, ready, timeout, interrupted, failed, Reading, chunk, eof, again, broken,
  Writing, takes, Round,
}

pub record Pipes : Type 0 where
  pub pipecli : List ℕ  -- what the pipe towards the proxy holds
  pub pipesrv : List ℕ  -- what the pipe towards the client holds
  pub npipecli : ℕ
  pub npipesrv : ℕ
  pub clienteof : Bool
  pub client : Peer
  pub proxy : Peer

pub data Stage : Type 0 where
  go : Pipes → Stage
  continue : Pipes → Stage
  exit : ℕ → Pipes → Stage

abbrev pub then_stage : Stage → (Pipes → Stage) → Stage
then_stage (go r) f = f r
then_stage (continue r) f = continue r
then_stage (exit status r) f = exit status r

pub data Progress : Type 0 where
  running : Pipes → Progress
  returned : ℕ → Pipes → Progress

abbrev pub after : Stage → (Pipes → Progress) → Progress
after (go r) f = f r
after (continue r) f = f r
after (exit status r) f = returned status r

-- `shutdown(proxyfd, SHUT_WR)`
unfoldable pub fin_when : Bool → Pipes → Pipes
fin_when true r = record r { proxy = record r.proxy { fin = true } }
fin_when false r = r

-- what one `splice` moves: BUFSIZE bytes at most
abbrev pub moved : List ℕ → List ℕ
moved bytes = take bufsize bytes

unfoldable pub splice_from_client : Bool → Reading → Pipes → Stage
unfolding fin_when
splice_from_client false e r = go r
splice_from_client true Reading.broken r = exit 1 r
splice_from_client true Reading.again r = continue r
splice_from_client true eof r = go (fin_when (r.npipecli == 0) (record r { clienteof = true }))
splice_from_client true (chunk x xs) r =
    let bytes = moved (x ∷ xs) in
    go (record r {
      pipecli = r.pipecli ++ bytes;
      npipecli = r.npipecli + length bytes;
      client = record r.client { received = r.client.received ++ bytes };
    })

unfoldable pub splice_from_proxy : Bool → Reading → Pipes → Stage
splice_from_proxy false e r = go r
splice_from_proxy true Reading.broken r = exit 1 r
splice_from_proxy true Reading.again r = continue r
splice_from_proxy true eof r = exit (if r.clienteof then 0 else 1) r
splice_from_proxy true (chunk x xs) r =
    let bytes = moved (x ∷ xs) in
    go (record r {
      pipesrv = r.pipesrv ++ bytes;
      npipesrv = r.npipesrv + length bytes;
      proxy = record r.proxy { received = r.proxy.received ++ bytes };
    })

unfoldable pub splice_to_client : Bool → Writing → Pipes → Stage
splice_to_client false e r = go r
splice_to_client true Writing.broken r = exit 1 r
splice_to_client true Writing.again r = continue r
splice_to_client true (takes k) r =
    let bytes = moved (take k r.pipesrv) in
    go (record r {
      pipesrv = drop (length bytes) r.pipesrv;
      npipesrv = r.npipesrv - length bytes;
      client = record r.client { sent = r.client.sent ++ bytes };
    })

unfoldable pub splice_to_proxy : Bool → Writing → Pipes → Stage
unfolding fin_when
splice_to_proxy false e r = go r
splice_to_proxy true Writing.broken r = exit 1 r
splice_to_proxy true Writing.again r = continue r
splice_to_proxy true (takes k) r =
    let bytes = moved (take k r.pipecli) in
    let n = r.npipecli - length bytes in
    go (
      fin_when (n == 0 && r.clienteof) (record r {
        pipecli = drop (length bytes) r.pipecli;
        npipecli = n;
        proxy = record r.proxy { sent = r.proxy.sent ++ bytes };
      }))

-- one run of the loop's body; an event is reported only where it was asked for
unfoldable pub splice_round : Round → Pipes → Stage
unfolding splice_from_client splice_from_proxy splice_to_client splice_to_proxy
splice_round e r = elim e.polled [
  | failed ↦ exit 1 r
  | interrupted ↦ continue r
  | timeout ↦ exit 6 r
  | ready client_in client_out proxy_in proxy_out ↦
      let reads_client = client_in && (not r.clienteof && ltb r.npipecli bufsize) in
      let reads_proxy = proxy_in && ltb r.npipesrv bufsize in
      let writes_client = client_out && not (r.npipesrv == 0) in
      let writes_proxy = proxy_out && not (r.npipecli == 0) in
      then_stage (splice_from_client reads_client e.client_read r) λ r1.
        then_stage (splice_from_proxy reads_proxy e.proxy_read r1) λ r2.
          then_stage (splice_to_client (writes_client && ltb 0 r2.npipesrv) e.client_write r2)
            λ r3. splice_to_proxy (writes_proxy && ltb 0 r3.npipecli) e.proxy_write r3
]

unfoldable pub splice_rounds : List Round → Pipes → Progress
unfolding splice_round
splice_rounds [] r = running r
splice_rounds (e ∷ es) r = after (splice_round e r) (splice_rounds es)

abbrev pub start : Pipes
start = record {
  pipecli = [];
  pipesrv = [];
  npipecli = 0;
  npipesrv = 0;
  clienteof = false;
  client = record { received = []; sent = []; fin = false };
  proxy = record { received = []; sent = []; fin = false };
}

unfoldable pub negotiate_splice :
    (setnonblock_client setnonblock_proxy pipe_server pipe_client : Bool) → List Round → Progress
unfolding splice_rounds
negotiate_splice setnonblock_client setnonblock_proxy pipe_server pipe_client es =
    if not setnonblock_client
    then returned 1 start
    else if not setnonblock_proxy
    then returned 1 start
    else if not pipe_server
    then returned 1 start
    else if not pipe_client
    then returned 1 start
    else splice_rounds es start
