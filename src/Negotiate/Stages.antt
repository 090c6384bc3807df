-- ===== src/Negotiate/Stages.antt =====
-- The state of the relay and the four parts of a round: the reads and the writes of each side. The
-- poll and the select build share them, but for the errors that they pass over.
use silksocks.Base.{
  ℕ, ◌+◌, ◌-◌, Bool, true, false, List, [], ◌∷◌, ◌++◌, ◌&&◌, ◌==◌, ltb, if◌then◌else◌, length, take,
  drop,
}

-- `BUFSIZE`
abbrev pub bufsize : ℕ
bufsize = 1048576

-- `to` or `fr`: the bytes from the start to the input pointer, and where the output pointer stands
pub record Buffer : Type 0 where
  pub stored : List ℕ
  pub optr : ℕ

abbrev pub empty : Buffer
empty = record { stored = []; optr = 0 }

-- the bytes between the pointers
unfoldable pub pending : Buffer → List ℕ
pending b = drop b.optr b.stored

-- a socket: what has been read from it and written to it, and whether FIN was sent
pub record Peer : Type 0 where
  pub received : List ℕ
  pub sent : List ℕ
  pub fin : Bool

pub record Relay : Type 0 where
  pub to : Buffer
  pub fr : Buffer
  pub clienteof : Bool
  pub client : Peer
  pub proxy : Peer

pub data Polled : Type 0 where
  ready : (client_in client_out proxy_in proxy_out : Bool) → Polled
  timeout : Polled
  interrupted : Polled  -- an error that the build passes over
  failed : Polled

pub data Reading : Type 0 where
  chunk : ℕ → List ℕ → Reading  -- a first byte and more
  eof : Reading
  again : Reading  -- an error that the build passes over
  broken : Reading

pub data Writing : Type 0 where
  takes : ℕ → Writing  -- as many bytes, if so many are offered
  again : Writing
  broken : Writing

pub record Round : Type 0 where
  pub polled : Polled
  pub client_read : Reading
  pub proxy_read : Reading
  pub client_write : Writing
  pub proxy_write : Writing

-- how a part ends: on to the next part, `continue`, or `return`
pub data Stage : Type 0 where
  go : Relay → Stage
  continue : Relay → Stage
  exit : ℕ → Relay → Stage

abbrev pub then_stage : Stage → (Relay → Stage) → Stage
then_stage (go r) f = f r
then_stage (continue r) f = continue r
then_stage (exit status r) f = exit status r

pub data Progress : Type 0 where
  running : Relay → Progress
  returned : ℕ → Relay → Progress

abbrev pub after : Stage → (Relay → Progress) → Progress
after (go r) f = f r
after (continue r) f = f r
after (exit status r) f = returned status r

abbrev pub start : Relay
start = record {
  to = empty;
  fr = empty;
  clienteof = false;
  client = record { received = []; sent = []; fin = false };
  proxy = record { received = []; sent = []; fin = false };
}

-- what a read adds to a buffer: as much as has room
unfoldable pub arrived : Buffer → ℕ → List ℕ → List ℕ
arrived b x xs = take (bufsize - length b.stored) (x ∷ xs)

abbrev pub stores : Buffer → List ℕ → Buffer
stores b bytes = record b { stored = b.stored ++ bytes }

-- the output pointer moves on, and both go back to the start when it reaches the input pointer
unfoldable pub advance : Buffer → ℕ → Buffer
advance b n = if b.optr + n == length b.stored then empty else record b { optr = b.optr + n }

abbrev pub drained : Buffer → Bool
drained b = b.optr == length b.stored

-- `shutdown(proxyfd, SHUT_WR)` if the client is done and nothing is left
unfoldable pub fin_when : Bool → Relay → Relay
fin_when true r = record r { proxy = record r.proxy { fin = true } }
fin_when false r = r

-- `pass` is what the build does on an error of `read` or `write` that it passes over.
unfoldable pub read_client : (pass : Relay → Stage) (asked : Bool) → Reading → Relay → Stage
unfolding arrived fin_when
read_client pass false e r = go r
read_client pass true Reading.broken r = exit 1 r
read_client pass true Reading.again r = pass r
read_client pass true eof r = go (fin_when (drained r.to) (record r { clienteof = true }))
read_client pass true (chunk x xs) r =
    let bytes = arrived r.to x xs in
    go (record r {
      to = stores r.to bytes;
      client = record r.client { received = r.client.received ++ bytes };
    })

unfoldable pub read_proxy : (pass : Relay → Stage) (asked : Bool) → Reading → Relay → Stage
unfolding arrived
read_proxy pass false e r = go r
read_proxy pass true Reading.broken r = exit 1 r
read_proxy pass true Reading.again r = pass r
read_proxy pass true eof r = exit (if r.clienteof then 0 else 1) r
read_proxy pass true (chunk x xs) r =
    let bytes = arrived r.fr x xs in
    go (record r {
      fr = stores r.fr bytes;
      proxy = record r.proxy { received = r.proxy.received ++ bytes };
    })

unfoldable pub write_client : (pass : Relay → Stage) (asked : Bool) → Writing → Relay → Stage
unfolding pending advance
write_client pass asked e r =
    if asked && ltb 0 (length (pending r.fr))
    then elim e [
      | Writing.broken ↦ exit 1 r
      | Writing.again ↦ pass r
      | takes k ↦
          let bytes = take k (pending r.fr) in
          go (record r {
            fr = advance r.fr (length bytes);
            client = record r.client { sent = r.client.sent ++ bytes };
          })
    ]
    else go r

unfoldable pub write_proxy : (pass : Relay → Stage) (asked : Bool) → Writing → Relay → Stage
unfolding pending advance fin_when
write_proxy pass asked e r =
    if asked && ltb 0 (length (pending r.to))
    then elim e [
      | Writing.broken ↦ exit 1 r
      | Writing.again ↦ pass r
      | takes k ↦
          let bytes = take k (pending r.to) in
          let optr = r.to.optr + length bytes in
          go (
            fin_when (optr == length r.to.stored && r.clienteof) (record r {
              to = advance r.to (length bytes);
              proxy = record r.proxy { sent = r.proxy.sent ++ bytes };
            }))
    ]
    else go r
