-- ===== src/SilkIo.antt =====
-- The exact reads and writes of silkio.c. The kernel's side of a socket is a script: what arrives,
-- call by call, and how much each write takes. A `read` takes at most what it asks for and leaves
-- the rest of a chunk for the next; a script that is used up stands for silence, which a call that
-- waits with a timeout answers with an error.
pub mod Read
pub mod Write
pub mod Exact
mod Examples
use silksocks.Base.{
  ℕ, zero, suc, ◌+◌, ◌-◌, Bool, true, false, not, Option, none, some, List, [], ◌∷◌, ◌++◌,
  if◌then◌else◌, length, take, drop,
}

pub data ReadEvent : Type 0 where
  chunk : ℕ → List ℕ → ReadEvent  -- a first byte and more
  eof : ReadEvent
  eintr : ReadEvent
  error : ReadEvent

pub data WriteEvent : Type 0 where
  takes : ℕ → WriteEvent  -- one byte more than the number, if so many are offered
  nothing : WriteEvent
  eintr : WriteEvent
  error : WriteEvent

-- A descriptor: its scripts, what has been sent, and whether the timeouts can be set.
pub record Socket : Type 0 where
  pub incoming : List ReadEvent
  pub accepts : List WriteEvent
  pub sent : List ℕ
  pub rcvtimeo : Bool
  pub sndtimeo : Bool

-- What the two calls of `fcntl` answer; the result is whether the function returns 0.
unfoldable pub setnonblock : (getfl setfl : Bool) → Bool
setnonblock getfl setfl = if not getfl then false else if not setfl then false else true

-- `setrcvtimeo(fd, …) == 0`, and the same for `setsndtimeo`
abbrev pub setrcvtimeo : Socket → Bool
setrcvtimeo fd = fd.rcvtimeo

abbrev pub setsndtimeo : Socket → Bool
setsndtimeo fd = fd.sndtimeo

-- the result (`none` is -1), the bytes at `vptr`, and what is left to read
pub record Received : Type 0 where
  pub count : Option ℕ
  pub bytes : List ℕ
  pub rest : List ReadEvent

-- the loop of `readn_timeo`, with `nleft` bytes to go and `got` behind `ptr`
unfoldable pub readn_loop : (n nleft : ℕ) → List ℕ → List ReadEvent → Received
readn_loop n zero got es = record { count = some n; bytes = got; rest = es }
readn_loop n (suc k) got [] = record { count = none; bytes = got; rest = [] }
readn_loop n (suc k) got (ReadEvent.eof ∷ es) = record {
  count = some (n - suc k);
  bytes = got;
  rest = eof ∷ es;
}
readn_loop n (suc k) got (ReadEvent.eintr ∷ es) = readn_loop n (suc k) got es
readn_loop n (suc k) got (ReadEvent.error ∷ es) = record { count = none; bytes = got; rest = es }
readn_loop n (suc k) got (chunk b bs ∷ es) =
    let all = got ++ take (suc k) (b ∷ bs) in
    elim (drop k bs) [
      | [] ↦ readn_loop n (suc k - length (take (suc k) (b ∷ bs))) all es
      | c ∷ cs ↦ record { count = some n; bytes = all; rest = chunk c cs ∷ es }
    ]

unfoldable pub readn_timeo : Socket → ℕ → Option ℕ × List ℕ × Socket
unfolding readn_loop
readn_timeo fd n =
    let r = readn_loop n n [] fd.incoming in
    if setrcvtimeo fd then (r.count, r.bytes, record fd { incoming = r.rest }) else (none, [], fd)

-- the result (`none` is -1), what the writes took, and the script that is left
pub record Written : Type 0 where
  pub count : Option ℕ
  pub bytes : List ℕ
  pub rest : List WriteEvent

-- The loop of `writen_timeo`: the list holds the bytes from `ptr` on, and `out` those before it.
unfoldable pub writen_loop : (n : ℕ) → List ℕ → List ℕ → List WriteEvent → Written
writen_loop n out [] es = record { count = some n; bytes = out; rest = es }
writen_loop n out (b ∷ bs) [] = record { count = none; bytes = out; rest = [] }
writen_loop n out (b ∷ bs) (WriteEvent.nothing ∷ es) = record {
  count = none;
  bytes = out;
  rest = es;
}
writen_loop n out (b ∷ bs) (WriteEvent.eintr ∷ es) = writen_loop n out (b ∷ bs) es
writen_loop n out (b ∷ bs) (WriteEvent.error ∷ es) = record { count = none; bytes = out; rest = es }
writen_loop n out (b ∷ bs) (takes k ∷ es) =
    writen_loop n (out ++ take (suc k) (b ∷ bs)) (drop (suc k) (b ∷ bs)) es

unfoldable pub writen_timeo : Socket → List ℕ → Option ℕ × Socket
unfolding writen_loop
writen_timeo fd vptr =
    let w = writen_loop (length vptr) [] vptr fd.accepts in
    if setsndtimeo fd
    then (w.count, record fd { accepts = w.rest; sent = fd.sent ++ w.bytes })
    else (none, fd)
