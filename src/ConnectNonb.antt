-- ===== src/ConnectNonb.antt =====
-- Two builds of `connect_nonb` in connect_nonb.c: blocking (CONNB_BLOCK), and with `poll`, which the
-- Makefile builds. The build with `select` (CONNB_SELECT) has log lines that do not compile. The answers of the system are a
-- script; a script of waits that is used up stands for a timeout.
pub mod Laws
mod Examples
use silksocks.Base.{ℕ, Bool, true, false, List, [], ◌∷◌, not, if◌then◌else◌}

-- what `connect` answers on the non-blocking socket
pub data Connect : Type 0 where
  connected : Connect
  in_progress : Connect
  again : Connect  -- EAGAIN
  refused : Connect  -- any other error

-- The answers of a wait for the socket to be writable. A socket is also reported when the
-- connection has failed: `so_error` says whether it has, and `getsockopt` whether that can be read.
pub data Wait : Type 0 where
  writable : (getsockopt so_error : Bool) → Wait
  unset : (einprogress : Bool) → Wait  -- reported without the bit that was asked for
  timeout : Wait
  eintr : Wait
  eagain : Wait
  failed : Wait

pub record Script : Type 0 where
  pub getfl : Bool
  pub setfl : Bool
  pub connect : Connect
  pub waits : List Wait
  pub restore : Bool

-- the result (`true` is 0, `false` is -1), and whether the socket has been closed
pub record Result : Type 0 where
  pub success : Bool
  pub closed : Bool

abbrev pub result : Bool → Bool → Result
result success closed = record { success = success; closed = closed }

unfoldable pub connect_nonb_block : Script → Result
connect_nonb_block s = elim s.connect [ connected ↦ result true false | _ ↦ result false false ]

-- from `again:` on
unfoldable pub poll_again : List Wait → Result
poll_again [] = result false false
poll_again (timeout ∷ ws) = result false false
poll_again (eintr ∷ ws) = poll_again ws
poll_again (eagain ∷ ws) = poll_again ws
poll_again (failed ∷ ws) = result false false
poll_again (writable getsockopt so_error ∷ ws) = result true false
poll_again (unset einprogress ∷ ws) = result true false

unfoldable pub connect_nonb : Script → Result
unfolding poll_again
connect_nonb s =
    if not s.getfl
    then result false false
    else if not s.setfl
    then result false false
    else elim s.connect [ refused ↦ result false false | _ ↦ poll_again s.waits ]
