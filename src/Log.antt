-- ===== src/Log.antt =====
-- error.c: the log. A string is the list of its bytes before the terminator. What `vsnprintf` and
-- `inet_ntop` make, and the text of an error, are arguments; `%u` is a parameter, `decimal`.
pub mod Laws
mod Examples
use silksocks.Base.{
  ℕ, zero, suc, ◌+◌, ◌-◌, ℤ, pos, negsuc, Bool, true, false, Option, none, some, List, [], ◌∷◌,
  ◌++◌, ltb, leb, if◌then◌else◌, take, length, replicate,
}

abbrev pub log_debug : ℕ
log_debug = 7

abbrev pub log_info : ℕ
log_info = 6

abbrev pub log_err : ℕ
log_err = 3

-- the elements of `syslog_lvl`, by their index
pub data Name : Type 0 where
  emerg alert crit err warning notice info debug disabled : Name

abbrev pub syslog_lvl : List Name
syslog_lvl = emerg ∷ alert ∷ crit ∷ err ∷ warning ∷ notice ∷ info ∷ debug ∷ disabled ∷ []

-- `sizeof(syslog_lvl)`: nine pointers of eight bytes
abbrev pub sizeof_syslog_lvl : ℕ
sizeof_syslog_lvl = 72

-- `none` is a read behind the array
abbrev pub get_elem? : {A : Type 0} → List A → ℕ → Option A
get_elem? [] i = none
get_elem? (x ∷ xs) zero = some x
get_elem? (x ∷ xs) (suc i) = get_elem? xs i

unfoldable pub syslog_lvl2str : (level : ℤ) → Option Name
syslog_lvl2str (negsuc n) = get_elem? syslog_lvl (sizeof_syslog_lvl - 1)
syslog_lvl2str (pos n) =
    if ltb log_debug n then get_elem? syslog_lvl (sizeof_syslog_lvl - 1) else get_elem? syslog_lvl n

abbrev pub maxline : ℕ
maxline = 4096

-- `snprintf(buf, size, …)` of a text: its first `size - 1` bytes
abbrev pub snprintf : (size : ℕ) → List ℕ → List ℕ
snprintf size text = take (size - 1) text

-- where a line goes
pub data Sink : Type 0 where
  syslog : (level : ℕ) → Sink
  stderr : Sink

-- `text` is what `fmt` and its arguments come to, `strerror` the text of `errno`
unfoldable pub err_doit :
    (daemon_proc errnoflag : Bool) → (level : ℕ) → (text strerror : List ℕ) → Sink × List ℕ
err_doit daemon_proc errnoflag level text strerror =
    let buf = snprintf maxline text in
    let n = length buf in
    let buf' = if errnoflag then buf ++ snprintf (maxline - n) (b':' ∷ b' ' ∷ strerror) else buf in
    (if daemon_proc then syslog level else stderr, buf' ++ (10 ∷ []))

-- how a function of the log ends
pub data Ending : Type 0 where
  returns : Ending
  exit : ℕ → Ending
  abort : Ending

pub data Report : Type 0 where
  err_ret : Report
  err_sys : Report
  err_dump : Report
  err_msg : Report
  err_quit : Report

-- the function of that name
unfoldable pub report :
    Report → (daemon_proc : Bool) → (text strerror : List ℕ) → (Sink × List ℕ) × Ending
unfolding err_doit
report err_ret d text strerror = (err_doit d true log_info text strerror, returns)
report err_sys d text strerror = (err_doit d true log_err text strerror, exit 1)
report err_dump d text strerror = (err_doit d true log_err text strerror, abort)
report err_msg d text strerror = (err_doit d false log_info text strerror, returns)
report err_quit d text strerror = (err_doit d false log_err text strerror, exit 1)

-- `SILK_LOG(LVL, …)` and, with `errnoflag`, `SILK_LOG_ERRNO`: what is logged, if anything
unfoldable pub silk_log :
    (silk_log_level : ℕ)
    → (daemon_proc errnoflag : Bool) → (level : ℕ) → (text strerror : List ℕ)
    → Option (Sink × List ℕ)
unfolding err_doit
silk_log silk_log_level d errnoflag level text strerror =
    if leb level silk_log_level then some (err_doit d errnoflag level text strerror) else none

-- `%-25s` and `%25s`
abbrev pub spaces : ℕ → List ℕ
spaces n = replicate n b' '

abbrev pub pad_right : List ℕ → List ℕ
pad_right s = s ++ spaces (25 - length s)

abbrev pub pad_left : List ℕ → List ℕ
pad_left s = spaces (25 - length s) ++ s

-- "(unconnected)"
abbrev pub unconnected : List ℕ
unconnected = 40 ∷ 117 ∷ 110 ∷ 99 ∷ 111 ∷ 110 ∷ 110 ∷ 101 ∷ 99 ∷ 116 ∷ 101 ∷ 100 ∷ 41 ∷ []

module _ (decimal : ℕ → List ℕ) where
  -- the string in `buf`: the address, a colon and the port; `none` if `inet_ntop` fails
  unfoldable pub peer_text : Option (List ℕ) → (port : ℕ) → List ℕ
  peer_text none port = unconnected
  peer_text (some addr) port = addr ++ (b':' ∷ decimal port)

  -- the string in `log_buf`
  unfoldable pub addr2logbuf : (clipeer srvpeer : Option (List ℕ) × ℕ) → List ℕ
  unfolding peer_text
  addr2logbuf clipeer srvpeer =
      (pad_right (peer_text clipeer.0 clipeer.1) ++ (b'-' ∷ []))
      ++ pad_left (peer_text srvpeer.0 srvpeer.1)

  -- `peer` is what `getpeername` and then `inet_ntop` give
  unfoldable pub peer2logbuf : (peer : Option (Option (List ℕ) × ℕ)) → Option (List ℕ)
  peer2logbuf none = none
  peer2logbuf (some (none, port)) = none
  peer2logbuf (some (some addr, port)) =
      some (addr ++ snprintf (256 - length addr) (b':' ∷ decimal port))
