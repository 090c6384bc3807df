-- ===== src/Listen.antt =====
-- `tcp_listen` of tcp_listen.c. `getaddrinfo` gives a list of addresses, with what the system answers
-- to the calls on each; the state is the list of the descriptors that are open.
pub mod Laws
mod Examples
use silksocks.Base.{
  ℕ, ◌+◌, ◌≡◌, refl, ap, ◌∙◌, Bool, true, false, Option, none, some, List, [], ◌∷◌, ◌++◌, ◌&&◌, not,
  ◌==◌, ==_refl, if◌then◌else◌, arith, Bool-cases, inl, inr, ◌⊎◌,
}

pub record Address : Type 0 where
  pub socket : Option ℕ
  pub setsockopt : Bool
  pub bind : Bool
  pub close : Bool
  pub listen : Bool
  pub addrlen : ℕ

-- `exits` is the end of the process by `err_quit` or `err_sys`
pub data Listened : Type 0 where
  listening : (listenfd addrlen : ℕ) → (open_fds : List ℕ) → Listened
  exits : Listened

-- `close(fd)` takes a descriptor out
abbrev pub without : ℕ → List ℕ → List ℕ
without fd [] = []
without fd (n ∷ ns) = if fd == n then ns else n ∷ without fd ns

-- behind the loop, with `res` not `NULL`
unfoldable pub start_listening : Address → (listenfd : ℕ) → List ℕ → Listened
start_listening res listenfd fds =
    if not res.listen then exits else listening listenfd res.addrlen fds

-- the loop, and the test of `res` behind it
unfoldable pub try_addresses : List Address → List ℕ → Listened
unfolding start_listening
try_addresses [] fds = exits
try_addresses (res ∷ next) fds = elim res.socket [
  | none ↦ try_addresses next fds
  | some listenfd ↦
      let opened = listenfd ∷ fds in
      let again = try_addresses next (without listenfd opened) in
      if not res.setsockopt
      then exits
      else if res.bind
      then start_listening res listenfd opened
      else if not res.close
      then exits
      else again
]

-- `none` is an error of `getaddrinfo`; `getaddrinfo` gives one address at least
unfoldable pub tcp_listen : Option (List Address) → List ℕ → Listened
unfolding try_addresses
tcp_listen none fds = exits
tcp_listen (some res) fds = try_addresses res fds
