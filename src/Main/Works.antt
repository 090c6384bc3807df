-- ===== src/Main/Works.antt =====
-- The connections that the thread pool works on, one after another, from the start of the process on.
use silksocks.Base.{ℕ, Bool, List, [], ◌∷◌}
use silksocks.SilkIo.{Socket}
use silksocks.Negotiate.{negotiate}
use silksocks.Negotiate.Stages.{Round, Progress, running, returned}
use silksocks.Socks.World.{Fd, World, System, M, ok, stuck}
use silksocks.Socks.Run.{Ran, finished, hangs, crashes}
use silksocks.Socks.Shared.Lookups.{ShortRows}
use silksocks.Socks.Shared.Whole.{IsShared, ClosesBoth}
use silksocks.Main.{Server, proxy_start}

-- What one connection meets: the system's answers, whether the client still has an address, the two
-- sockets in the dialogue, and the answers of the system to the relay.
pub record Env : Type 0 where
  pub sys : System
  pub getpeername : Bool
  pub cli : Socket
  pub prx : Socket
  pub setnonblock_client : Bool
  pub setnonblock_proxy : Bool
  pub answers : List Round

-- the status of the relay, which hangs if it has not returned by the last of the answers
abbrev pub of_progress : Progress → M ℕ
of_progress (running r) w = stuck
of_progress (returned status r) w = ok status w

-- `negotiate(client.clientfd, client.proxyfd)`, which has no part in the tables
abbrev pub relay_of : Env → M ℕ
relay_of e = of_progress (negotiate e.setnonblock_client e.setnonblock_proxy e.answers)

-- For each connection the descriptor that its record held for the proxy at the end, and what it closed,
-- with the world behind the last; or a connection that does not end; or one
-- that ends the process.
pub data Worked : Type 0 where
  worked : (closed : List (Fd × List Fd)) → World → Worked
  hung : Worked
  crashed : Worked

abbrev pub arrives : Env → World → World
arrives e w = record w { cli = e.cli; prx = e.prx }

abbrev pub closing : Fd × List Fd → Worked → Worked
closing r (worked closed w) = worked (r ∷ closed) w
closing r hung = hung
closing r crashed = crashed

abbrev pub after_run : Ran → (World → Worked) → Worked
after_run (finished status closed w) k = closing (w.client.proxyfd, closed) (k w)
after_run hangs k = hung
after_run crashes k = crashed

-- The work that `thpool_add_work` was given, for as many connections as there are environments. They
-- share the tables of the world.
unfoldable pub work_all : (work : List ℕ) → List Env → World → Worked
unfolding proxy_start negotiate
work_all [] es w = worked [] w
work_all (arg ∷ work) [] w = worked [] w
work_all (arg ∷ work) (e ∷ es) w =
    after_run (proxy_start e.sys (relay_of e) e.getpeername arg (arrives e w)) (work_all work es)

-- the world with the tables of the process
abbrev pub with_server : Server → World → World
with_server s w = record w { dns_table = s.dns_table; cacheip = s.cacheip; cacheapp = s.cacheapp }

abbrev pub HasReturned : Progress → Type 0
HasReturned (running r) = ⊥
HasReturned (returned status r) = Unit

-- each relay returns, and no proxy has credentials that are too long
abbrev pub AllSound : List Env → Type 0
AllSound [] = Unit
AllSound (e ∷ es) =
    HasReturned (negotiate e.setnonblock_client e.setnonblock_proxy e.answers)
    × ShortRows e.sys
    × AllSound es

-- the descriptors of the connections that there are environments for
abbrev pub served : (work : List ℕ) → List Env → List ℕ
served [] es = []
served (arg ∷ work) [] = []
served (arg ∷ work) (e ∷ es) = arg ∷ served work es

-- each of them was closed, and then the descriptor for the proxy
abbrev pub AllClosed : List ℕ → List (Fd × List Fd) → Type 0
AllClosed [] [] = Unit
AllClosed [] (r ∷ closed) = ⊥
AllClosed (arg ∷ args) [] = ⊥
AllClosed (arg ∷ args) ((proxyfd, fds) ∷ closed) =
    ClosesBoth arg proxyfd fds × AllClosed args closed

abbrev pub WorksWell : (work : List ℕ) → ℕ → Worked → Type 0
WorksWell work n (worked closed w) = IsShared n w × AllClosed work closed
WorksWell work n hung = ⊥
WorksWell work n crashed = ⊥
