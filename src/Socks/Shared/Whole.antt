-- ===== src/Socks/Shared/Whole.antt =====
-- `socks5_run` and the tables that it shares with every other connection.
use silksocks.Base.{◌≡◌, List, ℕ, [], ◌∷◌}
use silksocks.Cache.Ends.{InBudget}
use silksocks.Cache.Ip.Laws.{IsValidIp}
use silksocks.Cache.App.Laws.{IsValidAp}
use silksocks.HashTbl.Valid.{IsValid}
use silksocks.Socks.World.{Fd, fd, World}
use silksocks.Socks.Run.{Ran, finished, hangs, crashes}
use silksocks.Socks.Shared.{ShortCache, Ends, InBudget}

-- The tables that all connections share: valid, with at most so many elements in each cache, and with
-- credentials of up to 127 bytes.
abbrev pub IsShared : ℕ → World → Type 0
IsShared n w =
    IsValid w.dns_table
    × IsValidIp w.cacheip
    × IsValidAp w.cacheapp
    × InBudget n w.cacheip
    × InBudget n w.cacheapp
    × ShortCache w.cacheip

-- the client's descriptor, and then that of the proxy, are closed, and no other
abbrev pub ClosesBoth : ℕ → (proxyfd : Fd) → List Fd → Type 0
ClosesBoth clientfd proxyfd closed = closed ≡ fd clientfd ∷ proxyfd ∷ []

-- A run returns, it has closed the descriptors, and the tables are as they have to be.
abbrev pub EndsWell : (clientfd n : ℕ) → Ran → Type 0
EndsWell clientfd n (finished status closed w) =
    IsShared n w × ClosesBoth clientfd w.client.proxyfd closed
EndsWell clientfd n hangs = ⊥
EndsWell clientfd n crashes = ⊥
