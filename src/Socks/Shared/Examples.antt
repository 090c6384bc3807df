-- ===== src/Socks/Shared/Examples.antt =====
-- A run from empty tables, which asks the database for the client's password and the proxy's login.
use silksocks.Base.{arith, true, false, [], ◌∷◌, ◌++◌}
use silksocks.Socks.World.{World, System}
use silksocks.ConnectNonb.{connected, writable}
use silksocks.Socks.Redirect.{redirected}
use silksocks.Socks.Examples.{world, system}
use silksocks.Db.{row, sqlget_proxycreds, fetched}
use silksocks.Socks.Shared.Lookups.{ShortRows}

-- the client logs in as "a" with the password "p" and asks for 10.0.0.2
abbrev pub newcomer : World
newcomer =
    world
      (5
        ∷ 1
        ∷ 2
        ∷ 1
        ∷ 5
        ∷ (redirected (97 ∷ []) (49 ∷ []) (50 ∷ [])
            ++ (1 ∷ 112 ∷ 5 ∷ 1 ∷ 0 ∷ 1 ∷ 10 ∷ 0 ∷ 0 ∷ 2 ∷ 0 ∷ 80 ∷ 71 ∷ [])))
      (5 ∷ 2 ∷ 1 ∷ 0 ∷ 5 ∷ 0 ∷ 0 ∷ 1 ∷ 10 ∷ 0 ∷ 0 ∷ 1 ∷ 4 ∷ 56 ∷ 72 ∷ [])

-- a system that connects to any proxy, with "u" and "p" in the database for each
abbrev pub linked : System
linked = record system {
  db = record system.db {
    proxy = λ ip port status. record {
      alloc_handle = true;
      bind_col = λ n. true;
      bind_parameter = λ n. true;
      exec_direct = true;
      fetch = row (117 ∷ [], 112 ∷ []);
    };
  };
  connect = record {
    getfl = true;
    setfl = true;
    connect = connected;
    waits = writable true false ∷ [];
    restore = true;
  };
}

pub short_rows : ShortRows linked
unfolding sqlget_proxycreds fetched
short_rows ip port = (omega arith, omega arith)
