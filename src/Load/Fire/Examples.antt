-- ===== src/Load/Fire/Examples.antt =====
-- A transfer of the load generator and its login at the server.
use silksocks.Base.{ℕ, ◌≡◌, refl, none, some, List, [], ◌∷◌, ◌++◌, arith}
use silksocks.Text.{dash}
use silksocks.UrlQueue.{UrlQueue, lookup}
use silksocks.UrlQueue.Segment.{nil, cons}
use silksocks.UrlQueue.Laws.{IsQueue}
use silksocks.Socks.World.{ok}
use silksocks.Socks.Handshake.{strip_redirectaddr}
use silksocks.Socks.Examples.{world, system}
use silksocks.Load.Fire.{Transfer, Fleet, init}
use silksocks.Load.Fire.Login.{with_user, init-strip_redirectaddr}

-- "10.0.0.2"
abbrev ip : List ℕ
ip = 49 ∷ 48 ∷ 46 ∷ 48 ∷ 46 ∷ 48 ∷ 46 ∷ 50 ∷ []

-- "b" is next
abbrev queue : UrlQueue
queue = record {
  heap = (5, some (record { url = 98 ∷ []; next = none })) ∷ [];
  head = some 5;
  tail = some 5;
  size = 1;
}

queue-IsQueue : IsQueue queue ((5, 98 ∷ []) ∷ [])
unfolding lookup
queue-IsQueue = record { seg = cons refl refl nil; ends = refl; counted = refl }

-- at the third turn of a list of two
abbrev fleet : Fleet
fleet = record { queue = queue; turn = 2; transfers = []; dropped = 0 }

init-strip_redirectaddr_example :
    (f : Fleet) × (t : Transfer) × (init ((97 ∷ []) ++ (dash ∷ [])) (ip ∷ [] ∷ []) fleet ≡ some f)
    × (f.transfers ≡ t ∷ [])
    × (t.url ≡ 98 ∷ [])
    × IsQueue f.queue []
    × (strip_redirectaddr system (with_user t.prxuser (world [] []))
        ≡ ok tt (record (world [] []) {
          client = record (world [] []).client {
            user = 97 ∷ [];
            srv_addr = 10 ∷ 0 ∷ 0 ∷ 1 ∷ [];
            srv_port = 1080;
          };
        }))
init-strip_redirectaddr_example =
    init-strip_redirectaddr system (world [] []) (97 ∷ []) ip (ip ∷ [] ∷ []) fleet 5 (98 ∷ []) []
      (10 ∷ 0 ∷ 0 ∷ 1 ∷ []) refl refl (omega arith) (omega arith) refl queue-IsQueue refl refl
