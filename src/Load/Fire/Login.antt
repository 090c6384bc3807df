-- ===== src/Load/Fire/Login.antt =====
-- The login of a transfer, as silksocks reads it.
use silksocks.Base.{
  ℕ, ◌+◌, ◌%◌, ◌^◌, ◌<◌, ◌≤◌, ◌≡◌, refl, true, false, some, List, [], ◌∷◌, ◌++◌, append_assoc, ◌==◌,
  length, get_or, arith,
}
use silksocks.Text.{dash}
use silksocks.UrlQueue.Segment.{Cells}
use silksocks.UrlQueue.Laws.{IsQueue}
use silksocks.UrlQueue.Calls.{urlq_empty-IsQueue, urlq_get-IsQueue}
use silksocks.Socks.World.{World, System, ok}
use silksocks.Socks.Handshake.{strip_redirectaddr}
use silksocks.Socks.Redirect.{is_field, redirected, strip_redirectaddr_lem}
use silksocks.Load.Fire.{port_suffix, Transfer, Fleet, add_transfer, init}
use silksocks.Load.Fire.Laws.{proxy_login-short}

-- "1080"
abbrev pub port : List ℕ
port = 49 ∷ 48 ∷ 56 ∷ 48 ∷ []

-- the world with this name in the client's record
abbrev pub with_user : List ℕ → World → World
with_user user w = record w { client = record w.client { user = user } }

-- what is between `PROXYMGRUSR` and the port
login-redirected :
    (name ip : List ℕ) → (name ++ (dash ∷ [])) ++ (ip ++ port_suffix) ≡ redirected name ip port
login-redirected name ip = append_assoc name (dash ∷ []) (ip ++ port_suffix)

-- With a name and a dash as `PROXYMGRUSR`, and a list whose entry for this turn is an address of up to 15
-- bytes, `init` takes the first string of the queue and adds one transfer for it. When that transfer logs
-- in, `strip_redirectaddr` of the server leaves the name, and stores the address and the port 1080, if
-- `inet_pton` takes the address, and `strtol` "1080" as a number. (Neither the name nor the address is
-- empty or has a dash or zero inside.)
pub init-strip_redirectaddr :
    (sys : System) (w : World) (name ip : List ℕ) (proxylist : List (List ℕ)) (f : Fleet) (a : ℕ)
    (u : List ℕ) (cells : Cells) (sin_addr : List ℕ)
    → is_field name ≡ true
    → is_field ip ≡ true
    → length ip ≤ 15
    → 0 < length proxylist
    → get_or proxylist (f.turn % length proxylist) [] ≡ ip
    → IsQueue f.queue ((a, u) ∷ cells)
    → sys.inet_pton ip ≡ some sin_addr
    → sys.strtol port ≡ (1080, [])
    → (f' : Fleet) × (t : Transfer) × (init (name ++ (dash ∷ [])) proxylist f ≡ some f')
      × (f'.transfers ≡ f.transfers ++ (t ∷ []))
      × (t.url ≡ u)
      × IsQueue f'.queue cells
      × (strip_redirectaddr sys (with_user t.prxuser w)
          ≡ ok tt (record w {
            client = record w.client { user = name; srv_addr = sin_addr; srv_port = 1080 };
          }))
unfolding init add_transfer
init-strip_redirectaddr sys w name ip proxylist f a u cells sin_addr fn fi short some_proxy at v
      pton tol =
    let usr : List ℕ = name ++ (dash ∷ []) in
    let more = urlq_empty-IsQueue f.queue ((a, u) ∷ cells) v in
    let (q, got, v') = urlq_get-IsQueue f.queue a u cells v in
    let nonzero : (length proxylist == 0) ≡ false = ground arith in
    let t : Transfer = record { url = u; prxuser = usr ++ (ip ++ port_suffix) } in
    (
      record f { queue = q; turn = (f.turn + 1) % 2 ^ 32; transfers = f.transfers ++ (t ∷ []) },
      t,
      rw (more, got, nonzero, at, proxy_login-short usr ip short) refl,
      refl,
      refl,
      v',
      strip_redirectaddr_lem sys (with_user t.prxuser w) name ip port sin_addr 1080 fn fi refl short
          (omega arith) (login-redirected name ip) pton tol,
    )
