-- ===== src/Socks/Run.antt =====
-- `socks5_run`: one connection from the negotiation of the method to the closing of its sockets.
use silksocks.Base.{ℕ, Bool, Option, none, some, List, [], ◌∷◌, ◌&&◌, not, ◌==◌, if◌then◌else◌}
use silksocks.Socks.Handshake.{
  socks5_choosemethod, socks5_readauth, strip_redirectaddr, socks5_doauth,
}
use silksocks.Socks.Request.{socks5_readrequest}
use silksocks.Socks.Upstream.{socks5_connectproxy, socks5_writereply}
use silksocks.Socks.World.{
  unspec, Fd, fd, Client, World, System, Outcome, ok, ret, stuck, crash, M, ◌>>=◌, ◌>>◌, pure,
  return, fail_if, status_of, get,
}

-- `if ((status = negotiate(…)) != 0) goto done;`
unfoldable pub relay : (negotiate : M ℕ) → M (Unit {0})
relay negotiate = do status ← negotiate; fail_if (not (status == 0)) status

-- The steps from the client's request on. `negotiate` is the relay's status, with the world it leaves;
-- the reply after a failure is sent and its own status dropped.
unfoldable pub serve : System → (negotiate : M ℕ) → M (Unit {0})
unfolding socks5_readrequest socks5_connectproxy socks5_writereply relay
serve sys negotiate = do
  socks5_readrequest sys
  w ← get
  fail_if (not (w.client.cmd == 0x01)) 7
  status ← status_of (socks5_connectproxy sys)
  if not (status == 0)
      then (do ignored ← status_of (socks5_writereply sys status); return status)
      else pure tt
  socks5_writereply sys status
  relay negotiate

-- `if (method == 0x02) … else if (method && method != 0xFF) …`
unfoldable pub authenticate : System → (method : ℕ) → M (Unit {0})
unfolding socks5_readauth strip_redirectaddr socks5_doauth
authenticate sys method =
    if method == 0x02
    then (do socks5_readauth; strip_redirectaddr sys; socks5_doauth sys)
    else fail_if (not (method == 0) && not (method == 0xFF)) 7

-- the steps from the method to `done:`
unfoldable pub run_body : System → (negotiate : M ℕ) → M (Unit {0})
unfolding socks5_choosemethod authenticate serve
run_body sys negotiate = do
  method ← socks5_choosemethod
  authenticate sys method
  serve sys negotiate

-- how the function ends: its status, which is not set when `getpeername` fails, and the descriptors
-- that it closes
pub data Ran : Type 0 where
  finished : (status : Option ℕ) → (closed : List Fd) → World → Ran
  hangs : Ran
  crashes : Ran

-- `memset(&client, 0, sizeof(client)); client.clientfd = clientfd;`
abbrev pub new_client : ℕ → Client
new_client clientfd = record {
  request = record { family = unspec; addr = []; port = [] };
  user = [];
  passwd = [];
  clientfd = clientfd;
  proxyfd = fd 0;
  srv_addr = [];
  srv_port = 0;
  cmd = 0;
}

-- from `done:` on
abbrev pub closes : World → List Fd
closes w = fd w.client.clientfd ∷ w.client.proxyfd ∷ []

abbrev pub ran : Outcome (Unit {0}) → Ran
ran (ok u w) = finished (some 0) (closes w) w
ran (ret k w) = finished (some k) (closes w) w
ran stuck = hangs
ran crash = crashes

unfoldable pub socks5_run :
    System → (negotiate : M ℕ) → (getpeername : Bool) → (clientfd : ℕ) → World → Ran
unfolding run_body
socks5_run sys negotiate getpeername clientfd w =
    let w' = record w { client = new_client clientfd } in
    if getpeername then ran (run_body sys negotiate w') else finished none (closes w') w'
