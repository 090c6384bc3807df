-- ===== src/Socks/Examples.antt =====
-- The theorems on socks.c at concrete messages.
use silksocks.Base.{
  ℕ, ◌≡◌, refl, true, false, none, some, List, [], ◌∷◌, ◌&&◌, ltb, if◌then◌else◌, arith,
}
use silksocks.Cache.Rehash.{fresh}
use silksocks.Cache.Ip.{no_creds}
use silksocks.Cache.App.{no_passwd, cache_getapp}
use silksocks.HashTbl.Valid.{fresh_table}
use silksocks.Db.{Odbc, no_data, row}
use silksocks.ConnectNonb.{connected}
use silksocks.SilkIo.{ReadEvent, chunk, WriteEvent, takes, Socket}
use silksocks.SilkIo.Read.{payload}
use silksocks.SilkIo.Exact.{reading, wrote}
use silksocks.Socks.World.{World, System, M, ok, crash}
use silksocks.Socks.Run.{new_client, serve, run_body}
use silksocks.Cache.Table.{fetch, probe}
use silksocks.Cache.Hash.{hash_str}
use silksocks.Text.{c_string}
use silksocks.Socks.Handshake.{app_passwd, same_string, socks5_choosemethod, socks5_doauth}
use silksocks.Socks.Request.{socks5_readrequest}
use silksocks.Socks.Upstream.{atyp_of, address_packet, auth_packet}
use silksocks.Socks.Method.{method_of, socks5_choosemethod_lem}
use silksocks.Socks.Reply.{from_client, ip_family, sockaddr, socks5_readrequest-address_packet}
use silksocks.Socks.Password.{IsPassword, socks5_doauth-IsPassword, auth_packet_lem}
use silksocks.Socks.Bypass.{run_body-no_method}

-- a socket on which some bytes arrive one by one
abbrev bytewise : List ℕ → List ReadEvent
bytewise [] = []
bytewise (b ∷ bs) = chunk b [] ∷ bytewise bs

abbrev pub arriving : List ℕ → Socket
arriving bytes = record {
  incoming = bytewise bytes;
  accepts = takes 15 ∷ takes 15 ∷ [];
  sent = [];
  rcvtimeo = true;
  sndtimeo = true;
}

abbrev pub world : List ℕ → List ℕ → World
world from_cli from_prx = record {
  client = new_client 7;
  cli = arriving from_cli;
  prx = arriving from_prx;
  dns_table = fresh_table 4;
  cacheip = fresh no_creds 4;
  cacheapp = fresh no_passwd 4;
}

-- a database with the password "p" for every application
abbrev database : Odbc
database = record {
  henv = true;
  hdbc = true;
  app = λ user. record {
    alloc_handle = true;
    bind_col = λ n. true;
    bind_parameter = λ n. true;
    exec_direct = true;
    fetch = row (112 ∷ []);
  };
  proxy = λ ip port status. record {
    alloc_handle = true;
    bind_col = λ n. true;
    bind_parameter = λ n. true;
    exec_direct = true;
    fetch = no_data;
  };
}

abbrev pub system : System
system = record {
  map_malloc = λ n. true;
  db = database;
  inet_pton = λ s. some (10 ∷ 0 ∷ 0 ∷ 1 ∷ []);
  strtol = λ s. (1080, []);
  getaddrinfo = λ host family. none;
  getsockname = λ f. none;
  socket = some 8;
  connect = record { getfl = true; setfl = true; connect = connected; waits = []; restore = true };
  now_get = 0;
  now_expires = 0;
  now_check = 0;
  now_put = 0;
}

abbrev pub relayed : M ℕ
relayed w = ok 0 w

abbrev greeting : World
greeting = world (5 ∷ 2 ∷ 0 ∷ 2 ∷ 1 ∷ []) []

socks5_choosemethod_lem_example :
    (es : List ReadEvent) × (ws : List WriteEvent) × (socks5_choosemethod greeting
      ≡ ok (method_of (0 ∷ 2 ∷ [])) (record greeting {
        cli = wrote (5 ∷ method_of (0 ∷ 2 ∷ []) ∷ []) ws (reading es greeting.cli);
      }))
    × (payload es ≡ 1 ∷ [])
socks5_choosemethod_lem_example =
    socks5_choosemethod_lem greeting (0 ∷ 2 ∷ []) (1 ∷ []) refl refl (omega arith) refl

abbrev login : World
login = world (1 ∷ 2 ∷ 97 ∷ 98 ∷ 1 ∷ 112 ∷ 5 ∷ []) []

abbrev odd_reply : World
odd_reply = world [] (4 ∷ 0 ∷ 0 ∷ 1 ∷ [])

abbrev reply : World
reply = world [] (5 ∷ 0 ∷ 0 ∷ 1 ∷ 10 ∷ 0 ∷ 0 ∷ 1 ∷ 0 ∷ 80 ∷ 42 ∷ [])

abbrev request : World
request = world (5 ∷ 1 ∷ 9 ∷ 1 ∷ 10 ∷ 0 ∷ 0 ∷ 1 ∷ 0 ∷ 80 ∷ 42 ∷ []) []

socks5_readrequest-address_packet_example :
    (es : List ReadEvent) × (socks5_readrequest system request
      ≡ ok tt (record (from_client es request) {
        client = record request.client {
          cmd = 1;
          request = sockaddr false (10 ∷ 0 ∷ 0 ∷ 1 ∷ []) (0 ∷ 80 ∷ []);
        };
      }))
    × (address_packet 1 (sockaddr false (10 ∷ 0 ∷ 0 ∷ 1 ∷ []) (0 ∷ 80 ∷ []))
        ≡ 5 ∷ 1 ∷ 0 ∷ atyp_of (ip_family false) ∷ 10 ∷ 0 ∷ 0 ∷ 1 ∷ 0 ∷ 80 ∷ [])
    × (payload es ≡ 42 ∷ [])
socks5_readrequest-address_packet_example =
    socks5_readrequest-address_packet system request false 9 (10 ∷ 0 ∷ 0 ∷ 1 ∷ []) (0 ∷ 80 ∷ [])
      (42 ∷ []) refl refl refl refl

auth_packet_lem_example :
    auth_packet (97 ∷ []) (112 ∷ []) login
    ≡ (if ltb 1 128 && ltb 1 128 then ok (1 ∷ 1 ∷ 97 ∷ 1 ∷ 112 ∷ []) login else crash)
auth_packet_lem_example = auth_packet_lem (97 ∷ []) (112 ∷ []) login (omega arith) (omega arith)

-- a client that offers no login
abbrev anonymous : World
anonymous = world (5 ∷ 1 ∷ 0 ∷ 5 ∷ 1 ∷ []) []

run_body-no_method_example :
    (es : List ReadEvent) × (ws : List WriteEvent) × (run_body system relayed anonymous
      ≡ serve system relayed
          (record anonymous { cli = wrote (5 ∷ 0xFF ∷ []) ws (reading es anonymous.cli) }))
    × (payload es ≡ 5 ∷ 1 ∷ [])
run_body-no_method_example =
    run_body-no_method system relayed anonymous (0 ∷ []) (5 ∷ 1 ∷ []) refl refl (omega arith) refl
      refl

-- a client "a" with the password "p", which the cache holds, under the hash of the name
abbrev pub member : World
member = record (world [] []) {
  client = record (new_client 7) { user = 97 ∷ []; passwd = 112 ∷ [] };
  cacheapp = record {
    elements = 1;
    size = 1;
    map = record { key = 177670; value = 112 ∷ [] } ∷ [];
  };
}

member-logs_in : socks5_doauth system member ≡ ok tt member
unfolding socks5_doauth app_passwd cache_getapp fetch probe hash_str c_string same_string
member-logs_in = refl

socks5_doauth-IsPassword_example :
    IsPassword system member (c_string (97 ∷ [])) (c_string (112 ∷ []))
socks5_doauth-IsPassword_example = socks5_doauth-IsPassword system member member member-logs_in
