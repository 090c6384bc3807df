-- ===== src/Socks/World.antt =====
-- The state of one connection of socks.c, what its functions ask of the system, and how they
-- return early: `ret k` is `return k` from anywhere in a function.
use silksocks.Base.{
  ℕ, Bool, true, false, Option, none, some, List, ◌==◌, if◌then◌else◌, length, get_or,
}
use silksocks.SilkIo.{Socket, readn_timeo, writen_timeo}
use silksocks.Cache.Ip.{CacheIp}
use silksocks.Cache.App.{CacheAp}
use silksocks.HashTbl.{HashTable}
use silksocks.Db.{Odbc}
use silksocks.ConnectNonb.{Script}

pub data Family : Type 0 where
  unspec : Family
  inet : Family
  inet6 : Family

-- `struct sockaddr_storage`: the bytes of the address and of the port, in network order
pub record Sockaddr : Type 0 where
  pub family : Family
  pub addr : List ℕ
  pub port : List ℕ

pub data Fd : Type 0 where
  fd : ℕ → Fd
  minus_one : Fd

-- `struct socks5_cli`; `srvpeer` as its address and its port in host order
pub record Client : Type 0 where
  pub request : Sockaddr
  pub user : List ℕ
  pub passwd : List ℕ
  pub clientfd : ℕ
  pub proxyfd : Fd
  pub srv_addr : List ℕ
  pub srv_port : ℕ
  pub cmd : ℕ

-- the connection, the two sockets, and the caches that all connections share
pub record World : Type 0 where
  pub client : Client
  pub cli : Socket
  pub prx : Socket
  pub dns_table : HashTable
  pub cacheip : CacheIp
  pub cacheapp : CacheAp

-- What the system answers. `inet_pton` gives the four bytes of an IPv4 address, `strtol` a number
-- modulo 2 ^ 64 and the text behind it, `getaddrinfo` the first address; `map_malloc` whether
-- memory is given for the slots of a cache, of so many bytes; the times are those of the
-- calls of `time(NULL)` around the DNS table.
pub record System : Type 0 where
  pub map_malloc : ℕ → Bool
  pub db : Odbc
  pub inet_pton : List ℕ → Option (List ℕ)
  pub strtol : List ℕ → ℕ × List ℕ
  pub getaddrinfo : (host : List ℕ) → Family → Option Sockaddr
  pub getsockname : Fd → Option Sockaddr
  pub socket : Option ℕ
  pub connect : Script
  pub now_get : ℕ
  pub now_expires : ℕ
  pub now_check : ℕ
  pub now_put : ℕ

-- `stuck` is a loop of a cache that does not end, `crash` a `memcpy` of a negative size.
pub data Outcome (A : Type 0) : Type 0 where
  ok : A → World → Outcome A
  ret : ℕ → World → Outcome A
  stuck : Outcome A
  crash : Outcome A

abbrev pub M : Type 0 → Type 0
M A = World → Outcome A

abbrev pub and_then : {A B : Type 0} → Outcome A → (A → M B) → Outcome B
and_then (ok a w) k = k a w
and_then (ret n w) k = ret n w
and_then stuck k = stuck
and_then crash k = crash

infixl 5 ◌>>=◌ ◌>>◌
abbrev pub ◌>>=◌ : {A B : Type 0} → M A → (A → M B) → M B
◌>>=◌ m k w = and_then (m w) k

abbrev pub ◌>>◌ : {B : Type 0} → M (Unit {0}) → M B → M B
m >> k = m >>= λ _. k

abbrev pub pure : {A : Type 0} → A → M A
pure = ok

abbrev pub return : {A : Type 0} → ℕ → M A
return = ret

-- `if (b) return code;`
abbrev pub fail_if : Bool → ℕ → M (Unit {0})
fail_if true code = ret code
fail_if false code = ok tt

-- `status = f(client);`
abbrev pub status_of : M (Unit {0}) → M ℕ
status_of m w = elim (m w) [
  | ok u w' ↦ ok 0 w'
  | ret k w' ↦ ok k w'
  | stuck ↦ stuck
  | crash ↦ crash
]

abbrev pub get : M World
get w = ok w w

abbrev pub modify : (World → World) → M (Unit {0})
modify f w = ok tt (f w)

abbrev pub modify_client : (Client → Client) → M (Unit {0})
modify_client f = modify (λ w. record w { client = f w.client })

pub data Side : Type 0 where
  client_side : Side
  proxy_side : Side

abbrev pub socket_of : Side → World → Socket
socket_of client_side w = w.cli
socket_of proxy_side w = w.prx

abbrev pub with_socket : Side → Socket → World → World
with_socket client_side s w = record w { cli = s }
with_socket proxy_side s w = record w { prx = s }

-- whether a call returned `n`
abbrev pub returned : Option ℕ → ℕ → Bool
returned none n = false
returned (some k) n = k == n

-- `if (readn_timeo(fd, buf, n, …) != n) return code;`, with the bytes in `buf`
unfoldable pub recv : Side → ℕ → ℕ → M (List ℕ)
unfolding readn_timeo
recv side n code w =
    let r = readn_timeo (socket_of side w) n in
    let w' = with_socket side r.2 w in if returned r.0 n then ok r.1 w' else ret code w'

-- the same for one byte
unfoldable pub recv_byte : Side → ℕ → M ℕ
unfolding recv
recv_byte side code = do bytes ← recv side 1 code; pure (get_or bytes 0 0)

-- `if (writen_timeo(fd, buf, n, …) != n) return code;`
unfoldable pub send : Side → List ℕ → ℕ → M (Unit {0})
unfolding writen_timeo
send side buf code w =
    let r = writen_timeo (socket_of side w) buf in
    let w' = with_socket side r.1 w in if returned r.0 (length buf) then ok tt w' else ret code w'
