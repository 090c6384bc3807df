-- ===== src/Socks/Handshake.antt =====
-- The client's side of the handshake: the method, the login, the redirect address in the user's
-- name, and the password.
use silksocks.Base.{
  ℕ, zero, suc, ◌%◌, ◌^◌, Bool, true, false, Option, none, some, List, [], ◌∷◌, ◌++◌, ◌&&◌, not,
  ◌==◌, if◌then◌else◌, take,
}
use silksocks.Cache.App.{cache_getapp, cache_putapp}
use silksocks.Db.{sqlget_apppasswd}
use silksocks.Text.{dash, c_string, separators, strtok}
use silksocks.Socks.World.{
  System, M, ok, stuck, ◌>>=◌, ◌>>◌, pure, return, fail_if, get, modify, modify_client, client_side,
  recv, recv_byte, send,
}

-- `while (b--)`: `climethod` becomes 2 when the client offers it
unfoldable pub choose_loop : (b climethod : ℕ) → M ℕ
unfolding recv_byte
choose_loop zero climethod = pure climethod
choose_loop (suc b) climethod = do
  a ← recv_byte client_side 1
  choose_loop b (if a == 0x02 then 0x02 else climethod)

-- the result is what `*climethod` holds; `NEEDAUTH` is 1
unfoldable pub socks5_choosemethod : M ℕ
unfolding choose_loop recv_byte send
socks5_choosemethod = do
  ver ← recv_byte client_side 1
  fail_if (not (ver == 0x05)) 1
  b ← recv_byte client_side 1
  offered ← choose_loop b 0
  let climethod = if offered == 0 then 0xFF else offered
  send client_side (0x05 ∷ climethod ∷ []) 1
  pure climethod

unfoldable pub socks5_readauth : M (Unit {0})
unfolding recv recv_byte send
socks5_readauth = do
  ver ← recv_byte client_side 1
  fail_if (not (ver == 0x01)) 1
  ulen ← recv_byte client_side 1
  user ← recv client_side ulen 1
  modify_client (λ c. record c { user = user })
  plen ← recv_byte client_side 1
  passwd ← recv client_side plen 1
  modify_client (λ c. record c { passwd = passwd })
  send client_side (1 ∷ 0 ∷ []) 1

-- `if (!x) return code;`
abbrev pub need : {A : Type 0} → Option A → ℕ → M A
need none code = return code
need (some a) code = pure a

abbrev pub is_empty : List ℕ → Bool
is_empty [] = true
is_empty (c ∷ s) = false

-- The name is cut behind its first token, in the buffer that `client->user` is.
unfoldable pub strip_redirectaddr : System → M (Unit {0})
unfolding c_string separators strtok
strip_redirectaddr sys = do
  w ← get
  let login = c_string w.client.user
  (name, from_ip) ← need (strtok dash login) 1
  modify_client (λ c. record c { user = separators dash login ++ name })
  (ip, from_port) ← need (strtok dash from_ip) 1
  let ipbuf = take 15 ip
  (port, behind) ← need (strtok dash from_port) 1
  let portbuf = take 5 port
  sin_addr ← need (sys.inet_pton ipbuf) 1
  modify_client (λ c. record c { srv_addr = sin_addr })
  modify_client (λ c. record c { srv_port = (sys.strtol portbuf).0 % 2 ^ 16 })
  fail_if (not (is_empty (sys.strtol portbuf).1)) 1

-- `strcmp(a, b) == 0`
unfoldable pub same_string : List ℕ → List ℕ → Bool
same_string [] [] = true
same_string [] (d ∷ t) = false
same_string (c ∷ s) [] = false
same_string (c ∷ s) (d ∷ t) = c == d && same_string s t

-- the result of a cache's function, whose loop may not end
abbrev pub ended : {A : Type 0} → Option A → M A
ended none w = stuck
ended (some a) w = ok a w

-- the password of the application: from the cache, else from the database, then cached
unfoldable pub app_passwd : System → List ℕ → M (List ℕ)
unfolding cache_getapp cache_putapp sqlget_apppasswd
app_passwd sys user = do
  w ← get
  hit ← ended (cache_getapp w.cacheapp user)
  elim hit [
    | some apppasswd ↦ pure apppasswd
    | none ↦ do
      apppasswd ← need (sqlget_apppasswd sys.db user) 5
      cache ← ended (cache_putapp sys.map_malloc w.cacheapp user apppasswd)
      modify (λ v. record v { cacheapp = cache })
      pure apppasswd
  ]

unfoldable pub socks5_doauth : System → M (Unit {0})
unfolding app_passwd c_string same_string
socks5_doauth sys = do
  w ← get
  apppasswd ← app_passwd sys (c_string w.client.user)
  fail_if (not (same_string (c_string w.client.passwd) apppasswd)) 5
