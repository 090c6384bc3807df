-- ===== src/Socks/Upstream.antt =====
-- The proxy's side: connecting to the upstream proxy, logging in there, passing the request on,
-- and the reply to the client.
use silksocks.Base.{
  ℕ, ◌+◌, ◌-◌, ◌*◌, ◌%◌, ◌^◌, leb, Option, none, some, List, [], ◌∷◌, ◌++◌, ◌||◌, not, ◌==◌, ltb,
  if◌then◌else◌, take, length, get_or,
}
use silksocks.Cache.Ip.{Creds, cache_getip, cache_putip}
use silksocks.Db.{sqlget_proxycreds}
use silksocks.ConnectNonb.{connect_nonb}
use silksocks.Socks.Handshake.{need, ended}
use silksocks.Socks.World.{
  Family, inet, inet6, Sockaddr, fd, minus_one, System, M, ok, crash, ◌>>=◌, ◌>>◌, pure, return,
  fail_if, status_of, get, modify, modify_client, client_side, proxy_side, recv, recv_byte, send,
}

-- `family == AF_INET ? 1 : 4`
abbrev pub atyp_of : Family → ℕ
atyp_of inet = 1
atyp_of _ = 4

-- `sockADDRLEN`
abbrev pub sock_addr_len : Family → ℕ
sock_addr_len inet6 = 16
sock_addr_len _ = 4

-- the bytes of `|VER|x|RSV|ATYP|ADDR|PORT|`
unfoldable pub address_packet : ℕ → Sockaddr → List ℕ
address_packet second sa =
    0x05
    ∷ second
    ∷ 0x00
    ∷ atyp_of sa.family
    ∷ (take (sock_addr_len sa.family) sa.addr ++ take 2 sa.port)

unfoldable pub socks5_writerequest : M (Unit {0})
unfolding send address_packet
socks5_writerequest = do w ← get; send proxy_side (address_packet 0x01 w.client.request) 4

-- `return buf[1]`, also where that is 0
unfoldable pub socks5_readreply : M (Unit {0})
unfolding recv recv_byte
socks5_readreply = do
  buf ← recv proxy_side 4 4
  fail_if (not (get_or buf 0 0 == 0x05) || not (get_or buf 1 0 == 0x00)) (get_or buf 1 0)
  let atyp = get_or buf 3 0
  if atyp == 0x01
      then (do bound ← recv proxy_side 6 2; pure tt)
      else if atyp == 0x03
      then (do b ← recv_byte proxy_side 2; bound ← recv proxy_side (b + 2) 2; pure tt)
      else if atyp == 0x04
      then (do bound ← recv proxy_side 18 2; pure tt)
      else return 8

-- a `char` as a `size_t`: it is signed on the usual targets
abbrev pub char_size : ℕ → ℕ
char_size c = if ltb c 128 then c else 2 ^ 64 - 256 + c

abbrev pub sizeof_buf : ℕ
sizeof_buf = 512

-- `buf[n++] = strlen(s); memcpy(&buf[n], s, buf[n-1]);`, with what is written of `buf`; `none` is a copy
-- that goes beyond `buf`
unfoldable pub char_field : (buf : List ℕ) → (n : ℕ) → List ℕ → Option (List ℕ)
char_field buf n s =
    let sized = take n buf ++ ((length s % 256) ∷ []) in
    let size = char_size (get_or sized n 0) in
    if leb (n + 1 + size) sizeof_buf then some (take (n + 1) sized ++ take size s) else none

-- `|VER|ULEN|UNAME|PLEN|PASSWD|`: the first `n` bytes of `buf` at the end
unfoldable pub auth_packet : List ℕ → List ℕ → M (List ℕ)
unfolding char_field
auth_packet user passwd w = elim (char_field (0x01 ∷ []) 1 user) [
  | none ↦ crash
  | some named ↦
      let n = 2 + char_size (get_or named 1 0) in
      elim (char_field named n passwd) [
        | none ↦ crash
        | some buf ↦ ok (take (n + 1 + char_size (get_or buf n 0)) buf) w
      ]
]

-- the address of the upstream proxy as a number, in host order
abbrev pub ntohl : List ℕ → ℕ
ntohl a = ((get_or a 0 0 * 256 + get_or a 1 0) * 256 + get_or a 2 0) * 256 + get_or a 3 0

-- the login at the proxy: from the cache, else from the database, then cached
unfoldable pub proxy_creds : System → M Creds
unfolding cache_getip cache_putip sqlget_proxycreds
proxy_creds sys = do
  w ← get
  let proxyip = ntohl w.client.srv_addr
  hit ← ended (cache_getip w.cacheip proxyip)
  elim hit [
    | some creds ↦ pure creds
    | none ↦ do
      row ← need (sqlget_proxycreds sys.db proxyip w.client.srv_port 1) 4
      let creds : Creds = record { user = row.0; passwd = row.1 }
      cache ← ended (cache_putip sys.map_malloc 2 w.cacheip proxyip creds)
      modify (λ v. record v { cacheip = cache })
      pure creds
  ]

-- `socket` and `connect_nonb`
unfoldable pub open_proxy : System → M (Unit {0})
unfolding connect_nonb
open_proxy sys = elim sys.socket [
  | none ↦ do modify_client (λ c. record c { proxyfd = minus_one }); return 1
  | some n ↦ do
    modify_client (λ c. record c { proxyfd = fd n })
    fail_if (not (connect_nonb sys.connect).success) 4
]

-- `if ((status = f(client)) != 0) return status;`
abbrev pub propagate : M (Unit {0}) → M (Unit {0})
propagate f = do status ← status_of f; fail_if (not (status == 0)) status

unfoldable pub socks5_connectproxy : System → M (Unit {0})
unfolding open_proxy proxy_creds auth_packet socks5_writerequest socks5_readreply recv send
socks5_connectproxy sys = do
  open_proxy sys
  send proxy_side (0x05 ∷ 1 ∷ 0x02 ∷ []) 4
  chosen ← recv proxy_side 2 4
  fail_if (not (get_or chosen 0 0 == 5) || not (get_or chosen 1 0 == 0x02)) 4
  creds ← proxy_creds sys
  packet ← auth_packet creds.user creds.passwd
  send proxy_side packet 4
  answer ← recv proxy_side 2 4
  fail_if (not (get_or answer 0 0 == 0x01) || not (get_or answer 1 0 == 0x00)) 5
  propagate socks5_writerequest
  propagate socks5_readreply

unfoldable pub socks5_writereply : System → (status : ℕ) → M (Unit {0})
unfolding send address_packet
socks5_writereply sys status = do
  w ← get
  ss ← need (sys.getsockname w.client.proxyfd) 1
  send client_side (address_packet status ss) 1
