-- ===== src/Socks/Request.antt =====
-- The client's request: `socks5_readrequest` of socks.c, and host_serv.c, which it calls.
use silksocks.Base.{ℕ, ◌+◌, Option, none, some, List, ◌||◌, not, ◌==◌, ltb, if◌then◌else◌}
use silksocks.HashTbl.{hashtbl_get, hashtbl_put}
use silksocks.Text.{c_string}
use silksocks.Socks.Handshake.{need}
use silksocks.Socks.World.{
  Family, unspec, inet, inet6, Sockaddr, System, M, ok, ◌>>=◌, ◌>>◌, return, fail_if, modify,
  modify_client, client_side, recv, recv_byte,
}

abbrev pub dns_ttl : ℕ
dns_ttl = 300

-- `host_serv(host, NULL, family, SOCK_STREAM)`; `NULL` is `none`
unfoldable pub host_serv : System → List ℕ → Family → Option Sockaddr
host_serv sys host family = sys.getaddrinfo host family

abbrev pub set_request : (Sockaddr → Sockaddr) → M (Unit {0})
set_request f = modify_client (λ c. record c { request = f c.request })

-- `hashtbl_get(&dns_table, buf, sockADDR(sstorage))`
unfoldable pub dns_lookup : System → List ℕ → M (Option (List ℕ))
unfolding hashtbl_get
dns_lookup sys buf w =
    let r = hashtbl_get w.dns_table buf sys.now_get in ok r.0 (record w { dns_table = r.1 })

-- the address of a domain name: from the table, else from the resolver, and then put in the table
unfoldable pub resolve : System → List ℕ → M (Unit {0})
unfolding dns_lookup host_serv hashtbl_put
resolve sys buf = do
  set_request (λ r. record r { family = inet })
  hit ← dns_lookup sys buf
  elim hit [
    | some addr ↦ set_request (λ r. record r { addr = addr })
    | none ↦ do
      addrin ← need (host_serv sys buf inet) 4
      modify (λ w. record w {
        dns_table =
            (hashtbl_put w.dns_table buf addrin.addr (sys.now_expires + dns_ttl) sys.now_check
              sys.now_put).1;
      })
      set_request (λ r. addrin)
  ]

abbrev pub set_port : List ℕ → Sockaddr → Sockaddr
set_port port r = elim r.family [
  | unspec ↦ r
  | inet ↦ record r { port = port }
  | inet6 ↦ record r { port = port }
]

unfoldable pub read_ipv4 : M (Unit {0})
unfolding recv
read_ipv4 = do
  addr ← recv client_side 4 1
  set_request (λ r. record r { family = inet; addr = addr })
  port ← recv client_side 2 1
  set_request (λ r. record r { port = port })

unfoldable pub read_domain : System → M (Unit {0})
unfolding recv recv_byte resolve c_string
read_domain sys = do
  b ← recv_byte client_side 1
  buf ← recv client_side b 1
  resolve sys (c_string buf)
  port ← recv client_side 2 1
  set_request (set_port port)

unfoldable pub read_ipv6 : M (Unit {0})
unfolding recv
read_ipv6 = do
  addr ← recv client_side 16 1
  set_request (λ r. record r { family = inet6; addr = addr })
  port ← recv client_side 2 1
  set_request (λ r. record r { port = port })

-- `switch` on the address type
unfoldable pub read_address : System → ℕ → M (Unit {0})
unfolding read_ipv4 read_domain read_ipv6
read_address sys b =
    if b == 0x01
    then read_ipv4
    else if b == 0x03
    then read_domain sys
    else if b == 0x04
    then read_ipv6
    else return 8

unfoldable pub socks5_readrequest : System → M (Unit {0})
unfolding recv_byte read_address
socks5_readrequest sys = do
  ver ← recv_byte client_side 1
  fail_if (not (ver == 0x05)) 1
  b ← recv_byte client_side 1
  fail_if (ltb b 0x01 || ltb 0x03 b) 7
  modify_client (λ c. record c { cmd = b })
  reserved ← recv_byte client_side 1
  atype ← recv_byte client_side 1
  read_address sys atype
