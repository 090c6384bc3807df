-- ===== src/Socks/Shared/Keeps.antt =====
-- The functions that leave the tables alone.
use silksocks.Base.{
  length, ◌<◌, ◌≡◌, ◌∙◌, sym, arith, refl, ℕ, zero, suc, ◌+◌, ◌||◌, ◌%◌, ◌^◌, Option, none, some,
  List, ◌==◌, not, if◌then◌else◌, get_or, [], ◌∷◌, ◌++◌, take,
}
use mathlib.Core.Path.{subst}
use silksocks.Socks.Password.{auth_packet_lem}
use silksocks.Text.{c_string, strtok, separators, dash}
use silksocks.ConnectNonb.{connect_nonb}
use silksocks.Socks.World.{
  inet, inet6, Sockaddr, fd, minus_one, System, ok, ◌>>◌, return, fail_if, modify_client,
  client_side, proxy_side,
}
use silksocks.Socks.Handshake.{
  choose_loop, socks5_choosemethod, socks5_readauth, strip_redirectaddr, is_empty,
}
use silksocks.Socks.Request.{set_request, read_ipv4, read_ipv6}
use silksocks.Socks.Upstream.{
  address_packet, socks5_writerequest, socks5_readreply, socks5_writereply, open_proxy, auth_packet,
}
use silksocks.Socks.Shared.{
  Tables, Ends, Runs, bind, pure-Runs, return-Runs, get-Runs, modify_client-Runs, if-Runs,
  fail_if-Runs, need-Runs, recv-Runs, recv_byte-Runs, send-Runs,
}

module _ {D P : Tables → Type 0} (valid : (t : Tables) → P t → D t) where
  choose_loop-Runs : (b climethod : ℕ) → Runs D P P (choose_loop b climethod)
  unfolding choose_loop
  choose_loop-Runs zero climethod = pure-Runs valid climethod
  choose_loop-Runs (suc b) climethod =
      bind (recv_byte-Runs valid client_side 1)
        λ a. choose_loop-Runs b (if a == 0x02 then 0x02 else climethod)

  pub choosemethod-Runs : Runs D P P socks5_choosemethod
  unfolding socks5_choosemethod
  choosemethod-Runs = bind (recv_byte-Runs valid client_side 1) λ ver.
      bind (fail_if-Runs valid (not (ver == 0x05)) 1) λ u.
        bind (recv_byte-Runs valid client_side 1) λ b. bind (choose_loop-Runs b 0) λ offered.
          let climethod = if offered == 0 then 0xFF else offered in
          bind (send-Runs valid client_side (0x05 ∷ climethod ∷ []) 1)
            λ v. pure-Runs valid climethod

  pub readauth-Runs : Runs D P P socks5_readauth
  unfolding socks5_readauth
  readauth-Runs = bind (recv_byte-Runs valid client_side 1) λ ver.
      bind (fail_if-Runs valid (not (ver == 0x01)) 1) λ u.
        bind (recv_byte-Runs valid client_side 1) λ ulen.
          bind (recv-Runs valid client_side ulen 1) λ user.
            bind (modify_client-Runs valid (λ c. record c { user = user }) (λ c. refl)) λ v.
              bind (recv_byte-Runs valid client_side 1) λ plen.
                bind (recv-Runs valid client_side plen 1) λ passwd.
                  bind (modify_client-Runs valid (λ c. record c { passwd = passwd }) (λ c. refl))
                    λ x. send-Runs valid client_side (1 ∷ 0 ∷ []) 1

  pub strip-Runs : (sys : System) → Runs D P P (strip_redirectaddr sys)
  unfolding strip_redirectaddr
  strip-Runs sys = bind (get-Runs valid) λ w.
      let login = c_string w.client.user in
      bind (need-Runs valid (strtok dash login) 1) λ first.
        bind
          (modify_client-Runs valid (λ c. record c { user = separators dash login ++ first.0 })
            (λ c. refl))
          λ u. bind (need-Runs valid (strtok dash first.1) 1) λ second.
            bind (need-Runs valid (strtok dash second.1) 1) λ third.
              bind (need-Runs valid (sys.inet_pton (take 15 second.0)) 1) λ sin_addr.
                bind (modify_client-Runs valid (λ c. record c { srv_addr = sin_addr }) (λ c. refl))
                  λ v.
                    bind
                      (modify_client-Runs valid
                        (λ c. record c { srv_port = (sys.strtol (take 5 third.0)).0 % 2 ^ 16 })
                        (λ c. refl))
                      λ x. fail_if-Runs valid (not (is_empty (sys.strtol (take 5 third.0)).1)) 1

  abbrev set_request-Runs : (f : Sockaddr → Sockaddr) → Runs D P P (set_request f)
  set_request-Runs f =
      modify_client-Runs valid (λ c. record c { request = f c.request }) (λ c. refl)

  pub read_ipv4-Runs : Runs D P P read_ipv4
  unfolding read_ipv4
  read_ipv4-Runs = bind (recv-Runs valid client_side 4 1) λ addr.
      bind (set_request-Runs (λ r. record r { family = inet; addr = addr })) λ u.
        bind (recv-Runs valid client_side 2 1)
          λ port. set_request-Runs (λ r. record r { port = port })

  pub read_ipv6-Runs : Runs D P P read_ipv6
  unfolding read_ipv6
  read_ipv6-Runs = bind (recv-Runs valid client_side 16 1) λ addr.
      bind (set_request-Runs (λ r. record r { family = inet6; addr = addr })) λ u.
        bind (recv-Runs valid client_side 2 1)
          λ port. set_request-Runs (λ r. record r { port = port })

  pub writerequest-Runs : Runs D P P socks5_writerequest
  unfolding socks5_writerequest
  writerequest-Runs =
      bind (get-Runs valid) λ w. send-Runs valid proxy_side (address_packet 0x01 w.client.request) 4

  pub writereply-Runs : (sys : System) (status : ℕ) → Runs D P P (socks5_writereply sys status)
  unfolding socks5_writereply
  writereply-Runs sys status = bind (get-Runs valid) λ w.
      bind (need-Runs valid (sys.getsockname w.client.proxyfd) 1)
        λ ss. send-Runs valid client_side (address_packet status ss) 1

  pub readreply-Runs : Runs D P P socks5_readreply
  unfolding socks5_readreply
  readreply-Runs = bind (recv-Runs valid proxy_side 4 4) λ buf.
      bind
        (fail_if-Runs valid (not (get_or buf 0 0 == 0x05) || not (get_or buf 1 0 == 0x00))
          (get_or buf 1 0))
        λ u.
          if-Runs (get_or buf 3 0 == 0x01)
            (bind (recv-Runs valid proxy_side 6 2) λ bound. pure-Runs valid tt)
            (if-Runs (get_or buf 3 0 == 0x03)
              (bind (recv_byte-Runs valid proxy_side 2)
                λ b. bind (recv-Runs valid proxy_side (b + 2) 2) λ bound. pure-Runs valid tt)
              (if-Runs (get_or buf 3 0 == 0x04)
                (bind (recv-Runs valid proxy_side 18 2) λ bound. pure-Runs valid tt)
                (return-Runs valid 8)))

  pub open_proxy-Runs : (sys : System) → Runs D P P (open_proxy sys)
  unfolding open_proxy
  open_proxy-Runs sys = by_socket sys.socket
    where
      by_socket :
          (o : Option ℕ)
          → Runs {A = Unit {0}} D P P (elim o [
            | none ↦ modify_client (λ c. record c { proxyfd = minus_one }) >> return 1
            | some n ↦
                modify_client (λ c. record c { proxyfd = fd n })
                >> fail_if (not (connect_nonb sys.connect).success) 4
          ])
      by_socket none =
          bind (modify_client-Runs valid (λ c. record c { proxyfd = minus_one }) (λ c. refl))
            λ u. return-Runs valid 1
      by_socket (some n) =
          bind (modify_client-Runs valid (λ c. record c { proxyfd = fd n }) (λ c. refl))
            λ u. fail_if-Runs valid (not (connect_nonb sys.connect).success) 4

  pub auth_packet-Runs :
      (user passwd : List ℕ)
      → length user < 128
      → length passwd < 128
      → Runs D P P (auth_packet user passwd)
  auth_packet-Runs user passwd short1 short2 = record {
    run = λ w p.
        let sent : auth_packet user passwd w
            ≡ ok (1 ∷ length user ∷ (user ++ (length passwd ∷ passwd))) w =
          auth_packet_lem user passwd w (omega arith) (omega arith) ∙ ground arith in
        subst (Ends D P) (sym sent) p;
  }
