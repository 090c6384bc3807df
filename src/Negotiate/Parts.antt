-- ===== src/Negotiate/Parts.antt =====
-- The four parts of a round of negotiate.c, and the relay's invariant.
use silksocks.Base.{
  ◌≡◌, inl, inr, refl, sym, ap, ◌∙◌, Bool, true, false, ◌++◌, ◌&&◌, Bool-cases, ltb, append_assoc,
  length, take,
}
use silksocks.Negotiate.Stages.{
  pending, arrived, Relay, Reading, chunk, eof, Writing, takes, Round, Stage, then_stage,
  read_client, read_proxy, write_client, write_proxy,
}
use silksocks.Negotiate.Buffers.{stores-IsBuffer, pending-stores, advance-IsBuffer, take-advance}
use silksocks.Negotiate.Kept.{
  Relays, left, Passes, then_stage-Relays, eof-Relays, nonempty, flushed,
}

module _ (pass : Relay → Stage) (passes : Passes pass) where
  read_client-Relays :
      (asked : Bool) (e : Reading) (r : Relay)
      → (asked ≡ true → r.clienteof ≡ false)
      → Relays r
      → Relays (left (read_client pass asked e r))
  unfolding read_client
  read_client-Relays false e r unclosed v = v
  read_client-Relays true Reading.broken r unclosed v = v
  read_client-Relays true Reading.again r unclosed v = rw (passes r) v
  read_client-Relays true eof r unclosed v = eof-Relays r (unclosed refl) v
  read_client-Relays true (chunk x xs) r unclosed v =
      let bytes = arrived r.to x xs in
      record {
        to = stores-IsBuffer r.to x xs v.to;
        fr = v.fr;
        to_proxy =
            ap (λ t. r.proxy.sent ++ t) (pending-stores r.to bytes v.to)
            ∙ sym (append_assoc r.proxy.sent (pending r.to) bytes)
            ∙ ap (λ t. t ++ bytes) v.to_proxy;
        to_client = v.to_client;
        fin = v.fin ∙ rw (unclosed refl) refl;
      }

  read_proxy-Relays :
      (asked : Bool) (e : Reading) (r : Relay)
      → Relays r
      → Relays (left (read_proxy pass asked e r))
  unfolding read_proxy
  read_proxy-Relays false e r v = v
  read_proxy-Relays true Reading.broken r v = v
  read_proxy-Relays true Reading.again r v = rw (passes r) v
  read_proxy-Relays true eof r v = v
  read_proxy-Relays true (chunk x xs) r v =
      let bytes = arrived r.fr x xs in
      record {
        to = v.to;
        fr = stores-IsBuffer r.fr x xs v.fr;
        to_proxy = v.to_proxy;
        to_client =
            ap (λ t. r.client.sent ++ t) (pending-stores r.fr bytes v.fr)
            ∙ sym (append_assoc r.client.sent (pending r.fr) bytes)
            ∙ ap (λ t. t ++ bytes) v.to_client;
        fin = v.fin;
      }

  write_client-Relays :
      (asked : Bool) (e : Writing) (r : Relay)
      → Relays r
      → Relays (left (write_client pass asked e r))
  unfolding write_client
  write_client-Relays asked Writing.broken r v =
      elim (Bool-cases (asked && ltb 0 (length (pending r.fr)))) [ inr p ↦ rw p v | inl p ↦ rw p v ]
  write_client-Relays asked Writing.again r v =
      elim (Bool-cases (asked && ltb 0 (length (pending r.fr)))) [
        | inr p ↦ rw p v
        | inl p ↦ rw p (rw (passes r) v)
      ]
  write_client-Relays asked (takes k) r v =
      let bytes = take k (pending r.fr) in
      elim (Bool-cases (asked && ltb 0 (length (pending r.fr)))) [
        | inr p ↦ rw p v
        | inl p ↦ rw p (record {
          to = v.to;
          fr = advance-IsBuffer r.fr k v.fr;
          to_proxy = v.to_proxy;
          to_client =
              append_assoc r.client.sent bytes _
              ∙ ap (λ t. r.client.sent ++ t) (take-advance r.fr k)
              ∙ v.to_client;
          fin = v.fin;
        })
      ]

  write_proxy-Relays :
      (asked : Bool) (e : Writing) (r : Relay)
      → Relays r
      → Relays (left (write_proxy pass asked e r))
  unfolding write_proxy
  write_proxy-Relays asked Writing.broken r v =
      elim (Bool-cases (asked && ltb 0 (length (pending r.to)))) [ inr p ↦ rw p v | inl p ↦ rw p v ]
  write_proxy-Relays asked Writing.again r v =
      elim (Bool-cases (asked && ltb 0 (length (pending r.to)))) [
        | inr p ↦ rw p v
        | inl p ↦ rw p (rw (passes r) v)
      ]
  write_proxy-Relays asked (takes k) r v =
      elim (Bool-cases (asked && ltb 0 (length (pending r.to)))) [
        | inr p ↦ rw p v
        | inl p ↦ rw p (flushed k r v (nonempty asked (length (pending r.to)) p))
      ]

  -- the four parts, one behind the other
  pub parts-Relays :
      (a b c d : Bool) (e : Round) (r : Relay)
      → (a ≡ true → r.clienteof ≡ false)
      → Relays r
      → Relays (
          left (
            then_stage (read_client pass a e.client_read r) λ r1.
              then_stage (read_proxy pass b e.proxy_read r1) λ r2.
                then_stage
                  (write_client pass c e.client_write r2)
                  λ r3. write_proxy pass d e.proxy_write r3))
  parts-Relays a b c d e r unclosed v =
      let last : (r3 : Relay) → Relays r3 → Relays (left (write_proxy pass d e.proxy_write r3)) =
        write_proxy-Relays d e.proxy_write in
      let third : (r2 : Relay)
          → Relays r2
          → Relays (
              left (
                then_stage (write_client pass c e.client_write r2)
                  (write_proxy pass d e.proxy_write))) =
        λ r2 v2.
          then_stage-Relays (write_client pass c e.client_write r2)
            (write_proxy pass d e.proxy_write) (write_client-Relays c e.client_write r2 v2) last in
      then_stage-Relays (read_client pass a e.client_read r)
        (λ r1. then_stage (read_proxy pass b e.proxy_read r1) λ r2.
          then_stage (write_client pass c e.client_write r2) (write_proxy pass d e.proxy_write))
        (read_client-Relays a e.client_read r unclosed v)
        λ r1 v1.
          then_stage-Relays (read_proxy pass b e.proxy_read r1)
            (λ r2.
              then_stage (write_client pass c e.client_write r2) (write_proxy pass d e.proxy_write))
            (read_proxy-Relays b e.proxy_read r1 v1) third
