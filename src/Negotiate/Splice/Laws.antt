-- ===== src/Negotiate/Splice/Laws.antt =====
-- The loop of the splice build of negotiate.c, and its counters.
use silksocks.Base.{
  ℕ, ◌-◌, ◌<◌, ◌≡◌, inl, inr, refl, sym, ap, ◌∙◌, Bool, true, false, List, [], ◌∷◌, ◌++◌, ◌&&◌, not,
  ◌==◌, Bool-cases, ltb, arith, append_assoc, length, take, drop, length-drop,
}
use silksocks.Negotiate.Stages.{
  bufsize, Polled, ready, timeout, interrupted, failed, Writing, takes, Round,
}
use silksocks.Negotiate.Buffers.{take-take-drop}
use silksocks.Negotiate.Splice.{
  Pipes, Stage, go, continue, exit, then_stage, Progress, running, returned, after, fin_when, moved,
  splice_from_client, splice_from_proxy, splice_to_client, splice_to_proxy, splice_round,
  splice_rounds, start, negotiate_splice,
}
use silksocks.Negotiate.Splice.Parts.{
  Counts, start-Counts, left, then_stage-Counts, splice_from_client-Counts, same_srv,
  splice_from_proxy-Counts, splice_to_client-Counts,
}

commutes : (last c d b : Bool) → d ≡ last → (last && c) ≡ b → (c && d) ≡ b
commutes last c d b h k = ground arith

some_left : (n : ℕ) (c b : Bool) → 0 < n → b ≡ (c && (n == 0)) → b ≡ false
some_left n c b h k = ground arith

splice_to_proxy-Counts :
    (asked : Bool) (e : Writing) (r : Pipes)
    → (asked ≡ true → 0 < r.npipecli)
    → Counts r
    → Counts (left (splice_to_proxy asked e r))
unfolding splice_to_proxy fin_when
splice_to_proxy-Counts false e r h v = v
splice_to_proxy-Counts true Writing.broken r h v = v
splice_to_proxy-Counts true Writing.again r h v = v
splice_to_proxy-Counts true (takes k) r h v =
    let bytes = moved (take k r.pipecli) in
    let n = r.npipecli - length bytes in
    let rest = length-drop (length bytes) r.pipecli in
    let now = v.cli in
    let bound = v.cli_bounded in
    let cli' : n ≡ length (drop (length bytes) r.pipecli) = omega arith in
    let to_proxy' : (r.proxy.sent ++ bytes) ++ drop (length bytes) r.pipecli ≡ r.client.received =
      append_assoc r.proxy.sent bytes _
      ∙ ap (λ t. r.proxy.sent ++ t) (take-take-drop bufsize k r.pipecli)
      ∙ v.to_proxy in
    elim (Bool-cases (n == 0 && r.clienteof)) [
      | inl p ↦ rw p (record {
        cli = cli';
        srv = v.srv;
        cli_bounded = omega arith;
        srv_bounded = v.srv_bounded;
        to_proxy = to_proxy';
        to_client = v.to_client;
        fin = sym (commutes (n == 0) r.clienteof _ _ refl p);
      })
      | inr p ↦ rw p (record {
        cli = cli';
        srv = v.srv;
        cli_bounded = omega arith;
        srv_bounded = v.srv_bounded;
        to_proxy = to_proxy';
        to_client = v.to_client;
        fin =
            some_left r.npipecli r.clienteof r.proxy.fin (h refl) v.fin
            ∙ sym (commutes (n == 0) r.clienteof _ _ refl p);
      })
    ]

while_unclosed :
    (asked done : Bool) (n : ℕ)
    → (asked && (not done && ltb n bufsize)) ≡ true
    → (done ≡ false) × (n < bufsize)
while_unclosed asked done n h = ground arith

has_room : (asked : Bool) (n m : ℕ) → n ≡ m → (asked && ltb m bufsize) ≡ true → n < bufsize
has_room asked n m e h = ground arith

offers : (asked : Bool) (n : ℕ) → (asked && ltb 0 n) ≡ true → 0 < n
offers asked n h = ground arith

parts-Counts :
    (a b : Bool) (c d : Bool) (e : Round) (r : Pipes)
    → Counts r
    → Counts (
        left (
          then_stage
            (splice_from_client (a && (not r.clienteof && ltb r.npipecli bufsize)) e.client_read r)
            λ r1. then_stage (splice_from_proxy (b && ltb r.npipesrv bufsize) e.proxy_read r1) λ r2.
              then_stage
                (splice_to_client (c && ltb 0 r2.npipesrv) e.client_write r2)
                λ r3. splice_to_proxy (d && ltb 0 r3.npipecli) e.proxy_write r3))
parts-Counts a b c d e r v =
    let reads_client = a && (not r.clienteof && ltb r.npipecli bufsize) in
    let reads_proxy = b && ltb r.npipesrv bufsize in
    let fourth : Pipes → Stage = λ r3. splice_to_proxy (d && ltb 0 r3.npipecli) e.proxy_write r3 in
    let third : Pipes → Stage =
      λ r2. then_stage (splice_to_client (c && ltb 0 r2.npipesrv) e.client_write r2) fourth in
    then_stage-Counts (splice_from_client reads_client e.client_read r)
      (λ r1. then_stage (splice_from_proxy reads_proxy e.proxy_read r1) third)
      (splice_from_client-Counts reads_client e.client_read r
        (while_unclosed a r.clienteof r.npipecli) v)
      λ r1 eq1 v1.
        then_stage-Counts (splice_from_proxy reads_proxy e.proxy_read r1) third
          (splice_from_proxy-Counts reads_proxy e.proxy_read r1
            (has_room b r1.npipesrv r.npipesrv
              (ap (λ s. (left s).npipesrv) (sym eq1) ∙ same_srv reads_client e.client_read r))
            v1)
          λ r2 eq2 v2.
            then_stage-Counts (splice_to_client (c && ltb 0 r2.npipesrv) e.client_write r2) fourth
              (splice_to_client-Counts _ e.client_write r2 v2)
              λ r3 eq3 v3.
                splice_to_proxy-Counts (d && ltb 0 r3.npipecli) e.proxy_write r3
                  (offers d r3.npipecli) v3

splice_round-Counts :
    (p : Polled) (e : Round) (r : Pipes)
    → Counts r
    → Counts (left (splice_round (record e { polled = p }) r))
unfolding splice_round
splice_round-Counts failed e r v = v
splice_round-Counts interrupted e r v = v
splice_round-Counts timeout e r v = v
splice_round-Counts (ready client_in client_out proxy_in proxy_out) e r v =
    parts-Counts client_in proxy_in (client_out && not (r.npipesrv == 0))
      (proxy_out && not (r.npipecli == 0)) e r v

-- the pipes that the loop has reached or left
abbrev pub reached : Progress → Pipes
reached (running r) = r
reached (returned status r) = r

after-Counts :
    (s : Stage) (f : Pipes → Progress)
    → Counts (left s)
    → ((r : Pipes) → Counts r → Counts (reached (f r)))
    → Counts (reached (after s f))
after-Counts (go r) f v h = h r v
after-Counts (continue r) f v h = h r v
after-Counts (exit status r) f v h = v

splice_rounds-Counts :
    (es : List Round) (r : Pipes) → Counts r → Counts (reached (splice_rounds es r))
unfolding splice_rounds
splice_rounds-Counts [] r v = v
splice_rounds-Counts (e ∷ es) r v =
    after-Counts (splice_round e r) (splice_rounds es) (splice_round-Counts e.polled e r v)
      (splice_rounds-Counts es)

-- Whatever the system answers, the two counters of the splice build are the sizes of the pipes and
-- below twice BUFSIZE, what was read from a side is what was written to the other followed by what its
-- pipe holds, and FIN has gone to the proxy if and only if the client has closed and its pipe is empty.
pub negotiate_splice-Counts :
    (setnonblock_client setnonblock_proxy pipe_server pipe_client : Bool) (es : List Round)
    → Counts
        (reached (negotiate_splice setnonblock_client setnonblock_proxy pipe_server pipe_client es))
unfolding negotiate_splice
negotiate_splice-Counts false b c d es = start-Counts
negotiate_splice-Counts true false c d es = start-Counts
negotiate_splice-Counts true true false d es = start-Counts
negotiate_splice-Counts true true true false es = start-Counts
negotiate_splice-Counts true true true true es = splice_rounds-Counts es start start-Counts
