-- ===== src/Negotiate/Splice/Parts.antt =====
-- What the pipes of the splice build keep, and three of the parts of its round.
use silksocks.Base.{
  ◌+◌, ◌<◌, ◌≡◌, inl, inr, refl, sym, ap, ◌∙◌, Bool, true, false, ◌∷◌, ◌++◌, ◌&&◌, ◌==◌, Bool-cases,
  arith, append_assoc, length, take, length-append, length-drop,
}
use silksocks.Negotiate.Stages.{bufsize, Reading, chunk, eof, Writing, takes}
use silksocks.Negotiate.Buffers.{length-take_le, take-take-drop}
use silksocks.Negotiate.Splice.{
  Pipes, Stage, go, continue, exit, then_stage, fin_when, moved, splice_from_client,
  splice_from_proxy, splice_to_client, start,
}

-- The counters are the sizes of the pipes and below twice BUFSIZE; nothing is lost or reordered; FIN
-- has been sent to the proxy if and only if the client is done and its pipe is empty.
pub record Counts (r : Pipes) : Type 0 where
  pub cli : r.npipecli ≡ length r.pipecli
  pub srv : r.npipesrv ≡ length r.pipesrv
  pub cli_bounded : r.npipecli < bufsize + bufsize
  pub srv_bounded : r.npipesrv < bufsize + bufsize
  pub to_proxy : r.proxy.sent ++ r.pipecli ≡ r.client.received
  pub to_client : r.client.sent ++ r.pipesrv ≡ r.proxy.received
  pub fin : r.proxy.fin ≡ (r.clienteof && (r.npipecli == 0))

pub start-Counts : Counts start
start-Counts = record {
  cli = refl;
  srv = refl;
  cli_bounded = omega arith;
  srv_bounded = omega arith;
  to_proxy = refl;
  to_client = refl;
  fin = refl;
}

abbrev pub left : Stage → Pipes
left (go r) = r
left (continue r) = r
left (exit status r) = r

pub then_stage-Counts :
    (s : Stage) (f : Pipes → Stage)
    → Counts (left s)
    → ((r : Pipes) → s ≡ go r → Counts r → Counts (left (f r)))
    → Counts (left (then_stage s f))
then_stage-Counts (go r) f v h = h r refl v
then_stage-Counts (continue r) f v h = v
then_stage-Counts (exit status r) f v h = v

eof-Counts :
    (r : Pipes)
    → r.clienteof ≡ false
    → Counts r
    → Counts (fin_when (r.npipecli == 0) (record r { clienteof = true }))
unfolding fin_when
eof-Counts r unclosed v = elim (Bool-cases (r.npipecli == 0)) [
  | inl p ↦ rw p (record {
    cli = v.cli;
    srv = v.srv;
    cli_bounded = v.cli_bounded;
    srv_bounded = v.srv_bounded;
    to_proxy = v.to_proxy;
    to_client = v.to_client;
    fin = sym p;
  })
  | inr p ↦ rw p (record {
    cli = v.cli;
    srv = v.srv;
    cli_bounded = v.cli_bounded;
    srv_bounded = v.srv_bounded;
    to_proxy = v.to_proxy;
    to_client = v.to_client;
    fin = v.fin ∙ ap (λ b. b && (r.npipecli == 0)) unclosed ∙ sym p;
  })
]

pub splice_from_client-Counts :
    (asked : Bool) (e : Reading) (r : Pipes)
    → (asked ≡ true → (r.clienteof ≡ false) × (r.npipecli < bufsize))
    → Counts r
    → Counts (left (splice_from_client asked e r))
unfolding splice_from_client
splice_from_client-Counts false e r h v = v
splice_from_client-Counts true Reading.broken r h v = v
splice_from_client-Counts true Reading.again r h v = v
splice_from_client-Counts true eof r h v = eof-Counts r (h refl).0 v
splice_from_client-Counts true (chunk x xs) r h v =
    let bytes = moved (x ∷ xs) in
    let size = length-take_le bufsize (x ∷ xs) in
    let room = (h refl).1 in
    let sum = length-append r.pipecli bytes in
    let now = v.cli in
    record {
      cli = omega arith;
      srv = v.srv;
      cli_bounded = omega arith;
      srv_bounded = v.srv_bounded;
      to_proxy = sym (append_assoc r.proxy.sent r.pipecli bytes) ∙ ap (λ t. t ++ bytes) v.to_proxy;
      to_client = v.to_client;
      fin = v.fin ∙ rw (h refl).0 refl;
    }

-- that the read from the client leaves the other pipe alone
pub same_srv :
    (asked : Bool) (e : Reading) (r : Pipes)
    → (left (splice_from_client asked e r)).npipesrv ≡ r.npipesrv
unfolding splice_from_client fin_when
same_srv false e r = refl
same_srv true Reading.broken r = refl
same_srv true Reading.again r = refl
same_srv true eof r = elim (Bool-cases (r.npipecli == 0)) [ inl p ↦ rw p refl | inr p ↦ rw p refl ]
same_srv true (chunk x xs) r = refl

pub splice_from_proxy-Counts :
    (asked : Bool) (e : Reading) (r : Pipes)
    → (asked ≡ true → r.npipesrv < bufsize)
    → Counts r
    → Counts (left (splice_from_proxy asked e r))
unfolding splice_from_proxy
splice_from_proxy-Counts false e r h v = v
splice_from_proxy-Counts true Reading.broken r h v = v
splice_from_proxy-Counts true Reading.again r h v = v
splice_from_proxy-Counts true eof r h v = v
splice_from_proxy-Counts true (chunk x xs) r h v =
    let bytes = moved (x ∷ xs) in
    let size = length-take_le bufsize (x ∷ xs) in
    let room = h refl in
    let sum = length-append r.pipesrv bytes in
    let now = v.srv in
    record {
      cli = v.cli;
      srv = omega arith;
      cli_bounded = v.cli_bounded;
      srv_bounded = omega arith;
      to_proxy = v.to_proxy;
      to_client =
          sym (append_assoc r.client.sent r.pipesrv bytes) ∙ ap (λ t. t ++ bytes) v.to_client;
      fin = v.fin;
    }

pub splice_to_client-Counts :
    (asked : Bool) (e : Writing) (r : Pipes) → Counts r → Counts (left (splice_to_client asked e r))
unfolding splice_to_client
splice_to_client-Counts false e r v = v
splice_to_client-Counts true Writing.broken r v = v
splice_to_client-Counts true Writing.again r v = v
splice_to_client-Counts true (takes k) r v =
    let bytes = moved (take k r.pipesrv) in
    let rest = length-drop (length bytes) r.pipesrv in
    let now = v.srv in
    let bound = v.srv_bounded in
    record {
      cli = v.cli;
      srv = omega arith;
      cli_bounded = v.cli_bounded;
      srv_bounded = omega arith;
      to_proxy = v.to_proxy;
      to_client =
          append_assoc r.client.sent bytes _
          ∙ ap (λ t. r.client.sent ++ t) (take-take-drop bufsize k r.pipesrv)
          ∙ v.to_client;
      fin = v.fin;
    }
