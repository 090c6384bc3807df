-- ===== src/Listen/Laws.antt =====
-- Which address `tcp_listen` listens on.
use silksocks.Base.{
  ℕ, ◌≡◌, refl, sym, ap, ◌∙◌, Bool, true, false, Option, none, some, List, [], ◌∷◌, ◌++◌, ◌&&◌, not,
  ==_refl, arith, Bool-cases, inl, inr,
}
use mathlib.Core.Path.{subst}
use silksocks.Listen.{
  Address, Listened, listening, exits, without, start_listening, try_addresses, tcp_listen,
}

-- an address that the loop goes past: there is no socket for it, or it is taken and the socket closed
abbrev pub no_use : Address → Option ℕ → Bool
no_use a none = true
no_use a (some n) = a.setsockopt && (not a.bind && a.close)

abbrev pub is_skipped : Address → Bool
is_skipped a = no_use a a.socket

abbrev pub all_skipped : List Address → Bool
all_skipped [] = true
all_skipped (a ∷ rest) = is_skipped a && all_skipped rest

without-cons : (n : ℕ) (fds : List ℕ) → without n (n ∷ fds) ≡ fds
without-cons n fds = rw ==_refl refl

-- one address that is gone past
try_addresses-skipped :
    (a : Address) (next : List Address) (fds : List ℕ)
    → is_skipped a ≡ true
    → try_addresses (a ∷ next) fds ≡ try_addresses next fds
unfolding try_addresses
try_addresses-skipped a next fds h = by_socket a.socket refl h
  where
    by_socket :
        (o : Option ℕ)
        → a.socket ≡ o
        → no_use a o ≡ true
        → try_addresses (a ∷ next) fds ≡ try_addresses next fds
    by_socket none e all = rw (try_addresses, e) refl
    by_socket (some n) e all =
        let set : a.setsockopt ≡ true = ground (arith, all) in
        let taken : a.bind ≡ false = ground (arith, all) in
        let closed : a.close ≡ true = ground (arith, all) in
        rw (try_addresses, e, set, taken, closed, without-cons n fds) refl

skip_all :
    (skipped next : List Address) (fds : List ℕ)
    → all_skipped skipped ≡ true
    → try_addresses (skipped ++ next) fds ≡ try_addresses next fds
skip_all [] next fds h = refl
skip_all (a ∷ skipped) next fds h =
    let one : is_skipped a ≡ true = ground (arith, h) in
    let rest : all_skipped skipped ≡ true = ground (arith, h) in
    try_addresses-skipped a (skipped ++ next) fds one ∙ skip_all skipped next fds rest

-- The first address of the list that a socket can be made for and bound to, behind any number of
-- addresses for which there is no socket or which are taken, is the one that `tcp_listen` listens on:
-- it returns that socket, and no other one is left open.
pub tcp_listen_lem :
    (skipped rest : List Address) (a : Address) (n : ℕ) (fds : List ℕ)
    → all_skipped skipped ≡ true
    → a.socket ≡ some n
    → a.setsockopt ≡ true
    → a.bind ≡ true
    → a.listen ≡ true
    → tcp_listen (some (skipped ++ (a ∷ rest))) fds ≡ listening n a.addrlen (n ∷ fds)
unfolding tcp_listen try_addresses start_listening
tcp_listen_lem skipped rest a n fds past made set bound listens =
    skip_all skipped (a ∷ rest) fds past ∙ rw (try_addresses, made, set, bound, listens) refl

-- the addresses that were gone past, and the one that is listened on
pub record Picked (all : List Address) (fds : List ℕ) (n addrlen : ℕ) (left_open : List ℕ)
    : Type 0 where
  skipped : List Address
  rest : List Address
  picked : Address
  whole : all ≡ skipped ++ (picked ∷ rest)
  past : all_skipped skipped ≡ true
  made : picked.socket ≡ some n
  bound : picked.bind ≡ true
  listens : picked.listen ≡ true
  size : addrlen ≡ picked.addrlen
  only : left_open ≡ n ∷ fds

abbrev Picks : List Address → List ℕ → Listened → Type 0
Picks all fds (listening n addrlen left_open) = Picked all fds n addrlen left_open
Picks all fds exits = Unit

Picks-skipped :
    (a : Address) (next : List Address) (fds : List ℕ) (o : Listened)
    → is_skipped a ≡ true
    → Picks next fds o
    → Picks (a ∷ next) fds o
Picks-skipped a next fds exits h p = tt
Picks-skipped a next fds (listening n addrlen left_open) h p = record {
  skipped = a ∷ p.skipped;
  rest = p.rest;
  picked = p.picked;
  whole = ap (λ l. a ∷ l) p.whole;
  past = rw h p.past;
  made = p.made;
  bound = p.bound;
  listens = p.listens;
  size = p.size;
  only = p.only;
}

next-Picks :
    (a : Address) (next : List Address) (fds : List ℕ)
    → Picks next fds (try_addresses next fds)
    → Picks (a ∷ next) fds (try_addresses (a ∷ next) fds)
unfolding try_addresses start_listening
next-Picks a next fds next_picks = by_socket a.socket refl
  where
    later : is_skipped a ≡ true → Picks (a ∷ next) fds (try_addresses (a ∷ next) fds)
    later h =
        rw (try_addresses-skipped a next fds h)
          (Picks-skipped a next fds (try_addresses next fds) h next_picks)

    by_socket : (o : Option ℕ) → a.socket ≡ o → Picks (a ∷ next) fds (try_addresses (a ∷ next) fds)
    by_socket none e = later (rw e refl)
    by_socket (some n) e = elim (Bool-cases a.setsockopt) [
      | inr no_reuse ↦ rw (try_addresses, e, no_reuse) tt
      | inl reuse ↦ elim (Bool-cases a.bind) [
        | inl bound ↦ elim (Bool-cases a.listen) [
          | inr deaf ↦ rw (try_addresses, e, reuse, bound, deaf) tt
          | inl hears ↦
              let run : try_addresses (a ∷ next) fds ≡ listening n a.addrlen (n ∷ fds) =
                rw (try_addresses, e, reuse, bound, hears) refl in
              subst (Picks (a ∷ next) fds) (sym run) (record {
                skipped = [];
                rest = next;
                picked = a;
                whole = refl;
                past = refl;
                made = e;
                bound = bound;
                listens = hears;
                size = refl;
                only = refl;
              })
        ]
        | inr taken ↦ elim (Bool-cases a.close) [
          | inr stuck ↦ rw (try_addresses, e, reuse, taken, stuck) tt
          | inl closed ↦ later (rw (e, reuse, taken, closed) refl)
        ]
      ]
    ]

try_addresses-Picks : (all : List Address) (fds : List ℕ) → Picks all fds (try_addresses all fds)
unfolding try_addresses
try_addresses-Picks [] fds = tt
try_addresses-Picks (a ∷ next) fds = next-Picks a next fds (try_addresses-Picks next fds)

-- Whatever the system answers, when `tcp_listen` returns, it has gone past a number of addresses for
-- which there is no socket or which are taken, and listens on the next one, on the socket that it
-- returns; that socket is the only one it leaves open.
pub tcp_listen-Picks :
    (all : List Address) (fds : List ℕ) (n addrlen : ℕ) (left_open : List ℕ)
    → tcp_listen (some all) fds ≡ listening n addrlen left_open
    → Picked all fds n addrlen left_open
unfolding tcp_listen
tcp_listen-Picks all fds n addrlen left_open h =
    subst (Picks all fds) h (try_addresses-Picks all fds)
