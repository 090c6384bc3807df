-- ===== src/Socks/Method.antt =====
-- `socks5_choosemethod` and `socks5_readauth` on the messages of a client.
use silksocks.Base.{
  ℕ, ◌≤◌, ◌≡◌, refl, true, List, [], ◌∷◌, ◌++◌, ◌==◌, if◌then◌else◌, arith, length,
}
use mathlib.Core.Path.{subst}
use silksocks.SilkIo.{ReadEvent, WriteEvent}
use silksocks.SilkIo.Read.{payload}
use silksocks.SilkIo.Write.{capacity}
use silksocks.SilkIo.Exact.{reading, wrote, Takes, capacity-Takes}
use silksocks.Socks.World.{World, ok, client_side}
use silksocks.Socks.Handshake.{choose_loop, socks5_choosemethod, socks5_readauth}
use silksocks.Socks.Stream.{recv-payload, recv_byte-payload, send-Takes}

-- what the list of offered methods asks for: 2 if it is in it, and else `otherwise`
abbrev pub chosen : List ℕ → (otherwise : ℕ) → ℕ
chosen [] otherwise = otherwise
chosen (m ∷ ms) otherwise = chosen ms (if m == 2 then 2 else otherwise)

-- the world with other events to come from the client
abbrev pub from_client : List ReadEvent → World → World
from_client es w = record w { cli = reading es w.cli }

choose_loop-chosen :
    (ms rest : List ℕ) (c : ℕ) (w : World)
    → w.cli.rcvtimeo ≡ true
    → payload w.cli.incoming ≡ ms ++ rest
    → (es : List ReadEvent) × (choose_loop (length ms) c w ≡ ok (chosen ms c) (from_client es w))
      × (payload es ≡ rest)
unfolding choose_loop
choose_loop-chosen [] rest c w set eq = (w.cli.incoming, refl, eq)
choose_loop-chosen (m ∷ ms) rest c w set eq =
    let (es, run, left) = recv_byte-payload client_side 1 m (ms ++ rest) w set eq in
    let (es', run', left') =
      choose_loop-chosen ms rest (if m == 2 then 2 else c) (from_client es w) set left in
    (es', rw (run, run') refl, left')

-- the method that `socks5_choosemethod` names to a client that offers `ms`
abbrev pub method_of : List ℕ → ℕ
method_of ms = if chosen ms 0 == 0 then 0xFF else chosen ms 0

-- the same for writes that are given
pub choosemethod-Takes :
    (w : World) (ms rest : List ℕ) (ws : List WriteEvent)
    → w.cli.rcvtimeo ≡ true
    → w.cli.sndtimeo ≡ true
    → Takes (5 ∷ method_of ms ∷ []) w.cli.accepts ws
    → payload w.cli.incoming ≡ 5 ∷ length ms ∷ (ms ++ rest)
    → (es : List ReadEvent) × (socks5_choosemethod w
        ≡ ok
            (method_of ms)
            (record w { cli = wrote (5 ∷ method_of ms ∷ []) ws (reading es w.cli) }))
      × (payload es ≡ rest)
unfolding socks5_choosemethod
choosemethod-Takes w ms rest ws rcv snd taken eq =
    let (es1, run1, left1) =
      recv_byte-payload client_side 1 5 (length ms ∷ (ms ++ rest)) w rcv eq in
    let (es2, run2, left2) =
      recv_byte-payload client_side 1 (length ms) (ms ++ rest) (from_client es1 w) rcv left1 in
    let (es3, run3, left3) = choose_loop-chosen ms rest 0 (from_client es2 w) rcv left2 in
    let run4 = send-Takes client_side 1 (5 ∷ method_of ms ∷ []) ws (from_client es3 w) snd taken in
    (es3, rw (run1, run2, run3, run4) refl, left3)

-- the same for a client that offers the login
pub choosemethod-login :
    (w : World) (ms rest : List ℕ) (ws : List WriteEvent)
    → method_of ms ≡ 2
    → w.cli.rcvtimeo ≡ true
    → w.cli.sndtimeo ≡ true
    → Takes (5 ∷ 2 ∷ []) w.cli.accepts ws
    → payload w.cli.incoming ≡ 5 ∷ length ms ∷ (ms ++ rest)
    → (es : List ReadEvent) × (socks5_choosemethod w
        ≡ ok 2 (record w { cli = wrote (5 ∷ 2 ∷ []) ws (reading es w.cli) }))
      × (payload es ≡ rest)
choosemethod-login w ms rest ws offered rcv snd taken eq =
    subst
      (λ m.
        Takes (5 ∷ m ∷ []) w.cli.accepts ws
        → (es : List ReadEvent) × (socks5_choosemethod w
            ≡ ok m (record w { cli = wrote (5 ∷ m ∷ []) ws (reading es w.cli) }))
          × (payload es ≡ rest))
      offered (λ given. choosemethod-Takes w ms rest ws rcv snd given eq) taken

-- For a client that sends version 5 and a list of methods, in whatever chunks, and takes two bytes,
-- `socks5_choosemethod` succeeds with method 2 if the client offers it and with 0xFF if not, answers
-- with version 5 and that method, and leaves what follows in the stream.
pub socks5_choosemethod_lem :
    (w : World) (ms rest : List ℕ)
    → w.cli.rcvtimeo ≡ true
    → w.cli.sndtimeo ≡ true
    → 2 ≤ capacity w.cli.accepts
    → payload w.cli.incoming ≡ 5 ∷ length ms ∷ (ms ++ rest)
    → (es : List ReadEvent) × (ws : List WriteEvent) × (socks5_choosemethod w
        ≡ ok
            (method_of ms)
            (record w { cli = wrote (5 ∷ method_of ms ∷ []) ws (reading es w.cli) }))
      × (payload es ≡ rest)
socks5_choosemethod_lem w ms rest rcv snd room eq =
    let (ws, taken) = capacity-Takes w.cli.accepts (5 ∷ method_of ms ∷ []) (omega (arith, room)) in
    let (es, run, left) = choosemethod-Takes w ms rest ws rcv snd taken eq in (es, ws, run, left)

-- the same for writes that are given
pub readauth-Takes :
    (w : World) (user passwd rest : List ℕ) (ws : List WriteEvent)
    → w.cli.rcvtimeo ≡ true
    → w.cli.sndtimeo ≡ true
    → Takes (1 ∷ 0 ∷ []) w.cli.accepts ws
    → payload w.cli.incoming ≡ 1 ∷ length user ∷ (user ++ (length passwd ∷ (passwd ++ rest)))
    → (es : List ReadEvent) × (socks5_readauth w
        ≡ ok tt (record w {
          client = record w.client { user = user; passwd = passwd };
          cli = wrote (1 ∷ 0 ∷ []) ws (reading es w.cli);
        }))
      × (payload es ≡ rest)
unfolding socks5_readauth
readauth-Takes w user passwd rest ws rcv snd taken eq =
    let named : World = record w { client = record w.client { user = user } } in
    let login : World = record w { client = record w.client { user = user; passwd = passwd } } in
    let (es1, run1, left1) = recv_byte-payload client_side 1 1 _ w rcv eq in
    let (es2, run2, left2) =
      recv_byte-payload client_side 1 (length user) _ (from_client es1 w) rcv left1 in
    let (es3, run3, left3) = recv-payload client_side 1 user _ (from_client es2 w) rcv left2 in
    let (es4, run4, left4) =
      recv_byte-payload client_side 1 (length passwd) _ (from_client es3 named) rcv left3 in
    let (es5, run5, left5) =
      recv-payload client_side 1 passwd rest (from_client es4 named) rcv left4 in
    let run6 = send-Takes client_side 1 (1 ∷ 0 ∷ []) ws (from_client es5 login) snd taken in
    (es5, rw (run1, run2, run3, run4, run5, run6) refl, left5)

-- For a client that sends a login, in whatever chunks, and takes two bytes, `socks5_readauth` succeeds,
-- stores the user's name and the password, answers that the login is good, and leaves what follows in
-- the stream.
pub socks5_readauth_lem :
    (w : World) (user passwd rest : List ℕ)
    → w.cli.rcvtimeo ≡ true
    → w.cli.sndtimeo ≡ true
    → 2 ≤ capacity w.cli.accepts
    → payload w.cli.incoming ≡ 1 ∷ length user ∷ (user ++ (length passwd ∷ (passwd ++ rest)))
    → (es : List ReadEvent) × (ws : List WriteEvent) × (socks5_readauth w
        ≡ ok tt (record w {
          client = record w.client { user = user; passwd = passwd };
          cli = wrote (1 ∷ 0 ∷ []) ws (reading es w.cli);
        }))
      × (payload es ≡ rest)
socks5_readauth_lem w user passwd rest rcv snd room eq =
    let (ws, taken) = capacity-Takes w.cli.accepts (1 ∷ 0 ∷ []) (omega (arith, room)) in
    let (es, run, left) = readauth-Takes w user passwd rest ws rcv snd taken eq in
    (es, ws, run, left)
