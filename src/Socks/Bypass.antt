-- ===== src/Socks/Bypass.antt =====
-- What `socks5_run` does with a client that does not offer a login.
use mathlib.Core.Path.{subst}
use silksocks.Socks.Handshake.{socks5_choosemethod}
use silksocks.Base.{ℕ, ◌≤◌, ◌≡◌, refl, true, List, [], ◌∷◌, ◌++◌, length}
use silksocks.SilkIo.{ReadEvent, WriteEvent}
use silksocks.SilkIo.Read.{payload}
use silksocks.SilkIo.Write.{capacity}
use silksocks.SilkIo.Exact.{reading, wrote}
use silksocks.Socks.World.{World, System, M, ok}
use silksocks.Socks.Method.{chosen, method_of, socks5_choosemethod_lem}
use silksocks.Socks.Run.{authenticate, serve, run_body}

-- A client that does not offer method 2, in whatever chunks, is told that no method is acceptable, and
-- is then served like one that has logged in: the run goes on with its request, with the client's
-- record as it was. The client has to take the two bytes of the answer.
pub run_body-no_method :
    (sys : System) (negotiate : M ℕ) (w : World) (ms rest : List ℕ)
    → w.cli.rcvtimeo ≡ true
    → w.cli.sndtimeo ≡ true
    → 2 ≤ capacity w.cli.accepts
    → chosen ms 0 ≡ 0
    → payload w.cli.incoming ≡ 5 ∷ length ms ∷ (ms ++ rest)
    → (es : List ReadEvent) × (ws : List WriteEvent) × (run_body sys negotiate w
        ≡ serve sys negotiate (record w { cli = wrote (5 ∷ 0xFF ∷ []) ws (reading es w.cli) }))
      × (payload es ≡ rest)
unfolding run_body authenticate
run_body-no_method sys negotiate w ms rest rcv snd room none_offered eq =
    let (es, ws, run, left) = socks5_choosemethod_lem w ms rest rcv snd room eq in
    let refused : method_of ms ≡ 0xFF = rw none_offered refl in
    let run' =
      subst
        (λ m.
          socks5_choosemethod w
          ≡ ok m (record w { cli = wrote (5 ∷ m ∷ []) ws (reading es w.cli) }))
        refused run in
    (es, ws, rw run' refl, left)
