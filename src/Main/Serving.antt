-- ===== src/Main/Serving.antt =====
-- What the process has when it comes to its loop.
use silksocks.Base.{ℕ, ◌≡◌, refl, sym, Option, none, some, List, ◌&&◌, ltb, if◌then◌else◌, length}
use mathlib.Core.Path.{subst}
use silksocks.Listen.{Address, Listened, listening, exits, tcp_listen}
use silksocks.Main.{
  done, quits, Machine, server_init, Running, main, need, quit_if, listened, first_operand, Opt,
  Accept, read_opts, no_options,
}
use silksocks.Listen.Laws.{Picked, tcp_listen-Picks}
use silksocks.Main.Ready.{AllDone, AllDone->>=, need-AllDone, always, IsReady, server_init-IsReady}

-- the socket is that of the first usable address, and the only one that `tcp_listen` left open
pub record IsListening (m : Machine) (fds : List ℕ) (sock : ℕ × List ℕ) : Type 0 where
  pub all : List Address
  pub addrlen : ℕ
  pub known : m.addresses ≡ some all
  pub picked : Picked all fds sock.0 addrlen sock.1

listened-IsListening :
    (m : Machine) (fds : List ℕ)
    → AllDone (IsListening m fds) (listened (tcp_listen m.addresses fds))
unfolding tcp_listen
listened-IsListening m fds = by_addresses m.addresses refl
  where
    by_outcome :
        (all : List Address) (o : Listened)
        → m.addresses ≡ some all
        → tcp_listen (some all) fds ≡ o
        → AllDone (IsListening m fds) (listened o)
    by_outcome all exits known e = tt
    by_outcome all (listening n addrlen left_open) known e = record {
      all = all;
      addrlen = addrlen;
      known = known;
      picked = tcp_listen-Picks all fds n addrlen left_open e;
    }

    by_addresses :
        (o : Option (List Address))
        → m.addresses ≡ o
        → AllDone (IsListening m fds) (listened (tcp_listen m.addresses fds))
    by_addresses none e = rw e tt
    by_addresses (some all) e =
        subst (λ o. AllDone (IsListening m fds) (listened (tcp_listen o fds))) (sym e)
          (by_outcome all (tcp_listen (some all) fds) e refl)

-- what holds of the process in its loop
pub record IsServing (m : Machine) (opts : List Opt) (fds : List ℕ) (r : Running) : Type 0 where
  pub options : read_opts opts no_options ≡ some r.options
  pub ready : IsReady r.server
  pub listens : IsListening m fds (r.listenfd, r.fds)

main-AllDone :
    (m : Machine) (opts : List Opt) (operands : List (List ℕ)) (fds : List ℕ)
    (accepts : List Accept)
    → AllDone (IsServing m opts fds) (main m opts operands fds accepts)
unfolding main
main-AllDone m opts operands fds accepts =
    AllDone->>= (λ o. read_opts opts no_options ≡ some o) (IsServing m opts fds)
      (need (read_opts opts no_options)) _ (need-AllDone _)
      λ options e.
        AllDone->>= (λ u. Unit) (IsServing m opts fds) (quit_if (ltb 1 (length operands))) _
          (always _)
          λ u _.
            AllDone->>= (λ u. Unit) (IsServing m opts fds)
              (if options.daemon && m.fork_parent then quits 0 else done tt) _ (always _)
              λ v _.
                AllDone->>= IsReady (IsServing m opts fds) (server_init m (first_operand operands))
                  _ (server_init-IsReady m (first_operand operands))
                  λ server ready.
                    AllDone->>= (IsListening m fds) (IsServing m opts fds)
                      (listened (tcp_listen m.addresses fds)) _ (listened-IsListening m fds)
                      λ sock listens. record { options = e; ready = ready; listens = listens }

-- When the process comes to its loop, whatever the system answered on the way: it has read all the
-- options, it is connected to the database with each handle given once more than freed, its DNS table and its two
-- caches are valid and empty, and it listens on the first usable address, with no other socket left
-- open.
pub main-IsServing :
    (m : Machine) (opts : List Opt) (operands : List (List ℕ)) (fds : List ℕ)
    (accepts : List Accept) (r : Running)
    → main m opts operands fds accepts ≡ done r
    → IsServing m opts fds r
main-IsServing m opts operands fds accepts r h =
    subst (AllDone (IsServing m opts fds)) h (main-AllDone m opts operands fds accepts)
