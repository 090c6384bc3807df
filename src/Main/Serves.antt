-- ===== src/Main/Serves.antt =====
-- A start of the process where nothing fails.
use silksocks.Base.{
  ℕ, ◌*◌, ◌<◌, ◌≡◌, refl, ap, ◌∙◌, min, ◌+◌, true, false, some, List, [], ◌∷◌, ◌++◌, length, arith,
  Bool-cases, inl, inr,
}
use silksocks.Text.{newline}
use silksocks.Text.Lines.{is_line, fgets-ended, c_string-ended, chomp-ended}
use silksocks.HashTbl.{hashtbl_init}
use silksocks.HashTbl.Valid.{fresh_table}
use silksocks.Cache.Rehash.{fresh}
use silksocks.Cache.Grow.{cache_init_given}
use silksocks.Cache.Ip.{no_creds, sizeof_ip2creds, cache_initip}
use silksocks.Cache.App.{no_passwd, sizeof_app2passwd, cache_initapp}
use silksocks.Db.Init.{Handles, success, sqlinit}
use silksocks.Listen.{Address}
use silksocks.Listen.Laws.{all_skipped, tcp_listen_lem}
use silksocks.Main.{
  Opt, Accept, connection, interrupted, failed, Options, done, Machine, Server, read_opts,
  no_options, no_handles, init_database, server_init, accept_loop, main, dnstbl_size,
  cacheip_initsz, cacheap_initsz,
}
use silksocks.Main.Laws.{asks_help, asks_daemon, count_d, count_v, one_less, read_opts_lem}

abbrev pub fresh_server : Handles → Server
fresh_server h = record {
  handles = h;
  dns_table = fresh_table dnstbl_size;
  cacheip = fresh no_creds cacheip_initsz;
  cacheapp = fresh no_passwd cacheap_initsz;
}

-- the descriptors among the answers of `accept`
abbrev pub descriptor : Accept → List ℕ
descriptor (connection connfd) = connfd ∷ []
descriptor interrupted = []
descriptor failed = []

abbrev pub descriptors : List Accept → List ℕ
descriptors [] = []
descriptors (a ∷ accepts) = descriptor a ++ descriptors accepts

accept_loop-descriptors : (accepts : List Accept) → accept_loop accepts ≡ descriptors accepts
unfolding accept_loop
accept_loop-descriptors [] = refl
accept_loop-descriptors (connection connfd ∷ accepts) =
    ap (λ rest. connfd ∷ rest) (accept_loop-descriptors accepts)
accept_loop-descriptors (interrupted ∷ accepts) = accept_loop-descriptors accepts
accept_loop-descriptors (failed ∷ accepts) = accept_loop-descriptors accepts

server_init-fresh :
    (m : Machine) (path line rest : List ℕ) (h : Handles)
    → m.thpool_init ≡ true
    → m.fopen (some path) ≡ some (line ++ (newline ∷ rest))
    → is_line line ≡ true
    → length line < 255
    → sqlinit m.driver line no_handles ≡ success h
    → m.table_given ≡ true
    → m.entries_given ≡ true
    → m.map_malloc (cacheip_initsz * sizeof_ip2creds) ≡ true
    → m.map_malloc (cacheap_initsz * sizeof_app2passwd) ≡ true
    → server_init m (some path) ≡ done (fresh_server h)
unfolding server_init init_database hashtbl_init cache_initip cache_initapp
server_init-fresh m path line rest h pool file plain short inited table entries mem1 mem2 =
    let ip =
      cache_init_given no_creds m.map_malloc sizeof_ip2creds cacheip_initsz (omega arith)
        (omega arith) (omega arith) mem1 in
    let app =
      cache_init_given no_passwd m.map_malloc sizeof_app2passwd cacheap_initsz (omega arith)
        (omega arith) (omega arith) mem2 in
    rw
      (
        pool,
        file,
        fgets-ended 255 line rest plain short,
        c_string-ended line plain,
        chomp-ended line,
        inited,
        table,
        entries,
        ip,
        app,
      )
      refl

-- With options that do not ask for help, a file whose first line has at most 254 bytes, none of them
-- zero, and opens the database, memory, and an address that can be listened on behind others that
-- cannot, the process (after a fork, the child) comes to its loop: it has the options by their number, an
-- empty DNS table and empty caches, and the socket of that address, and it hands to the thread pool the
-- descriptor of each connection that `accept` gives, in order, where an interrupted or failed call of
-- `accept` gives none and does not end the loop.
pub main_serves :
    (m : Machine) (opts : List Opt) (path line rest : List ℕ) (fds : List ℕ) (accepts : List Accept)
    (h : Handles) (skipped more : List Address) (a : Address) (n : ℕ)
    → asks_help opts ≡ false
    → m.fork_parent ≡ false
    → m.thpool_init ≡ true
    → m.fopen (some path) ≡ some (line ++ (newline ∷ rest))
    → is_line line ≡ true
    → length line < 255
    → sqlinit m.driver line no_handles ≡ success h
    → m.table_given ≡ true
    → m.entries_given ≡ true
    → m.map_malloc (cacheip_initsz * sizeof_ip2creds) ≡ true
    → m.map_malloc (cacheap_initsz * sizeof_app2passwd) ≡ true
    → m.addresses ≡ some (skipped ++ (a ∷ more))
    → all_skipped skipped ≡ true
    → a.socket ≡ some n
    → a.setsockopt ≡ true
    → a.bind ≡ true
    → a.listen ≡ true
    → main m opts (path ∷ []) fds accepts
      ≡ done (record {
        options = record {
          daemon = asks_daemon opts;
          debug = one_less (min 3 (count_d opts));
          verbose = min 6 (2 + count_v opts);
        };
        server = fresh_server h;
        listenfd = n;
        fds = n ∷ fds;
        work = descriptors accepts;
      })
unfolding main
main_serves m opts path line rest fds accepts h skipped more a n no_help child pool file plain short
      inited table entries mem1 mem2 known past made set bound listens =
    let chosen : Options = record {
      daemon = asks_daemon opts;
      debug = one_less (min 3 (count_d opts));
      verbose = min 6 (2 + count_v opts);
    } in
    let options : read_opts opts no_options ≡ some chosen = read_opts_lem opts ∙ rw no_help refl in
    let server =
      server_init-fresh m path line rest h pool file plain short inited table entries mem1 mem2 in
    let sock = tcp_listen_lem skipped more a n fds past made set bound listens in
    let works = accept_loop-descriptors accepts in
    elim (Bool-cases (asks_daemon opts)) [
      | inl daemon ↦ rw (options, daemon, child, server, known, sock, works) refl
      | inr attached ↦ rw (options, attached, server, known, sock, works) refl
    ]
