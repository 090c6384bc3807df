-- ===== src/Main/Examples.antt =====
-- The theorems on the start of the process at a concrete machine.
use silksocks.Base.{
  ℕ, ◌+◌, min, ◌≡◌, refl, pos, true, false, none, some, List, [], ◌∷◌, ◌++◌, arith,
}
use silksocks.Text.{strtok, skip_separators, token, behind, newline}
use silksocks.Db.Init.{Handles, comma, sqlalloc, sqlconnect, sqlinit}
use silksocks.Listen.{Address}
use silksocks.Main.{
  Opt, daemonize, debugging, verbosely, read_opts, no_options, done, Machine, Accept, connection,
  interrupted, failed, Running, main,
}
use silksocks.Main.Laws.{count_d, count_v, one_less, read_opts_lem}
use silksocks.Main.Serving.{IsServing, main-IsServing}
use silksocks.Main.Serves.{fresh_server, main_serves}

abbrev pub dvd : List Opt
dvd = debugging ∷ verbosely ∷ debugging ∷ daemonize ∷ []

read_opts_lem_example :
    read_opts dvd no_options
    ≡ some (record {
      daemon = true;
      debug = one_less (min 3 (count_d dvd));
      verbose = min 6 (2 + count_v dvd);
    })
read_opts_lem_example = read_opts_lem dvd

read_dvd : read_opts dvd no_options ≡ some (record { daemon = true; debug = pos 1; verbose = 3 })
unfolding read_opts
read_dvd = refl

-- "db,u,p"
abbrev pub source : List ℕ
source = 100 ∷ 98 ∷ comma ∷ 117 ∷ comma ∷ 112 ∷ []

abbrev pub both_held : Handles
both_held = record { henv = true; hdbc = true; envs = 1; envs_freed = 0; dbcs = 1; dbcs_freed = 0 }

abbrev pub address : Address
address = record {
  socket = some 5;
  setsockopt = true;
  bind = true;
  close = true;
  listen = true;
  addrlen = 16;
}

abbrev pub machine : Machine
machine = record {
  fork_parent = false;
  thpool_init = true;
  fopen = λ path. some (source ++ (newline ∷ 120 ∷ []));
  driver = record {
    alloc_env = true;
    set_env_attr = true;
    alloc_dbc = true;
    connect = λ name user passwd. true;
  };
  table_given = true;
  entries_given = true;
  map_malloc = λ n. true;
  addresses = some (record address { socket = none } ∷ address ∷ []);
}

abbrev pub arrivals : List Accept
arrivals = connection 6 ∷ interrupted ∷ failed ∷ connection 7 ∷ []

abbrev pub serving : Running
serving = record {
  options = record { daemon = true; debug = pos 1; verbose = 3 };
  server = fresh_server both_held;
  listenfd = 5;
  fds = 5 ∷ [];
  work = 6 ∷ 7 ∷ [];
}

pub machine_serves : main machine dvd ((47 ∷ []) ∷ []) [] arrivals ≡ done serving
unfolding sqlinit sqlalloc sqlconnect strtok skip_separators token behind
machine_serves =
    main_serves machine dvd (47 ∷ []) source (120 ∷ []) [] arrivals both_held
      (record address { socket = none } ∷ []) [] address 5 refl refl refl refl refl (omega arith)
      refl refl refl refl refl refl refl refl refl refl refl

main_serves_example : main machine dvd ((47 ∷ []) ∷ []) [] arrivals ≡ done serving
unfolding sqlinit sqlalloc sqlconnect strtok skip_separators token behind
main_serves_example =
    main_serves machine dvd (47 ∷ []) source (120 ∷ []) [] arrivals both_held
      (record address { socket = none } ∷ []) [] address 5 refl refl refl refl refl (omega arith)
      refl refl refl refl refl refl refl refl refl refl refl

main-IsServing_example : IsServing machine dvd [] serving
main-IsServing_example =
    main-IsServing machine dvd ((47 ∷ []) ∷ []) [] arrivals serving machine_serves
