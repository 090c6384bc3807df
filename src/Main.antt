-- ===== src/Main.antt =====
-- main.c: the options, `server_init`, and the loop that hands connections to the thread pool. The
-- system's answers are arguments: the options as `getopt` gives them, the file and the memory, the
-- addresses of `tcp_listen`, and what `accept` returns, up to any point. The thread pool is what it is
-- given, in order. proxy.c, which each of its threads runs, is here too.
pub mod Laws
pub mod Ready
pub mod Serving
pub mod Works
pub mod Serves
mod Examples
mod WorksExamples
use silksocks.Base.{
  ℕ, ◌+◌, ◌^◌, ℤ, negsuc, lt_ℕ, suc_ℤ, Bool, true, false, Option, none, some, List, [], ◌∷◌, ◌&&◌,
  not, ltb, if◌then◌else◌, length,
}
use silksocks.Text.{c_string, fgets, chomp}
use silksocks.HashTbl.{HashTable, hashtbl_init}
use silksocks.Cache.Ip.{CacheIp, cache_initip}
use silksocks.Cache.App.{CacheAp, cache_initapp}
use silksocks.Db.Init.{Handles, Driver, Inited, success, fails, crashes, sqlinit}
use silksocks.Listen.{Address, Listened, listening, exits, tcp_listen}
use silksocks.Socks.World.{World, System, M}
use silksocks.Socks.Run.{Ran, socks5_run}

-- 'h' and what `getopt` does not know are `help`
pub data Opt : Type 0 where
  daemonize : Opt
  debugging : Opt
  verbosely : Opt
  help : Opt

pub record Options : Type 0 where
  pub daemon : Bool
  pub debug : ℤ
  pub verbose : ℕ

abbrev pub log_crit : ℕ
log_crit = 2

abbrev pub log_info : ℕ
log_info = 6

-- the loop over `getopt`; `none` is `usage`
unfoldable pub read_opts : List Opt → Options → Option Options
read_opts [] o = some o
read_opts (daemonize ∷ opts) o = read_opts opts (record o { daemon = true })
read_opts (debugging ∷ opts) o =
    read_opts opts (record o { debug = if lt_ℕ o.debug 2 then suc_ℤ o.debug else o.debug })
read_opts (verbosely ∷ opts) o =
    read_opts opts
      (record o { verbose = if ltb o.verbose log_info then o.verbose + 1 else o.verbose })
read_opts (help ∷ opts) o = none

-- Where the process ends with a status before it serves, and where it has no defined behaviour.
pub data Start (A : Type 0) : Type 0 where
  done : A → Start A
  quits : ℕ → Start A
  undefined : Start A

infixl 5 ◌>>=◌ ◌>>◌
abbrev pub ◌>>=◌ : {A B : Type 0} → Start A → (A → Start B) → Start B
done a >>= k = k a
quits n >>= k = quits n
undefined >>= k = undefined

abbrev pub ◌>>◌ : {B : Type 0} → Start (Unit {0}) → Start B → Start B
m >> k = m >>= λ _. k

-- `if (b) err_quit(…);`
abbrev pub quit_if : Bool → Start (Unit {0})
quit_if true = quits 1
quit_if false = done tt

-- `if (!x) err_quit(…);`
abbrev pub need : {A : Type 0} → Option A → Start A
need none = quits 1
need (some a) = done a

abbrev pub defined : {A : Type 0} → Option A → Start A
defined none = undefined
defined (some a) = done a

-- What the system answers at the start. A path of `none` is `NULL`; a file is its bytes.
pub record Machine : Type 0 where
  pub fork_parent : Bool
  pub thpool_init : Bool
  pub fopen : (path : Option (List ℕ)) → Option (List ℕ)
  pub driver : Driver
  pub table_given : Bool
  pub entries_given : Bool
  pub map_malloc : ℕ → Bool  -- the memory for the slots of a cache
  pub addresses : Option (List Address)

pub record Server : Type 0 where
  pub handles : Handles
  pub dns_table : HashTable
  pub cacheip : CacheIp
  pub cacheapp : CacheAp

abbrev pub dnstbl_size : ℕ
dnstbl_size = 2 ^ 23

abbrev pub cacheip_initsz : ℕ
cacheip_initsz = 1024

abbrev pub cacheap_initsz : ℕ
cacheap_initsz = 16

-- `henv` and `hdbc` at the start
abbrev pub no_handles : Handles
no_handles = record {
  henv = false;
  hdbc = false;
  envs = 0;
  envs_freed = 0;
  dbcs = 0;
  dbcs_freed = 0;
}

-- `if (sqlinit(line) == -1) err_quit(…);`
abbrev pub opened : Inited → Start Handles
opened (success h) = done h
opened (fails h) = quits 1
opened crashes = undefined

-- the lines under USEDB, with `char line[256]`
unfoldable pub init_database : Machine → Option (List ℕ) → Start Handles
unfolding fgets c_string chomp sqlinit
init_database m sql_config = do
  file ← need (m.fopen sql_config)
  got ← need (fgets 255 file)
  line ← defined (chomp (c_string got.0))
  opened (sqlinit m.driver line no_handles)

unfoldable pub server_init : Machine → Option (List ℕ) → Start Server
unfolding init_database hashtbl_init cache_initip cache_initapp
server_init m sql_config = do
  quit_if (not m.thpool_init)
  handles ← init_database m sql_config
  dns_table ← need (hashtbl_init m.table_given m.entries_given dnstbl_size)
  cacheip ← need (cache_initip m.map_malloc cacheip_initsz)
  cacheapp ← need (cache_initapp m.map_malloc cacheap_initsz)
  done (record { handles = handles; dns_table = dns_table; cacheip = cacheip; cacheapp = cacheapp })

pub data Accept : Type 0 where
  connection : ℕ → Accept
  interrupted : Accept
  failed : Accept

-- the loop over `accept`: the arguments of `thpool_add_work`, in order
unfoldable pub accept_loop : List Accept → List ℕ
accept_loop [] = []
accept_loop (connection connfd ∷ more) = connfd ∷ accept_loop more
accept_loop (interrupted ∷ more) = accept_loop more
accept_loop (failed ∷ more) = accept_loop more

-- the work that is queued, with its argument
unfoldable pub proxy_start : System → (negotiate : M ℕ) → (getpeername : Bool) → ℕ → World → Ran
unfolding socks5_run
proxy_start sys negotiate getpeername arg w = socks5_run sys negotiate getpeername arg w

-- the process in its loop
pub record Running : Type 0 where
  pub options : Options
  pub server : Server
  pub listenfd : ℕ
  pub fds : List ℕ
  pub work : List ℕ

abbrev pub no_options : Options
no_options = record { daemon = false; debug = negsuc 0; verbose = log_crit }

-- `argv[optind]`, which is `NULL` behind the last argument
abbrev pub first_operand : List (List ℕ) → Option (List ℕ)
first_operand [] = none
first_operand (a ∷ as') = some a

-- `tcp_listen` returns or ends the process
abbrev pub listened : Listened → Start (ℕ × List ℕ)
listened (listening n addrlen fds) = done (n, fds)
listened exits = quits 1

-- `operands` are the arguments from `argv[optind]` on, `fds` the descriptors open at the start
unfoldable pub main :
    Machine → List Opt → (operands : List (List ℕ)) → (fds : List ℕ) → List Accept → Start Running
unfolding read_opts server_init tcp_listen accept_loop
main m opts operands fds accepts = do
  options ← need (read_opts opts no_options)
  quit_if (ltb 1 (length operands))
  if options.daemon && m.fork_parent then quits 0 else done tt
  server ← server_init m (first_operand operands)
  sock ← listened (tcp_listen m.addresses fds)
  done (record {
    options = options;
    server = server;
    listenfd = sock.0;
    fds = sock.1;
    work = accept_loop accepts;
  })
