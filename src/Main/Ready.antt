-- ===== src/Main/Ready.antt =====
-- What `server_init` has made when it returns.
use silksocks.Base.{
  ℕ, ◌==◌, ◌%◌, ◌*◌, ◌^◌, ◌<◌, ◌≡◌, refl, sym, Bool, true, false, Option, none, some, List, not,
  arith, Bool-cases, inl, inr,
}
use mathlib.Core.Path.{subst}
use native.Mathlib.Nat.{mod-eq_of_lt}
use silksocks.HashTbl.{HashTable, hashtbl_init}
use silksocks.HashTbl.Valid.{IsValid, find, hashtbl_init-IsValid}
use silksocks.Cache.Hash.{hash32, hash_str}
use silksocks.Cache.Table.{Cache, cache_init}
use silksocks.Cache.Rehash.{fresh, fresh-IsValid, fetch-fresh}
use silksocks.Cache.Grow.{cache_init_given}
use silksocks.Cache.Ends.{InBudget}
use silksocks.Cache.Ip.{no_creds, sizeof_ip2creds, CacheIp, cache_initip, cache_getip}
use silksocks.Cache.Ip.Laws.{IsValidIp}
use silksocks.Cache.App.{CacheAp, no_passwd, sizeof_app2passwd, same, cache_initapp, cache_getapp}
use silksocks.Cache.App.Laws.{IsValidAp}
use silksocks.Db.Init.{
  Handles, Inited, success, fails, crashes, sqlinit, IsAccounted, Leaves, sqlinit-Leaves,
}
use silksocks.Main.{
  Start, done, quits, undefined, ◌>>=◌, Machine, Server, no_handles, opened, init_database,
  server_init, need, defined, dnstbl_size, cacheip_initsz, cacheap_initsz, quit_if,
}
use silksocks.Socks.Shared.{ShortHit, ShortCache}
use silksocks.Text.{c_string, fgets, chomp}

-- what holds of the result, if there is one
abbrev pub AllDone : {A : Type 0} → (A → Type 0) → Start A → Type 0
AllDone P (done a) = P a
AllDone P (quits n) = Unit
AllDone P undefined = Unit

pub AllDone->>= :
    {A B : Type 0} (P : A → Type 0) (Q : B → Type 0) (m : Start A) (k : A → Start B)
    → AllDone P m
    → ((a : A) → P a → AllDone Q (k a))
    → AllDone Q (m >>= k)
AllDone->>= P Q (done a) k h f = f a h
AllDone->>= P Q (quits n) k h f = tt
AllDone->>= P Q undefined k h f = tt

pub need-AllDone : {A : Type 0} (o : Option A) → AllDone (λ a. o ≡ some a) (need o)
need-AllDone none = tt
need-AllDone (some a) = refl

-- any start
pub always : {A : Type 0} (m : Start A) → AllDone (λ a. Unit) m
always (done a) = tt
always (quits n) = tt
always undefined = tt

-- the handles of a connection to the database, both held, and each given once more than freed
pub record IsConnected (h : Handles) : Type 0 where
  pub accounted : IsAccounted h
  pub env : h.henv ≡ true
  pub dbc : h.hdbc ≡ true

opened-IsConnected : (i : Inited) → Leaves i → AllDone IsConnected (opened i)
opened-IsConnected (success h) (v, env, dbc) = record { accounted = v; env = env; dbc = dbc }
opened-IsConnected (fails h) l = tt
opened-IsConnected crashes l = tt

init_database-IsConnected :
    (m : Machine) (sql_config : Option (List ℕ)) → AllDone IsConnected (init_database m sql_config)
unfolding init_database
init_database-IsConnected m sql_config =
    AllDone->>= (λ f. Unit) IsConnected (need (m.fopen sql_config)) _ (always _)
      λ file _.
        AllDone->>= (λ f. Unit) IsConnected (need (fgets 255 file)) _ (always _)
          λ got _.
            AllDone->>= (λ f. Unit) IsConnected (defined (chomp (c_string got.0))) _ (always _)
              λ line _.
                opened-IsConnected (sqlinit m.driver line no_handles)
                  (sqlinit-Leaves m.driver line no_handles (record { env = refl; dbc = refl }))

cache_init-fresh :
    {V : Type 0} (zeroed : V) (map_malloc : ℕ → Bool) (slot_size n : ℕ) (c : Cache V)
    → 0 < n
    → 0 < slot_size
    → n * slot_size < 2 ^ 64
    → cache_init zeroed map_malloc slot_size n ≡ some c
    → fresh zeroed n ≡ c
unfolding cache_init
cache_init-fresh zeroed map_malloc slot_size n c pos sized bound made =
    let whole : (n * slot_size) % 2 ^ 64 ≡ n * slot_size = mod-eq_of_lt bound in
    let some_slots : (n == 0) ≡ false = ground arith in
    elim (Bool-cases (map_malloc (n * slot_size))) [
      | inl given ↦
          let run = cache_init_given zeroed map_malloc slot_size n pos sized bound given in cc
      | inr refused ↦
          let run : cache_init zeroed map_malloc slot_size n ≡ none =
            rw (whole, some_slots, refused) refl in
          cc
    ]

initip-empty :
    (map_malloc : ℕ → Bool) (c : CacheIp)
    → cache_initip map_malloc cacheip_initsz ≡ some c
    → IsValidIp c × ((k : ℕ) → cache_getip c k ≡ some none) × InBudget cacheip_initsz c
unfolding cache_initip cache_getip
initip-empty map_malloc c e =
    subst (λ d. IsValidIp d × ((k : ℕ) → cache_getip d k ≡ some none) × InBudget cacheip_initsz d)
      (cache_init-fresh no_creds map_malloc sizeof_ip2creds cacheip_initsz c (omega arith)
        (omega arith) (omega arith) e)
      (
        fresh-IsValid no_creds hash32 cacheip_initsz (omega arith),
        λ k. fetch-fresh no_creds hash32 cacheip_initsz k (omega arith),
        (omega arith, omega arith),
      )

initapp-empty :
    (map_malloc : ℕ → Bool) (c : CacheAp)
    → cache_initapp map_malloc cacheap_initsz ≡ some c
    → IsValidAp c × ((name : List ℕ) → cache_getapp c name ≡ some none) × InBudget cacheip_initsz c
unfolding cache_initapp cache_getapp
initapp-empty map_malloc c e =
    subst
      (λ d.
        IsValidAp d
        × ((name : List ℕ) → cache_getapp d name ≡ some none)
        × InBudget cacheip_initsz d)
      (cache_init-fresh no_passwd map_malloc sizeof_app2passwd cacheap_initsz c (omega arith)
        (omega arith) (omega arith) e)
      (
        fresh-IsValid no_passwd same cacheap_initsz (omega arith),
        λ name. fetch-fresh no_passwd same cacheap_initsz (hash_str name) (omega arith),
        (omega arith, omega arith),
      )

-- A server that is connected to the database and has a valid empty DNS table and valid empty caches
-- within a budget of 1024 elements.
pub record IsReady (s : Server) : Type 0 where
  pub database : IsConnected s.handles
  pub table : IsValid s.dns_table
  pub no_names : (key : List ℕ) (now : ℕ) → find s.dns_table key now ≡ none
  pub ip : IsValidIp s.cacheip
  pub no_creds : (k : ℕ) → cache_getip s.cacheip k ≡ some none
  pub app : IsValidAp s.cacheapp
  pub short_creds : ShortCache s.cacheip
  pub few_creds : InBudget cacheip_initsz s.cacheip
  pub few_passwds : InBudget cacheip_initsz s.cacheapp
  pub no_passwds : (name : List ℕ) → cache_getapp s.cacheapp name ≡ some none

pub server_init-IsReady :
    (m : Machine) (sql_config : Option (List ℕ)) → AllDone IsReady (server_init m sql_config)
unfolding server_init
server_init-IsReady m sql_config =
    AllDone->>= (λ u. Unit) IsReady (quit_if (not m.thpool_init)) _ (always _)
      λ u _.
        AllDone->>= IsConnected IsReady (init_database m sql_config) _
          (init_database-IsConnected m sql_config)
          λ handles connected.
            AllDone->>= (λ t. hashtbl_init m.table_given m.entries_given dnstbl_size ≡ some t)
              IsReady (need (hashtbl_init m.table_given m.entries_given dnstbl_size)) _
              (need-AllDone _)
              λ t e1.
                AllDone->>= (λ c. cache_initip m.map_malloc cacheip_initsz ≡ some c) IsReady
                  (need (cache_initip m.map_malloc cacheip_initsz)) _ (need-AllDone _)
                  λ ip e2.
                    AllDone->>= (λ c. cache_initapp m.map_malloc cacheap_initsz ≡ some c) IsReady
                      (need (cache_initapp m.map_malloc cacheap_initsz)) _ (need-AllDone _)
                      λ app e3. ready handles connected t e1 ip e2 app e3
  where
    ready :
        (handles : Handles)
        → IsConnected handles
        → (t : HashTable) → hashtbl_init m.table_given m.entries_given dnstbl_size ≡ some t
        → (ip : CacheIp) → cache_initip m.map_malloc cacheip_initsz ≡ some ip
        → (app : CacheAp) → cache_initapp m.map_malloc cacheap_initsz ≡ some app
        → IsReady (record { handles = handles; dns_table = t; cacheip = ip; cacheapp = app })
    ready handles connected t e1 ip e2 app e3 =
        let (valid, empty) =
          hashtbl_init-IsValid m.table_given m.entries_given dnstbl_size t (omega arith) e1 in
        let (valid_ip, empty_ip, few_ip) = initip-empty m.map_malloc ip e2 in
        let (valid_app, empty_app, few_app) = initapp-empty m.map_malloc app e3 in
        record {
          database = connected;
          table = valid;
          no_names = empty;
          ip = valid_ip;
          no_creds = empty_ip;
          short_creds = λ k. subst ShortHit (sym (empty_ip k)) tt;
          few_creds = few_ip;
          few_passwds = few_app;
          app = valid_app;
          no_passwds = empty_app;
        }
