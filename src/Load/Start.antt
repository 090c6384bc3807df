-- ===== src/Load/Start.antt =====
-- `main` of socksload/main.c.
pub mod Laws
mod Examples
use silksocks.Base.{ℕ, ℤ, pos, negsuc, Option, none, some, List, [], ◌∷◌}
use silksocks.Load.{Loaded, loaded, overflow, undefined, unfinished, load_proxies}

-- an exit with a status; a fault in the list of proxies; or so many threads of `curl_multi_fire`, each
-- with `max_conn`, and what `proxylist` holds
pub data Started : Type 0 where
  exits : (status : ℕ) → Started
  faults : Started
  starts : (threads max_conn : ℕ) → (proxylist : List (List ℕ)) → Started

-- how often `for (i = 0; i < n; ++i)` goes round
abbrev pub rounds : ℤ → ℕ
rounds (pos n) = n
rounds (negsuc n) = 0

-- `if (argc == 4) max_threads = atoi(argv[3]);`, on what follows the two operands
unfoldable pub max_threads : (atoi : List ℕ → ℤ) → List (List ℕ) → ℕ
max_threads atoi [] = 1
max_threads atoi (a ∷ []) = rounds (atoi a)
max_threads atoi (a ∷ b ∷ args) = 1

abbrev pub with_list : Loaded → (List (List ℕ) → Started) → Started
with_list (loaded proxylist) k = k proxylist
with_list overflow k = faults
with_list undefined k = faults
with_list unfinished k = faults

-- the file is its bytes, `none` if it cannot be opened
abbrev pub with_file : Option (List ℕ) → (List ℕ → Started) → Started
with_file none k = exits 1
with_file (some file) k = k file

-- the arguments behind the program's name
unfoldable pub load_main :
    (atoi : List ℕ → ℤ) (fopen : List ℕ → Option (List ℕ)) → List (List ℕ) → Started
unfolding load_proxies max_threads
load_main atoi fopen [] = exits 1
load_main atoi fopen (conn ∷ []) = exits 1
load_main atoi fopen (conn ∷ path ∷ args) = with_file (fopen path) λ file.
    with_list (load_proxies file)
      λ proxylist. starts (max_threads atoi args) (rounds (atoi conn)) proxylist
