-- ===== src/Load.antt =====
-- socksload/main.c, the load generator: how it reads its list of proxies. libcurl, which does the
-- rest, is not modelled.
pub mod Laws
pub mod Fire
pub mod Start
mod Examples
use silksocks.Base.{
  ℕ, zero, suc, Option, none, some, List, [], ◌∷◌, ◌++◌, leb, if◌then◌else◌, length,
}
use silksocks.Text.{c_string, take_line, chomp}

-- `proxylist` with `NR_proxy` entries; a write behind its 1024 entries; an entry that starts with a zero,
-- before which the code writes; and the end of the fuel
pub data Loaded : Type 0 where
  loaded : List (List ℕ) → Loaded
  overflow : Loaded
  undefined : Loaded
  unfinished : Loaded

abbrev pub max_proxies : ℕ
max_proxies = 1024

-- the line that `fgets` reads, without its newline, and the file behind it
unfoldable pub read_entry : (file : List ℕ) → Option (List ℕ) × List ℕ
unfolding take_line c_string chomp
read_entry file = let got = take_line 15 file in (chomp (c_string got.0), got.1)

abbrev with_entry : Option (List ℕ) → (List ℕ → Loaded) → Loaded
with_entry none k = undefined
with_entry (some line) k = k line

-- `while (fgets(proxylist[NR_proxy], 16, proxyfile) != NULL)`
unfoldable pub load_from : (fuel : ℕ) → (file : List ℕ) → List (List ℕ) → Loaded
load_from fuel [] proxies = loaded proxies
load_from zero (c ∷ file) proxies = unfinished
load_from (suc fuel) (c ∷ file) proxies =
    let got = read_entry (c ∷ file) in
    if leb max_proxies (length proxies)
    then overflow
    else with_entry got.0 λ line. load_from fuel got.1 (proxies ++ (line ∷ []))

-- the rounds are no more than the bytes
unfoldable pub load_proxies : (file : List ℕ) → Loaded
unfolding load_from
load_proxies file = load_from (length file) file []
