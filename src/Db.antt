-- ===== src/Db.antt =====
-- The two queries of db.c; its child has `sqlinit` and `sqlclose`. The ODBC driver is a parameter: which of its calls succeed on a
-- statement, and what `SQLFetch` gives for the query that is bound.
pub mod Init
mod Examples
use silksocks.Base.{ℕ, Bool, Option, none, some, List, ◌||◌, not, if◌then◌else◌}

pub data Fetch (Row : Type 0) : Type 0 where
  no_data : Fetch Row
  failed : Fetch Row
  row : Row → Fetch Row

pub record Statement (Row : Type 0) : Type 0 where
  pub alloc_handle : Bool
  pub bind_col : ℕ → Bool
  pub bind_parameter : ℕ → Bool
  pub exec_direct : Bool
  pub fetch : Fetch Row

-- the row that a fetch leaves in the bound columns
unfoldable pub fetched : {Row : Type 0} → Fetch Row → Option Row
fetched no_data = none
fetched failed = none
fetched (row r) = some r

-- The handles of `sqlinit`, and the driver for `SELECT pass FROM app WHERE user = ?` and for
-- `SELECT user, pass FROM proxy WHERE ip = ? and port = ? and status = ?`.
pub record Odbc : Type 0 where
  pub henv : Bool
  pub hdbc : Bool
  pub app : (user : List ℕ) → Statement (List ℕ)
  pub proxy : (ip port status : ℕ) → Statement (List ℕ × List ℕ)

unfoldable pub sqlget_apppasswd : Odbc → List ℕ → Option (List ℕ)
unfolding fetched
sqlget_apppasswd db appuser =
    let s = db.app appuser in
    if not db.henv || not db.hdbc
    then none
    else if not s.alloc_handle
    then none
    else if not (s.bind_col 1)
    then none
    else if not (s.bind_parameter 1)
    then none
    else if not s.exec_direct
    then none
    else fetched s.fetch

unfoldable pub sqlget_proxycreds : Odbc → (ip port status : ℕ) → Option (List ℕ × List ℕ)
unfolding fetched
sqlget_proxycreds db ip port status =
    let s = db.proxy ip port status in
    if not db.henv || not db.hdbc
    then none
    else if not s.alloc_handle
    then none
    else if not (s.bind_col 1)
    then none
    else if not (s.bind_col 2)
    then none
    else if not (s.bind_parameter 1)
    then none
    else if not (s.bind_parameter 2)
    then none
    else if not (s.bind_parameter 3)
    then none
    else if not s.exec_direct
    then none
    else fetched s.fetch
