-- ===== src/Db/Examples.antt =====
-- `sqlinit` on concrete lines.
use silksocks.Base.{ℕ, ◌≡◌, refl, true, false, some, List, [], ◌∷◌, Option}
use silksocks.Text.{strtok, skip_separators, token, behind}
use silksocks.Base.{Bool}
use silksocks.Db.Init.{
  free_dbc, free_env, Handles, Driver, success, fails, comma, sqlalloc, sqlconnect, sqlclose,
  sqlinit, Leaves, sqlinit-Leaves,
}

abbrev none_held : Handles
none_held = record {
  henv = false;
  hdbc = false;
  envs = 0;
  envs_freed = 0;
  dbcs = 0;
  dbcs_freed = 0;
}

abbrev both_held : Handles
both_held = record { henv = true; hdbc = true; envs = 1; envs_freed = 0; dbcs = 1; dbcs_freed = 0 }

-- a driver that wants a name and a password
abbrev wants_both : List ℕ → Option (List ℕ) → Option (List ℕ) → Bool
wants_both source (some u) (some p) = true
wants_both source _ _ = false

abbrev driver : Driver
driver = record { alloc_env = true; set_env_attr = true; alloc_dbc = true; connect = wants_both }

-- "db,u,p" and "db,u"
full_line : sqlinit driver (100 ∷ 98 ∷ comma ∷ 117 ∷ comma ∷ 112 ∷ []) none_held ≡ success both_held
unfolding sqlinit sqlalloc sqlconnect strtok skip_separators token behind
full_line = refl

short_line :
    sqlinit driver (100 ∷ 98 ∷ comma ∷ 117 ∷ []) both_held
    ≡ fails (record none_held { envs = 2; envs_freed = 2; dbcs = 2; dbcs_freed = 2 })
unfolding sqlinit sqlalloc sqlconnect sqlclose strtok skip_separators token behind free_dbc free_env
short_line = refl

sqlinit-Leaves_example :
    Leaves (sqlinit driver (100 ∷ 98 ∷ comma ∷ 117 ∷ comma ∷ 112 ∷ []) both_held)
sqlinit-Leaves_example =
    sqlinit-Leaves driver (100 ∷ 98 ∷ comma ∷ 117 ∷ comma ∷ 112 ∷ []) both_held
      (record { env = refl; dbc = refl })
