-- ===== src/Db/Init.antt =====
-- `sqlinit` and `sqlclose` of db.c: the two global handles, with an account of those that the driver
-- has handed out.
use silksocks.Base.{
  ℕ, suc, ◌+◌, ◌≡◌, refl, Bool, true, false, Option, none, some, List, [], ◌∷◌, ◌&&◌, ◌||◌, not,
  ◌==◌, if◌then◌else◌, arith, Bool-cases, inl, inr,
}
use silksocks.Text.{strtok, skip_separators}

-- `henv` and `hdbc` are not `NULL`; how many of each kind the driver has given, and how many calls have
-- freed one, be it one that was freed before
pub record Handles : Type 0 where
  pub henv : Bool
  pub hdbc : Bool
  pub envs : ℕ
  pub envs_freed : ℕ
  pub dbcs : ℕ
  pub dbcs_freed : ℕ

-- What the driver answers: whether the calls succeed, with or without info, and what `SQLConnect` makes
-- of the three fields, of which the last two may be `NULL`. A call of `SQLAllocHandle` that fails gives
-- no handle, and one that succeeds gives one.
pub record Driver : Type 0 where
  pub alloc_env : Bool
  pub set_env_attr : Bool
  pub alloc_dbc : Bool
  pub connect : (datasource : List ℕ) → (username password : Option (List ℕ)) → Bool

-- `-1` is `fails`; `crashes` is `strlen(NULL)`
pub data Inited : Type 0 where
  success : Handles → Inited
  fails : Handles → Inited
  crashes : Inited

unfoldable pub free_dbc : Handles → Handles
free_dbc h = record h { hdbc = false; dbcs_freed = suc h.dbcs_freed }

unfoldable pub free_env : Handles → Handles
free_env h = record h { henv = false; envs_freed = suc h.envs_freed }

unfoldable pub sqlclose : Handles → Handles
unfolding free_dbc free_env
sqlclose h = let h' = if h.hdbc then free_dbc h else h in if h'.henv then free_env h' else h'

abbrev pub comma : ℕ
comma = b','

-- `strtok(NULL, ",")` behind an earlier token
abbrev pub next_field : Option (List ℕ × List ℕ) → Option (List ℕ × List ℕ)
next_field none = none
next_field (some (field, behind)) = strtok comma behind

abbrev pub field : Option (List ℕ × List ℕ) → Option (List ℕ)
field none = none
field (some (f, behind)) = some f

-- from `strdup` on
unfoldable pub sqlconnect : Driver → List ℕ → Handles → Inited
unfolding strtok free_dbc free_env
sqlconnect d s h =
    let datasource = strtok comma s in
    let username = next_field datasource in
    let password = next_field username in
    elim (field datasource) [
      | none ↦ crashes
      | some name ↦
          if d.connect name (field username) (field password)
          then success h
          else fails (free_env (free_dbc h))
    ]

-- the two `if`s on the handles, with both `NULL`
unfoldable pub sqlalloc : Driver → List ℕ → Handles → Inited
unfolding sqlconnect free_env
sqlalloc d s h =
    let h1 = record h { henv = true; envs = suc h.envs } in
    let h2 = record h1 { hdbc = true; dbcs = suc h1.dbcs } in
    if not d.alloc_env
    then fails (record h { henv = false })
    else if not d.set_env_attr
    then fails h1
    else if not d.alloc_dbc
    then fails (free_env (record h1 { hdbc = false }))
    else sqlconnect d s h2

-- `s` is not `NULL`
unfoldable pub sqlinit : Driver → List ℕ → Handles → Inited
unfolding sqlclose sqlalloc
sqlinit d s h = sqlalloc d s (if h.hdbc || h.henv then sqlclose h else h)

-- a handle is held exactly if the driver has given one more than have been freed, and else as many
pub record IsAccounted (h : Handles) : Type 0 where
  pub env : h.envs ≡ h.envs_freed + (if h.henv then 1 else 0)
  pub dbc : h.dbcs ≡ h.dbcs_freed + (if h.hdbc then 1 else 0)

-- what holds of the handles that a call leaves: it is accounted for, and success is to hold both
abbrev pub Leaves : Inited → Type 0
Leaves (success h) = IsAccounted h × (h.henv ≡ true) × (h.hdbc ≡ true)
Leaves (fails h) = IsAccounted h × (h.hdbc ≡ false)
Leaves crashes = Unit

pub sqlclose-IsAccounted :
    (h : Handles)
    → IsAccounted h
    → IsAccounted (sqlclose h) × ((sqlclose h).henv ≡ false) × ((sqlclose h).hdbc ≡ false)
unfolding sqlclose free_env free_dbc
sqlclose-IsAccounted h v = ground arith

sqlconnect-Leaves :
    (d : Driver) (s : List ℕ) (h : Handles)
    → IsAccounted h
    → h.henv ≡ true
    → h.hdbc ≡ true
    → Leaves (sqlconnect d s h)
unfolding sqlconnect free_env free_dbc
sqlconnect-Leaves d s h v env dbc = by_field (field (strtok comma s))
  where
    by_field :
        (o : Option (List ℕ))
        → Leaves (elim o [
          | none ↦ crashes
          | some name ↦
              if d.connect name
                (field (next_field (strtok comma s)))
                (field (next_field (next_field (strtok comma s))))
              then success h
              else fails (free_env (free_dbc h))
        ])
    by_field none = tt
    by_field (some name) = ground arith

closed-Leaves :
    (d : Driver) (s : List ℕ) (h : Handles)
    → IsAccounted h
    → h.henv ≡ false
    → h.hdbc ≡ false
    → Leaves (sqlalloc d s h)
unfolding sqlalloc free_env
closed-Leaves d s h v env dbc =
    let h1 : Handles = record h { henv = true; envs = suc h.envs } in
    let h2 : Handles = record h1 { hdbc = true; dbcs = suc h1.dbcs } in
    let two : IsAccounted h2 = ground arith in
    elim (Bool-cases d.alloc_env) [
      | inr p ↦ rw p (ground arith)
      | inl p ↦ elim (Bool-cases d.set_env_attr) [
        | inr q ↦ rw (p, q) (ground arith)
        | inl q ↦ elim (Bool-cases d.alloc_dbc) [
          | inr r ↦ rw (p, q, r) (ground arith)
          | inl r ↦ rw (p, q, r) (sqlconnect-Leaves d s h2 two refl refl)
        ]
      ]
    ]

-- `sqlinit` keeps the account of the handles, also where one of the driver's calls fails and where a
-- connection was open before: of each kind, the driver has given as many handles as it was asked to free,
-- and one more if the program holds one. After a success both handles are held, after a failure no
-- connection is. (Nothing is said of a blank line, where the code runs into `strlen(NULL)`.)
pub sqlinit-Leaves :
    (d : Driver) (s : List ℕ) (h : Handles) → IsAccounted h → Leaves (sqlinit d s h)
unfolding sqlinit
sqlinit-Leaves d s h v = elim (Bool-cases (h.hdbc || h.henv)) [
  | inl held ↦
      let (v', env, dbc) = sqlclose-IsAccounted h v in
      rw held (closed-Leaves d s (sqlclose h) v' env dbc)
  | inr free ↦
      let env : h.henv ≡ false = ground arith in
      let dbc : h.hdbc ≡ false = ground arith in rw free (closed-Leaves d s h v env dbc)
]

-- nothing but commas
abbrev pub is_blank : List ℕ → Bool
is_blank [] = true
is_blank (c ∷ s) = (c == comma) && is_blank s

strtok-blank : (s : List ℕ) → is_blank s ≡ true → strtok comma s ≡ none
unfolding strtok skip_separators
strtok-blank [] h = refl
strtok-blank (c ∷ s) h =
    let first : (c == comma) ≡ true = ground (arith, h) in
    let more : is_blank s ≡ true = ground (arith, h) in rw (strtok, first) (strtok-blank s more)

-- With a line of commas only, or an empty one, `sqlinit` runs into `strlen` of `NULL` as soon as the
-- driver has given it the handles.
sqlinit_blank :
    (d : Driver) (s : List ℕ) (h : Handles)
    → is_blank s ≡ true
    → d.alloc_env ≡ true
    → d.set_env_attr ≡ true
    → d.alloc_dbc ≡ true
    → sqlinit d s h ≡ crashes
unfolding sqlinit sqlalloc sqlconnect
sqlinit_blank d s h blank env attr dbc = rw (env, attr, dbc, sqlconnect, strtok-blank s blank) refl
