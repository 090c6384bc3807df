-- ===== src/Main/Laws.antt =====
-- What the options come to, and what the process has when it serves.
use silksocks.Base.{
  ℕ, zero, suc, ◌+◌, ◌≤◌, ◌≡◌, refl, ap, ◌∙◌, min, ℤ, pos, negsuc, lt_ℕ, suc_ℤ, Bool, true, false,
  Option, none, some, List, [], ◌∷◌, ◌||◌, ltb, if◌then◌else◌, arith,
}
use silksocks.Main.{
  Opt, daemonize, debugging, verbosely, help, Options, log_info, read_opts, no_options,
}

abbrev pub asks_help : List Opt → Bool
asks_help [] = false
asks_help (help ∷ opts) = true
asks_help (_ ∷ opts) = asks_help opts

abbrev pub asks_daemon : List Opt → Bool
asks_daemon [] = false
asks_daemon (daemonize ∷ opts) = true
asks_daemon (_ ∷ opts) = asks_daemon opts

-- how many times -d and -v are given
abbrev pub count_d : List Opt → ℕ
count_d [] = 0
count_d (debugging ∷ opts) = suc (count_d opts)
count_d (_ ∷ opts) = count_d opts

abbrev pub count_v : List Opt → ℕ
count_v [] = 0
count_v (verbosely ∷ opts) = suc (count_v opts)
count_v (_ ∷ opts) = count_v opts

-- n - 1
abbrev pub one_less : ℕ → ℤ
one_less zero = negsuc 0
one_less (suc n) = pos n

debug_step :
    (n : ℕ)
    → n ≤ 3
    → (if lt_ℕ (one_less n) 2 then suc_ℤ (one_less n) else one_less n) ≡ one_less (min 3 (suc n))
debug_step zero h = refl
debug_step (suc zero) h = refl
debug_step (suc (suc zero)) h = refl
debug_step (suc (suc (suc zero))) h = refl
debug_step (suc (suc (suc (suc n)))) h = absurd (omega arith)

verbose_step : (v : ℕ) → v ≤ 6 → (if ltb v log_info then v + 1 else v) ≡ min 6 (suc v)
verbose_step v h = ground arith

abbrev level : Bool → ℕ → ℕ → Options
level d n v = record { daemon = d; debug = one_less n; verbose = v }

abbrev answer : Bool → Bool → ℕ → ℕ → Option Options
answer usage d n v = if usage then none else some (level d n v)

same_answer :
    (usage : Bool) {d d' : Bool} {n n' v v' : ℕ}
    → d ≡ d'
    → n ≡ n'
    → v ≡ v'
    → answer usage d n v ≡ answer usage d' n' v'
same_answer usage p q r = λ i. answer usage (p i) (q i) (r i)

read_opts-level :
    (opts : List Opt) (d : Bool) (n v : ℕ)
    → n ≤ 3
    → v ≤ 6
    → read_opts opts (level d n v)
      ≡ answer
          (asks_help opts)
          (d || asks_daemon opts)
          (min 3 (n + count_d opts))
          (min 6 (v + count_v opts))
unfolding read_opts
read_opts-level [] d n v h k = same_answer false (ground arith) (omega arith) (omega arith)
read_opts-level (help ∷ opts) d n v h k = refl
read_opts-level (daemonize ∷ opts) d n v h k =
    read_opts-level opts true n v h k
    ∙ same_answer (asks_help opts) {d = true} {d' = d || true} (ground arith) refl refl
read_opts-level (debugging ∷ opts) d n v h k =
    ap (λ z. read_opts opts (record { daemon = d; debug = z; verbose = v })) (debug_step n h)
    ∙ read_opts-level opts d (min 3 (suc n)) v (omega arith) k
    ∙ same_answer (asks_help opts) refl (omega arith) refl
read_opts-level (verbosely ∷ opts) d n v h k =
    ap (λ z. read_opts opts (record { daemon = d; debug = one_less n; verbose = z }))
      (verbose_step v k)
    ∙ read_opts-level opts d n (min 6 (suc v)) h (omega arith)
    ∙ same_answer (asks_help opts) refl refl (omega arith)

-- The options are a matter of counting, in any order: one that asks for help ends the program; else
-- the daemon is asked for if one of them does, the debug level is one below the number of -d, up to 2,
-- and the verbosity is 2 and the number of -v, up to 6.
pub read_opts_lem :
    (opts : List Opt)
    → read_opts opts no_options ≡ (
        if asks_help opts
        then none
        else some (record {
          daemon = asks_daemon opts;
          debug = one_less (min 3 (count_d opts));
          verbose = min 6 (2 + count_v opts);
        }))
read_opts_lem opts =
    read_opts-level opts false 0 2 (omega arith) (omega arith)
    ∙ same_answer (asks_help opts) refl (omega arith) refl
