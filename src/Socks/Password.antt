-- ===== src/Socks/Password.antt =====
-- Who `socks5_doauth` lets through, and the login packet for the upstream proxy.
use silksocks.Base.{
  ℕ, ◌+◌, ◌-◌, ◌%◌, ◌^◌, ◌<◌, ◌≤◌, leb, get_or, take, append_assoc, length-append, false, ◌≡◌, ◌⊎◌,
  inl, inr, refl, sym, ap, ◌∙◌, Bool-cases, true, Option, none, some, List, [], ◌∷◌, ◌++◌, ◌&&◌,
  not, ltb, if◌then◌else◌, arith, length,
}
use mathlib.Core.Path.{subst}
use silksocks.Cache.App.{CacheAp, cache_getapp, cache_putapp}
use silksocks.Db.{sqlget_apppasswd}
use silksocks.SilkIo.Exact.{take-all}
use silksocks.Text.{c_string}
use silksocks.Socks.World.{World, System, Outcome, ok, ret, stuck, crash, M, and_then, fail_if}
use silksocks.Socks.Handshake.{same_string, app_passwd, socks5_doauth}
use silksocks.Socks.Upstream.{char_field, auth_packet}

same_string-eq : (s t : List ℕ) → same_string s t ≡ true → s ≡ t
unfolding same_string
same_string-eq [] [] h = refl
same_string-eq [] (d ∷ t) h = absurd (ground (arith, h))
same_string-eq (c ∷ s) [] h = absurd (ground (arith, h))
same_string-eq (c ∷ s) (d ∷ t) h = ground (arith, same_string-eq s t)

-- The cache of passwords has this one for the name; or it has none, and the database has it.
abbrev pub IsPassword : System → World → List ℕ → List ℕ → Type 0
IsPassword sys w user p =
    (cache_getapp w.cacheapp user ≡ some (some p))
    ⊎ ((cache_getapp w.cacheapp user ≡ some none) × (sqlget_apppasswd sys.db user ≡ some p))

-- what holds of the result, if there is one
abbrev AllOk : {A : Type 0} → (A → Type 0) → Outcome A → Type 0
AllOk P (ok a w) = P a
AllOk P (ret k w) = Unit
AllOk P stuck = Unit
AllOk P crash = Unit

AllOk-and_then :
    {A B : Type 0} (P : A → Type 0) (Q : B → Type 0) (o : Outcome A) (k : A → M B)
    → AllOk P o
    → ((a : A) (w : World) → P a → AllOk Q (k a w))
    → AllOk Q (and_then o k)
AllOk-and_then P Q (ok a w) k h f = f a w h
AllOk-and_then P Q (ret n w) k h f = tt
AllOk-and_then P Q stuck k h f = tt
AllOk-and_then P Q crash k h f = tt

module _ (sys : System) (w : World) (user : List ℕ) where
  app_passwd-IsPassword : AllOk (IsPassword sys w user) (app_passwd sys user w)
  unfolding app_passwd
  app_passwd-IsPassword = by_hit (cache_getapp w.cacheapp user) refl
    where
      by_put :
          (p : List ℕ) (o : Option CacheAp)
          → cache_putapp sys.map_malloc w.cacheapp user p ≡ o
          → cache_getapp w.cacheapp user ≡ some none
          → sqlget_apppasswd sys.db user ≡ some p
          → AllOk (IsPassword sys w user) (app_passwd sys user w)
      by_put p none put miss e = rw (miss, e, put) tt
      by_put p (some c) put miss e = rw (miss, e, put) (inr (miss, e))

      by_row :
          (o : Option (List ℕ))
          → cache_getapp w.cacheapp user ≡ some none
          → sqlget_apppasswd sys.db user ≡ o
          → AllOk (IsPassword sys w user) (app_passwd sys user w)
      by_row none miss e = rw (miss, e) tt
      by_row (some p) miss e = by_put p (cache_putapp sys.map_malloc w.cacheapp user p) refl miss e

      by_hit :
          (o : Option (Option (List ℕ)))
          → cache_getapp w.cacheapp user ≡ o
          → AllOk (IsPassword sys w user) (app_passwd sys user w)
      by_hit none e = rw e tt
      by_hit (some (some p)) e = rw e (inl e)
      by_hit (some none) e = by_row (sqlget_apppasswd sys.db user) e refl

compared :
    (P : List ℕ → Type 0) (given p : List ℕ) (w : World)
    → P p
    → AllOk (λ (u : Unit {0}). P given) (fail_if (not (same_string given p)) 5 w)
compared P given p w h = elim (Bool-cases (same_string given p)) [
  | inl same ↦ rw same (subst P (sym (same_string-eq given p same)) h)
  | inr other ↦ rw other tt
]

AllOk-ok :
    {A : Type 0} (P : A → Type 0) (o : Outcome A) (a : A) (w : World) → AllOk P o → o ≡ ok a w → P a
AllOk-ok P o a w h e = subst (AllOk P) e h

-- If `socks5_doauth` succeeds, then the password that the client sent is the one that the cache of
-- passwords answers for the name, or, where that cache answers none, the one in the database for the
-- name. (The cache answers by the hash of the name, so that its password can be that of another name
-- with the same hash.)
pub socks5_doauth-IsPassword :
    (sys : System) (w w' : World)
    → socks5_doauth sys w ≡ ok tt w'
    → IsPassword sys w (c_string w.client.user) (c_string w.client.passwd)
unfolding socks5_doauth
socks5_doauth-IsPassword sys w w' h =
    let user = c_string w.client.user in
    let given = c_string w.client.passwd in
    AllOk-ok (λ u. IsPassword sys w user given) (socks5_doauth sys w) tt w'
      (AllOk-and_then (IsPassword sys w user) (λ u. IsPassword sys w user given)
        (app_passwd sys user w) (λ p. fail_if (not (same_string given p)) 5)
        (app_passwd-IsPassword sys w user)
        (λ p w1 known. compared (IsPassword sys w user) given p w1 known))
      h

get_or-behind : (buf ys : List ℕ) (y : ℕ) → get_or (buf ++ (y ∷ ys)) (length buf) 0 ≡ y
get_or-behind [] ys y = refl
get_or-behind (x ∷ buf) ys y = get_or-behind buf ys y

-- a string behind what is written
char_field_lem :
    (buf : List ℕ) (n : ℕ) (s : List ℕ)
    → n ≡ length buf
    → n ≤ 256
    → length s < 256
    → char_field buf n s ≡ (if ltb (length s) 128 then some (buf ++ (length s ∷ s)) else none)
unfolding char_field
char_field_lem buf n s at early short =
    let e : length s % 256 ≡ length s = omega arith in
    let whole : take n buf ≡ buf = take-all n buf (omega arith) in
    let read : get_or (buf ++ (length s ∷ [])) n 0 ≡ length s =
      ap (λ k. get_or (buf ++ (length s ∷ [])) k 0) at ∙ get_or-behind buf [] (length s) in
    let kept : take (n + 1) (buf ++ (length s ∷ [])) ≡ buf ++ (length s ∷ []) =
      take-all (n + 1) (buf ++ (length s ∷ []))
        (omega (arith, length-append buf (length s ∷ []))) in
    elim (Bool-cases (ltb (length s) 128)) [
      | inl p ↦
          let fits : leb (n + 1 + length s) 512 ≡ true = ground arith in
          rw (whole, e, read, p, fits, kept, take-all (length s) s (omega arith))
            (ap some (append_assoc buf (length s ∷ []) s))
      | inr p ↦
          let beyond : leb (n + 1 + (2 ^ 64 - 256 + length s)) 512 ≡ false = ground arith in
          rw (whole, e, read, p, beyond) refl
    ]

-- For credentials of up to 255 bytes each, `auth_packet` makes in its buffer the login of RFC 1929
-- where both are of up to 127 bytes: the version, and the two strings, each behind its length. With a
-- longer name or a longer password it copies beyond the end of the buffer.
pub auth_packet_lem :
    (user passwd : List ℕ) (w : World)
    → length user < 256
    → length passwd < 256
    → auth_packet user passwd w ≡ (
        if ltb (length user) 128 && ltb (length passwd) 128
        then ok (1 ∷ length user ∷ (user ++ (length passwd ∷ passwd))) w
        else crash)
unfolding auth_packet
auth_packet_lem user passwd w short1 short2 =
    let f1 = char_field_lem (1 ∷ []) 1 user refl (omega arith) short1 in
    let named : List ℕ = 1 ∷ length user ∷ user in
    elim (Bool-cases (ltb (length user) 128)) [
      | inr p ↦ rw (auth_packet, f1, p) refl
      | inl p ↦
          let f2 =
            char_field_lem named (2 + length user) passwd (omega arith) (ground arith) short2 in
          let at : 2 + length user ≡ length named = omega arith in
          let read : get_or (named ++ (length passwd ∷ passwd)) (2 + length user) 0
              ≡ length passwd =
            ap (λ k. get_or (named ++ (length passwd ∷ passwd)) k 0) at
            ∙ get_or-behind named passwd (length passwd) in
          elim (Bool-cases (ltb (length passwd) 128)) [
            | inr q ↦ rw (auth_packet, f1, p, p, f2, q) refl
            | inl q ↦
                let all : take (2 + length user + 1 + length passwd)
                      (named ++ (length passwd ∷ passwd))
                    ≡ named ++ (length passwd ∷ passwd) =
                  take-all _ (named ++ (length passwd ∷ passwd))
                    (omega (arith, length-append named (length passwd ∷ passwd))) in
                rw (auth_packet, f1, p, p, f2, q, p, read, q, all) refl
          ]
    ]
