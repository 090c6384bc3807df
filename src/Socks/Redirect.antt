-- ===== src/Socks/Redirect.antt =====
-- `strip_redirectaddr` on a name, an address and a port with a dash between them.
use silksocks.Base.{
  ℕ, ◌%◌, ◌^◌, ◌≤◌, ◌≡◌, refl, ap, ◌∙◌, Bool, true, false, some, List, [], ◌∷◌, ◌++◌, ◌&&◌, not,
  ◌==◌, arith, length,
}
use silksocks.SilkIo.Exact.{take-all}
use silksocks.Text.{dash, c_string, token, behind, separators, skip_separators, strtok}
use silksocks.Socks.World.{World, System, ok}
use silksocks.Socks.Handshake.{strip_redirectaddr}

-- no dash and no zero
abbrev pub plain : List ℕ → Bool
plain [] = true
plain (c ∷ s) = not (c == 0) && (not (c == dash) && plain s)

-- not empty, and plain
abbrev pub is_field : List ℕ → Bool
is_field [] = false
is_field (c ∷ s) = plain (c ∷ s)

plain-cons :
    (c : ℕ) (s : List ℕ)
    → plain (c ∷ s) ≡ true
    → ((c == 0) ≡ false) × ((c == dash) ≡ false) × (plain s ≡ true)
plain-cons c s h = ground (arith, h)

c_string-plain : (s t : List ℕ) → plain s ≡ true → c_string (s ++ t) ≡ s ++ c_string t
unfolding c_string
c_string-plain [] t h = refl
c_string-plain (c ∷ s) t h =
    let (z, d, p) = plain-cons c s h in rw z (ap (λ r. c ∷ r) (c_string-plain s t p))

c_string-all : (s : List ℕ) → plain s ≡ true → c_string s ≡ s
unfolding c_string
c_string-all [] h = refl
c_string-all (c ∷ s) h =
    let (z, d, p) = plain-cons c s h in rw z (ap (λ r. c ∷ r) (c_string-all s p))

token-plain : (s t : List ℕ) → plain s ≡ true → token dash (s ++ (dash ∷ t)) ≡ s
unfolding token
token-plain [] t h = refl
token-plain (c ∷ s) t h =
    let (z, d, p) = plain-cons c s h in rw d (ap (λ r. c ∷ r) (token-plain s t p))

behind-plain : (s t : List ℕ) → plain s ≡ true → behind dash (s ++ (dash ∷ t)) ≡ t
unfolding behind
behind-plain [] t h = refl
behind-plain (c ∷ s) t h = let (z, d, p) = plain-cons c s h in rw d (behind-plain s t p)

token-last : (s : List ℕ) → plain s ≡ true → token dash s ≡ s
unfolding token
token-last [] h = refl
token-last (c ∷ s) h = let (z, d, p) = plain-cons c s h in rw d (ap (λ r. c ∷ r) (token-last s p))

behind-last : (s : List ℕ) → plain s ≡ true → behind dash s ≡ []
unfolding behind
behind-last [] h = refl
behind-last (c ∷ s) h = let (z, d, p) = plain-cons c s h in rw d (behind-last s p)

strtok-field : (s t : List ℕ) → is_field s ≡ true → strtok dash (s ++ (dash ∷ t)) ≡ some (s, t)
unfolding strtok skip_separators
strtok-field [] t h = absurd (ground (arith, h))
strtok-field (c ∷ s) t h =
    let (z, d, p) = plain-cons c s h in
    rw (strtok, d, token-plain (c ∷ s) t h, behind-plain (c ∷ s) t h) refl

strtok-last : (s : List ℕ) → is_field s ≡ true → strtok dash s ≡ some (s, [])
unfolding strtok skip_separators
strtok-last [] h = absurd (ground (arith, h))
strtok-last (c ∷ s) h =
    let (z, d, p) = plain-cons c s h in
    rw (strtok, d, token-last (c ∷ s) h, behind-last (c ∷ s) h) refl

separators-field : (s t : List ℕ) → is_field s ≡ true → separators dash (s ++ t) ≡ []
unfolding separators
separators-field [] t h = absurd (ground (arith, h))
separators-field (c ∷ s) t h = let (z, d, p) = plain-cons c s h in rw d refl

field-plain : (s : List ℕ) → is_field s ≡ true → plain s ≡ true
field-plain [] h = refl
field-plain (c ∷ s) h = h

-- what a client sends as the user's name
abbrev pub redirected : (name ip port : List ℕ) → List ℕ
redirected name ip port = name ++ (dash ∷ (ip ++ (dash ∷ port)))

c_string-redirected :
    (name ip port : List ℕ)
    → plain name ≡ true
    → plain ip ≡ true
    → plain port ≡ true
    → c_string (redirected name ip port) ≡ redirected name ip port
unfolding c_string
c_string-redirected name ip port pn pi pp =
    c_string-plain name (dash ∷ (ip ++ (dash ∷ port))) pn
    ∙ ap (λ t. name ++ (dash ∷ t))
        (c_string-plain ip (dash ∷ port) pi ∙ ap (λ t. ip ++ (dash ∷ t)) (c_string-all port pp))

-- A name, an address and a port, none of them empty or with a dash or zero inside, with a dash between
-- them, make `strip_redirectaddr` leave the name as the user's and store the address and the port,
-- if they have at most 15 and 5 bytes and `inet_pton` and `strtol` take them as a whole.
pub strip_redirectaddr_lem :
    (sys : System) (w : World) (name ip port : List ℕ) (sin_addr : List ℕ) (sin_port : ℕ)
    → is_field name ≡ true
    → is_field ip ≡ true
    → is_field port ≡ true
    → length ip ≤ 15
    → length port ≤ 5
    → w.client.user ≡ redirected name ip port
    → sys.inet_pton ip ≡ some sin_addr
    → sys.strtol port ≡ (sin_port, [])
    → strip_redirectaddr sys w
      ≡ ok tt (record w {
        client = record w.client { user = name; srv_addr = sin_addr; srv_port = sin_port % 2 ^ 16 };
      })
unfolding strip_redirectaddr
strip_redirectaddr_lem sys w name ip port sin_addr sin_port fn fi fp short1 short2 eq pton tol =
    let login : c_string w.client.user ≡ redirected name ip port =
      ap c_string eq
      ∙ c_string-redirected name ip port (field-plain name fn) (field-plain ip fi)
          (field-plain port fp) in
    rw
      (
        login,
        strtok-field name (ip ++ (dash ∷ port)) fn,
        separators-field name (dash ∷ (ip ++ (dash ∷ port))) fn,
        strtok-field ip port fi,
        strtok-last port fp,
        take-all 15 ip short1,
        take-all 5 port short2,
        pton,
        tol,
      )
      refl
