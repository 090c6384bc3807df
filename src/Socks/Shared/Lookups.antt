-- ===== src/Socks/Shared/Lookups.antt =====
-- The functions that look up and fill the tables.
use mathlib.Core.Path.{subst}
use silksocks.Base.{
  ap, ◌∙◌, ℕ, suc, ◌+◌, ◌*◌, ◌^◌, ◌<◌, ◌≤◌, ◌⊎◌, arith, List, Option, none, some, sym, refl, ◌≡◌,
  inl, inr, Option-cases,
}
use silksocks.Cache.Table.{Cache}
use silksocks.Cache.Ip.{Creds, CacheIp, cache_getip}
use silksocks.Cache.Ends.{
  Fits, InBudget, cache_getip_ends, cache_getapp_ends, cache_putip_ends, cache_putapp_ends,
}
use silksocks.Db.{sqlget_apppasswd, sqlget_proxycreds}
use silksocks.Socks.World.{inet, Sockaddr, System, World, ok, ret}
use silksocks.Socks.Handshake.{app_passwd}
use silksocks.Socks.Upstream.{ntohl, proxy_creds}
use silksocks.Socks.Lookup.{with_apps, with_proxies}
use silksocks.Socks.Dns.{by_table, by_resolver, resolve_lem}
use silksocks.HashTbl.{HashTable}
use silksocks.HashTbl.Valid.{find}
use silksocks.Socks.Request.{resolve}
use silksocks.Socks.Shared.{
  Tables, tables, AllValid, ShortCreds, ShortHit, ShortCache, Ends, EndsWith, Runs, RunsWith,
}

grown : {V : Type 0} (n : ℕ) (c c' : Cache V) → InBudget n c → Fits c c' → InBudget (suc n) c'
grown n c c' room fits = (omega (arith, fits.0, room.0), by_size fits.1)
  where
    by_size : ((c'.size ≤ c.size) ⊎ (c'.size ≤ 4 * c.elements + 2)) → c'.size ≤ 4 * suc n + 2
    by_size (inl h) = omega (arith, room.1)
    by_size (inr h) = omega (arith, room.0)

more : {V : Type 0} (n : ℕ) (c : Cache V) → InBudget n c → InBudget (suc n) c
more n c room = (omega (arith, room.0), omega (arith, room.1))

abbrev pub ShortRow : Option (List ℕ × List ℕ) → Type 0
ShortRow none = Unit
ShortRow (some (user, passwd)) = ShortCreds (record { user = user; passwd = passwd })

-- the credentials that the database has for proxies are short
abbrev pub ShortRows : System → Type 0
ShortRows sys = (ip port : ℕ) → ShortRow (sqlget_proxycreds sys.db ip port 1)

still_short :
    (c c' : CacheIp) (creds : Creds)
    → ShortCreds creds
    → ShortCache c
    → ((j : ℕ) → (cache_getip c' j ≡ some (some creds)) ⊎ (cache_getip c' j ≡ cache_getip c j))
    → ShortCache c'
still_short c c' creds short all reads j = elim (reads j) [
  | inl e ↦ subst ShortHit (sym e) short
  | inr e ↦ subst ShortHit (sym e) (all j)
]

-- a run for a client with this descriptor, when so many elements at most are in each cache
module _ (clientfd n : ℕ) where
  abbrev pub Before : Tables → Type 0
  Before = AllValid clientfd n n

  -- with the password looked up
  abbrev pub Known : Tables → Type 0
  Known = AllValid clientfd n (suc n)

  abbrev pub After : Tables → Type 0
  After = AllValid clientfd (suc n) (suc n)

  pub Before-Known : (t : Tables) → Before t → Known t
  Before-Known t (dns, ips, apps, b, a, s, c) = (dns, ips, apps, b, more n t.2 a, s, c)

  pub Known-After : (t : Tables) → Known t → After t
  Known-After t (dns, ips, apps, b, a, s, c) = (dns, ips, apps, more n t.1 b, a, s, c)

  pub Before-After : (t : Tables) → Before t → After t
  Before-After t v = Known-After t (Before-Known t v)

  module _ (few : n < 2 ^ 28) where
    app_passwd_ends :
        (sys : System) (user : List ℕ) (w : World)
        → Before (tables w)
        → Ends After Known (app_passwd sys user w)
    unfolding app_passwd
    app_passwd_ends sys user w v =
        let (dns, ips, apps, b, a, s, c) = v in
        let (r, hit) = cache_getapp_ends w.cacheapp user apps in
        elim (Option-cases r) [
          | inr (passwd, held) ↦
              let e : app_passwd sys user w ≡ ok passwd w = rw (hit, held) refl in
              subst (Ends After Known) (sym e) (Before-Known (tables w) v)
          | inl missing ↦ elim (Option-cases (sqlget_apppasswd sys.db user)) [
            | inl unknown ↦
                let e : app_passwd sys user w ≡ ret 5 w = rw (hit, missing, unknown) refl in
                subst (Ends After Known) (sym e) (Before-After (tables w) v)
            | inr (passwd, row) ↦
                let (d, put, kept, fits) =
                  cache_putapp_ends sys.map_malloc w.cacheapp user passwd apps (omega (arith, a)) in
                let e : app_passwd sys user w ≡ ok passwd (with_apps d w) =
                  rw (hit, missing, row, put) refl in
                subst (Ends After Known) (sym e)
                  (dns, ips, kept, b, grown n w.cacheapp d a fits, s, c)
          ]
        ]

    pub app_passwd-Runs :
        (sys : System) (user : List ℕ) → Runs After Before Known (app_passwd sys user)
    app_passwd-Runs sys user = record { run = app_passwd_ends sys user }

    proxy_creds_ends :
        (sys : System)
        → ShortRows sys
        → (w : World) → Known (tables w)
        → EndsWith After (λ creds t. ShortCreds creds × After t) (proxy_creds sys w)
    unfolding proxy_creds
    proxy_creds_ends sys rows w v =
        let Q : Creds → Tables → Type 0 = λ creds t. ShortCreds creds × After t in
        let (dns, ips, apps, b, a, s, c) = v in
        let ip : ℕ = ntohl w.client.srv_addr in
        let (r, hit) = cache_getip_ends w.cacheip ip ips in
        elim (Option-cases r) [
          | inr (creds, held) ↦
              let e : proxy_creds sys w ≡ ok creds w = rw (hit, held) refl in
              let short : ShortCreds creds = subst ShortHit (hit ∙ ap some held) (s ip) in
              subst (EndsWith After Q) (sym e) (short, Known-After (tables w) v)
          | inl missing ↦ elim (Option-cases (sqlget_proxycreds sys.db ip w.client.srv_port 1)) [
            | inl unknown ↦
                let e : proxy_creds sys w ≡ ret 4 w = rw (hit, missing, unknown) refl in
                subst (EndsWith After Q) (sym e) (Known-After (tables w) v)
            | inr ((user, passwd), row) ↦
                let creds : Creds = record { user = user; passwd = passwd } in
                let (d, put, kept, fits, reads) =
                  cache_putip_ends sys.map_malloc w.cacheip ip creds ips (omega (arith, b)) in
                let e : proxy_creds sys w ≡ ok creds (with_proxies d w) =
                  rw (hit, missing, row, put) refl in
                let short : ShortCreds creds = subst ShortRow row (rows ip w.client.srv_port) in
                subst (EndsWith After Q) (sym e) (
                  short,
                  (
                    dns,
                    kept,
                    apps,
                    grown n w.cacheip d b fits,
                    a,
                    still_short w.cacheip d creds short s reads,
                    c,
                  ),
                )
          ]
        ]

    pub proxy_creds-RunsWith :
        (sys : System)
        → ShortRows sys
        → RunsWith After Known (λ creds t. ShortCreds creds × After t) (proxy_creds sys)
    proxy_creds-RunsWith sys rows = record { run = proxy_creds_ends sys rows }

-- with the DNS table that `resolve` leaves
module _ (D Q : Tables → Type 0) (valid : (t : Tables) → Q t → D t) where
  by_resolver_ends :
      (w : World) (t : HashTable) (o : Option Sockaddr)
      → Q (t, w.cacheip, w.cacheapp, w.client.clientfd)
      → Ends D Q (by_resolver w t o)
  by_resolver_ends w t none q = valid (t, w.cacheip, w.cacheapp, w.client.clientfd) q
  by_resolver_ends w t (some answer) q = q

  by_table_ends :
      (sys : System) (w : World) (name : List ℕ) (t : HashTable) (o : Option (List ℕ))
      → Q (t, w.cacheip, w.cacheapp, w.client.clientfd)
      → Ends D Q (by_table sys w name t o)
  by_table_ends sys w name t (some addr) q = q
  by_table_ends sys w name t none q = by_resolver_ends w t (sys.getaddrinfo name inet) q

module _ (clientfd n : ℕ) where
  resolve_ends :
      (sys : System) (name : List ℕ) (w : World)
      → Known clientfd n (tables w)
      → Ends (After clientfd n) (Known clientfd n) (resolve sys name w)
  resolve_ends sys name w (dns, ips, apps, b, a, s, c) =
      let (t, run, kept) = resolve_lem sys w name dns in
      subst (Ends (After clientfd n) (Known clientfd n)) (sym run) (
        by_table_ends (After clientfd n) (Known clientfd n) (Known-After clientfd n) sys w name t
          (find w.dns_table name sys.now_get) (kept, ips, apps, b, a, s, c))

  pub resolve-Runs :
      (sys : System) (name : List ℕ)
      → Runs (After clientfd n) (Known clientfd n) (Known clientfd n) (resolve sys name)
  resolve-Runs sys name = record { run = resolve_ends sys name }
