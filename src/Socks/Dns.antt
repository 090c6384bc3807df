-- ===== src/Socks/Dns.antt =====
-- The address of a domain name, from the DNS table or from the resolver.
use silksocks.Base.{
  ℕ, ◌+◌, ◌≡◌, refl, ap, ◌∙◌, inl, inr, Option, none, some, List, arith, Option-cases,
}
use silksocks.HashTbl.{HashTable, hashtbl_get, hashtbl_put}
use silksocks.HashTbl.Valid.{IsValid, find}
use silksocks.HashTbl.Get.{hashtbl_get_lem}
use silksocks.HashTbl.Put.{hashtbl_put-IsValid}
use silksocks.Socks.World.{Sockaddr, inet, World, System, Outcome, ok, ret}
use silksocks.Socks.Request.{dns_ttl, dns_lookup, host_serv, resolve}

-- the client's request, and the DNS table, of a world
abbrev pub resolved : World → Sockaddr → HashTable → World
resolved w request t = record w { client = record w.client { request = request }; dns_table = t }

-- what `resolve` does when the resolver answers this
abbrev pub by_resolver : World → HashTable → Option Sockaddr → Outcome (Unit {0})
by_resolver w t (some answer) = ok tt (resolved w answer t)
by_resolver w t none = ret 4 (resolved w (record w.client.request { family = inet }) t)

-- what `resolve` does when the table has this for the name, and leaves the table `t`
abbrev pub by_table : System → World → List ℕ → HashTable → Option (List ℕ) → Outcome (Unit {0})
by_table sys w name t (some addr) =
    ok tt (resolved w (record w.client.request { family = inet; addr = addr }) t)
by_table sys w name t none = by_resolver w t (sys.getaddrinfo name inet)

-- With a valid DNS table, `resolve` gives a name the address that the table holds for it; the one that
-- the resolver answers if the table holds none; and it ends with status 4 if the resolver has none
-- either. The table stays valid.
pub resolve_lem :
    (sys : System) (w : World) (name : List ℕ)
    → IsValid w.dns_table
    → (t : HashTable) × (resolve sys name w
        ≡ by_table sys w name t (find w.dns_table name sys.now_get))
      × IsValid t
unfolding resolve dns_lookup host_serv
resolve_lem sys w name valid =
    let (answer, kept, same) =
      hashtbl_get_lem w.dns_table valid name sys.now_get name sys.now_get (omega arith) in
    let swept : HashTable = (hashtbl_get w.dns_table name sys.now_get).1 in
    elim (Option-cases (find w.dns_table name sys.now_get)) [
      | inr (addr, held) ↦ (swept, rw (answer, held) refl, kept)
      | inl missing ↦ elim (Option-cases (sys.getaddrinfo name inet)) [
        | inl unknown ↦ (swept, rw (answer, missing, unknown) refl, kept)
        | inr (found, given) ↦
            let put =
              hashtbl_put-IsValid swept kept name found.addr (sys.now_expires + dns_ttl)
                sys.now_check sys.now_put in
            (
              (hashtbl_put swept name found.addr (sys.now_expires + dns_ttl) sys.now_check
                  sys.now_put).1,
              rw (answer, missing, given) refl,
              put.0,
            )
      ]
    ]

-- for a name that the table holds
pub resolve-held :
    (sys : System) (w : World) (name addr : List ℕ)
    → IsValid w.dns_table
    → find w.dns_table name sys.now_get ≡ some addr
    → (t : HashTable) × (resolve sys name w
        ≡ ok tt (resolved w (record w.client.request { family = inet; addr = addr }) t))
      × IsValid t
resolve-held sys w name addr valid held =
    let (t, run, kept) = resolve_lem sys w name valid in
    (t, run ∙ ap (by_table sys w name t) held, kept)

-- for a name that only the resolver knows
pub resolve-asked :
    (sys : System) (w : World) (name : List ℕ) (answer : Sockaddr)
    → IsValid w.dns_table
    → find w.dns_table name sys.now_get ≡ none
    → sys.getaddrinfo name inet ≡ some answer
    → (t : HashTable) × (resolve sys name w ≡ ok tt (resolved w answer t)) × IsValid t
resolve-asked sys w name answer valid missing given =
    let (t, run, kept) = resolve_lem sys w name valid in
    (t, run ∙ ap (by_table sys w name t) missing ∙ ap (by_resolver w t) given, kept)
