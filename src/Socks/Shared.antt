-- ===== src/Socks/Shared.antt =====
-- The tables that all connections share, and what the functions of socks.c do to them.
pub mod Keeps
pub mod Lookups
pub mod Whole
pub mod Examples
use silksocks.Base.{
  ℕ, ◌*◌, ◌^◌, ◌<◌, ◌<◌, ◌≡◌, ◌+◌, ◌≤◌, sym, Bool, true, false, Option, none, some, List, ◌==◌,
  if◌then◌else◌, not, length,
}
use mathlib.Core.Path.{subst}
use silksocks.Cache.Ends.{InBudget}
use silksocks.SilkIo.{Socket, readn_timeo, writen_timeo}
use silksocks.Cache.Ip.{Creds, cache_getip, CacheIp, sizeof_ip2creds}
use silksocks.Cache.Ip.Laws.{IsValidIp}
use silksocks.Cache.App.{CacheAp, sizeof_app2passwd}
use silksocks.Cache.App.Laws.{IsValidAp}
use silksocks.HashTbl.{HashTable}
use silksocks.HashTbl.Valid.{IsValid}
use silksocks.Socks.World.{
  Client, World, Outcome, ok, ret, stuck, crash, M, and_then, ◌>>=◌, pure, return, get, fail_if,
  status_of, modify_client, Side, client_side, proxy_side, recv, recv_byte, send, returned,
  socket_of, with_socket,
}
use silksocks.Socks.Handshake.{need}
use silksocks.Socks.Upstream.{propagate}

-- The tables of a world, and the descriptor of the client in its record.
abbrev pub Tables : Type 0
Tables = HashTable × CacheIp × CacheAp × ℕ

abbrev pub tables : World → Tables
tables w = (w.dns_table, w.cacheip, w.cacheapp, w.client.clientfd)

-- credentials that `socks5_connectproxy` can send
abbrev pub ShortCreds : Creds → Type 0
ShortCreds creds = (length creds.user < 128) × (length creds.passwd < 128)

abbrev pub ShortHit : Option (Option Creds) → Type 0
ShortHit none = Unit
ShortHit (some none) = Unit
ShortHit (some (some creds)) = ShortCreds creds

-- the cache holds no others
abbrev pub ShortCache : CacheIp → Type 0
ShortCache c = (ip : ℕ) → ShortHit (cache_getip c ip)

-- each table is valid and within its budget, the credentials are short, and the descriptor is this
abbrev pub AllValid : (clientfd ips apps : ℕ) → Tables → Type 0
AllValid clientfd ips apps t =
    IsValid t.0
    × IsValidIp t.1
    × IsValidAp t.2
    × InBudget ips t.1
    × InBudget apps t.2
    × ShortCache t.1
    × (t.3 ≡ clientfd)

-- A computation neither hangs nor crashes, its tables are as `Q` says of its result when it goes on, and
-- as `D` says when it returns early.
abbrev pub EndsWith :
    {A : Type 0} → (D : Tables → Type 0) (Q : A → Tables → Type 0) → Outcome A → Type 0
EndsWith D Q (ok a w) = Q a (tables w)
EndsWith D Q (ret n w) = D (tables w)
EndsWith D Q stuck = ⊥
EndsWith D Q crash = ⊥

abbrev pub Ends : {A : Type 0} → (D Q : Tables → Type 0) → Outcome A → Type 0
Ends D Q (ok a w) = Q (tables w)
Ends D Q (ret n w) = D (tables w)
Ends D Q stuck = ⊥
Ends D Q crash = ⊥

-- The same from every world with tables as `P` says.
pub record Runs {A : Type 0} (D P Q : Tables → Type 0) (m : M A) : Type 0 where
  pub run : (w : World) → P (tables w) → Ends D Q (m w)

-- It leaves the tables and the descriptor alone, and neither hangs nor crashes.
abbrev pub LeavesTables : {A : Type 0} → M A → Type 0
LeavesTables m = (w : World) → Ends (λ t. t ≡ tables w) (λ t. t ≡ tables w) (m w)

Ends-and_then :
    {A B : Type 0} (D Q R : Tables → Type 0) (o : Outcome A) (k : A → M B)
    → Ends D Q o
    → ((a : A) → Runs D Q R (k a))
    → Ends D R (and_then o k)
Ends-and_then D Q R (ok a w) k h f = (f a).run w h
Ends-and_then D Q R (ret n w) k h f = h
Ends-and_then D Q R stuck k h f = h
Ends-and_then D Q R crash k h f = h

pub bind :
    {A B : Type 0} {D P Q R : Tables → Type 0} {m : M A} {k : A → M B}
    → Runs D P Q m
    → ((a : A) → Runs D Q R (k a))
    → Runs D P R (m >>= k)
bind {D} {Q} {R} {m} {k} h f = record { run = λ w p. Ends-and_then D Q R (m w) k (h.run w p) f }

bound :
    {A B : Type 0} (D : Tables → Type 0) (Q : A → Tables → Type 0) (R : Tables → Type 0)
    (o : Outcome A) (k : A → M B)
    → EndsWith D Q o
    → ((a : A) (w : World) → Q a (tables w) → Ends D R (k a w))
    → Ends D R (and_then o k)
bound D Q R (ok a w) k h f = f a w h
bound D Q R (ret n w) k h f = h
bound D Q R stuck k h f = h
bound D Q R crash k h f = h

-- where what follows depends on the result
pub record RunsWith {A : Type 0} (D P : Tables → Type 0) (Q : A → Tables → Type 0) (m : M A)
    : Type 0 where
  pub run : (w : World) → P (tables w) → EndsWith D Q (m w)

pub bind_with :
    {A B : Type 0} {D P R : Tables → Type 0} {Q : A → Tables → Type 0} {m : M A} {k : A → M B}
    → RunsWith D P Q m
    → ((a : A) → Runs D (Q a) R (k a))
    → Runs D P R (m >>= k)
bind_with {D} {R} {Q} {m} {k} h f = record {
  run = λ w p. bound D Q R (m w) k (h.run w p) (λ a v q. (f a).run v q);
}

-- where what is asked of the tables comes with a fact
pub premise :
    {A : Type 0} {D P R : Tables → Type 0} {m : M A} (C : Type 0)
    → (C → Runs D P R m)
    → Runs D (λ t. C × P t) R m
premise C h = record { run = λ w p. (h p.0).run w p.1 }

pub if-Runs :
    {A : Type 0} {D P Q : Tables → Type 0} {m n : M A} (b : Bool)
    → Runs D P Q m
    → Runs D P Q n
    → Runs D P Q (if b then m else n)
if-Runs true h k = h
if-Runs false h k = k

-- what talks to the sockets alone, when the tables are as `P` says, which is to be valid at least
module _ {D P : Tables → Type 0} (valid : (t : Tables) → P t → D t) where
  ends_if :
      {A : Type 0} (b : Bool) (a : A) (code : ℕ) (w : World)
      → P (tables w)
      → Ends D P (if b then ok a w else ret code w)
  ends_if true a code w p = p
  ends_if false a code w p = valid (tables w) p

  pub pure-Runs : {A : Type 0} (a : A) → Runs D P P (pure a)
  pure-Runs a = record { run = λ w p. p }

  pub return-Runs : {A : Type 0} (code : ℕ) → Runs D P P (return {A = A} code)
  return-Runs code = record { run = λ w p. valid (tables w) p }

  pub get-Runs : Runs D P P get
  get-Runs = record { run = λ w p. p }

  pub modify_client-Runs :
      (f : Client → Client)
      → ((c : Client) → (f c).clientfd ≡ c.clientfd)
      → Runs D P P (modify_client f)
  modify_client-Runs f kept = record {
    run = λ w p. subst (λ n. P (w.dns_table, w.cacheip, w.cacheapp, n)) (sym (kept w.client)) p;
  }

  pub fail_if-Runs : (b : Bool) (code : ℕ) → Runs D P P (fail_if b code)
  fail_if-Runs true code = record { run = λ w p. valid (tables w) p }
  fail_if-Runs false code = record { run = λ w p. p }

  pub need-Runs : {A : Type 0} (o : Option A) (code : ℕ) → Runs D P P (need o code)
  need-Runs none code = record { run = λ w p. valid (tables w) p }
  need-Runs (some a) code = record { run = λ w p. p }

  with_socket-tables :
      (side : Side) (s : Socket) (w : World) → P (tables w) → P (tables (with_socket side s w))
  with_socket-tables client_side s w p = p
  with_socket-tables proxy_side s w p = p

  pub recv-Runs : (side : Side) (n code : ℕ) → Runs D P P (recv side n code)
  unfolding recv
  recv-Runs side n code = record {
    run = λ w p.
        let r = readn_timeo (socket_of side w) n in
        ends_if (returned r.0 n) r.1 code (with_socket side r.2 w)
          (with_socket-tables side r.2 w p);
  }

  pub recv_byte-Runs : (side : Side) (code : ℕ) → Runs D P P (recv_byte side code)
  unfolding recv_byte
  recv_byte-Runs side code = bind (recv-Runs side 1 code) λ bytes. record { run = λ w p. p }

  pub send-Runs : (side : Side) (buf : List ℕ) (code : ℕ) → Runs D P P (send side buf code)
  unfolding send
  send-Runs side buf code = record {
    run = λ w p.
        let r = writen_timeo (socket_of side w) buf in
        ends_if (returned r.0 (length buf)) tt code (with_socket side r.1 w)
          (with_socket-tables side r.1 w p);
  }

  -- an early return is caught
  pub status_of-Runs :
      {R : Tables → Type 0} {m : M (Unit {0})} → Runs D R P m → Runs D R D (status_of m)
  status_of-Runs {R} {m} h = record { run = λ w p. caught w (m w) (h.run w p) }
    where
      caught : (w : World) (o : Outcome (Unit {0})) → Ends D P o → Ends D D (status_of (λ v. o) w)
      caught w (ok u w') e = valid (tables w') e
      caught w (ret k w') e = e
      caught w stuck e = e
      caught w crash e = e

pub same : (D : Tables → Type 0) (t : Tables) → D t → D t
same D t v = v

pub propagate-Runs :
    {D : Tables → Type 0} {f : M (Unit {0})} → Runs D D D f → Runs D D D (propagate f)
propagate-Runs {D} h =
    bind (status_of-Runs (same D) h) λ status. fail_if-Runs (same D) (not (status == 0)) status

leaves :
    {A : Type 0} (P : Tables → Type 0) (w : World) (o : Outcome A)
    → P (tables w)
    → Ends (λ t. t ≡ tables w) (λ t. t ≡ tables w) o
    → Ends P P o
leaves P w (ok a w') p e = subst P (sym e) p
leaves P w (ret n w') p e = subst P (sym e) p
leaves P w stuck p e = e
leaves P w crash p e = e

pub LeavesTables-Runs : {A : Type 0} {P : Tables → Type 0} (m : M A) → LeavesTables m → Runs P P P m
LeavesTables-Runs {P} m h = record { run = λ w p. leaves P w (m w) p (h w) }
