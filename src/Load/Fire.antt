-- ===== src/Load/Fire.antt =====
-- `curl_multi_fire` of socksload/main.c, what a thread of the load generator does, with `init` and the
-- callback `cb`. What libcurl answers is a parameter.
pub mod Laws
pub mod Rounds
pub mod Login
mod Examples
use silksocks.Base.{
  ℕ, zero, suc, ◌+◌, ◌-◌, ◌%◌, ◌^◌, Bool, true, false, Option, none, some, List, [], ◌∷◌, ◌++◌,
  ◌==◌, ltb, lt_ℕ, if◌then◌else◌, length, get_or, and_then,
}
use silksocks.UrlQueue.{Heap, UrlQueue, urlq_init, urlq_empty, urlq_get, urlq_put, urlq_size}
use silksocks.Href.{Pcre, Held, Href, returned, fault, unfinished, my_pcre_href}

abbrev pub q_backlog : ℕ
q_backlog = 1024

-- `STARTPAGE`, "www.yandex.ru"
abbrev pub start_page : List ℕ
start_page = 119 ∷ 119 ∷ 119 ∷ 46 ∷ 121 ∷ 97 ∷ 110 ∷ 100 ∷ 101 ∷ 120 ∷ 46 ∷ 114 ∷ 117 ∷ []

-- "-1080"
abbrev pub port_suffix : List ℕ
port_suffix = 45 ∷ 49 ∷ 48 ∷ 56 ∷ 48 ∷ []

-- an easy handle as `init` sets it up: `CURLOPT_URL` and `CURLOPT_PROXYUSERNAME`
pub record Transfer : Type 0 where
  pub url : List ℕ
  pub prxuser : List ℕ

-- The thread's queue, the counter `i`, the easy handles in the multi handle, and how many easy handles
-- were made and not added to it.
pub record Fleet : Type 0 where
  pub queue : UrlQueue
  pub turn : ℕ
  pub transfers : List Transfer
  pub dropped : ℕ

-- the queue that the search leaves; the callers drop the status
abbrev pub queue_of : Href → Option UrlQueue
queue_of (returned status held q) = some q
queue_of fault = none
queue_of unfinished = none

-- the handles without the one at a place
abbrev pub remove_at : ℕ → List Transfer → List Transfer
remove_at k [] = []
remove_at zero (t ∷ ts) = ts
remove_at (suc k) (t ∷ ts) = t ∷ remove_at k ts

-- `msg->msg`: `CURLMSG_DONE` with the place of the handle, or another
pub data Message : Type 0 where
  done : ℕ → Message
  other : Message

-- what libcurl and `select` answer in one round: the data given to `cb` and the transfers that run, both
-- from `curl_multi_perform`; whether the calls before `select` succeed, and it too; and the messages
pub record Round : Type 0 where
  pub chunks : List (List ℕ)
  pub running : ℕ
  pub fdset : Bool
  pub timeout : Bool
  pub waits : Bool
  pub messages : List Message

-- At the end of the loop, at a `return` from within it, before the next round, or with a fault: a division
-- by zero, a write behind `prxuser`, or one of the queue.
pub data Fired : Type 0 where
  ended : Fleet → Fired
  failed : Fleet → Fired
  fires : Fleet → Fired
  crashes : Fired

-- where the next round is due
abbrev pub with_messages : Option (ℕ × Fleet) → (Fleet → Fired) → Fired
with_messages none next = crashes
with_messages (some (zero, f)) next = ended f
with_messages (some (suc u, f)) next = next f

-- with the fleet, where no call faulted
abbrev pub with_fleet : Option Fleet → (Fleet → Fired) → Fired
with_fleet none k = crashes
with_fleet (some f) k = k f

-- `strcpy`, `strcat` and `strcat` into `prxuser`; `none` is a write behind it
unfoldable pub proxy_login : (usr proxy : List ℕ) → Option (List ℕ)
proxy_login usr proxy =
    let prxuser = usr ++ (proxy ++ port_suffix) in
    if ltb (length prxuser) (length usr + 32) then some prxuser else none

unfoldable pub remove : Message → Fleet → Fleet
remove (done k) f = record f { transfers = remove_at k f.transfers }
remove other f = f

module _ (malloc : Heap → Option ℕ) (p : Pcre) where
  -- a call for `length d` bytes
  unfoldable pub cb : List ℕ → UrlQueue → Option UrlQueue
  unfolding my_pcre_href urlq_size
  cb d q = if lt_ℕ (urlq_size q) q_backlog then queue_of (my_pcre_href malloc p d q) else some q

  -- the calls from within `curl_multi_perform`
  unfoldable pub deliver : List (List ℕ) → UrlQueue → Option UrlQueue
  unfolding cb
  deliver [] q = some q
  deliver (d ∷ chunks) q = and_then (cb d q) (deliver chunks)

module _ (usr : List ℕ) (proxylist : List (List ℕ)) where
  -- the statements of `init` behind the call of `URLQget`
  unfoldable pub add_transfer : Fleet → List ℕ × UrlQueue → Option Fleet
  unfolding proxy_login
  add_transfer f got =
      if length proxylist == 0
      then none
      else and_then (proxy_login usr (get_or proxylist (f.turn % length proxylist) [])) λ prxuser.
        some (record f {
          queue = got.1;
          turn = (f.turn + 1) % 2 ^ 32;
          transfers = f.transfers ++ (record { url = got.0; prxuser = prxuser } ∷ []);
        })

  -- The easy handle of a call that finds the queue empty is dropped.
  unfoldable pub init : Fleet → Option Fleet
  unfolding urlq_empty urlq_get add_transfer
  init f =
      if urlq_empty f.queue
      then some (record f { dropped = f.dropped + 1 })
      else and_then (urlq_get f.queue) (add_transfer f)

  -- the body of `while (U < max_conn)`, so often
  unfoldable pub refill : ℕ → Fleet → Option Fleet
  unfolding init
  refill zero f = some f
  refill (suc n) f = and_then (init f) (refill n)

  -- The loop over the messages, with `U` at its end. A negative `max_conn` acts as 0.
  unfoldable pub on_messages : (max_conn : ℕ) → List Message → (u : ℕ) → Fleet → Option (ℕ × Fleet)
  unfolding remove refill
  on_messages max_conn [] u f = some (u, f)
  on_messages max_conn (m ∷ ms) u f =
      and_then (refill (max_conn - u) (remove m f))
        (on_messages max_conn ms (if ltb u max_conn then max_conn else u))

  -- a round when `curl_multi_perform` has returned
  unfoldable pub poll_round : (max_conn : ℕ) → Round → Fleet → (next : Fleet → Fired) → Fired
  unfolding on_messages
  poll_round max_conn r f next =
      let quiet = r.running == 0 in
      let served = with_messages (on_messages max_conn r.messages r.running f) next in
      if quiet
      then served
      else if r.fdset
      then (if r.timeout then (if r.waits then served else failed f) else failed f)
      else failed f

  module _ (malloc : Heap → Option ℕ) (p : Pcre) (max_conn : ℕ) where
    -- `while(U)`, for as many rounds as there are answers; they depend on the number of transfers
    unfoldable pub fire_rounds : List (ℕ → Round) → Fleet → Fired
    unfolding deliver poll_round
    fire_rounds [] f = fires f
    fire_rounds (r ∷ rs) f =
        let answer = r (length f.transfers) in
        with_fleet
          (and_then (deliver malloc p answer.chunks f.queue) λ q. some (record f { queue = q }))
          λ f'. poll_round max_conn answer f' (fire_rounds rs)

    -- `turn` is the value of `i`, which the threads share
    unfoldable pub curl_multi_fire : (turn : ℕ) → Heap → List (ℕ → Round) → Fired
    unfolding urlq_init urlq_put init fire_rounds
    curl_multi_fire turn h rs =
        with_fleet
          (and_then (urlq_put malloc (urlq_init h) start_page (length start_page))
            λ q. init (record { queue = q; turn = turn; transfers = []; dropped = 0 }))
          (fire_rounds rs)
