-- ===== src/UrlQueue.antt =====
-- The queue of socksload/urlqueue.c: linked nodes on a heap. `malloc` is a parameter: the address that
-- it gives for a node on a heap, or `NULL`. `none` is a fault: an access through `NULL` or through an
-- address that holds no node. The functions of urlqueue.c do not test what `malloc` gives, and
-- `strndup` is given its memory. The count wraps where an `int` ends.
pub mod Segment
pub mod Laws
pub mod Calls
pub mod Examples
use silksocks.Base.{
  ℕ, ◌+◌, ◌-◌, ◌%◌, ◌^◌, ℤ, pos, negsuc, ltb, Bool, true, false, Option, none, some, List, [], ◌∷◌,
  ◌++◌, ◌==◌, if◌then◌else◌, take, and_then,
}
use silksocks.Text.{c_string}

-- `struct URLnode`; `none` is `NULL`
pub record UrlNode : Type 0 where
  pub url : List ℕ
  pub next : Option ℕ

-- what has been written, the last first; `none` at an address gives it back
abbrev pub Heap : Type 0
Heap = List (ℕ × Option UrlNode)

unfoldable pub lookup : Heap → ℕ → Option UrlNode
lookup [] a = none
lookup ((p, cell) ∷ h) a = if a == p then cell else lookup h a

-- `struct URLqueue`, with the heap that its nodes are on
pub record UrlQueue : Type 0 where
  pub heap : Heap
  pub head : Option ℕ
  pub tail : Option ℕ
  pub size : ℕ  -- the 32 bits of an `int`

-- `*p`
abbrev pub load : Heap → Option ℕ → Option UrlNode
load h none = none
load h (some p) = lookup h p

-- `strndup(url, url_len)`
abbrev pub strndup : List ℕ → ℕ → List ℕ
strndup url url_len = c_string (take url_len url)

-- `URLQinit`, on a heap
unfoldable pub urlq_init : Heap → UrlQueue
urlq_init h = record { heap = h; head = none; tail = none; size = 0 }

abbrev pub is_null : Option ℕ → Bool
is_null none = true
is_null (some p) = false

unfoldable pub urlq_empty : UrlQueue → Bool
urlq_empty q = is_null q.head

-- the number that 32 bits are as an `int`
abbrev pub as_int : ℕ → ℤ
as_int bits = if ltb bits (2 ^ 31) then pos bits else negsuc (2 ^ 32 - 1 - bits)

unfoldable pub urlq_size : UrlQueue → ℤ
urlq_size q = as_int q.size

-- `free(t)`
abbrev pub free : Option ℕ → Heap → Heap
free none h = h
free (some t) h = (t, none) ∷ h

unfoldable pub urlq_get : UrlQueue → Option (List ℕ × UrlQueue)
urlq_get q = and_then (load q.heap q.head) λ t. some (
  t.url,
  record {
    heap = free q.head q.heap;
    head = t.next;
    tail = q.tail;
    size = (q.size + (2 ^ 32 - 1)) % 2 ^ 32;
  },
)

module _ (malloc : Heap → Option ℕ) where
  -- the address of the node and the heap with it
  unfoldable pub new_node : List ℕ → (next : Option ℕ) → Heap → Option (ℕ × Heap)
  new_node url next h =
      and_then (malloc h) λ x. some (x, (x, some (record { url = url; next = next })) ∷ h)

  -- `q->tail->next = NEW(…); q->tail = q->tail->next;`
  unfoldable pub put_behind : List ℕ → (tail : ℕ) → UrlQueue → Option UrlQueue
  unfolding new_node lookup
  put_behind url tail q = and_then (lookup q.heap tail) λ old.
      and_then (new_node url old.next q.heap) λ made. and_then (lookup made.1 tail) λ last.
        some (record q {
          heap = (tail, some (record last { next = some made.0 })) ∷ made.1;
          tail = some made.0;
        })

  -- the queue when its size is counted up
  unfoldable pub put_counted : List ℕ → UrlQueue → Option UrlQueue
  unfolding new_node put_behind
  put_counted url q = elim q.head [
    | none ↦
        and_then (new_node url none q.heap)
          λ made. some (record q { heap = made.1; head = some made.0; tail = some made.0 })
    | some p ↦ elim q.tail [ none ↦ none | some t ↦ put_behind url t q ]
  ]

  unfoldable pub urlq_put : UrlQueue → List ℕ → ℕ → Option UrlQueue
  unfolding put_counted
  urlq_put q url url_len =
      put_counted (strndup url url_len) (record q { size = (q.size + 1) % 2 ^ 32 })
