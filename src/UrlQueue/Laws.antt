-- ===== src/UrlQueue/Laws.antt =====
-- The queue of addresses is a queue: first in, first out, on any heap.
use silksocks.Base.{
  ℕ, suc, ◌-◌, ◌+◌, ◌≡◌, refl, sym, ap, ◌∙◌, ◌%◌, ◌^◌, ℤ, Bool, true, false, Option, none, some,
  List, [], ◌∷◌, ◌++◌, ==_refl, arith, length, length-append, and_then,
}
use mathlib.Core.Path.{subst}
use silksocks.UrlQueue.{
  Heap, lookup, UrlQueue, as_int, strndup, urlq_init, urlq_empty, urlq_size, urlq_get, new_node,
  put_behind, put_counted, urlq_put,
}
use silksocks.UrlQueue.Segment.{
  node, Cells, has, Seg, nil, cons, last_of, frame, linked, Seg-append, apart_from_unused,
}

-- The tail is the last node; that of an empty queue may be anything.
abbrev pub EndsAt : Option ℕ → Cells → Type 0
EndsAt t [] = Unit
EndsAt t ((p, u) ∷ xs) = t ≡ some (last_of p xs)

-- The queue holds the strings of the nodes, in order.
pub record IsQueue (q : UrlQueue) (cells : Cells) : Type 0 where
  pub seg : Seg q.heap q.head cells
  pub ends : EndsAt q.tail cells
  pub counted : q.size ≡ length cells % 2 ^ 32

abbrev pub strings : Cells → List (List ℕ)
strings [] = []
strings ((p, u) ∷ xs) = u ∷ strings xs

-- what a program does with the queue
pub data Op : Type 0 where
  put : (url : List ℕ) (url_len : ℕ) → Op
  get : Op
  ask_empty : Op
  ask_size : Op

-- what it is told
pub data Answer : Type 0 where
  done : Answer
  url : List ℕ → Answer
  emptiness : Bool → Answer
  number : ℤ → Answer

-- the answers so far, and then those of the rest; `none` is a fault
abbrev before : Answer → Option (List Answer) → Option (List Answer)
before a none = none
before a (some answers) = some (a ∷ answers)

-- the operations on a plain list of strings
abbrev pub fifo : List Op → List (List ℕ) → Option (List Answer)
fifo [] us = some []
fifo (put u n ∷ ops) us = before done (fifo ops (us ++ (strndup u n ∷ [])))
fifo (get ∷ ops) [] = none
fifo (get ∷ ops) (u ∷ us) = before (url u) (fifo ops us)
fifo (ask_empty ∷ ops) [] = before (emptiness true) (fifo ops [])
fifo (ask_empty ∷ ops) (u ∷ us) = before (emptiness false) (fifo ops (u ∷ us))
fifo (ask_size ∷ ops) us = before (number (as_int (length us % 2 ^ 32))) (fifo ops us)

-- the same on the heap
abbrev pub run : (malloc : Heap → Option ℕ) → List Op → UrlQueue → Option (List Answer)
run malloc [] q = some []
run malloc (put u n ∷ ops) q =
    and_then (urlq_put malloc q u n) λ q'. before done (run malloc ops q')
run malloc (get ∷ ops) q = and_then (urlq_get q) λ r. before (url r.0) (run malloc ops r.1)
run malloc (ask_empty ∷ ops) q = before (emptiness (urlq_empty q)) (run malloc ops q)
run malloc (ask_size ∷ ops) q = before (number (urlq_size q)) (run malloc ops q)

length-strings : (cells : Cells) → length (strings cells) ≡ length cells
length-strings [] = refl
length-strings ((p, u) ∷ xs) = ap suc (length-strings xs)

strings-append :
    (cells : Cells) (a : ℕ) (u : List ℕ)
    → strings (cells ++ ((a, u) ∷ [])) ≡ strings cells ++ (u ∷ [])
strings-append [] a u = refl
strings-append ((p, v) ∷ xs) a u = ap (λ r. v ∷ r) (strings-append xs a u)

get-null :
    (h : Heap) (t : Option ℕ) (z : ℕ)
    → urlq_get (record { heap = h; head = none; tail = t; size = z }) ≡ none
unfolding urlq_get
get-null h t z = refl

pub get-cons :
    (h : Heap) (t : Option ℕ) (z : ℕ) (p : ℕ) (o : Option ℕ) (u : List ℕ) (xs : Cells)
    → lookup h p ≡ some (node u o)
    → has p xs ≡ false
    → Seg h o xs
    → EndsAt t ((p, u) ∷ xs)
    → z ≡ length ((p, u) ∷ xs) % 2 ^ 32
    → (q : UrlQueue) × (urlq_get (record { heap = h; head = some p; tail = t; size = z })
        ≡ some (u, q))
      × IsQueue q xs
unfolding urlq_get
get-cons h t z p o u xs held apart s ends counted = (
  record { heap = (p, none) ∷ h; head = o; tail = t; size = (z + (2 ^ 32 - 1)) % 2 ^ 32 },
  rw held refl,
  record {
    seg = frame p none s apart;
    ends = ends_later xs ends;
    counted = omega (arith, counted);
  },
)
  where
    ends_later : (xs : Cells) → EndsAt t ((p, u) ∷ xs) → EndsAt t xs
    ends_later [] e = tt
    ends_later ((r, v) ∷ ys) e = e

last_of-append : (p a : ℕ) (u : List ℕ) (xs : Cells) → last_of p (xs ++ ((a, u) ∷ [])) ≡ a
last_of-append p a u [] = refl
last_of-append p a u ((r, v) ∷ xs) = last_of-append r a u xs

module _ (malloc : Heap → Option ℕ)
    (gives : (h : Heap) → (a : ℕ) × (malloc h ≡ some a) × (lookup h a ≡ none)) where
  put-empty :
      (h : Heap) (t : Option ℕ) (z : ℕ) (u : List ℕ)
      → z ≡ 1
      → (q : UrlQueue) × (a : ℕ) × (put_counted malloc u
            (record { heap = h; head = none; tail = t; size = z })
          ≡ some q)
        × IsQueue q ((a, u) ∷ [])
  unfolding put_counted new_node lookup
  put-empty h t z u counted =
      let (a, given, unused) = gives h in
      (
        record { heap = (a, some (node u none)) ∷ h; head = some a; tail = some a; size = z },
        a,
        rw given refl,
        record { seg = cons (rw ==_refl refl) refl nil; ends = refl; counted = counted },
      )

  put-cons :
      (h : Heap) (z : ℕ) (p : ℕ) (o : Option ℕ) (v : List ℕ) (xs : Cells) (u : List ℕ)
      → lookup h p ≡ some (node v o)
      → has p xs ≡ false
      → Seg h o xs
      → z ≡ (length ((p, v) ∷ xs) + 1) % 2 ^ 32
      → (q : UrlQueue) × (a : ℕ) × (put_counted malloc u
            (record { heap = h; head = some p; tail = some (last_of p xs); size = z })
          ≡ some q)
        × IsQueue q (((p, v) ∷ xs) ++ ((a, u) ∷ []))
  unfolding put_counted put_behind new_node lookup
  put-cons h z p o v xs u held apart s counted =
      let (a, given, unused) = gives h in
      let (w, at_last, seg) = Seg-append a u unused held apart s in
      let (ta, at) = apart_from_unused h (last_of p xs) a (node w none) at_last unused in
      (
        record { heap = linked h (last_of p xs) w a u; head = some p; tail = some a; size = z },
        a,
        rw (at_last, given, ta, at_last) refl,
        record {
          seg = seg;
          ends = ap some (sym (last_of-append p a u xs));
          counted =
              counted ∙ ap (λ k. k % 2 ^ 32) (sym (length-append ((p, v) ∷ xs) ((a, u) ∷ [])));
        },
      )

  pub put-IsQueue :
      (h : Heap) (o t : Option ℕ) (z : ℕ) (cells : Cells) (u : List ℕ) (n : ℕ)
      → Seg h o cells
      → EndsAt t cells
      → z ≡ length cells % 2 ^ 32
      → (q : UrlQueue) × (a : ℕ) × (urlq_put malloc
            (record { heap = h; head = o; tail = t; size = z })
            u
            n
          ≡ some q)
        × IsQueue q (cells ++ ((a, strndup u n) ∷ []))
  unfolding urlq_put
  put-IsQueue h _ t z [] u n nil ends counted =
      put-empty h t ((z + 1) % 2 ^ 32) (strndup u n) (omega (arith, counted))
  put-IsQueue h _ t z ((p, v) ∷ xs) u n (cons {q = o} held apart s) ends counted =
      let size : ((z + 1) % 2 ^ 32) ≡ (length ((p, v) ∷ xs) + 1) % 2 ^ 32 =
        omega (arith, counted) in
      subst
        (λ k.
          (q : UrlQueue) × (a : ℕ) × (put_counted malloc (strndup u n)
              (record { heap = h; head = some p; tail = k; size = (z + 1) % 2 ^ 32 })
            ≡ some q)
          × IsQueue q (((p, v) ∷ xs) ++ ((a, strndup u n) ∷ [])))
        (sym ends) (put-cons h ((z + 1) % 2 ^ 32) p o v xs (strndup u n) held apart s size)

  run-fifo :
      (ops : List Op) (h : Heap) (o t : Option ℕ) (z : ℕ) (cells : Cells)
      → Seg h o cells
      → EndsAt t cells
      → z ≡ length cells % 2 ^ 32
      → run malloc ops (record { heap = h; head = o; tail = t; size = z })
        ≡ fifo ops (strings cells)
  unfolding urlq_empty urlq_size
  run-fifo [] h o t z cells s ends counted = refl
  run-fifo (put u n ∷ ops) h o t z cells s ends counted =
      let (q, a, made, v) = put-IsQueue h o t z cells u n s ends counted in
      let later =
        run-fifo ops q.heap q.head q.tail q.size (cells ++ ((a, strndup u n) ∷ [])) v.seg v.ends
          v.counted in
      rw (made, later, strings-append cells a (strndup u n)) refl
  run-fifo (get ∷ ops) h _ t z [] nil ends counted = rw (get-null h t z) refl
  run-fifo (get ∷ ops) h _ t z ((p, u) ∷ xs) (cons {q = o} held apart s) ends counted =
      let (q, got, v) = get-cons h t z p o u xs held apart s ends counted in
      let later = run-fifo ops q.heap q.head q.tail q.size xs v.seg v.ends v.counted in
      rw (got, later) refl
  run-fifo (ask_empty ∷ ops) h _ t z [] nil ends counted =
      ap (before (emptiness true)) (run-fifo ops h none t z [] nil ends counted)
  run-fifo (ask_empty ∷ ops) h _ t z ((p, u) ∷ xs) (cons held apart s) ends counted =
      ap (before (emptiness false))
        (run-fifo ops h (some p) t z ((p, u) ∷ xs) (cons held apart s) ends counted)
  run-fifo (ask_size ∷ ops) h o t z cells s ends counted =
      let later = run-fifo ops h o t z cells s ends counted in
      let size = counted ∙ ap (λ k. k % 2 ^ 32) (sym (length-strings cells)) in
      ap (before (number (as_int z))) later
      ∙ ap (λ k. before (number (as_int k)) (fifo ops (strings cells))) size

  -- With memory always given, at addresses that are not in use, every sequence of calls on a queue of
  -- `URLQinit` has the answers of a first-in first-out list: each `URLQget` gives the string of the
  -- oldest `URLQput` that is left, cut to its length or at a zero, the size is their number, as far
  -- as that is below 2 ^ 31, and its 32 bits as an `int` from there on, and the only fault is a `URLQget` on an empty queue.
  pub url_queue_refines : (ops : List Op) (h : Heap) → run malloc ops (urlq_init h) ≡ fifo ops []
  unfolding urlq_init
  url_queue_refines ops h = run-fifo ops h none none 0 [] nil tt refl
