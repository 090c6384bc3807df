-- ===== src/UrlQueue/Calls.antt =====
-- The calls on a queue of addresses, one by one.
use silksocks.Base.{ℕ, ◌≡◌, refl, ◌%◌, ◌^◌, Bool, true, false, Option, some, List, [], ◌∷◌, length}
use silksocks.UrlQueue.{Heap, UrlQueue, urlq_empty, urlq_get}
use silksocks.UrlQueue.Segment.{Cells, Seg, nil, cons}
use silksocks.UrlQueue.Laws.{EndsAt, IsQueue, get-cons}

abbrev pub is_nil : Cells → Bool
is_nil [] = true
is_nil (c ∷ cells) = false

empty-Seg :
    (h : Heap) (o t : Option ℕ) (z : ℕ) (cells : Cells)
    → Seg h o cells
    → urlq_empty (record { heap = h; head = o; tail = t; size = z }) ≡ is_nil cells
unfolding urlq_empty
empty-Seg h _ t z [] nil = refl
empty-Seg h _ t z ((p, u) ∷ xs) (cons held apart s) = refl

get-Seg :
    (h : Heap) (o t : Option ℕ) (z : ℕ) (p : ℕ) (u : List ℕ) (xs : Cells)
    → Seg h o ((p, u) ∷ xs)
    → EndsAt t ((p, u) ∷ xs)
    → z ≡ length ((p, u) ∷ xs) % 2 ^ 32
    → (q : UrlQueue) × (urlq_get (record { heap = h; head = o; tail = t; size = z }) ≡ some (u, q))
      × IsQueue q xs
get-Seg h _ t z p u xs (cons {q = o} held apart s) ends counted =
    get-cons h t z p o u xs held apart s ends counted

pub urlq_empty-IsQueue :
    (q : UrlQueue) (cells : Cells) → IsQueue q cells → urlq_empty q ≡ is_nil cells
urlq_empty-IsQueue q cells v = empty-Seg q.heap q.head q.tail q.size cells v.seg

pub urlq_get-IsQueue :
    (q : UrlQueue) (p : ℕ) (u : List ℕ) (xs : Cells)
    → IsQueue q ((p, u) ∷ xs)
    → (q' : UrlQueue) × (urlq_get q ≡ some (u, q')) × IsQueue q' xs
urlq_get-IsQueue q p u xs v = get-Seg q.heap q.head q.tail q.size p u xs v.seg v.ends v.counted
