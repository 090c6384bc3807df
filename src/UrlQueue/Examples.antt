-- ===== src/UrlQueue/Examples.antt =====
-- The queue of addresses on a heap whose allocator goes up.
use silksocks.Base.{
  ℕ, suc, ◌+◌, ◌≤◌, ◌≡◌, refl, Option, none, some, List, [], ◌∷◌, arith, pos, true,
}
use silksocks.Text.{c_string}
use silksocks.UrlQueue.{Heap, lookup, urlq_init}
use silksocks.UrlQueue.Laws.{
  Op, put, get, ask_empty, ask_size, done, url, emptiness, number, fifo, run, url_queue_refines,
}

-- an address above all that are on the heap
abbrev pub top : Heap → ℕ
top [] = 0
top ((p, cell) ∷ h) = suc (p + top h)

above : (h : Heap) (a : ℕ) → top h ≤ a → lookup h a ≡ none
unfolding lookup
above [] a le = refl
above ((p, cell) ∷ h) a le = ground (arith, above h a (omega (arith, le)))

abbrev pub give : Heap → Option ℕ
give h = some (top h)

pub gives : (h : Heap) → (a : ℕ) × (give h ≡ some a) × (lookup h a ≡ none)
gives h = (top h, refl, above h (top h) (omega arith))

abbrev ops : List Op
ops =
    ask_empty
    ∷ put (97 ∷ 98 ∷ 34 ∷ []) 2
    ∷ put (99 ∷ []) 1
    ∷ ask_size
    ∷ get
    ∷ get
    ∷ ask_empty
    ∷ put (100 ∷ []) 1
    ∷ get
    ∷ []

url_queue_refines_example : run give ops (urlq_init []) ≡ fifo ops []
url_queue_refines_example = url_queue_refines give gives ops []

answers :
    fifo ops []
    ≡ some (
        emptiness true
        ∷ done
        ∷ done
        ∷ number (pos 2)
        ∷ url (97 ∷ 98 ∷ [])
        ∷ url (99 ∷ [])
        ∷ emptiness true
        ∷ done
        ∷ url (100 ∷ [])
        ∷ [])
unfolding c_string
answers = refl
