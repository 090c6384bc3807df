-- ===== src/UrlQueue/Segment.antt =====
-- The nodes of a queue: a segment of the heap from one address to `NULL`.
use silksocks.Base.{
  ℕ, ◌≡◌, ◌≢◌, refl, ap, Bool, true, false, ◌||◌, Option, none, some, List, [], ◌∷◌, ◌++◌, ◌==◌,
  arith, ==_refl,
}
use silksocks.UrlQueue.{UrlNode, Heap, lookup}

abbrev pub node : List ℕ → Option ℕ → UrlNode
node url next = record { url = url; next = next }

-- the address and the string of each node, in order
abbrev pub Cells : Type 0
Cells = List (ℕ × List ℕ)

abbrev pub has : ℕ → Cells → Bool
has a [] = false
has a ((p, u) ∷ xs) = (a == p) || has a xs

-- from an address the `next` pointers lead through the distinct nodes of a list to `NULL`
pub data Seg (h : Heap) : Option ℕ → Cells → Type 0 where
  nil : Seg h none []
  cons :
      {p : ℕ} {q : Option ℕ} {u : List ℕ} {xs : Cells}
      → lookup h p ≡ some (node u q)
      → has p xs ≡ false
      → Seg h q xs
      → Seg h (some p) ((p, u) ∷ xs)

-- the address of the last node
abbrev pub last_of : ℕ → Cells → ℕ
last_of p [] = p
last_of p ((q, u) ∷ xs) = last_of q xs

pub has-last_of : (p q : ℕ) (u : List ℕ) (xs : Cells) → has (last_of q xs) ((q, u) ∷ xs) ≡ true
has-last_of p q u [] = ground arith
has-last_of p q u ((r, v) ∷ xs) = ground (arith, has-last_of p r v xs)

module _ {h : Heap} where
  -- a segment survives a write that spares its addresses
  pub frame :
      {o : Option ℕ} {xs : Cells} (a : ℕ) (cell : Option UrlNode)
      → Seg h o xs
      → has a xs ≡ false
      → Seg ((a, cell) ∷ h) o xs
  unfolding lookup
  frame a cell nil out = nil
  frame a cell (cons {p} {xs} e apart s) out =
      let other : (p == a) ≡ false = ground (arith, out) in
      let later : has a xs ≡ false = ground (arith, out) in
      cons (rw other e) apart (frame a cell s later)

  pub fresh_out :
      {o : Option ℕ} {xs : Cells} (a : ℕ) → Seg h o xs → lookup h a ≡ none → has a xs ≡ false
  fresh_out a nil unused = refl
  fresh_out a (cons e apart s) unused = ground (arith, fresh_out a s unused)

has-append :
    (a p : ℕ) (u : List ℕ) (xs : Cells) → has a (xs ++ ((p, u) ∷ [])) ≡ (has a xs || (a == p))
has-append a p u [] = ground arith
has-append a p u ((q, v) ∷ xs) = ground (arith, has-append a p u xs)

-- the address of a node is not one that holds none
pub apart_from_unused :
    (h : Heap) (p a : ℕ) (n : UrlNode)
    → lookup h p ≡ some n
    → lookup h a ≡ none
    → ((p == a) ≡ false) × ((a == p) ≡ false)
apart_from_unused h p a n held unused =
    let differ : p ≢ a = λ e. cc in (ground (arith, differ), ground (arith, differ))

-- the heap with a new node `a` behind the node `t`, which has the string `v`
abbrev pub linked : Heap → (t : ℕ) (v : List ℕ) (a : ℕ) (url : List ℕ) → Heap
linked h t v a url = (t, some (node v (some a))) ∷ (a, some (node url none)) ∷ h

module _ {h : Heap} (a : ℕ) (url : List ℕ) (unused : lookup h a ≡ none) where
  -- a new node behind the last one
  pub Seg-append :
      {p : ℕ} {q : Option ℕ} {u : List ℕ} {xs : Cells}
      → lookup h p ≡ some (node u q)
      → has p xs ≡ false
      → Seg h q xs
      → (v : List ℕ) × (lookup h (last_of p xs) ≡ some (node v none))
        × Seg (linked h (last_of p xs) v a url) (some p) (((p, u) ∷ xs) ++ ((a, url) ∷ []))
  unfolding lookup
  Seg-append {p} {u} e apart nil =
      let (pa, ap') = apart_from_unused h p a (node u none) e unused in
      (u, e, cons (rw ==_refl refl) (rw pa refl) (cons (rw (ap', ==_refl) refl) refl nil))
  Seg-append {p} {u} e apart (cons {p = r} {q} {u = w} {xs = ys} e' apart' s) =
      let (v, at_last, seg) = Seg-append e' apart' s in
      let (pa, ap') = apart_from_unused h p a (node u (some r)) e unused in
      let in_rest = has-last_of r r w ys in
      let t = last_of r ys in
      let differ : p ≢ t =
        λ same. absurd (ground (arith, ap (λ k. has k ((r, w) ∷ ys)) same, in_rest, apart)) in
      let pt : (p == t) ≡ false = ground (arith, differ) in
      (v, at_last, cons (rw (pt, pa) e) (rw (has-append p a url ((r, w) ∷ ys), apart, pa) refl) seg)
