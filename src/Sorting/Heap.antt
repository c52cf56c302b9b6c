-- ===== src/Sorting/Heap.antt =====
-- heapsort and siftDown of sorting.c, with the heap order of the first entries of an array.
pub mod Sort
use codingforfun.Prelude.{
  ℕ, zero, suc, ◌+◌, ◌-◌, ◌*◌, ◌/◌, ◌≤◌, ◌<◌, ◌≡◌, ◌≢◌, ◌⊎◌, refl, ◌∙◌, List, arith, ltb, leb,
  if◌then◌else◌, length, Bool, true, false,
}
use codingforfun.Run.{
  Run, done, no_fuel, ◌>>=◌, Returns, returns, Returns-mono, Returns-bind, Returns-if, for_down,
  for_down-Returns,
}
use codingforfun.Array
use codingforfun.Array.{load, load-done, at, exchange}
use codingforfun.Sorting.{
  IsSorted, Sorts, Rearranges, Rearranges-refl, Rearranges-trans, exchange-Rearranges, swap,
  swap-done,
}

-- The choice of `maxChild`, among the children inside the heap.
max_child : List ℕ → ℕ → ℕ → Run ℕ
max_child a root bottom =
    let child = root * 2 + 1 in
    let compared : Run ℕ = do
      other ← load a (child + 1)
      first ← load a child
      done (if ltb first other then child + 1 else child)
    in if ltb child bottom then compared else done child

-- siftDown. `past` is `bottom + 1`, since the first call of heapsort on an empty array has a
-- `bottom` of -1: the return on `maxChild > bottom` is `past <= maxChild`. It stands first, which
-- changes nothing, since the two tests exclude one another. The tail call is a loop; each
-- round at least doubles `root`.
sift_down : ℕ → ℕ → ℕ → List ℕ → Run (List ℕ)
sift_down zero root past a = no_fuel
sift_down (suc fuel) root past a =
    let round : Run (List ℕ) = do
      child ← max_child a root (past - 1)
      x ← load a root
      y ← load a child
      let lower = swap a root child >>= sift_down fuel child past
      if leb y x then done a else lower
    in if leb past (root * 2 + 1) then done a else round

unfoldable pub heapsort : List ℕ → ℕ → Run (List ℕ)
unfolding sift_down max_child for_down
heapsort a size =
    for_down (size / 2 + 1) (λ i b. sift_down (size + 1) i size b) a
    >>= for_down (size - 1) (λ k b. do c ← swap b 0 (k + 1); sift_down (size + 1) 0 (k + 1) c)

abbrev parent : ℕ → ℕ
parent c = (c - 1) / 2

-- Among the first `past` entries each one with a parent from `low` on is at most its parent.
abbrev IsHeapFrom : ℕ → ℕ → List ℕ → Type 0
IsHeapFrom low past a = (c : ℕ) → 0 < c → c < past → low ≤ parent c → at a c ≤ at a (parent c)

-- The same, but for the children of `root`, which are at most the parent of `root`.
record Loose (low past root : ℕ) (a : List ℕ) : Type 0 where
  size : past ≤ length a
  edges : (c : ℕ) → 0 < c → c < past → low ≤ parent c → parent c ≢ root → at a c ≤ at a (parent c)
  bridged :
      (c : ℕ)
      → 0 < c
      → c < past
      → parent c ≡ root
      → 0 < root
      → low ≤ parent root
      → at a c ≤ at a (parent root)

-- What siftDown leaves alone: the entries from `past` on, and every bound on the entries before.
record Sifted (past : ℕ) (a b : List ℕ) : Type 0 where
  kept : Rearranges a b
  beyond : (i : ℕ) → past ≤ i → at b i ≡ at a i
  bounded : (m : ℕ) → ((i : ℕ) → i < past → at a i ≤ m) → (i : ℕ) → i < past → at b i ≤ m

Sifted-refl : (past : ℕ) (a : List ℕ) → Sifted past a a
Sifted-refl past a = record { kept = Rearranges-refl a; beyond = λ i h. refl; bounded = λ m h. h }

Sifted-trans : {past : ℕ} {a b c : List ℕ} → Sifted past a b → Sifted past b c → Sifted past a c
Sifted-trans p q = record {
  kept = Rearranges-trans p.kept q.kept;
  beyond = λ i h. q.beyond i h ∙ p.beyond i h;
  bounded = λ m h. q.bounded m (p.bounded m h);
}

exchange-Sifted :
    (past i j : ℕ) (a : List ℕ)
    → past ≤ length a
    → i < past
    → j < past
    → Sifted past a (exchange a i j)
exchange-Sifted past i j a size hi hj =
    let moved = Array.at-exchange a i j (omega arith) (omega arith) in
    record {
      kept = exchange-Rearranges a i j (omega arith) (omega arith);
      beyond = λ k h. ground (arith, moved k);
      bounded = λ m h k p. ground (arith, moved k, h k, h i, h j);
    }

-- The place of the greater child.
record IsMaxChild (a : List ℕ) (root past m : ℕ) : Type 0 where
  inside : m < past
  child : (m ≡ root * 2 + 1) ⊎ (m ≡ root * 2 + 2)
  greatest : (c : ℕ) → 0 < c → c < past → parent c ≡ root → at a c ≤ at a m

max_child-IsMaxChild :
    (a : List ℕ) (root past : ℕ)
    → past ≤ length a
    → root * 2 + 1 < past
    → Returns (IsMaxChild a root past) (max_child a root (past - 1))
unfolding max_child
max_child-IsMaxChild a root past size room =
    Returns-if (ltb (root * 2 + 1) (past - 1))
      (λ two.
        rw
          (
            load-done 0 a (root * 2 + 1 + 1) (ground arith),
            load-done 0 a (root * 2 + 1) (omega arith),
          )
          (returns (record {
            inside = ground arith;
            child = ground arith;
            greatest = λ c p q r. ground (arith, children c p r);
          })))
      (λ one. returns (record {
        inside = omega arith;
        child = ground arith;
        greatest = λ c p q r. ground (arith, children c p r);
      }))
  where
    children : (c : ℕ) → 0 < c → parent c ≡ root → (c ≡ root * 2 + 1) ⊎ (c ≡ root * 2 + 1 + 1)
    children c p r = omega arith

exchange-Loose :
    (low past root m : ℕ) (a : List ℕ)
    → Loose low past root a
    → IsMaxChild a root past m
    → at a root < at a m
    → Loose low past m (exchange a root m)
exchange-Loose low past root m a v g less =
    let size = v.size in
    let inside = g.inside in
    let up : parent m ≡ root = ground (arith, g.child) in
    let pos : root < m = ground (arith, g.child) in
    let moved = Array.at-exchange a root m (omega arith) (omega arith) in
    record {
      size = omega (arith, Array.length-exchange a root m);
      edges = λ c p q r s.
          ground
            (arith, moved c, moved (parent c), v.edges c, v.bridged m, g.greatest c, v.edges root);
      bridged = λ c p q r s t. ground (arith, moved c, moved (parent m), v.edges c);
    }

-- siftDown restores the heap order below a root that may be too small.
sift_down-IsHeapFrom :
    (fuel low past root : ℕ) (a : List ℕ)
    → past - root < fuel
    → Loose low past root a
    → Returns (λ b. IsHeapFrom low past b × Sifted past a b) (sift_down fuel root past a)
unfolding sift_down
sift_down-IsHeapFrom zero low past root a enough v = absurd (omega arith)
sift_down-IsHeapFrom (suc fuel) low past root a enough v =
    let size = v.size in
    Returns-if (leb past (root * 2 + 1))
      (λ leaf. returns (λ c p q r. ground (arith, v.edges c), Sifted-refl past a))
      (λ inner.
        let room : root * 2 + 1 < past = ground arith in
        let hr : root < length a = omega arith in
        Returns-bind (max_child-IsMaxChild a root past size room) λ m g.
          let hm : m < length a = omega (arith, g.inside) in
          rw (load-done 0 a root hr, load-done 0 a m hm, swap-done a root m hr hm)
            (Returns-if (leb (at a m) (at a root))
              (λ ordered.
                returns (λ c p q r. ground (arith, v.edges c, g.greatest c), Sifted-refl past a))
              (λ less.
                let same = exchange-Sifted past root m a size (omega arith) g.inside in
                Returns-mono
                  (sift_down-IsHeapFrom fuel low past m (exchange a root m)
                    (ground (arith, g.child)) (exchange-Loose low past root m a v g (ground arith)))
                  (λ b (heap, s). (heap, Sifted-trans same s)))))
