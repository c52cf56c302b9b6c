-- ===== src/PriorityQueue/Pop.antt =====
-- pq_adjusttree's second loop and its reallocation, and pq_pop.
use codingforfun.Prelude.{
  ℕ, ◌+◌, ◌-◌, ◌/◌, ◌≤◌, ◌<◌, ◌≡◌, refl, ap, false, ◌&&◌, inl, inr, Bool-cases, List, ◌∷◌, ltb, leb,
  ◌==◌, arith, length, take, length-take, get_or-take, tally, tally-take, sum_to, sum_to-congr,
  sum_to-add_one, SameItems-perm, Perm,
}
use codingforfun.Run.{
  done, Returns, returns, Returns-mono, Returns-bind, Returns-if, for_up-Returns,
}
use codingforfun.Array.{load-done}
use codingforfun.PriorityQueue.{Element, Pq, parent, relocate, shrink, pq_adjusttree, pq_pop}
use codingforfun.PriorityQueue.Order.{
  blank, elem, prio, IsHeap, IsValid, elements, root_least, Element-discrete,
}
use codingforfun.PriorityQueue.Push.{sum, pq_push-PushedInPlace}
use codingforfun.PriorityQueue.Lift.{Vacant, lift-Lifted}

-- Before the entry at `k` is inserted anew: the first `k - 1` entries are a heap of what stood at
-- the first `k` places of `b`, without the free one, and nothing else has changed.
record Relocated (alloc p : ℕ) (b : List Element) (k : ℕ) (q : Pq) : Type 0 where
  room : q.alloc ≡ alloc
  size : length q.pq_array ≡ length b
  heap : IsHeap (k - 1) q.pq_array
  beyond : (i : ℕ) → k ≤ i → elem q.pq_array i ≡ elem b i
  items : (w : Element → ℕ) → sum w (k - 1) q.pq_array + w (elem b p) ≡ sum w k b

relocate-Relocated :
    (junk : ℕ → Element) (alloc p : ℕ) (b : List Element) (k : ℕ) (q : Pq)
    → 0 < k
    → k < alloc
    → alloc ≡ length b
    → Relocated alloc p b k q
    → Returns (Relocated alloc p b (k + 1)) (relocate junk k q)
unfolding relocate
relocate-Relocated junk alloc p b k q pos fits whole v =
    let a = q.pq_array in
    let e = elem a k in
    let size = v.size in
    let all = v.room in
    let back : k - 1 + 1 ≡ k = omega arith in
    let front : k + 1 - 1 ≡ k = omega arith in
    rw (load-done blank a k (omega arith)) (
      Returns-mono
        (pq_push-PushedInPlace junk (record q { n = k - 1 }) e.value e.priority (omega arith)
          (omega arith) v.heap)
        λ q' r.
          let r' = rw back at r.array in
          record {
            room = omega (arith, r.alloc);
            size = omega (arith, r'.size);
            heap = rw front r'.heap;
            beyond = λ i h. ground (arith, r'.beyond i, v.beyond i);
            items = λ w. rw front (
                omega (
                  arith,
                  r'.items w,
                  v.items w,
                  ap (λ m. sum w m a) back,
                  sum_to-add_one blank w (k - 1) a,
                  sum_to-add_one blank w k b,
                  ap w (v.beyond k (omega arith)),
                ));
          })

-- The reallocation keeps the elements and the invariant.
shrink-IsValid : (q : Pq) → IsValid q → IsValid (shrink q)
unfolding shrink
shrink-IsValid q v = elim (Bool-cases (ltb q.n (q.alloc / 2) && leb 4 q.n)) [
  | inl small ↦ rw small (
      let size = v.size in
      let half : q.n < q.alloc / 2 = ground arith in
      let same : (i : ℕ) → i < q.n → elem (take (q.alloc / 2) q.pq_array) i ≡ elem q.pq_array i =
        λ i h. get_or-take (q.alloc / 2) q.pq_array i blank (omega arith) in
      record {
        size = length-take (q.alloc / 2) q.pq_array (omega arith);
        room = ground arith;
        fits = omega arith;
        heap = λ c h l. ground (arith, same c, same (parent c), v.heap c);
      })
  | inr large ↦ rw large v
]

shrink-sum :
    (q : Pq) (w : Element → ℕ)
    → IsValid q
    → sum w (shrink q).n (shrink q).pq_array ≡ sum w q.n q.pq_array
unfolding shrink
shrink-sum q w v = elim (Bool-cases (ltb q.n (q.alloc / 2) && leb 4 q.n)) [
  | inl small ↦ rw small (
      let size = v.size in
      let half : q.n < q.alloc / 2 = ground arith in
      sum_to-congr blank w q.n (take (q.alloc / 2) q.pq_array) q.pq_array
        (λ i h. get_or-take (q.alloc / 2) q.pq_array i blank (omega arith)))
  | inr large ↦ rw large refl
]

shrink_n : (q : Pq) → (shrink q).n ≡ q.n
unfolding shrink
shrink_n q = ground arith

-- `q'` is `q` without the element at the root.
record Adjusted (q q' : Pq) : Type 0 where
  valid : IsValid q'
  n : q'.n + 1 ≡ q.n
  items : (w : Element → ℕ) → sum w q'.n q'.pq_array + w (elem q.pq_array 0) ≡ sum w q.n q.pq_array

pq_adjusttree-Adjusted :
    (junk : ℕ → Element) (q : Pq)
    → IsValid q
    → 1 < q.n
    → Returns (Adjusted q) (pq_adjusttree junk q)
unfolding pq_adjusttree
pq_adjusttree-Adjusted junk q v two =
    let size = v.size in
    let fits = v.fits in
    Returns-bind (lift-Lifted q.n q.n 0 q.pq_array (omega arith) (omega arith) start) λ (b, p) l.
      let inside = l.vacant.inside in
      let size' = l.size in
      let front : p + 1 - 1 ≡ p = omega arith in
      Returns-bind
        (for_up-Returns (Relocated q.alloc p b) (relocate junk) (q.n - (p + 1)) (p + 1) q.n
          (record q { pq_array = b }) (omega arith)
          (λ k t lo hi r.
            relocate-Relocated junk q.alloc p b k t (omega arith) (omega arith) (omega arith) r)
          (record {
            room = refl;
            size = refl;
            heap = λ c h m. l.vacant.edges c h (omega arith) (omega arith) (omega (arith, l.leaf));
            beyond = λ i h. refl;
            items = λ w. rw front (omega (arith, sum_to-add_one blank w p b));
          }))
        λ q' r.
          let last : Pq = record q' { n = q.n - 1 } in
          let valid : IsValid last = record {
            size = omega (arith, r.size, r.room);
            room = omega (arith, r.room, v.room);
            fits = omega (arith, r.room);
            heap = r.heap;
          } in
          returns (record {
            valid = shrink-IsValid last valid;
            n = omega (arith, shrink_n last);
            items = λ w. omega (arith, shrink-sum last w valid, r.items w, l.items w);
          })
  where
    start : Vacant q.n 0 q.pq_array
    start = record {
      inside = omega arith;
      size = omega (arith, v.size, v.fits);
      edges = λ c h m s t. v.heap c h m;
      bridged = λ c h m s t. absurd (omega arith);
    }

-- A value of least priority has been taken out of `q`, and `q'` is what is left.
abbrev pub Popped : Pq → ℕ × Pq → Type 0
Popped q (out, q') =
    (e : Element) × (out ≡ e.value)
    × IsValid q'
    × (q'.n + 1 ≡ q.n)
    × Perm (e ∷ elements q') (elements q)
    × ((i : ℕ) → i < q.n → e.priority ≤ prio q.pq_array i)

-- pq_pop on a queue that is not empty ends without an access outside the array, returns the value
-- of an element whose priority no element of the queue is below, and leaves a queue of the other
-- elements.
pub pq_pop-Popped :
    (junk : ℕ → Element) (q : Pq) → IsValid q → 0 < q.n → Returns (Popped q) (pq_pop junk q)
unfolding pq_pop elements tally take sum_to
pq_pop-Popped junk q v pos =
    let size = v.size in
    let fits = v.fits in
    let some_left : (q.n == 0) ≡ false = ground arith in
    let e = elem q.pq_array 0 in
    let least : (i : ℕ) → i < q.n → e.priority ≤ prio q.pq_array i =
      λ i h. root_least q.n i q.pq_array v.heap h in
    let part : (t : Pq)
        → IsValid t
        → (w : Element → ℕ) → tally w (take t.n t.pq_array) ≡ sum w t.n t.pq_array =
      λ t valid w. tally-take blank w t.n t.pq_array (omega (arith, valid.size, valid.fits)) in
    rw (some_left, load-done blank q.pq_array 0 (omega arith))
      (Returns-if (q.n == 1)
        (λ single.
          let one : q.n ≡ 1 = ground arith in
          returns (
            e,
            refl,
            record {
              size = size;
              room = v.room;
              fits = omega arith;
              heap = λ c h m. absurd (omega arith);
            },
            omega arith,
            SameItems-perm Element-discrete _ _
                (λ w. omega (arith, part q v w, ap (λ k. sum w k q.pq_array) one)),
            least,
          ))
        (λ several. Returns-bind (pq_adjusttree-Adjusted junk q v (ground arith)) λ q' r. returns (
          e,
          refl,
          r.valid,
          r.n,
          SameItems-perm Element-discrete _ _
              (λ w. omega (arith, part q v w, part q' r.valid w, r.items w)),
          least,
        )))

-- On an empty queue pq_pop prints a message, returns 0 and changes nothing.
pq_pop-empty : (junk : ℕ → Element) (q : Pq) → q.n ≡ 0 → pq_pop junk q ≡ done (2147483648, q)
unfolding pq_pop
pq_pop-empty junk q e = rw e
