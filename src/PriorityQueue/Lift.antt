-- ===== src/PriorityQueue/Lift.antt =====
-- The first loop of pq_adjusttree: the free entry that moves down to the last parent.
use codingforfun.Prelude.{
  ℕ, zero, suc, ◌+◌, ◌-◌, ◌*◌, ◌≤◌, ◌<◌, ◌≡◌, ◌≢◌, ◌⊎◌, ap, List, ltb, leb, ◌==◌, if◌then◌else◌,
  arith, length, set, length-set, get_or-set, sum_to-set,
}
use codingforfun.Run.{Returns, returns, Returns-mono, Returns-bind, Returns-if}
use codingforfun.Array.{load-done, store-done}
use codingforfun.PriorityQueue.{Element, parent, lower_child, lift}
use codingforfun.PriorityQueue.Order.{blank, elem, prio}
use codingforfun.PriorityQueue.Push.{sum}

-- The place of the child of `p` with the lower priority.
record IsLowerChild (a : List Element) (n p s : ℕ) : Type 0 where
  inside : s < n
  child : (s ≡ 2 * p + 1) ⊎ (s ≡ 2 * p + 2)
  least : (c : ℕ) → 0 < c → c < n → parent c ≡ p → prio a s ≤ prio a c

lower_child-IsLowerChild :
    (a : List Element) (n p : ℕ)
    → n ≤ length a
    → 2 * p + 1 < n
    → Returns (IsLowerChild a n p) (lower_child a n p)
unfolding lower_child
lower_child-IsLowerChild a n p size room =
    Returns-if (ltb (n - 1) (2 * p + 2))
      (λ one. returns (record {
        inside = omega arith;
        child = ground arith;
        least = λ c q r s. ground (arith, children c q s);
      }))
      (λ two.
        rw
          (
            load-done blank a (2 * p + 1) (omega arith),
            load-done blank a (2 * p + 2) (ground arith),
          )
          (returns (record {
            inside = ground arith;
            child = ground arith;
            least = λ c q r s. ground (arith, children c q s);
          })))
  where
    children : (c : ℕ) → 0 < c → parent c ≡ p → (c ≡ 2 * p + 1) ⊎ (c ≡ 2 * p + 2)
    children c q r = omega arith

-- Of the first `n` entries that at `p` is free and the others are in order.
pub record Vacant (n p : ℕ) (a : List Element) : Type 0 where
  pub inside : p < n
  pub size : n ≤ length a
  pub edges : (c : ℕ) → 0 < c → c < n → c ≢ p → parent c ≢ p → prio a (parent c) ≤ prio a c
  pub bridged : (c : ℕ) → 0 < c → c < n → parent c ≡ p → 0 < p → prio a (parent p) ≤ prio a c

-- What the loop leaves: `p` has no child, and the entry that was at `s` is gone.
pub record Lifted (n s : ℕ) (a b : List Element) (p : ℕ) : Type 0 where
  pub size : length b ≡ length a
  pub vacant : Vacant n p b
  pub leaf : n ≤ 2 * p + 1
  pub items : (w : Element → ℕ) → sum w n b + w (elem a s) ≡ sum w n a + w (elem b p)

move-Vacant :
    (n p s : ℕ) (a : List Element)
    → Vacant n p a
    → IsLowerChild a n p s
    → Vacant n s (set a p (elem a s))
move-Vacant n p s a v l =
    let inside = v.inside in
    let size = v.size in
    let under = l.inside in
    let up : parent s ≡ p = ground (arith, l.child) in
    let apart : p < s = ground (arith, l.child) in
    let now : (i : ℕ) → elem (set a p (elem a s)) i ≡ (if p == i then elem a s else elem a i) =
      λ i. get_or-set a p i (elem a s) blank (omega arith) in
    record {
      inside = under;
      size = omega (arith, length-set a p (elem a s));
      edges = λ c q r t u. ground (arith, now c, now (parent c), v.edges c, v.bridged s, l.least c);
      bridged = λ c q r t u. ground (arith, now c, now (parent s), v.edges c);
    }

pub lift-Lifted :
    (fuel n p : ℕ) (a : List Element)
    → n ≤ p + fuel
    → 2 * p + 1 < n
    → Vacant n p a
    → Returns (λ (b, q). Lifted n p a b q) (lift fuel a n p)
unfolding lift
lift-Lifted zero n p a enough room v = absurd (omega arith)
lift-Lifted (suc fuel) n p a enough room v =
    let inside = v.inside in
    let size = v.size in
    Returns-bind (lower_child-IsLowerChild a n p size room) λ s l.
      let under = l.inside in
      let apart : p < s = ground (arith, l.child) in
      let b = set a p (elem a s) in
      let next = move-Vacant n p s a v l in
      let now : elem b s ≡ elem a s = ground (arith, get_or-set a p s (elem a s) blank) in
      let moved : (w : Element → ℕ) → sum w n b + w (elem a p) ≡ sum w n a + w (elem b s) =
        λ w. omega (arith, sum_to-set blank w n a p (elem a s) inside size, ap w now) in
      rw (load-done blank a s (omega arith), store-done a p (elem a s) (omega arith))
        (Returns-if (leb (2 * s + 1) (n - 1))
          (λ more.
            Returns-mono (lift-Lifted fuel n s b (omega arith) (ground arith) next) λ (c, q) r.
              record {
                size = omega (arith, r.size, length-set a p (elem a s));
                vacant = r.vacant;
                leaf = r.leaf;
                items = λ w. omega (arith, r.items w, moved w);
              })
          (λ last. returns (record {
            size = length-set a p (elem a s);
            vacant = next;
            leaf = ground arith;
            items = moved;
          })))
