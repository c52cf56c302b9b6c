-- ===== src/Sorting/Quick/Partition.antt =====
-- The partition of quicksortroutine: the hole that its copies move through the array.
use mathlib.Core.Path.{subst}
use codingforfun.Prelude.{
  ℕ, zero, suc, ◌+◌, ◌-◌, ◌≤◌, ◌<◌, ◌≡◌, ◌≢◌, ◌⊎◌, List, not, ◌&&◌, ltb, leb, ◌==◌, if◌then◌else◌,
  arith, length, set, length-set, get_or-set, tally, tally-set,
}
use codingforfun.Run.{Returns, returns, Returns-mono, Returns-bind, Returns-if}
use codingforfun.Array.{load-done, store-done, at}
use codingforfun.Sorting.Quick.{scan_down, scan_up, fill_left, fill_right, partition}

-- Where the scan down stops.
record Down (pivot left right : ℕ) (a : List ℕ) (r : ℕ) : Type 0 where
  from : left ≤ r
  to : r ≤ right
  passed : (i : ℕ) → r < i → i ≤ right → pivot ≤ at a i
  stopped : left < r → at a r < pivot

scan_down-Down :
    (pivot left : ℕ) (a : List ℕ) (right : ℕ)
    → left ≤ right
    → right < length a
    → Returns (Down pivot left right a) (scan_down pivot left a right)
unfolding scan_down
scan_down-Down pivot left a zero le h = rw (load-done 0 a 0 h) (
    returns (record {
      from = omega arith;
      to = omega arith;
      passed = λ i p q. absurd (omega arith);
      stopped = λ p. absurd (omega arith);
    }))
scan_down-Down pivot left a (suc r) le h = rw (load-done 0 a (suc r) h) (
    Returns-if (leb pivot (at a (suc r)) && ltb left (suc r))
      (λ go. Returns-mono (scan_down-Down pivot left a r (ground arith) (omega arith)) λ k d.
        record {
          from = d.from;
          to = omega (arith, d.to);
          passed = λ i p q. ground (arith, d.passed i);
          stopped = d.stopped;
        })
      (λ stop. returns (record {
        from = le;
        to = omega arith;
        passed = λ i p q. absurd (omega arith);
        stopped = λ p. ground arith;
      })))

-- Where the scan up stops.
record Up (pivot left right : ℕ) (a : List ℕ) (l : ℕ) : Type 0 where
  from : left ≤ l
  to : l ≤ right
  passed : (i : ℕ) → left ≤ i → i < l → at a i ≤ pivot
  stopped : l < right → pivot < at a l

scan_up-Up :
    (fuel pivot right : ℕ) (a : List ℕ) (left : ℕ)
    → left ≤ right
    → right < length a
    → right - left < fuel
    → Returns (Up pivot left right a) (scan_up fuel pivot right a left)
unfolding scan_up
scan_up-Up zero pivot right a left le h enough = absurd (omega arith)
scan_up-Up (suc fuel) pivot right a left le h enough = rw (load-done 0 a left (omega arith)) (
    Returns-if (leb (at a left) pivot && ltb left right)
      (λ go.
        Returns-mono (scan_up-Up fuel pivot right a (left + 1) (ground arith) h (ground arith))
          λ k u. record {
            from = omega (arith, u.from);
            to = u.to;
            passed = λ i p q. ground (arith, u.passed i);
            stopped = u.stopped;
          })
      (λ stop. returns (record {
        from = omega arith;
        to = le;
        passed = λ i p q. absurd (omega arith);
        stopped = λ p. ground arith;
      })))

-- The segment from `first` to `last` of `a`, while it is partitioned: the entry at `hole` is free
-- and the pivot is out of the array.
module _ (a : List ℕ) (first last pivot : ℕ) where
  pub record Hole (hole left right : ℕ) (b : List ℕ) : Type 0 where
    pub size : length b ≡ length a
    pub items : (w : ℕ → ℕ) → tally w b + w pivot ≡ tally w a + w (at b hole)
    pub order : (first ≤ left) × (left ≤ right) × (right ≤ last) × (last < length a)
    pub low : (i : ℕ) → first ≤ i → i < left → at b i ≤ pivot
    pub high : (i : ℕ) → right < i → i ≤ last → pivot ≤ at b i
    pub outside : (i : ℕ) → (i < first) ⊎ (last < i) → at b i ≡ at a i
    pub above :
        (m : ℕ)
        → ((i : ℕ) → first ≤ i → i ≤ last → m ≤ at a i)
        → (i : ℕ) → first ≤ i
        → i ≤ last
        → i ≢ hole
        → m ≤ at b i
    pub below :
        (m : ℕ)
        → ((i : ℕ) → first ≤ i → i ≤ last → at a i ≤ m)
        → (i : ℕ) → first ≤ i
        → i ≤ last
        → i ≢ hole
        → at b i ≤ m

  -- The copy from `from` to the hole at `to` leaves the hole at `from`.
  copy-Hole :
      (to from left right left' right' : ℕ) (b : List ℕ)
      → Hole to left right b
      → left ≤ to
      → to ≤ right
      → left ≤ from
      → from ≤ right
      → to ≢ from
      → (left ≤ left') × (left' ≤ right') × (right' ≤ right)
      → ((i : ℕ) → left ≤ i → i < left' → at (set b to (at b from)) i ≤ pivot)
      → ((i : ℕ) → right' < i → i ≤ right → pivot ≤ at (set b to (at b from)) i)
      → Hole from left' right' (set b to (at b from))
  copy-Hole to from left right left' right' b v p q r s ne o lo hi =
      let size = v.size in
      let order = v.order in
      let moved : (i : ℕ) → at (set b to (at b from)) i ≡ (if to == i then at b from else at b i) =
        λ i. get_or-set b to i (at b from) 0 (omega arith) in
      record {
        size = omega (arith, length-set b to (at b from));
        items = λ w. ground (arith, v.items w, tally-set w b to (at b from) 0, moved from);
        order = omega arith;
        low = λ i x y. ground (arith, v.low i, lo i, moved i);
        high = λ i x y. ground (arith, v.high i, hi i, moved i);
        outside = λ i x. ground (arith, v.outside i, moved i);
        above = λ m h i x y z. ground (arith, v.above m h i, v.above m h from, moved i);
        below = λ m h i x y z. ground (arith, v.below m h i, v.below m h from, moved i);
      }

  -- The scans only move the bounds.
  narrow-Hole :
      (hole left right left' right' : ℕ) (b : List ℕ)
      → Hole hole left right b
      → (left ≤ left') × (left' ≤ right') × (right' ≤ right)
      → ((i : ℕ) → left ≤ i → i < left' → at b i ≤ pivot)
      → ((i : ℕ) → right' < i → i ≤ right → pivot ≤ at b i)
      → Hole hole left' right' b
  narrow-Hole hole left right left' right' b v o lo hi =
      let order = v.order in
      record {
        size = v.size;
        items = v.items;
        order = omega arith;
        low = λ i p q. ground (arith, v.low i, lo i);
        high = λ i p q. ground (arith, v.high i, hi i);
        outside = v.outside;
        above = v.above;
        below = v.below;
      }

  fill_left-Hole :
      (left right r : ℕ) (b : List ℕ)
      → Hole left left right b
      → Down pivot left right b r
      → left < right
      → Returns (λ (c, l). Hole r l r c × (r - l < right - left)) (fill_left left r b)
  unfolding fill_left
  fill_left-Hole left right r b v d run =
      let size = v.size in
      let order = v.order in
      let from = d.from in
      let to = d.to in
      Returns-if (not (left == r))
        (λ apart.
          rw (load-done 0 b r (omega arith), store-done b left (at b r) (omega arith))
            (returns (
              copy-Hole left r left right (left + 1) r b v (omega arith) (omega arith) from to
                  (ground arith) (ground arith)
                  (λ i p q. ground (arith, get_or-set b left i (at b r) 0, d.stopped))
                  (λ i p q. ground (arith, get_or-set b left i (at b r) 0, d.passed i)),
              ground arith,
            )))
        (λ met.
          let same : left ≡ r = ground arith in
          returns (
            subst (λ k. Hole k left r b) same
                (narrow-Hole left left right left r b v (omega arith)
                  (λ i p q. absurd (omega arith)) d.passed),
            omega arith,
          ))

  fill_right-Hole :
      (left right l : ℕ) (b : List ℕ)
      → Hole right left right b
      → Up pivot left right b l
      → Returns (λ (c, r). Hole l l r c × (r - l ≤ right - left)) (fill_right l right b)
  unfolding fill_right
  fill_right-Hole left right l b v u =
      let size = v.size in
      let order = v.order in
      let from = u.from in
      let to = u.to in
      Returns-if (not (l == right))
        (λ apart.
          rw (load-done 0 b l (omega arith), store-done b right (at b l) (omega arith))
            (returns (
              copy-Hole right l left right l (right - 1) b v (omega arith) (omega arith) from to
                  (ground arith) (ground arith)
                  (λ i p q. ground (arith, get_or-set b right i (at b l) 0, u.passed i))
                  (λ i p q. ground (arith, get_or-set b right i (at b l) 0, u.stopped)),
              ground arith,
            )))
        (λ met.
          let same : right ≡ l = ground arith in
          returns (
            subst (λ k. Hole k l right b) same
                (narrow-Hole right left right l right b v (omega arith) u.passed
                  (λ i p q. absurd (omega arith))),
            omega arith,
          ))

  -- The loop ends with `left` at the hole, between entries that are at most and at least the pivot.
  pub partition-Hole :
      (fuel left right : ℕ) (b : List ℕ)
      → right - left < fuel
      → Hole left left right b
      → Returns (λ (c, p). Hole p p p c) (partition fuel pivot left right b)
  unfolding partition
  partition-Hole zero left right b enough v = absurd (omega arith)
  partition-Hole (suc fuel) left right b enough v =
      let size = v.size in
      let order = v.order in
      Returns-if (ltb left right)
        (λ go. Returns-bind (scan_down-Down pivot left b right (omega arith) (omega arith)) λ r d.
          Returns-bind (fill_left-Hole left right r b v d (ground arith)) λ (c, l) (w, m).
            let order' = w.order in
            let size' = w.size in
            Returns-bind
              (scan_up-Up (r - l + 1) pivot r c l (omega arith) (omega arith) (omega arith))
              λ l' u.
                Returns-bind (fill_right-Hole l r l' c w u)
                  λ (e, r') (x, m'). partition-Hole fuel l' r' e (omega arith) x)
        (λ stop.
          let met : right ≡ left = ground arith in returns (subst (λ k. Hole left left k b) met v))
