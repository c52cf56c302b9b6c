-- ===== src/SearchTree/Depth.antt =====
-- maxdepth, mindepth and isbalanced: the longest and the shortest way from the root to a NULL.
use native.Mathlib.Numerals.{one-add}
use codingforfun.Prelude.{ℕ, suc, ◌≤◌, ◌≡◌, ◌↔◌, true, Bool-cases, inl, inr, ltb, arith}
use codingforfun.SearchTree.{Tree, leaf, fork, maxdepth, mindepth, isbalanced}

-- A way from the root to a NULL of so many nodes.
pub data Way : Tree → ℕ → Type 0 where
  stop : Way leaf 0
  left : {l r : Tree} {k n : ℕ} → Way l n → Way (fork l k r) (suc n)
  right : {l r : Tree} {k n : ℕ} → Way r n → Way (fork l k r) (suc n)

-- Every way has a length between the two depths.
pub depth_bounds : {t : Tree} {n : ℕ} → Way t n → (mindepth t ≤ n) × (n ≤ maxdepth t)
unfolding mindepth maxdepth
depth_bounds stop = omega arith
depth_bounds (left w) = ground (arith, depth_bounds w)
depth_bounds (right w) = ground (arith, depth_bounds w)

Way-maxdepth : (t : Tree) → Way t (maxdepth t)
unfolding maxdepth
Way-maxdepth leaf = stop
Way-maxdepth (fork l k r) = elim (Bool-cases (ltb (maxdepth r) (maxdepth l))) [
  | inl more ↦ rw (more, one-add) (left (Way-maxdepth l))
  | inr less ↦ rw (less, one-add) (right (Way-maxdepth r))
]

Way-mindepth : (t : Tree) → Way t (mindepth t)
unfolding mindepth
Way-mindepth leaf = stop
Way-mindepth (fork l k r) = elim (Bool-cases (ltb (mindepth r) (mindepth l))) [
  | inl more ↦ rw (more, one-add) (right (Way-mindepth r))
  | inr less ↦ rw (less, one-add) (left (Way-mindepth l))
]

-- isbalanced holds exactly if all ways from the root to a NULL have one length, which is that of
-- the longest.
isbalanced_iff : (t : Tree) → (isbalanced t ≡ true) ↔ ((n : ℕ) → Way t n → n ≡ maxdepth t)
unfolding isbalanced
isbalanced_iff t = (
  λ e n w. ground (arith, depth_bounds w),
  λ all. ground (arith, all (mindepth t) (Way-mindepth t)),
)

-- mindepth and maxdepth are the lengths of ways, and every way has a length between them.
Way-depths :
    (t : Tree)
    → Way t (mindepth t)
      × Way t (maxdepth t)
      × ((n : ℕ) → Way t n → (mindepth t ≤ n) × (n ≤ maxdepth t))
Way-depths t = (Way-mindepth t, Way-maxdepth t, λ n w. depth_bounds w)

-- mindepth and maxdepth are the lengths of ways, and every way has a length between them;
-- isbalanced holds exactly if all ways from the root to a NULL have one length.
pub depths_lem :
    (t : Tree)
    → Way t (mindepth t)
      × Way t (maxdepth t)
      × ((n : ℕ) → Way t n → (mindepth t ≤ n) × (n ≤ maxdepth t))
      × ((isbalanced t ≡ true) ↔ ((n : ℕ) → Way t n → n ≡ maxdepth t))
depths_lem t = let (low, high, between) = Way-depths t in (low, high, between, isbalanced_iff t)
