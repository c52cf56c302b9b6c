-- ===== src/Sorting/Quick/Sort.antt =====
-- The recursion of quicksortroutine.
use native.Mathlib.Decide.{dec_lt}
use codingforfun.Prelude.{
  ℕ, zero, suc, ◌+◌, ◌-◌, ◌≤◌, ◌<◌, ◌≡◌, ◌⊎◌, refl, ◌∙◌, List, [], ◌∷◌, ltb, ◌==◌, if◌then◌else◌,
  arith, length, set, length-set, get_or-set, tally-set,
}
use codingforfun.Run.{fault, Returns, returns, Returns-mono, Returns-bind, Returns-if}
use codingforfun.Array.{load, load-done, store-done, at}
use codingforfun.Sorting.{Sorts, Rearranges, Rearranges-refl, Rearranges-trans, Rearranges-perm}
use codingforfun.Sorting.Quick.{routine, quicksort}
use codingforfun.Sorting.Quick.Partition.{Hole, partition-Hole}

-- `b` is `a` with the entries from `first` to `last` rearranged among themselves.
record Within (first last : ℕ) (a b : List ℕ) : Type 0 where
  kept : Rearranges a b
  outside : (i : ℕ) → (i < first) ⊎ (last < i) → at b i ≡ at a i
  above :
      (m : ℕ)
      → ((i : ℕ) → first ≤ i → i ≤ last → m ≤ at a i)
      → (i : ℕ) → first ≤ i
      → i ≤ last
      → m ≤ at b i
  below :
      (m : ℕ)
      → ((i : ℕ) → first ≤ i → i ≤ last → at a i ≤ m)
      → (i : ℕ) → first ≤ i
      → i ≤ last
      → at b i ≤ m

-- The entries from `first` to `last` ascend.
abbrev Ascends : ℕ → ℕ → List ℕ → Type 0
Ascends first last b = (i j : ℕ) → first ≤ i → i ≤ j → j ≤ last → at b i ≤ at b j

Within-refl : (first last : ℕ) (a : List ℕ) → Within first last a a
Within-refl first last a = record {
  kept = Rearranges-refl a;
  outside = λ i h. refl;
  above = λ m h. h;
  below = λ m h. h;
}

Within-trans :
    {first last : ℕ} {a b c : List ℕ}
    → Within first last a b
    → Within first last b c
    → Within first last a c
Within-trans v w = record {
  kept = Rearranges-trans v.kept w.kept;
  outside = λ i h. w.outside i h ∙ v.outside i h;
  above = λ m h. w.above m (v.above m h);
  below = λ m h. w.below m (v.below m h);
}

-- What happens inside a part of the segment happens inside the segment.
Within-part :
    (first last f l : ℕ) (a b : List ℕ)
    → first ≤ f
    → l ≤ last
    → Within f l a b
    → Within first last a b
Within-part first last f l a b p q w = record {
  kept = w.kept;
  outside = λ i h. w.outside i (ground arith);
  above = λ m h i r s. elim (dec_lt i f) [
    | yes before ↦ ground (arith, w.outside i, h i)
    | no from ↦ elim (dec_lt l i) [
      | yes behind ↦ ground (arith, w.outside i, h i)
      | no to ↦ w.above m (λ j t u. h j (omega arith) (omega arith)) i (omega arith) (omega arith)
    ]
  ];
  below = λ m h i r s. elim (dec_lt i f) [
    | yes before ↦ ground (arith, w.outside i, h i)
    | no from ↦ elim (dec_lt l i) [
      | yes behind ↦ ground (arith, w.outside i, h i)
      | no to ↦ w.below m (λ j t u. h j (omega arith) (omega arith)) i (omega arith) (omega arith)
    ]
  ];
}

-- The array once the pivot is back, at `p`.
record Split (first last p : ℕ) (a c : List ℕ) : Type 0 where
  within : Within first last a c
  from : first ≤ p
  to : p ≤ last
  low : (i : ℕ) → first ≤ i → i < p → at c i ≤ at c p
  high : (i : ℕ) → p < i → i ≤ last → at c p ≤ at c i

Hole-Split :
    (first last p : ℕ) (a b : List ℕ)
    → Hole a first last (at a first) p p p b
    → Split first last p a (set b p (at a first))
Hole-Split first last p a b v =
    let size = v.size in
    let order = v.order in
    let now : (i : ℕ) → at (set b p (at a first)) i ≡ (if p == i then at a first else at b i) =
      λ i. get_or-set b p i (at a first) 0 (omega arith) in
    record {
      within = record {
        kept = record {
          size = omega (arith, length-set b p (at a first));
          items = λ w. omega (arith, v.items w, tally-set w b p (at a first) 0 (omega arith));
        };
        outside = λ i h. ground (arith, now i, v.outside i);
        above = λ m h i q r. ground (arith, now i, h first, v.above m h i);
        below = λ m h i q r. ground (arith, now i, h first, v.below m h i);
      };
      from = omega arith;
      to = omega arith;
      low = λ i q r. ground (arith, now i, now p, v.low i);
      high = λ i q r. ground (arith, now i, now p, v.high i);
    }

module _ (first last p : ℕ) (a c : List ℕ) (s : Split first last p a c) where
  -- After the first recursive call, or none.
  record Lower (d : List ℕ) : Type 0 where
    within : Within first last c d
    same : (i : ℕ) → p ≤ i → at d i ≡ at c i
    ascends : (i j : ℕ) → first ≤ i → i ≤ j → j < p → at d i ≤ at d j
    bounded : (i : ℕ) → first ≤ i → i < p → at d i ≤ at c p

  Lower-call :
      (d : List ℕ) → first < p → Within first (p - 1) c d × Ascends first (p - 1) d → Lower d
  Lower-call d h (w, up) =
      let to = s.to in
      record {
        within = Within-part first last first (p - 1) c d (omega arith) (omega arith) w;
        same = λ i q. w.outside i (ground arith);
        ascends = λ i j q r t. up i j q r (omega arith);
        bounded = λ i q r. w.below (at c p) (λ k t u. s.low k t (omega arith)) i q (omega arith);
      }

  Lower-none : p ≤ first → Lower c
  Lower-none h = record {
    within = Within-refl first last c;
    same = λ i q. refl;
    ascends = λ i j q r t. absurd (omega arith);
    bounded = λ i q r. absurd (omega arith);
  }

  -- After the second recursive call, or none, the segment ascends.
  upper-call :
      (d e : List ℕ)
      → Lower d
      → Within (p + 1) last d e × Ascends (p + 1) last e
      → Within first last a e × Ascends first last e
  upper-call d e l (w, up) =
      let from = s.from in
      let high : (i : ℕ) → p < i → i ≤ last → at c p ≤ at e i =
        λ i q r. w.above (at c p) (λ k t u. ground (arith, l.same k, s.high k)) i (omega arith) r in
      (
        Within-trans s.within (
            Within-trans l.within
              (Within-part first last (p + 1) last d e (omega arith) (omega arith) w)),
        λ i j q r t.
            ground (
              arith,
              w.outside i,
              w.outside j,
              l.same p,
              l.bounded i,
              l.ascends i j,
              high j,
              up i j,
            ),
      )

  upper-none : (d : List ℕ) → last ≤ p → Lower d → Within first last a d × Ascends first last d
  upper-none d h l =
      let to = s.to in
      (
        Within-trans s.within l.within,
        λ i j q r t. ground (arith, l.same p, l.bounded i, l.ascends i j),
      )

-- A call of quicksortroutine sorts its segment and leaves the rest of the array alone.
routine-Ascends :
    (fuel first last : ℕ) (a : List ℕ)
    → last - first < fuel
    → first ≤ last
    → last < length a
    → Returns (λ b. Within first last a b × Ascends first last b) (routine fuel first last a)
unfolding routine
routine-Ascends zero first last a enough le h = absurd (omega arith)
routine-Ascends (suc fuel) first last a enough le h = rw (load-done 0 a first (omega arith)) (
    Returns-bind
      (partition-Hole a first last (at a first) (last - first + 1) first last a (omega arith) start)
      λ (b, p) v.
        let size = v.size in
        let order = v.order in
        let s = Hole-Split first last p a b v in
        let c = set b p (at a first) in
        let n : length c ≡ length b = length-set b p (at a first) in
        rw (store-done b p (at a first) (omega arith)) (
          Returns-bind
            (Returns-if (ltb first p)
              (λ less.
                Returns-mono
                  (routine-Ascends fuel first (p - 1) c (ground arith) (ground arith) (omega arith))
                  (λ d r. Lower-call first last p a c s d (ground arith) r))
              (λ stop. returns (Lower-none first last p a c s (ground arith))))
            λ d l.
              let m = l.within.kept.size in
              Returns-if (ltb p last)
                (λ more.
                  Returns-mono
                    (routine-Ascends fuel (p + 1) last d (ground arith) (ground arith)
                      (omega arith))
                    (λ e r. upper-call first last p a c s d e l r))
                (λ stop. returns (upper-none first last p a c s d (ground arith) l))))
  where
    start : Hole a first last (at a first) first first last a
    start = record {
      size = refl;
      items = λ w. refl;
      order = omega arith;
      low = λ i p q. absurd (omega arith);
      high = λ i p q. absurd (omega arith);
      outside = λ i q. refl;
      above = λ m r i p q s. r i p q;
      below = λ m r i p q s. r i p q;
    }

-- quicksort on an array with at least one entry never reads or writes outside the array, ends, and
-- leaves the entries in ascending order.
pub quicksort-Sorts : (a : List ℕ) → 0 < length a → Returns (Sorts a) (quicksort a (length a))
unfolding quicksort
quicksort-Sorts [] h = absurd (omega arith)
quicksort-Sorts (x ∷ xs) h =
    Returns-mono
      (routine-Ascends (suc (length xs)) 0 (length xs) (x ∷ xs) (omega arith) (omega arith)
        (omega arith))
      (λ b (w, up).
        (Rearranges-perm w.kept, λ i j p q. up i j (omega arith) p (omega (arith, w.kept.size))))

quicksort-nil : quicksort [] 0 ≡ fault
unfolding quicksort load
quicksort-nil = refl
