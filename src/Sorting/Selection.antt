-- ===== src/Sorting/Selection.antt =====
-- selectionsort of sorting.c.
use codingforfun.Prelude.{ℕ, ◌+◌, ◌-◌, ◌≤◌, ◌<◌, List, arith, ltb, if◌then◌else◌, length}
use codingforfun.Run.{
  Run, done, ◌>>=◌, Returns, returns, Returns-mono, Returns-bind, for_up, for_up-Returns,
}
use codingforfun.Array
use codingforfun.Array.{load, load-done, at, exchange}
use codingforfun.Sorting.{
  Sorts, Rearranges, Rearranges-refl, Rearranges-trans, Rearranges-perm, exchange-Rearranges, swap,
  swap-done,
}

-- The body of the inner loop, which moves `min`.
min_step : List ℕ → ℕ → ℕ → Run ℕ
min_step a j min = do x ← load a j; y ← load a min; done (if ltb x y then j else min)

select_step : ℕ → ℕ → List ℕ → Run (List ℕ)
select_step size i a = do min ← for_up (size - (i + 1)) (i + 1) (min_step a) i; swap a i min

unfoldable pub selectionsort : List ℕ → ℕ → Run (List ℕ)
unfolding select_step min_step for_up
selectionsort a size = for_up (size - 1) 0 (select_step size) a

-- `min` is the place of a least entry among those from `i` up to `j`.
record IsLeast (a : List ℕ) (i j min : ℕ) : Type 0 where
  from : i ≤ min
  inside : min < length a
  least : (k : ℕ) → i ≤ k → k < j → at a min ≤ at a k

min_step-IsLeast :
    (a : List ℕ) (i j min : ℕ)
    → i ≤ j
    → j < length a
    → IsLeast a i j min
    → Returns (IsLeast a i (j + 1)) (min_step a j min)
unfolding min_step
min_step-IsLeast a i j min lo h v =
    rw (load-done 0 a j h, load-done 0 a min v.inside)
      (returns (record {
        from = ground (arith, v.from);
        inside = ground (arith, v.inside);
        least = λ k p q. ground (arith, v.least k);
      }))

module _ (a : List ℕ) where
  -- The first `i` entries ascend and bound the others from below.
  record Placed (i : ℕ) (b : List ℕ) : Type 0 where
    kept : Rearranges a b
    front : (j k : ℕ) → j ≤ k → j < i → k < length a → at b j ≤ at b k

  exchange-Placed :
      (i min : ℕ) (b : List ℕ)
      → i < length a
      → Placed i b
      → IsLeast b i (length a) min
      → Placed (i + 1) (exchange b i min)
  exchange-Placed i min b h v l =
      let n = v.kept.size in
      let moved = Array.at-exchange b i min (omega arith) l.inside in
      let same = exchange-Rearranges b i min (omega arith) l.inside in
      record {
        kept = Rearranges-trans v.kept same;
        front = λ j k p q r. ground (
          arith,
          moved j,
          moved k,
          l.from,
          v.front j k,
          v.front j i,
          v.front j min,
          l.least k,
          l.least i,
          l.inside,
        );
      }

  select_step-Placed :
      (i : ℕ) (b : List ℕ)
      → i < length a
      → Placed i b
      → Returns (Placed (i + 1)) (select_step (length a) i b)
  unfolding select_step
  select_step-Placed i b h v =
      let n = v.kept.size in
      Returns-bind
        (for_up-Returns (IsLeast b i) (min_step b) (length a - (i + 1)) (i + 1) (length a) i
          (omega arith) (λ j m lo hi l. min_step-IsLeast b i j m (omega arith) (omega arith) l)
          (record { from = omega arith; inside = omega arith; least = λ k p q. ground arith }))
        λ min l.
          rw (swap-done b i min (omega arith) l.inside) (returns (exchange-Placed i min b h v l))

  -- selectionsort never reads or writes outside the array, ends, and leaves the entries of the
  -- array in ascending order.
  pub selectionsort-Sorts : Returns (Sorts a) (selectionsort a (length a))
  unfolding selectionsort
  selectionsort-Sorts =
      Returns-mono
        (for_up-Returns Placed (select_step (length a)) (length a - 1) 0 (length a - 1) a
          (omega arith) (λ i b lo hi v. select_step-Placed i b (omega arith) v)
          (record { kept = Rearranges-refl a; front = λ j k p q r. absurd (omega arith) }))
        λ b v. (Rearranges-perm v.kept, λ j k p q. ground (arith, v.kept.size, v.front j k))
