-- ===== src/Sorting/Bubble.antt =====
-- bubblesort of sorting.c.
use codingforfun.Prelude.{ℕ, ◌+◌, ◌-◌, ◌≤◌, ◌<◌, ◌≡◌, List, arith, ltb, if◌then◌else◌, length}
use codingforfun.Run.{
  Run, done, ◌>>=◌, Returns, returns, Returns-mono, Returns-if, for_up, for_up-Returns,
}
use codingforfun.Array
use codingforfun.Array.{load, load-done, at, exchange}
use codingforfun.Sorting.{
  Sorts, Rearranges, Rearranges-refl, Rearranges-trans, Rearranges-perm, exchange-Rearranges, swap,
  swap-done,
}

-- The body of the inner loop.
bubble_step : ℕ → List ℕ → Run (List ℕ)
bubble_step i a = do x ← load a i; y ← load a (i + 1); if ltb y x then swap a i (i + 1) else done a

unfoldable pub bubblesort : List ℕ → ℕ → Run (List ℕ)
unfolding bubble_step for_up
bubblesort a size = for_up (size - 1) 0 (λ pass b. for_up (size - 1) 0 bubble_step b) a

module _ (a : List ℕ) where
  -- After `pass` passes every entry from `length a - pass` on bounds what stands before it.
  record Passed (pass : ℕ) (b : List ℕ) : Type 0 where
    kept : Rearranges a b
    tail : (i j : ℕ) → i ≤ j → j < length a → length a ≤ j + pass → at b i ≤ at b j

  -- Inside a pass the entry at `i` is carried along: it bounds the entries before it, until it
  -- stands at its place, which it then keeps.
  record Carried (pass i : ℕ) (b : List ℕ) : Type 0 where
    before : Passed pass b
    lead : (k : ℕ) → k ≤ i → i + pass < length a → at b k ≤ at b i
    placed : (k m : ℕ) → k ≤ m → m ≤ i → m + pass + 1 ≡ length a → at b k ≤ at b m

  exchange-Carried :
      (pass i : ℕ) (b : List ℕ)
      → i + 1 < length b
      → Carried pass i b
      → at b (i + 1) < at b i
      → Carried pass (i + 1) (exchange b i (i + 1))
  exchange-Carried pass i b h v less =
      let moved = Array.at-exchange b i (i + 1) (omega arith) h in
      let same = exchange-Rearranges b i (i + 1) (omega arith) h in
      let n = v.before.kept.size in
      let off : i + 1 + pass < length a = ground (arith, v.before.tail i (i + 1)) in
      record {
        before = record {
          kept = Rearranges-trans v.before.kept same;
          tail = λ k j p q r. ground (
            arith,
            same.size,
            moved k,
            moved j,
            v.before.tail k j,
            v.before.tail i j,
            v.before.tail (i + 1) j,
          );
        };
        lead = λ k p q. ground (arith, moved k, moved (i + 1), v.lead k);
        placed = λ k m p q r. ground (arith, moved k, moved m, v.lead k, v.placed k m);
      }

  step-Carried :
      (pass i : ℕ) (b : List ℕ)
      → i + 1 < length a
      → Carried pass i b
      → Returns (Carried pass (i + 1)) (bubble_step i b)
  unfolding bubble_step
  step-Carried pass i b h v =
      let size = v.before.kept.size in
      let hi : i < length b = omega arith in
      let hj : i + 1 < length b = omega arith in
      rw (load-done 0 b i hi, load-done 0 b (i + 1) hj)
        (Returns-if (ltb (at b (i + 1)) (at b i))
          (λ less.
            rw (swap-done b i (i + 1) hi hj)
              (returns (exchange-Carried pass i b hj v (ground arith))))
          (λ ordered. returns (record {
            before = v.before;
            lead = λ k p q. ground (arith, v.lead k);
            placed = λ k m p q r. ground (arith, v.placed k m, v.lead k);
          })))

  pass-Passed :
      (pass : ℕ) (b : List ℕ)
      → Passed pass b
      → Returns (Passed (pass + 1)) (for_up (length a - 1) 0 bubble_step b)
  pass-Passed pass b v =
      Returns-mono
        (for_up-Returns (Carried pass) bubble_step (length a - 1) 0 (length a - 1) b (omega arith)
          (λ i c lo hi w. step-Carried pass i c (omega arith) w)
          (record { before = v; lead = λ k p q. ground arith; placed = λ k m p q r. ground arith }))
        λ c w. record {
          kept = w.before.kept;
          tail = λ i j p q r. ground (arith, w.before.kept.size, w.before.tail i j, w.placed i j);
        }

  -- bubblesort never reads or writes outside the array, ends, and leaves the entries of the array
  -- in ascending order.
  pub bubblesort-Sorts : Returns (Sorts a) (bubblesort a (length a))
  unfolding bubblesort
  bubblesort-Sorts =
      Returns-mono
        (for_up-Returns Passed (λ pass b. for_up (length a - 1) 0 bubble_step b) (length a - 1) 0
          (length a - 1) a (omega arith) (λ pass b lo hi v. pass-Passed pass b v)
          (record { kept = Rearranges-refl a; tail = λ i j p q r. absurd (omega arith) }))
        λ b v. (Rearranges-perm v.kept, λ i j p q. ground (arith, v.kept.size, v.tail i j))
