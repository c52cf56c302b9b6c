-- ===== src/Sorting/Heap/Sort.antt =====
-- The two loops of heapsort.
use native.Mathlib.Decide.{dec_lt}
use codingforfun.Prelude.{ℕ, zero, suc, ◌+◌, ◌-◌, ◌/◌, ◌≤◌, ◌<◌, List, arith, length}
use codingforfun.Run.{Run, ◌>>=◌, Returns, Returns-mono, Returns-bind, for_down-Returns}
use codingforfun.Array
use codingforfun.Array.{at, exchange}
use codingforfun.Sorting.{
  Sorts, Rearranges, Rearranges-refl, Rearranges-trans, Rearranges-perm, exchange-Rearranges, swap,
  swap-done,
}
use codingforfun.Sorting.Heap.{
  sift_down, heapsort, parent, IsHeapFrom, Sifted, sift_down-IsHeapFrom,
}

-- The first entry of a heap is its greatest.
root_greatest :
    (fuel past i : ℕ) (a : List ℕ) → IsHeapFrom 0 past a → i < fuel → i < past → at a i ≤ at a 0
root_greatest zero past i a heap enough h = absurd (omega arith)
root_greatest (suc fuel) past i a heap enough h =
    ground (arith, heap i, root_greatest fuel past (parent i) a heap)

module _ (a : List ℕ) where
  record Built (low : ℕ) (b : List ℕ) : Type 0 where
    kept : Rearranges a b
    heap : IsHeapFrom low (length a) b

  build-Built :
      (i : ℕ) (b : List ℕ)
      → Built (suc i) b
      → Returns (Built i) (sift_down (length a + 1) i (length a) b)
  build-Built i b v =
      Returns-mono
        (sift_down-IsHeapFrom (length a + 1) i (length a) i b (omega arith) (record {
          size = omega (arith, v.kept.size);
          edges = λ c p q r s. v.heap c p q (omega arith);
          bridged = λ c p q r s t. absurd (omega arith);
        }))
        (λ c (heap, s). record { kept = Rearranges-trans v.kept s.kept; heap = heap })

  -- The first `k + 1` entries are a heap below the others, which ascend.
  record Drained (k : ℕ) (b : List ℕ) : Type 0 where
    kept : Rearranges a b
    heap : IsHeapFrom 0 (k + 1) b
    tail : (i j : ℕ) → i ≤ j → k < j → j < length a → at b i ≤ at b j

  drain_step : ℕ → List ℕ → Run (List ℕ)
  drain_step k b = do c ← swap b 0 (k + 1); sift_down (length a + 1) 0 (k + 1) c

  drain_step-Drained :
      (k : ℕ) (b : List ℕ)
      → k + 1 < length a
      → Drained (suc k) b
      → Returns (Drained k) (drain_step k b)
  unfolding drain_step
  drain_step-Drained k b h v =
      let n = v.kept.size in
      let moved = Array.at-exchange b 0 (k + 1) (omega arith) (omega arith) in
      let same = exchange-Rearranges b 0 (k + 1) (omega arith) (omega arith) in
      let top : (i : ℕ) → i < k + 2 → at b i ≤ at b 0 =
        λ i p. root_greatest (k + 2) (suc k + 1) i b v.heap p (omega arith) in
      rw (swap-done b 0 (k + 1) (omega arith) (omega arith)) (
        Returns-mono
          (sift_down-IsHeapFrom (length a + 1) 0 (k + 1) 0 (exchange b 0 (k + 1)) (omega arith)
            (record {
              size = omega (arith, same.size);
              edges = λ c p q r s. ground (arith, moved c, moved (parent c), v.heap c);
              bridged = λ c p q r s t. absurd (omega arith);
            }))
          (λ c (heap, s). record {
            kept = Rearranges-trans v.kept (Rearranges-trans same s.kept);
            heap = heap;
            tail = λ i j p q r. settled c s i j p q r;
          }))
    where
      -- the new last entry of the heap bounds the entries before it, and those behind it bound it
      settled :
          (c : List ℕ)
          → Sifted (k + 1) (exchange b 0 (k + 1)) c
          → (i j : ℕ) → i ≤ j
          → k < j
          → j < length a
          → at c i ≤ at c j
      settled c s i j p q r =
          let n = v.kept.size in
          let moved = Array.at-exchange b 0 (k + 1) (omega arith) (omega arith) in
          let top : (m : ℕ) → m < k + 2 → at b m ≤ at b 0 =
            λ m lt. root_greatest (k + 2) (suc k + 1) m b v.heap lt (omega arith) in
          elim (dec_lt i (k + 1)) [
            | yes front ↦
                let bound : at c i ≤ at (exchange b 0 (k + 1)) j =
                  s.bounded (at (exchange b 0 (k + 1)) j)
                    (λ m lt. ground (arith, moved m, moved j, top m, top (k + 1), v.tail m j)) i
                    front in
                omega (arith, bound, s.beyond j (omega arith))
            | no back ↦
                ground
                  (arith, s.beyond i, s.beyond j, moved i, moved j, v.tail i j, v.tail 0 j, top i)
          ]

  -- heapsort never reads or writes outside the array, ends, and leaves the entries of the array
  -- in ascending order.
  pub heapsort-Sorts : Returns (Sorts a) (heapsort a (length a))
  unfolding heapsort
  heapsort-Sorts =
      Returns-bind
        (for_down-Returns Built (λ i b. sift_down (length a + 1) i (length a) b) (length a / 2 + 1)
          a (λ i b h v. build-Built i b v)
          (record { kept = Rearranges-refl a; heap = λ c p q r. absurd (omega arith) }))
        (λ b v.
          Returns-mono
            (for_down-Returns Drained
              (λ k c. swap c 0 (k + 1) >>= sift_down (length a + 1) 0 (k + 1)) (length a - 1) b
              (λ k c h w. unfold drain_step in drain_step-Drained k c (omega arith) w)
              (record {
                kept = v.kept;
                heap = λ c p q r. v.heap c p (omega arith) r;
                tail = λ i j p q r. absurd (omega arith);
              }))
            (λ c w. (Rearranges-perm w.kept, λ i j p q. ground (arith, w.kept.size, w.tail i j))))
