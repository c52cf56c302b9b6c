-- ===== src/ProducerConsumer/Exclusive.antt =====
-- Of threads whose weights add up to 1 at most, two with a weight are the same thread.
use codingforfun.Prelude.{ℕ, ◌+◌, ◌≤◌, ◌<◌, ◌≡◌, refl, arith}
use native.Mathlib.Decide.{dec_lt}
use codingforfun.ProducerConsumer.Census.{census, le-census, two_le-census}
use codingforfun.ProducerConsumer.Points.{Role, producer, consumer, Point, Threads}

module _ (w : Point → ℕ) (n : ℕ) where
  one_index :
      (f : ℕ → Point) (i j : ℕ)
      → census w n f ≤ 1
      → i < n
      → j < n
      → 0 < w (f i)
      → 0 < w (f j)
      → i ≡ j
  one_index f i j few li lj hi hj = elim (dec_lt i j) [
    | yes lt ↦ absurd (omega (arith, two_le-census w n f i j lt lj))
    | no ge ↦ elim (dec_lt j i) [
      | yes lt ↦ absurd (omega (arith, two_le-census w n f j i lt li))
      | no le ↦ omega arith
    ]
  ]

  pub one_thread :
      (f : Threads) (r q : Role) (i j : ℕ)
      → census w n (f producer) + census w n (f consumer) ≤ 1
      → i < n
      → j < n
      → 0 < w (f r i)
      → 0 < w (f q j)
      → (r ≡ q) × (i ≡ j)
  one_thread f producer producer i j few li lj hi hj =
      (refl, one_index (f producer) i j (omega arith) li lj hi hj)
  one_thread f consumer consumer i j few li lj hi hj =
      (refl, one_index (f consumer) i j (omega arith) li lj hi hj)
  one_thread f producer consumer i j few li lj hi hj =
      absurd (omega (arith, le-census w n (f producer) i li, le-census w n (f consumer) j lj))
  one_thread f consumer producer i j few li lj hi hj =
      absurd (omega (arith, le-census w n (f consumer) i li, le-census w n (f producer) j lj))
