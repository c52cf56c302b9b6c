-- ===== src/ProducerConsumer/Condv/Safety.antt =====
-- What the mutex of producerconsumer_condv.c guarantees: the index stays in the array, and the
-- buffer neither overflows nor underflows.
use codingforfun.Prelude.{
  ℕ, suc, ◌+◌, ◌≤◌, ◌<◌, ◌≡◌, refl, arith, inl, inr, ◌⊎◌, ap, zero, tally, ◌∙◌,
}
use native.Mathlib.Decide.{dec_lt}
use codingforfun.ProducerConsumer.Census.{census, census-change, census-change_same, census-zero}
use codingforfun.ProducerConsumer.Points.{
  size, Shared, Role, producer, consumer, other, Point, head, woken, unlocking, Threads, move_to,
  Signalled, wakes, nobody,
}
use codingforfun.ProducerConsumer.Exclusive.{one_thread}
use codingforfun.ProducerConsumer.Condv.Balance.{
  works, rests, owns, complains, Balance, Move-producers, Move-consumers, to_int-le,
}
use codingforfun.ProducerConsumer.Condv.{
  System, Step, moves, signals, wakes_up, Reach, start, later, woke,
}

abbrev Balanced : ℕ → Shared → Threads → Type 0
Balanced n m f =
    Balance m (census rests n (f producer)) (census works n (f producer))
      (census rests n (f consumer)) (census works n (f consumer))

-- A change to a point with the same weights keeps the balance.
move_to-Balanced :
    (n : ℕ) (m : Shared) (f : Threads) (r : Role) (i : ℕ) (x : Point)
    → i < n
    → rests (f r i) ≡ rests x
    → works (f r i) ≡ works x
    → Balanced n m f
    → Balanced n m (move_to f r i x)
move_to-Balanced n m f producer i x lt er ew b =
    rw
      (
        census-change_same rests n (f producer) i x lt er,
        census-change_same works n (f producer) i x lt ew,
      )
      b
move_to-Balanced n m f consumer i x lt er ew b =
    rw
      (
        census-change_same rests n (f consumer) i x lt er,
        census-change_same works n (f consumer) i x lt ew,
      )
      b

Signalled-Balanced :
    {n : ℕ} {f : Threads} {r : Role} {g : Threads} (m : Shared)
    → Signalled n f r g
    → Balanced n m f
    → Balanced n m g
Signalled-Balanced m (nobody h) b = b
Signalled-Balanced {n} {f} {r} m (wakes {i} j lt e) b =
    move_to-Balanced n m f r j (woken i) lt (ap rests e) (ap works e) b

Signalled-own :
    {n : ℕ} {f : Threads} (r : Role) {g : Threads} (i : ℕ)
    → Signalled n f (other r) g
    → g r i ≡ f r i
unfolding other
Signalled-own r i (nobody h) = refl
Signalled-own producer i (wakes j lt e) = refl
Signalled-own consumer i (wakes j lt e) = refl

Step-Balanced :
    {n : ℕ} {s t : System}
    → Step n s t
    → Balanced n s.shared s.threads
    → Balanced n t.shared t.threads
Step-Balanced {n} {s} (moves producer i {p} lt mv) b =
    Move-producers _ _ _ _ _ _ mv (census-change rests n (s.threads producer) i p lt)
      (census-change works n (s.threads producer) i p lt) b
Step-Balanced {n} {s} (moves consumer i {p} lt mv) b =
    Move-consumers _ _ _ _ _ _ mv (census-change rests n (s.threads consumer) i p lt)
      (census-change works n (s.threads consumer) i p lt) b
Step-Balanced {n} {s} (signals r i {k} {f} lt e sg) b =
    let at = Signalled-own r i sg ∙ e in
    move_to-Balanced n s.shared f r i (unlocking k) lt (ap rests at) (ap works at)
      (Signalled-Balanced s.shared sg b)

all_zero : (n : ℕ) (w : Point → ℕ) → w (head 0) ≡ 0 → census w n (λ _. head 0) ≡ 0
all_zero n w h = census-zero w n (λ _. head 0) λ _ _. h

Reach-Balanced : {n : ℕ} {s : System} → Reach n s → Balanced n s.shared s.threads
unfolding tally
Reach-Balanced {n} (start buffer len) =
    let none_rests = all_zero n rests refl in
    let none_works = all_zero n works refl in
    record {
      len = len;
      full = omega arith;
      owner = omega arith;
      room = omega arith;
      stock = omega arith;
      quiet = refl;
    }
Reach-Balanced (later r st) = Step-Balanced st (Reach-Balanced r)
Reach-Balanced {n} (woke {s} r (wakes_up q i {k} lt e)) =
    move_to-Balanced n s.shared s.threads q i (woken k) lt (ap rests e) (ap works e)
      (Reach-Balanced r)

census-owns : (n : ℕ) (f : ℕ → Point) → census owns n f ≡ census rests n f + census works n f
unfolding census
census-owns zero f = refl
census-owns (suc n) f = omega (arith, census-owns n f)

-- In every state that `n` producers and `n` consumers can come to: of two threads one is without
-- the mutex, or they are the same thread; the index is at most SIZE; and neither "Buffer overflow"
-- nor "Buffer underflow" has been printed.
pub condv_safe :
    {n : ℕ} {s : System}
    → Reach n s
    → (r q : Role) (i j : ℕ) → i < n
    → j < n
    → ((owns (s.threads r i) ≡ 0) ⊎ (owns (s.threads q j) ≡ 0) ⊎ ((r ≡ q) × (i ≡ j)))
      × (s.shared.index1 ≤ size)
      × (tally complains s.shared.out ≡ 0)
condv_safe {n} {s} reach r q i j li lj =
    let b = Reach-Balanced reach in
    (
      elim (dec_lt 0 (owns (s.threads r i))) [
        | no first ↦ inl (omega arith)
        | yes first ↦ elim (dec_lt 0 (owns (s.threads q j))) [
          | no second ↦ inr (inl (omega arith))
          | yes second ↦ inr (inr (one_thread owns n s.threads r q i j few li lj first second))
        ]
      ],
      b.full,
      b.quiet,
    )
  where
    few : census owns n (s.threads producer) + census owns n (s.threads consumer) ≤ 1
    few =
        let b = Reach-Balanced reach in
        omega (
          arith,
          b.owner,
          to_int-le s.shared.held,
          census-owns n (s.threads producer),
          census-owns n (s.threads consumer),
        )
