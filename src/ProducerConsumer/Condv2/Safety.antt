-- ===== src/ProducerConsumer/Condv2/Safety.antt =====
-- What the mutex of producerconsumer_condv2.c guarantees: one thread at a time, and no access
-- outside the array.
use codingforfun.Prelude.{
  ℕ, zero, suc, ◌+◌, ◌≤◌, ◌<◌, ◌≡◌, refl, Bool, true, false, to_int, arith, ◌⊎◌, inl, inr,
  Bool-cases,
}
use codingforfun.Run.{done}
use codingforfun.ProducerConsumer.Census.{census}
use codingforfun.ProducerConsumer.Points.{
  size, Shared, Role, producer, consumer, Point, testing, inside, unlocking,
}
use codingforfun.ProducerConsumer.Condv2.{work, System, Reach}
use codingforfun.ProducerConsumer.Exclusive.{one_thread}
use codingforfun.ProducerConsumer.Condv2.Balance.{tests_it, works, unlocks}
use codingforfun.ProducerConsumer.Condv2.Invariant.{Inv, Reach-Inv}
use codingforfun.ProducerConsumer.Condv2.Progress.{works-CanWork}

-- The thread holds the mutex.
abbrev pub owns : Point → Bool
owns (testing _) = true
owns (inside _) = true
owns (unlocking _) = true
owns _ = false

abbrev own : Point → ℕ
own p = tests_it p + works p + unlocks p

own-owns : (p : Point) → owns p ≡ true → own p ≡ 1
own-owns p h = ground arith

-- 1 for a thread that holds the mutex, summed over both roles.
census-own :
    (n : ℕ) (f : ℕ → Point)
    → census own n f ≡ census tests_it n f + census works n f + census unlocks n f
unfolding census
census-own zero f = refl
census-own (suc n) f = omega (arith, census-own n f)

to_int-le : (b : Bool) → to_int b ≤ 1
to_int-le true = omega arith
to_int-le false = omega arith

-- A thread that is about to queue or dequeue can do it: no assertion fails and no access leaves the
-- array.
abbrev pub Allowed : Role → Point → Shared → Type 0
Allowed r (inside k) m = (m' : Shared) × (work r (suc k) m ≡ done m')
Allowed r _ m = Unit

Allowed-works :
    (r : Role) (p : Point) (m : Shared)
    → (0 < works p → (v : ℕ) → (m' : Shared) × (work r v m ≡ done m'))
    → Allowed r p m
Allowed-works r (inside k) m h = h (omega arith) (suc k)
Allowed-works r p m h = tt

few :
    {n : ℕ} {s : System}
    → Inv n s
    → census own n (s.threads producer) + census own n (s.threads consumer) ≤ 1
few {n} {s} inv = omega (
  arith,
  inv.balance.owner,
  to_int-le s.shared.held,
  census-own n (s.threads producer),
  census-own n (s.threads consumer),
)

-- In every state that `n` producers and `n` consumers can come to, whatever thread has the mutex:
-- every other thread is without it; the index is at most SIZE; and if the thread is about to queue
-- or dequeue, it can, without a failed assertion or an access outside the array.
pub condv2_safe :
    {n : ℕ} {s : System}
    → Reach n s
    → (r q : Role) (i j : ℕ) → i < n
    → j < n
    → owns (s.threads r i) ≡ true
    → ((owns (s.threads q j) ≡ false) ⊎ ((r ≡ q) × (i ≡ j)))
      × (s.shared.index1 ≤ size)
      × Allowed r (s.threads r i) s.shared
condv2_safe {n} {s} reach r q i j li lj owner =
    let inv = Reach-Inv reach in
    (
      elim (Bool-cases (owns (s.threads q j))) [
        | inl too ↦ inr (
            one_thread own n s.threads r q i j (few inv) li lj
              (omega (arith, own-owns (s.threads r i) owner))
              (omega (arith, own-owns (s.threads q j) too)))
        | inr other ↦ inl other
      ],
      inv.balance.full,
      Allowed-works r (s.threads r i) s.shared (works-CanWork inv r i li),
    )
