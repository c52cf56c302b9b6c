-- ===== src/ProducerConsumer/Condv2/Moving.antt =====
-- Which threads of producerconsumer_condv2.c can take a step, and what the counts say when none can.
use codingforfun.Prelude.{
  ℕ, suc, ◌+◌, ◌-◌, ◌*◌, ◌≤◌, ◌<◌, ◌≡◌, refl, Bool, true, false, length, arith, Bool-cases, inl,
  inr, ◌⊎◌, ltb, leb, ◌==◌, ◌∷◌, set, get_or,
}
use native.Mathlib.Decide.{dec_lt}
use codingforfun.Run.{done}
use codingforfun.ProducerConsumer.Census.{
  census, census-zero, le-census, census-member, census-le, le-census_two,
}
use codingforfun.ProducerConsumer.Points.{
  size, Shared, Role, producer, consumer, blocked, Point, head, locking, testing, asleep, woken,
  inside, signalling, unlocking, finished, Threads, Signalled, wakes, nobody, queueing, dequeing,
}
use codingforfun.ProducerConsumer.Condv2.{
  loops, queue, dequeue, work, Move, enter, leave, lock, wait, relock, pass, act, unlock,
}
use codingforfun.ProducerConsumer.Condv2.Balance.{
  IsInRange, Counts, counts, Balance, sleeps, tests_it, works, unlocks, wakes_it, owes, rounds,
}

-- 1 for a point at which a thread can go on, given whether the mutex is held.
abbrev pub mobile : Bool → Point → ℕ
mobile _ (asleep _) = 0
mobile _ finished = 0
mobile true (locking _) = 0
mobile true (woken _) = 0
mobile _ _ = 1

-- A value can be queued or dequeued: the operation neither aborts nor leaves the array.
abbrev pub CanWork : Role → Shared → Type 0
CanWork r m = (v : ℕ) → (m' : Shared) × (work r v m ≡ done m')

pub queue-done : (m : Shared) → m.index1 < size → length m.buffer ≡ size → CanWork producer m
unfolding work queue
queue-done m room len v =
    let ok : leb m.index1 size ≡ true = ground arith in
    let fits : ltb m.index1 (length m.buffer) ≡ true = ground arith in
    let after : Shared = record m {
      buffer = set m.buffer m.index1 v;
      index1 = suc m.index1;
      out = queueing v ∷ m.out;
    } in
    (after, rw (ok, fits))

pub dequeue-done :
    (m : Shared) → 0 < m.index1 → m.index1 ≤ size → length m.buffer ≡ size → CanWork consumer m
unfolding work dequeue
dequeue-done m some_left full len v =
    let ok : (m.index1 == 0) ≡ false = ground arith in
    let fits : ltb (m.index1 - 1) (length m.buffer) ≡ true = ground arith in
    let after : Shared = record m {
      index1 = m.index1 - 1;
      out = dequeing (get_or m.buffer (m.index1 - 1) 0) ∷ m.out;
    } in
    (after, rw (ok, fits))

pub Move-exists :
    (r : Role) (m : Shared) (p : Point)
    → 0 < mobile m.held p
    → (0 < works p → CanWork r m)
    → ((m' : Shared) × (p' : Point) × Move r m p m' p') ⊎ ((k : ℕ) × (p ≡ signalling k))
Move-exists r m (head i) go ok = elim (dec_lt i loops) [
  | yes lt ↦ inl (m, locking i, enter lt)
  | no ge ↦ inl (m, finished, leave (omega arith))
]
Move-exists r m (locking i) go ok = elim (Bool-cases m.held) [
  | inl e ↦ absurd (ground arith)
  | inr e ↦ inl (_, _, lock e)
]
Move-exists r m (woken i) go ok = elim (Bool-cases m.held) [
  | inl e ↦ absurd (ground arith)
  | inr e ↦ inl (_, _, relock e)
]
Move-exists r m (testing i) go ok = elim (Bool-cases (blocked r m)) [
  | inl e ↦ inl (_, _, wait e)
  | inr e ↦ inl (_, _, pass e)
]
Move-exists r m (asleep i) go ok = absurd (ground arith)
Move-exists r m (inside i) go ok =
    let (m', e) = ok (omega arith) (suc i) in inl (m', unlocking i, act e)
Move-exists r m (unlocking i) go ok = inl (_, _, unlock)
Move-exists r m (signalling i) go ok = inr (i, refl)
Move-exists r m finished go ok = absurd (ground arith)

asleep_of : (p : Point) → 0 < sleeps p → (i : ℕ) × (p ≡ asleep i)
asleep_of (asleep i) h = (i, refl)
asleep_of p h = absurd (omega arith)

pub Signalled-exists : (n : ℕ) (f : Threads) (r : Role) → (g : Threads) × Signalled n f r g
Signalled-exists n f r = elim (dec_lt 0 (census sleeps n (f r))) [
  | yes some_asleep ↦
      let (j, lt, h) = census-member sleeps n (f r) some_asleep in
      let (i, e) = asleep_of (f r j) h in (_, wakes j lt e)
  | no none_asleep ↦
      (f, nobody λ i j lt e. absurd (ground (arith, le-census sleeps n (f r) j lt, e)))
]

-- A thread that cannot move does not hold the mutex.
still_owner : (b : Bool) (p : Point) → mobile b p ≡ 0 → tests_it p + works p + unlocks p ≡ 0
still_owner true p h = ground arith
still_owner false p h = ground arith

-- While the mutex is free, a thread that cannot move sleeps or has finished.
still_lem :
    (p : Point)
    → mobile false p ≡ 0
    → IsInRange p
    → (10 ≤ rounds p + 10 * sleeps p)
      × (rounds p + sleeps p ≤ 10)
      × (wakes_it p + unlocks p + owes p + tests_it p + works p ≡ 0)
still_lem p h ok = ground arith

-- The counts of threads of which none can move while the mutex is free.
pub record StillCounts (n : ℕ) (c : Counts) : Type 0 where
  low : n * 10 ≤ c.made + 10 * c.at_sleep
  high : c.made + c.at_sleep ≤ n * 10
  none_wakes : c.at_wake ≡ 0
  none_unlocks : c.at_unlock ≡ 0
  none_signals : c.at_signal ≡ 0
  none_tests : c.at_test ≡ 0
  none_works : c.at_work ≡ 0

pub StillCounts_lem :
    (n : ℕ) (f : ℕ → Point)
    → census (mobile false) n f ≡ 0
    → ((i : ℕ) → IsInRange (f i))
    → StillCounts n (counts n f)
StillCounts_lem n f e ok = record {
  low = le-census_two rounds sleeps 10 n f λ i lt. omega (arith, still i lt);
  high = census-le rounds sleeps 10 n f λ i lt. omega (arith, still i lt);
  none_wakes = census-zero wakes_it n f λ i lt. omega (arith, still i lt);
  none_unlocks = census-zero unlocks n f λ i lt. omega (arith, still i lt);
  none_signals = census-zero owes n f λ i lt. omega (arith, still i lt);
  none_tests = census-zero tests_it n f λ i lt. omega (arith, still i lt);
  none_works = census-zero works n f λ i lt. omega (arith, still i lt);
}
  where
    still :
        (i : ℕ)
        → i < n
        → (10 ≤ rounds (f i) + 10 * sleeps (f i))
          × (rounds (f i) + sleeps (f i) ≤ 10)
          × (wakes_it (f i) + unlocks (f i) + owes (f i) + tests_it (f i) + works (f i) ≡ 0)
    still i lt = still_lem (f i) (omega (arith, le-census (mobile false) n f i lt)) (ok i)

-- No sleeper is left over: the balance and the numbers of rounds exclude it.
pub nobody_sleeps :
    (n : ℕ) {p c : Counts} {index : ℕ}
    → Balance false index p c
    → StillCounts n p
    → StillCounts n c
    → (p.at_sleep ≡ 0) × (c.at_sleep ≡ 0) × (index ≡ 0)
nobody_sleeps n b sp sc = ground arith

pub none_owns :
    (b : Bool) (n : ℕ) (f : ℕ → Point)
    → census (mobile b) n f ≡ 0
    → census tests_it n f + census works n f + census unlocks n f ≡ 0
none_owns b n f e =
    let still : (i : ℕ) → i < n → tests_it (f i) + works (f i) + unlocks (f i) ≡ 0 =
      λ i lt. still_owner b (f i) (omega (arith, le-census (mobile b) n f i lt)) in
    let a = census-zero tests_it n f λ i lt. omega (arith, still i lt) in
    let b = census-zero works n f λ i lt. omega (arith, still i lt) in
    let c = census-zero unlocks n f λ i lt. omega (arith, still i lt) in omega arith

pub finished_of : (p : Point) → mobile false p ≡ 0 → sleeps p ≡ 0 → p ≡ finished
finished_of p h k = ground arith
