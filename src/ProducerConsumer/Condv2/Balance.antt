-- ===== src/ProducerConsumer/Condv2/Balance.antt =====
-- How many threads stand where in producerconsumer_condv2.c, and what that says about the mutex
-- and the buffer.
use codingforfun.Prelude.{
  ℕ, suc, ◌+◌, ◌≤◌, ◌<◌, ◌≡◌, sym, Bool, true, false, length, length-set, to_int, arith, Bool-cases,
  inl, inr, ltb, leb,
}
use codingforfun.Run.{done}
use codingforfun.ProducerConsumer.Census.{change, census, census-change}
use codingforfun.ProducerConsumer.Points.{
  size, Shared, Role, producer, consumer, blocked, isfull, isempty, Point, head, locking, testing,
  asleep, woken, inside, signalling, unlocking, finished,
}
use codingforfun.ProducerConsumer.Condv2.{
  loops, queue, dequeue, work, Move, leave, lock, wait, relock, pass, act,
}

abbrev pub tests_it : Point → ℕ
tests_it (testing _) = 1
tests_it _ = 0

abbrev pub sleeps : Point → ℕ
sleeps (asleep _) = 1
sleeps _ = 0

abbrev pub wakes_it : Point → ℕ
wakes_it (woken _) = 1
wakes_it _ = 0

abbrev pub works : Point → ℕ
works (inside _) = 1
works _ = 0

abbrev pub unlocks : Point → ℕ
unlocks (unlocking _) = 1
unlocks _ = 0

abbrev pub owes : Point → ℕ
owes (signalling _) = 1
owes _ = 0

-- How many values a thread has queued or dequeued.
abbrev pub rounds : Point → ℕ
rounds (head i) = i
rounds (locking i) = i
rounds (testing i) = i
rounds (asleep i) = i
rounds (woken i) = i
rounds (inside i) = i
rounds (unlocking i) = suc i
rounds (signalling i) = suc i
rounds finished = loops

-- The round of a thread is one of its ten.
abbrev pub IsInRange : Point → Type 0
IsInRange (head i) = i ≤ loops
IsInRange (locking i) = i < loops
IsInRange (testing i) = i < loops
IsInRange (asleep i) = i < loops
IsInRange (woken i) = i < loops
IsInRange (inside i) = i < loops
IsInRange (unlocking i) = i < loops
IsInRange (signalling i) = i < loops
IsInRange finished = Unit

-- How many of the first `n` threads stand at each point, and how many rounds they have made.
pub record Counts : Type 0 where
  pub at_test : ℕ
  pub at_sleep : ℕ
  pub at_wake : ℕ
  pub at_work : ℕ
  pub at_unlock : ℕ
  pub at_signal : ℕ
  pub made : ℕ

abbrev pub counts : ℕ → (ℕ → Point) → Counts
counts n f = record {
  at_test = census tests_it n f;
  at_sleep = census sleeps n f;
  at_wake = census wakes_it n f;
  at_work = census works n f;
  at_unlock = census unlocks n f;
  at_signal = census owes n f;
  made = census rounds n f;
}

-- `c'` are the counts after a thread went from `p` to `p'`.
abbrev pub Shifted : Counts → Counts → Point → Point → Type 0
Shifted c c' p p' = record {
  at_test : c'.at_test + tests_it p ≡ c.at_test + tests_it p';
  at_sleep : c'.at_sleep + sleeps p ≡ c.at_sleep + sleeps p';
  at_wake : c'.at_wake + wakes_it p ≡ c.at_wake + wakes_it p';
  at_work : c'.at_work + works p ≡ c.at_work + works p';
  at_unlock : c'.at_unlock + unlocks p ≡ c.at_unlock + unlocks p';
  at_signal : c'.at_signal + owes p ≡ c.at_signal + owes p';
  made : c'.made + rounds p ≡ c.made + rounds p';
}

pub Shifted-change :
    (n : ℕ) (f : ℕ → Point) (i : ℕ) (p' : Point)
    → i < n
    → Shifted (counts n f) (counts n (change f i p')) (f i) p'
Shifted-change n f i p' lt = record {
  at_test = census-change tests_it n f i p' lt;
  at_sleep = census-change sleeps n f i p' lt;
  at_wake = census-change wakes_it n f i p' lt;
  at_work = census-change works n f i p' lt;
  at_unlock = census-change unlocks n f i p' lt;
  at_signal = census-change owes n f i p' lt;
  made = census-change rounds n f i p' lt;
}

pub Shifted-change_at :
    (n : ℕ) (f : ℕ → Point) (i : ℕ) (p p' : Point)
    → i < n
    → f i ≡ p
    → Shifted (counts n f) (counts n (change f i p')) p p'
Shifted-change_at n f i p p' lt e = rw (sym e) (Shifted-change n f i p' lt)

-- The balance between the counts of the producers and of the consumers, the mutex and the index:
-- the mutex has one owner at most; who is past the test finds room or a value; while someone
-- sleeps, there are threads awake or signals to come for all that the sleepers could use.
pub record Balance (held : Bool) (index : ℕ) (p c : Counts) : Type 0 where
  pub full : index ≤ size
  pub owner :
      p.at_test + p.at_work + p.at_unlock + c.at_test + c.at_work + c.at_unlock ≡ to_int held
  pub room : p.at_work + index ≤ size
  pub stock : c.at_work ≤ index
  pub producers :
      0 < p.at_sleep → size ≤ index + p.at_wake + p.at_test + p.at_work + c.at_unlock + c.at_signal
  pub consumers :
      0 < c.at_sleep → index ≤ c.at_wake + c.at_test + c.at_work + p.at_unlock + p.at_signal
  pub flow : p.made ≡ c.made + index

-- What a successful `queue` and `dequeue` do to the mutex and the index.
abbrev Worked : Role → Shared → Shared → Type 0
Worked producer m m' =
    (m'.held ≡ m.held) × (m'.index1 ≡ suc m.index1) × (length m'.buffer ≡ length m.buffer)
Worked consumer m m' =
    (m'.held ≡ m.held) × (suc m'.index1 ≡ m.index1) × (length m'.buffer ≡ length m.buffer)

pub work-Worked : (r : Role) (v : ℕ) (m m' : Shared) → work r v m ≡ done m' → Worked r m m'
unfolding work queue dequeue
work-Worked producer v m m' e = elim (Bool-cases (leb m.index1 size)) [
  | inl a ↦ elim (Bool-cases (ltb m.index1 (length m.buffer))) [
    | inl b ↦ ground (arith, length-set m.buffer m.index1 v)
    | inr b ↦ ground arith
  ]
  | inr a ↦ ground arith
]
work-Worked consumer v m m' e = ground arith

-- The premise of a move.
abbrev Guard : {r : Role} {m m' : Shared} {p p' : Point} → Move r m p m' p' → Type 0
Guard (leave {i} _) = loops ≤ i
Guard {m} (lock _) = m.held ≡ false
Guard {r} {m} (wait _) = blocked r m ≡ true
Guard {m} (relock _) = m.held ≡ false
Guard {r} {m} (pass _) = blocked r m ≡ false
Guard {r} {m} {m'} (act _) = Worked r m m'
Guard _ = Unit

guard : {r : Role} {m m' : Shared} {p p' : Point} (mv : Move r m p m' p') → Guard mv
guard (leave g) = g
guard (lock g) = g
guard (wait g) = g
guard (relock g) = g
guard (pass g) = g
guard {r} {m} {m'} (act {i} g) = work-Worked r (suc i) m m' g
guard _ = tt

to_int-le : (b : Bool) → to_int b ≤ 1
to_int-le true = omega arith
to_int-le false = omega arith

pub Move-producers :
    {m m' : Shared} {x x' : Point} {p p' c : Counts}
    → Move producer m x m' x'
    → IsInRange x
    → Shifted p p' x x'
    → Balance m.held m.index1 p c
    → Balance m'.held m'.index1 p' c
unfolding blocked isfull
Move-producers {m} (leave g) ok sh b = record {
  full = ground (arith, g);
  owner = ground (arith, g);
  room = ground (arith, g, to_int-le m.held);
  stock = ground (arith, g);
  producers = λ sleeping. ground (arith, g);
  consumers = λ sleeping. ground (arith, g);
  flow = ground (arith, g);
}
Move-producers {m} mv ok sh b = record {
  full = ground (arith, guard mv);
  owner = ground (arith, guard mv);
  room = ground (arith, guard mv, to_int-le m.held);
  stock = ground (arith, guard mv);
  producers = λ sleeping. ground (arith, guard mv);
  consumers = λ sleeping. ground (arith, guard mv);
  flow = ground (arith, guard mv);
}

pub Move-consumers :
    {m m' : Shared} {x x' : Point} {p c c' : Counts}
    → Move consumer m x m' x'
    → IsInRange x
    → Shifted c c' x x'
    → Balance m.held m.index1 p c
    → Balance m'.held m'.index1 p c'
unfolding blocked isempty
Move-consumers {m} (leave g) ok sh b = record {
  full = ground (arith, g);
  owner = ground (arith, g);
  room = ground (arith, g);
  stock = ground (arith, g, to_int-le m.held);
  producers = λ sleeping. ground (arith, g);
  consumers = λ sleeping. ground (arith, g);
  flow = ground (arith, g);
}
Move-consumers {m} mv ok sh b = record {
  full = ground (arith, guard mv);
  owner = ground (arith, guard mv);
  room = ground (arith, guard mv);
  stock = ground (arith, guard mv, to_int-le m.held);
  producers = λ sleeping. ground (arith, guard mv);
  consumers = λ sleeping. ground (arith, guard mv);
  flow = ground (arith, guard mv);
}
