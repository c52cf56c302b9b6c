-- ===== src/ProducerConsumer/Condv2/Invariant.antt =====
-- Every reachable state of producerconsumer_condv2.c keeps the balance of its threads, and the
-- lines printed account for every value.
use mathlib.Core.Path.{subst}
use codingforfun.Prelude.{
  ℕ, suc, ◌<◌, ◌≡◌, refl, Bool, false, length, arith, Bool-cases, inl, inr, ◌⊎◌, ◌∙◌, ◌==◌, List,
}
use codingforfun.ProducerConsumer.Census.{census, census-zero}
use codingforfun.ProducerConsumer.Points.{
  size, Shared, Role, producer, consumer, other, Point, head, asleep, woken, signalling, Threads,
  move_to, Signalled, wakes, nobody,
}
use codingforfun.ProducerConsumer.Condv2.{
  Move, enter, act, unlock, System, Step, moves, signals, Spurious, wakes_up, init, Reach, start,
  later, woke,
}
use codingforfun.ProducerConsumer.Condv2.Balance.{
  IsInRange, Counts, counts, Shifted, Shifted-change, Shifted-change_at, Balance, work-Worked,
  Move-producers, Move-consumers, sleeps, tests_it, works, unlocks,
}

abbrev pub Balanced : ℕ → System → Type 0
Balanced n s =
    Balance s.shared.held s.shared.index1 (counts n (s.threads producer))
      (counts n (s.threads consumer))

pub record Inv (n : ℕ) (s : System) : Type 0 where
  pub len : length s.shared.buffer ≡ size
  pub balance : Balanced n s
  pub range : (r : Role) (i : ℕ) → IsInRange (s.threads r i)

-- A thread in range at its new point leaves every thread in range.
IsInRange-move_to :
    (f : Threads) (r : Role) (i : ℕ) (p : Point)
    → ((q : Role) (j : ℕ) → IsInRange (f q j))
    → IsInRange p
    → (q : Role) (j : ℕ) → IsInRange (move_to f r i p q j)
IsInRange-move_to f producer i p old new producer j = elim (Bool-cases (i == j)) [
  | inl e ↦ rw e new
  | inr e ↦ rw e (old producer j)
]
IsInRange-move_to f producer i p old new consumer j = old consumer j
IsInRange-move_to f consumer i p old new producer j = old producer j
IsInRange-move_to f consumer i p old new consumer j = elim (Bool-cases (i == j)) [
  | inl e ↦ rw e new
  | inr e ↦ rw e (old consumer j)
]

Move-IsInRange :
    {r : Role} {m m' : Shared} {p p' : Point} → Move r m p m' p' → IsInRange p → IsInRange p'
Move-IsInRange (enter lt) ok = lt
Move-IsInRange unlock ok = omega arith
Move-IsInRange mv ok = ground arith

Move-length :
    {r : Role} {m m' : Shared} {p p' : Point}
    → Move r m p m' p'
    → length m'.buffer ≡ length m.buffer
Move-length {r = producer} {m} {m'} (act {i} e) =
    let (h, x, l) = work-Worked producer (suc i) m m' e in l
Move-length {r = consumer} {m} {m'} (act {i} e) =
    let (h, x, l) = work-Worked consumer (suc i) m m' e in l
Move-length mv = refl

signal_producers :
    {held : Bool} {index : ℕ} {p p' c : Counts} (k : ℕ)
    → Shifted p p' (signalling k) (head (suc k))
    → c.at_sleep ≡ 0
    → Balance held index p c
    → Balance held index p' c
signal_producers k sh none b = record {
  full = b.full;
  owner = omega arith;
  room = omega arith;
  stock = omega arith;
  producers = λ sleeping. ground arith;
  consumers = λ sleeping. ground arith;
  flow = omega arith;
}

signal_producers_wakes :
    {held : Bool} {index : ℕ} {p p' c c' : Counts} (k i : ℕ)
    → Shifted p p' (signalling k) (head (suc k))
    → Shifted c c' (asleep i) (woken i)
    → Balance held index p c
    → Balance held index p' c'
signal_producers_wakes k i sh sh2 b = record {
  full = b.full;
  owner = omega arith;
  room = omega arith;
  stock = omega arith;
  producers = λ sleeping. ground arith;
  consumers = λ sleeping. ground arith;
  flow = omega arith;
}

signal_consumers :
    {held : Bool} {index : ℕ} {p c c' : Counts} (k : ℕ)
    → Shifted c c' (signalling k) (head (suc k))
    → p.at_sleep ≡ 0
    → Balance held index p c
    → Balance held index p c'
signal_consumers k sh none b = record {
  full = b.full;
  owner = omega arith;
  room = omega arith;
  stock = omega arith;
  producers = λ sleeping. ground arith;
  consumers = λ sleeping. ground arith;
  flow = omega arith;
}

signal_consumers_wakes :
    {held : Bool} {index : ℕ} {p p' c c' : Counts} (k i : ℕ)
    → Shifted c c' (signalling k) (head (suc k))
    → Shifted p p' (asleep i) (woken i)
    → Balance held index p c
    → Balance held index p' c'
signal_consumers_wakes k i sh sh2 b = record {
  full = b.full;
  owner = omega arith;
  room = omega arith;
  stock = omega arith;
  producers = λ sleeping. ground arith;
  consumers = λ sleeping. ground arith;
  flow = omega arith;
}

none_asleep :
    (n : ℕ) (f : ℕ → Point) → ((i j : ℕ) → j < n → ¬ (f j ≡ asleep i)) → census sleeps n f ≡ 0
none_asleep n f h = census-zero sleeps n f λ j lt. no_sleeper (f j) λ i. h i j lt
  where
    no_sleeper : (p : Point) → ((i : ℕ) → ¬ (p ≡ asleep i)) → sleeps p ≡ 0
    no_sleeper (asleep i) g = absurd (g i refl)
    no_sleeper p g = refl

Step-Balanced : {n : ℕ} {s t : System} → Step n s t → Inv n s → Balanced n t
unfolding other
Step-Balanced {n} {s} (moves producer i lt mv) inv =
    Move-producers mv (inv.range producer i) (Shifted-change n (s.threads producer) i _ lt)
      inv.balance
Step-Balanced {n} {s} (moves consumer i lt mv) inv =
    Move-consumers mv (inv.range consumer i) (Shifted-change n (s.threads consumer) i _ lt)
      inv.balance
Step-Balanced {n} {s} (signals producer i {k} lt e (nobody h)) inv =
    let sh = Shifted-change_at n (s.threads producer) i _ _ lt e in
    signal_producers k sh (none_asleep n (s.threads consumer) h) inv.balance
Step-Balanced {n} {s} (signals producer i {k} lt e (wakes {i = l} j lt' e')) inv =
    let sh = Shifted-change_at n (s.threads producer) i _ _ lt e in
    let sh' = Shifted-change_at n (s.threads consumer) j _ _ lt' e' in
    signal_producers_wakes k l sh sh' inv.balance
Step-Balanced {n} {s} (signals consumer i {k} lt e (nobody h)) inv =
    let sh = Shifted-change_at n (s.threads consumer) i _ _ lt e in
    signal_consumers k sh (none_asleep n (s.threads producer) h) inv.balance
Step-Balanced {n} {s} (signals consumer i {k} lt e (wakes {i = l} j lt' e')) inv =
    let sh = Shifted-change_at n (s.threads consumer) i _ _ lt e in
    let sh' = Shifted-change_at n (s.threads producer) j _ _ lt' e' in
    signal_consumers_wakes k l sh sh' inv.balance

-- A wake-up without a signal.
Balance-woken :
    {held : Bool} {index : ℕ} {p p' c c' : Counts} (i : ℕ)
    → (Shifted p p' (asleep i) (woken i) × (c' ≡ c))
      ⊎ (Shifted c c' (asleep i) (woken i) × (p' ≡ p))
    → Balance held index p c
    → Balance held index p' c'
Balance-woken i h b = record {
  full = b.full;
  owner = ground arith;
  room = ground arith;
  stock = ground arith;
  producers = λ sleeping. ground arith;
  consumers = λ sleeping. ground arith;
  flow = ground arith;
}

Spurious-Balanced : {n : ℕ} {s t : System} → Spurious n s t → Inv n s → Balanced n t
Spurious-Balanced {n} {s} (wakes_up producer i {k} lt e) inv =
    Balance-woken k (inl (Shifted-change_at n (s.threads producer) i _ _ lt e, refl)) inv.balance
Spurious-Balanced {n} {s} (wakes_up consumer i {k} lt e) inv =
    Balance-woken k (inr (Shifted-change_at n (s.threads consumer) i _ _ lt e, refl)) inv.balance

Signalled-IsInRange :
    {n : ℕ} {f : Threads} {r : Role} {g : Threads}
    → Signalled n f r g
    → ((q : Role) (j : ℕ) → IsInRange (f q j))
    → (q : Role) (j : ℕ) → IsInRange (g q j)
Signalled-IsInRange (nobody h) ok = ok
Signalled-IsInRange {f} {r} (wakes {i} j lt e) ok =
    IsInRange-move_to f r j (woken i) ok (subst IsInRange e (ok r j))

Step-Inv : {n : ℕ} {s t : System} → Step n s t → Inv n s → Inv n t
Step-Inv {n} {s} (moves r i lt mv) inv = record {
  len = Move-length mv ∙ inv.len;
  balance = Step-Balanced (moves r i lt mv) inv;
  range = IsInRange-move_to s.threads r i _ inv.range (Move-IsInRange mv (inv.range r i));
}
Step-Inv {n} {s} (signals r i {k} {f} lt e sg) inv = record {
  len = inv.len;
  balance = Step-Balanced (signals r i lt e sg) inv;
  range =
      let at : IsInRange (signalling k) = subst IsInRange e (inv.range r i) in
      IsInRange-move_to f r i (head (suc k)) (Signalled-IsInRange sg inv.range) (omega arith);
}

Spurious-Inv : {n : ℕ} {s t : System} → Spurious n s t → Inv n s → Inv n t
Spurious-Inv {n} {s} (wakes_up r i {k} lt e) inv = record {
  len = inv.len;
  balance = Spurious-Balanced (wakes_up r i lt e) inv;
  range = IsInRange-move_to s.threads r i (woken k) inv.range (subst IsInRange e (inv.range r i));
}

all_zero : (n : ℕ) (w : Point → ℕ) → w (head 0) ≡ 0 → census w n (λ _. head 0) ≡ 0
all_zero n w h = census-zero w n (λ _. head 0) λ _ _. h

Balance-init : (n : ℕ) → Balance false 0 (counts n (λ _. head 0)) (counts n (λ _. head 0))
Balance-init n =
    let none_tests = all_zero n tests_it refl in
    let none_sleeps = all_zero n sleeps refl in
    let none_works = all_zero n works refl in
    let none_unlocks = all_zero n unlocks refl in
    record {
      full = omega arith;
      owner = omega arith;
      room = omega arith;
      stock = omega arith;
      producers = λ sleeping. omega arith;
      consumers = λ sleeping. omega arith;
      flow = omega arith;
    }

Inv-init : (n : ℕ) (buffer : List ℕ) → length buffer ≡ size → Inv n (init buffer)
Inv-init n buffer len = record { len = len; balance = Balance-init n; range = λ r i. omega arith }

pub Reach-Inv : {n : ℕ} {s : System} → Reach n s → Inv n s
Reach-Inv {n} (start buffer len) = Inv-init n buffer len
Reach-Inv (later r st) = Step-Inv st (Reach-Inv r)
Reach-Inv (woke r st) = Spurious-Inv st (Reach-Inv r)
