-- ===== src/ProducerConsumer/Condv/Balance.antt =====
-- How many threads of producerconsumer_condv.c hold the mutex, and what that says about the buffer.
use codingforfun.Prelude.{
  ℕ, suc, ◌+◌, ◌-◌, ◌≤◌, ◌<◌, ◌≡◌, refl, Bool, true, false, List, ◌∷◌, length, length-set, to_int,
  arith, Bool-cases, get_or, inl, inr, ltb, tally,
}
use codingforfun.Run.{done}
use codingforfun.ProducerConsumer.Points.{
  size, Line, overflow, underflow, Shared, Role, producer, consumer, blocked, isfull, isempty,
  Point, testing, inside, signalling, unlocking, queueing, dequeing,
}
use codingforfun.ProducerConsumer.Condv.{
  insertbuffer, dequeuebuffer, work, Move, lock, wait, relock, pass, act_first, act,
}

-- 1 for a thread behind the test of the inner `while`, before its operation.
abbrev pub works : Point → ℕ
works (inside _) = 1
works _ = 0

-- 1 for any other thread with the mutex.
abbrev pub rests : Point → ℕ
rests (testing _) = 1
rests (signalling _) = 1
rests (unlocking _) = 1
rests _ = 0

-- 1 for a thread with the mutex.
abbrev pub owns : Point → ℕ
owns p = rests p + works p

abbrev pub complains : Line → ℕ
complains overflow = 1
complains underflow = 1
complains _ = 0

-- `pw` producers and `cw` consumers are behind the test; `p` and `c` others have the mutex.
pub record Balance (m : Shared) (p pw c cw : ℕ) : Type 0 where
  pub len : length m.buffer ≡ size
  pub full : m.index1 ≤ size
  pub owner : p + pw + c + cw ≡ to_int m.held
  pub room : pw + m.index1 ≤ size
  pub stock : cw ≤ m.index1
  pub quiet : tally complains m.out ≡ 0

tally-cons : (w : Line → ℕ) (l : Line) (ls : List Line) → tally w (l ∷ ls) ≡ w l + tally w ls
unfolding tally
tally-cons w l ls = refl

-- What an operation does where there is room, or a value.
abbrev Worked : Role → Shared → Shared → Type 0
Worked r m m' =
    (m'.held ≡ m.held)
    × (length m'.buffer ≡ length m.buffer)
    × (tally complains m'.out ≡ tally complains m.out)
    × Moved r m m'
  where
    Moved : Role → Shared → Shared → Type 0
    Moved producer m m' = m'.index1 ≡ suc m.index1
    Moved consumer m m' = suc m'.index1 ≡ m.index1

insertbuffer-Worked :
    (v : ℕ) (m m' : Shared) → m.index1 < size → work producer v m ≡ done m' → Worked producer m m'
unfolding work insertbuffer
insertbuffer-Worked v m m' room e = elim (Bool-cases (ltb m.index1 (length m.buffer))) [
  | inl b ↦ ground (arith, length-set m.buffer m.index1 v, tally-cons complains (queueing v) m.out)
  | inr b ↦ absurd (ground arith)
]

dequeuebuffer-Worked :
    (v : ℕ) (m m' : Shared) → 0 < m.index1 → work consumer v m ≡ done m' → Worked consumer m m'
unfolding work dequeuebuffer
dequeuebuffer-Worked v m m' some_left e = elim (Bool-cases (ltb (m.index1 - 1) (length m.buffer))) [
  | inl b ↦ ground (arith, tally-cons complains (dequeing (get_or m.buffer (m.index1 - 1) 0)) m.out)
  | inr b ↦ absurd (ground arith)
]

pub to_int-le : (b : Bool) → to_int b ≤ 1
to_int-le true = omega arith
to_int-le false = omega arith

-- `n'` is `n` after a thread went from `x` to `x'`.
abbrev Shifted : (Point → ℕ) → ℕ → ℕ → Point → Point → Type 0
Shifted w n n' x x' = n' + w x ≡ n + w x'

-- The premise of a move that is no operation.
abbrev Guard : {r : Role} {m m' : Shared} {p p' : Point} → Move r m p m' p' → Type 0
Guard {m} (lock _) = m.held ≡ false
Guard {r} {m} (wait _) = blocked r m ≡ true
Guard {m} (relock _) = m.held ≡ false
Guard {r} {m} (pass _) = blocked r m ≡ false
Guard _ = Unit

guard : {r : Role} {m m' : Shared} {p p' : Point} (mv : Move r m p m' p') → Guard mv
guard (lock g) = g
guard (wait g) = g
guard (relock g) = g
guard (pass g) = g
guard _ = tt

acted_producers :
    {m m' : Shared} (v p p' pw pw' c cw : ℕ)
    → work producer v m ≡ done m'
    → p' ≡ p + 1
    → pw' + 1 ≡ pw
    → Balance m p pw c cw
    → Balance m' p' pw' c cw
acted_producers {m} {m'} v p p' pw pw' c cw e own wk b =
    let did = insertbuffer-Worked v m m' (omega (arith, b.room)) e in
    record {
      len = omega (arith, b.len, did);
      full = ground (arith, b.full, b.room, did);
      owner = ground (arith, b.owner, did);
      room = ground (arith, b.room, did);
      stock = ground (arith, b.stock, did);
      quiet = omega (arith, b.quiet, did);
    }

pub Move-producers :
    {m m' : Shared} {x x' : Point} (p p' pw pw' c cw : ℕ)
    → Move producer m x m' x'
    → Shifted rests p p' x x'
    → Shifted works pw pw' x x'
    → Balance m p pw c cw
    → Balance m' p' pw' c cw
unfolding blocked isfull
Move-producers p p' pw pw' c cw (act_first v lt e did) own wk b =
    acted_producers v p p' pw pw' c cw did (omega arith) (omega arith) b
Move-producers p p' pw pw' c cw (act v lt e did) own wk b =
    acted_producers v p p' pw pw' c cw did (omega arith) (omega arith) b
Move-producers {m} p p' pw pw' c cw mv own wk b = record {
  len = b.len;
  full = b.full;
  owner = ground (arith, b.owner, guard mv);
  room = ground (arith, b.room, b.owner, guard mv, to_int-le m.held);
  stock = ground (arith, b.stock);
  quiet = b.quiet;
}

acted_consumers :
    {m m' : Shared} (v p pw c c' cw cw' : ℕ)
    → work consumer v m ≡ done m'
    → c' ≡ c + 1
    → cw' + 1 ≡ cw
    → Balance m p pw c cw
    → Balance m' p pw c' cw'
acted_consumers {m} {m'} v p pw c c' cw cw' e own wk b =
    let did = dequeuebuffer-Worked v m m' (omega (arith, b.stock)) e in
    record {
      len = omega (arith, b.len, did);
      full = ground (arith, b.full, b.room, did);
      owner = ground (arith, b.owner, did);
      room = ground (arith, b.room, did);
      stock = ground (arith, b.stock, did);
      quiet = omega (arith, b.quiet, did);
    }

pub Move-consumers :
    {m m' : Shared} {x x' : Point} (p pw c c' cw cw' : ℕ)
    → Move consumer m x m' x'
    → Shifted rests c c' x x'
    → Shifted works cw cw' x x'
    → Balance m p pw c cw
    → Balance m' p pw c' cw'
unfolding blocked isempty
Move-consumers p pw c c' cw cw' (act_first v lt e did) own wk b =
    acted_consumers v p pw c c' cw cw' did (omega arith) (omega arith) b
Move-consumers p pw c c' cw cw' (act v lt e did) own wk b =
    acted_consumers v p pw c c' cw cw' did (omega arith) (omega arith) b
Move-consumers {m} p pw c c' cw cw' mv own wk b = record {
  len = b.len;
  full = b.full;
  owner = ground (arith, b.owner, guard mv);
  room = ground (arith, b.room);
  stock = ground (arith, b.stock, b.owner, guard mv, to_int-le m.held);
  quiet = b.quiet;
}
