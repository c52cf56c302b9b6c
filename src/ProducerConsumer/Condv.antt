-- ===== src/ProducerConsumer/Condv.antt =====
-- concurrency/producerconsumer_condv.c: `producer` and `consumer`, each a loop of two rounds, and
-- the threads that `main` starts, interleaved in any order. A thread signals only when the buffer
-- was empty (a producer) or full (a consumer), and does so with the mutex.
mod Balance
mod Safety
mod Schedule
mod Tests
use codingforfun.Prelude.{
  ℕ, suc, ◌+◌, ◌-◌, ◌≤◌, ◌<◌, ◌≡◌, Bool, true, false, List, [], ◌∷◌, ltb, if◌then◌else◌, length,
  get_or, set,
}
use codingforfun.Run.{Run, done, fault, ◌>>=◌}
use codingforfun.ProducerConsumer.Points.{
  size, Line, queueing, dequeing, overflow, underflow, Shared, Role, producer, consumer, other,
  blocked, Point, head, locking, testing, asleep, woken, inside, signalling, unlocking, finished,
  Threads, move_to, Signalled, all_at_head,
}

-- PRODUCER_LOOPS and CONSUMER_LOOPS
abbrev pub loops : ℕ
loops = 2

unfoldable pub insertbuffer : ℕ → Shared → Run Shared
insertbuffer value m =
    if ltb m.index1 size
    then (if ltb m.index1 (length m.buffer)
        then done (record m { buffer = set m.buffer m.index1 value; index1 = suc m.index1 })
        else fault)
    else done (record m { out = overflow ∷ m.out })

unfoldable pub dequeuebuffer : Shared → Run (ℕ × Shared)
dequeuebuffer m =
    if ltb 0 m.index1
    then (if ltb (m.index1 - 1) (length m.buffer)
        then done (get_or m.buffer (m.index1 - 1) 0, record m { index1 = m.index1 - 1 })
        else fault)
    else done (0, record m { out = underflow ∷ m.out })

-- What a thread does with the mutex, and the line that it prints before it unlocks.
unfoldable pub work : Role → ℕ → Shared → Run Shared
work producer value m = do
  m' ← insertbuffer value m
  done (record m' { out = queueing value ∷ m'.out })
work consumer value m = do (v, m') ← dequeuebuffer m; done (record m' { out = dequeing v ∷ m'.out })

-- One step of one thread but for the signal; `value` is `rand() % 100`.
pub data Move (r : Role) (m : Shared) : Point → Shared → Point → Type 0 where
  enter : {i : ℕ} → i < loops → Move r m (head i) m (locking i)
  leave : {i : ℕ} → loops ≤ i → Move r m (head i) m finished
  lock : {i : ℕ} → m.held ≡ false → Move r m (locking i) (record m { held = true }) (testing i)
  wait : {i : ℕ} → blocked r m ≡ true → Move r m (testing i) (record m { held = false }) (asleep i)
  relock : {i : ℕ} → m.held ≡ false → Move r m (woken i) (record m { held = true }) (testing i)
  pass : {i : ℕ} → blocked r m ≡ false → Move r m (testing i) m (inside i)
  act_first :
      {i : ℕ} (value : ℕ) {m' : Shared}
      → value < 100
      → blocked (other r) m ≡ true
      → work r value m ≡ done m'
      → Move r m (inside i) m' (signalling i)
  act :
      {i : ℕ} (value : ℕ) {m' : Shared}
      → value < 100
      → blocked (other r) m ≡ false
      → work r value m ≡ done m'
      → Move r m (inside i) m' (unlocking i)
  unlock : {i : ℕ} → Move r m (unlocking i) (record m { held = false }) (head (suc i))

pub record System : Type 0 where
  pub shared : Shared
  pub threads : Threads

-- A step of the `n` producers and `n` consumers that is no wake-up without a signal.
pub data Step (n : ℕ) (s : System) : System → Type 0 where
  moves :
      (r : Role) (i : ℕ) {m : Shared} {p : Point}
      → i < n
      → Move r s.shared (s.threads r i) m p
      → Step n s (record { shared = m; threads = move_to s.threads r i p })
  signals :
      (r : Role) (i : ℕ) {k : ℕ} {f : Threads}
      → i < n
      → s.threads r i ≡ signalling k
      → Signalled n s.threads (other r) f
      → Step n s (record { shared = s.shared; threads = move_to f r i (unlocking k) })

pub data Spurious (n : ℕ) (s : System) : System → Type 0 where
  wakes_up :
      (r : Role) (i : ℕ) {k : ℕ}
      → i < n
      → s.threads r i ≡ asleep k
      → Spurious n s (record s { threads = move_to s.threads r i (woken k) })

-- `main` with `n` producers and `n` consumers: the buffer is empty and every thread starts.
abbrev pub init : List ℕ → System
init buffer = record {
  shared = record { held = false; buffer = buffer; index1 = 0; out = [] };
  threads = all_at_head;
}

pub data Reach (n : ℕ) : System → Type 0 where
  start : (buffer : List ℕ) → length buffer ≡ size → Reach n (init buffer)
  later : {s t : System} → Reach n s → Step n s t → Reach n t
  woke : {s t : System} → Reach n s → Spurious n s t → Reach n t
