-- ===== src/ProducerConsumer/Condv2.antt =====
-- concurrency/producerconsumer_condv2.c: `producer` and `consumer`, each a loop of ten rounds, and
-- the threads that `main` starts, interleaved in any order. POSIX lets a waiting thread wake up
-- without a signal, and so does `Step`.
mod Balance
mod Invariant
mod Moving
mod Progress
mod Finish
mod Safety
mod Values
mod Tests
use codingforfun.Prelude.{
  ℕ, suc, ◌+◌, ◌-◌, ◌≤◌, ◌<◌, ◌≡◌, Bool, true, false, List, [], ◌∷◌, ltb, leb, if◌then◌else◌,
  length, get_or, set, ==_refl, ◌==◌,
}
use codingforfun.Run.{Run, done, fault}
use codingforfun.ProducerConsumer.Points.{
  size, Line, queueing, dequeing, Shared, Role, producer, consumer, other, blocked, Point, head,
  locking, testing, asleep, woken, inside, signalling, unlocking, finished, Threads, move_to,
  Signalled, all_at_head,
}

abbrev pub loops : ℕ
loops = 10

-- `queue(v)`: the assertion, then the write, which faults behind the end of the array.
unfoldable pub queue : ℕ → Shared → Run Shared
queue v m =
    if leb m.index1 size
    then (if ltb m.index1 (length m.buffer)
        then done (record m {
          buffer = set m.buffer m.index1 v;
          index1 = suc m.index1;
          out = queueing v ∷ m.out;
        })
        else fault)
    else fault

-- `v = dequeue()`, then the line printed; `--index1` at 0 would read before the array.
unfoldable pub dequeue : Shared → Run Shared
dequeue m =
    if m.index1 == 0
    then fault
    else (if ltb (m.index1 - 1) (length m.buffer)
        then done (record m {
          index1 = m.index1 - 1;
          out = dequeing (get_or m.buffer (m.index1 - 1) 0) ∷ m.out;
        })
        else fault)

-- What a thread does with the mutex; a producer queues its `i`.
unfoldable pub work : Role → ℕ → Shared → Run Shared
work producer i m = queue i m
work consumer i m = dequeue m

-- One step of one thread but for the signal.
pub data Move (r : Role) (m : Shared) : Point → Shared → Point → Type 0 where
  enter : {i : ℕ} → i < loops → Move r m (head i) m (locking i)
  leave : {i : ℕ} → loops ≤ i → Move r m (head i) m finished
  lock : {i : ℕ} → m.held ≡ false → Move r m (locking i) (record m { held = true }) (testing i)
  wait : {i : ℕ} → blocked r m ≡ true → Move r m (testing i) (record m { held = false }) (asleep i)
  relock : {i : ℕ} → m.held ≡ false → Move r m (woken i) (record m { held = true }) (testing i)
  pass : {i : ℕ} → blocked r m ≡ false → Move r m (testing i) m (inside i)
  act : {i : ℕ} {m' : Shared} → work r (suc i) m ≡ done m' → Move r m (inside i) m' (unlocking i)
  unlock : {i : ℕ} → Move r m (unlocking i) (record m { held = false }) (signalling i)

pub record System : Type 0 where
  pub shared : Shared
  pub threads : Threads

-- A step of the `n` producers and `n` consumers that is no wake-up without a signal.
pub data Step (n : ℕ) (s : System) : System → Type 0 where
  moves :
      (r : Role) (i : ℕ) {m : Shared} {p : Point}
      → i < n
      → Move r s.shared (s.threads r i) m p
      → Step n s (record { shared = m; threads = move_to s.threads r i p })
  signals :
      (r : Role) (i : ℕ) {k : ℕ} {f : Threads}
      → i < n
      → s.threads r i ≡ signalling k
      → Signalled n s.threads (other r) f
      → Step n s (record { shared = s.shared; threads = move_to f r i (head (suc k)) })

pub data Spurious (n : ℕ) (s : System) : System → Type 0 where
  wakes_up :
      (r : Role) (i : ℕ) {k : ℕ}
      → i < n
      → s.threads r i ≡ asleep k
      → Spurious n s (record s { threads = move_to s.threads r i (woken k) })

-- `main` with `n` producers and `n` consumers: the buffer is empty and every thread starts.
abbrev pub init : List ℕ → System
init buffer = record {
  shared = record { held = false; buffer = buffer; index1 = 0; out = [] };
  threads = all_at_head;
}

-- The states that the program can come to; the array has its ten entries, whatever they hold.
pub data Reach (n : ℕ) : System → Type 0 where
  start : (buffer : List ℕ) → length buffer ≡ size → Reach n (init buffer)
  later : {s t : System} → Reach n s → Step n s t → Reach n t
  woke : {s t : System} → Reach n s → Spurious n s t → Reach n t

-- All threads have returned, so that `main` joins them, and the buffer is empty.
abbrev pub IsOver : ℕ → System → Type 0
IsOver n s = ((r : Role) (i : ℕ) → i < n → s.threads r i ≡ finished) × (s.shared.index1 ≡ 0)

-- A run of `k` steps without a wake-up that no signal sent.
pub data Runs (n : ℕ) (s : System) : ℕ → System → Type 0 where
  here : Runs n s 0 s
  then : {k : ℕ} {t u : System} → Runs n s k t → Step n t u → Runs n s (suc k) u
