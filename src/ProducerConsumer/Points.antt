-- ===== src/ProducerConsumer/Points.antt =====
-- What both programs share: the buffer that the mutex guards, the points at which a thread of
-- concurrency/producerconsumer_condv.c or producerconsumer_condv2.c can stand, and what
-- pthread_cond_signal does to the threads that sleep on a condition.
use codingforfun.Prelude.{ℕ, ◌<◌, ◌≡◌, Bool, List, ◌==◌}
use codingforfun.ProducerConsumer.Census.{change}

abbrev pub size : ℕ
size = 10

-- The lines that the threads print, but for the thread numbers in them.
pub data Line : Type 0 where
  queueing : ℕ → Line
  dequeing : ℕ → Line
  overflow : Line
  underflow : Line

-- `held` is the mutex `buffer_lock`; `index1` is `buffer_index` in producerconsumer_condv.c; `out`
-- holds the lines printed while the mutex was held, the newest first.
pub record Shared : Type 0 where
  pub held : Bool
  pub buffer : List ℕ
  pub index1 : ℕ
  pub out : List Line

unfoldable pub isfull : Shared → Bool
isfull m = m.index1 == size

unfoldable pub isempty : Shared → Bool
isempty m = m.index1 == 0

-- A producer waits on `full_cond` while the buffer is full, a consumer on `empty_cond` while it is
-- empty: each condition has the sleepers of one role.
pub data Role : Type 0 where
  producer : Role
  consumer : Role

unfoldable pub other : Role → Role
other producer = consumer
other consumer = producer

-- the test of the role's inner `while`
unfoldable pub blocked : Role → Shared → Bool
blocked producer = isfull
blocked consumer = isempty

-- Where a thread stands. `i` is the number of rounds it has made: the variable `i` at the head of
-- the outer `while`, and one less than that variable in the body, after `i++`.
pub data Point : Type 0 where
  head : (i : ℕ) → Point  -- before the test of the outer `while`
  locking : (i : ℕ) → Point  -- at pthread_mutex_lock
  testing : (i : ℕ) → Point  -- at the test of the inner `while`, with the mutex
  asleep : (i : ℕ) → Point  -- in pthread_cond_wait
  woken : (i : ℕ) → Point  -- in pthread_cond_wait, woken, before it has the mutex again
  inside : (i : ℕ) → Point  -- behind the inner `while`, with the mutex
  signalling : (i : ℕ) → Point  -- at pthread_cond_signal
  unlocking : (i : ℕ) → Point  -- at pthread_mutex_unlock
  finished : Point

-- The threads of each role, by number.
abbrev pub Threads : Type 0
Threads = Role → ℕ → Point

abbrev pub move_to : Threads → Role → ℕ → Point → Threads
move_to f producer i p producer = change (f producer) i p
move_to f producer i p consumer = f consumer
move_to f consumer i p producer = f producer
move_to f consumer i p consumer = change (f consumer) i p

-- pthread_cond_signal wakes one thread that sleeps on the condition, if there is one.
pub data Signalled (n : ℕ) (f : Threads) (r : Role) : Threads → Type 0 where
  wakes : {i : ℕ} (j : ℕ) → j < n → f r j ≡ asleep i → Signalled n f r (move_to f r j (woken i))
  nobody : ((i j : ℕ) → j < n → ¬ (f r j ≡ asleep i)) → Signalled n f r f

abbrev pub all_at_head : Threads
all_at_head _ _ = head 0
