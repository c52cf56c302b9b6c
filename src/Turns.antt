-- ===== src/Turns.antt =====
-- concurrency/printoddseven.c: two threads that print the even and the odd numbers in turns, with
-- a semaphore each.
mod Order
mod Tests
use codingforfun.Prelude.{ℕ, suc, ◌+◌, ◌-◌, ◌≤◌, ◌<◌, List, [], ◌∷◌}

-- Where `even` or `odd` stands, with its variable `i`.
pub data Point : Type 0 where
  head : (i : ℕ) → Point  -- before the test of the loop
  waiting : (i : ℕ) → Point  -- at sem_wait
  printing : (i : ℕ) → Point  -- at printf
  posting : (i : ℕ) → Point  -- at sem_post
  finished : (i : ℕ) → Point

-- One step of a thread that waits for the semaphore `mine` and posts `theirs`.
pub data Move (mine theirs : ℕ) (out : List ℕ) : Point → ℕ → ℕ → List ℕ → Point → Type 0 where
  enter : {i : ℕ} → i < 10 → Move mine theirs out (head i) mine theirs out (waiting i)
  leave : {i : ℕ} → 10 ≤ i → Move mine theirs out (head i) mine theirs out (finished i)
  wait : {i : ℕ} → 0 < mine → Move mine theirs out (waiting i) (mine - 1) theirs out (printing i)
  print : {i : ℕ} → Move mine theirs out (printing i) mine theirs (i ∷ out) (posting (i + 2))
  post : {i : ℕ} → Move mine theirs out (posting i) mine (suc theirs) out (head i)

-- `out` holds the numbers printed, the newest first.
pub record Program : Type 0 where
  pub even_sem : ℕ
  pub odd_sem : ℕ
  pub even : Point
  pub odd : Point
  pub out : List ℕ

pub data Step (s : Program) : Program → Type 0 where
  even_moves :
      {mine theirs : ℕ} {out : List ℕ} {p : Point}
      → Move s.even_sem s.odd_sem s.out s.even mine theirs out p
      → Step s (record { even_sem = mine; odd_sem = theirs; even = p; odd = s.odd; out = out })
  odd_moves :
      {mine theirs : ℕ} {out : List ℕ} {p : Point}
      → Move s.odd_sem s.even_sem s.out s.odd mine theirs out p
      → Step s (record { even_sem = theirs; odd_sem = mine; even = s.even; odd = p; out = out })

-- What `main` starts: the first turn is that of `odd`.
abbrev pub init : Program
init = record { even_sem = 0; odd_sem = 1; even = head 2; odd = head 1; out = [] }

-- A run of `k` steps of the program.
pub data Runs : ℕ → Program → Type 0 where
  start : Runs 0 init
  then : {k : ℕ} {s t : Program} → Runs k s → Step s t → Runs (suc k) t
