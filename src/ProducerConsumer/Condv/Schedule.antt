-- ===== src/ProducerConsumer/Condv/Schedule.antt =====
-- Reachable states of producerconsumer_condv.c by evaluation: the threads run in a given order.
use native.Mathlib.Decide.{dec_lt}
use codingforfun.Prelude.{
  ℕ, ◌<◌, ◌≡◌, refl, Bool, true, false, ◌⊎◌, inl, inr, List, [], ◌∷◌, Option, none, some, arith,
}
use codingforfun.Run.{Run, done, fault, no_fuel}
use codingforfun.ProducerConsumer.Points.{
  Shared, Role, other, blocked, Point, head, locking, testing, asleep, woken, inside, signalling,
  unlocking, finished, wakes,
}
use codingforfun.ProducerConsumer.Condv.{
  loops, work, Move, enter, leave, lock, wait, relock, pass, act_first, act, unlock, System, Step,
  moves, signals, Reach, later,
}

decide : (b : Bool) → (b ≡ true) ⊎ (b ≡ false)
decide true = inl refl
decide false = inr refl

Run-cases : (x : Run Shared) → Option ((m : Shared) × (x ≡ done m))
Run-cases (done m) = some (m, refl)
Run-cases fault = none
Run-cases no_fuel = none

abbrev Moved : Role → Shared → Point → Type 0
Moved r m p = (m' : Shared) × (p' : Point) × Move r m p m' p'

-- The move that a thread can make, if any; a producer draws the value 7.
unfoldable next_move : (r : Role) (m : Shared) (p : Point) → Option (Moved r m p)
unfolding decide Run-cases dec_lt
next_move r m (head i) = elim (dec_lt i loops) [
  | yes lt ↦ some (m, locking i, enter lt)
  | no ge ↦ some (m, finished, leave (omega arith))
]
next_move r m (locking i) = elim (decide m.held) [ inl e ↦ none | inr e ↦ some (_, _, lock e) ]
next_move r m (woken i) = elim (decide m.held) [ inl e ↦ none | inr e ↦ some (_, _, relock e) ]
next_move r m (testing i) = elim (decide (blocked r m)) [
  | inl e ↦ some (_, _, wait e)
  | inr e ↦ some (_, _, pass e)
]
next_move r m (inside i) = elim (Run-cases (work r 7 m)) [
  | none ↦ none
  | some (m', did) ↦ elim (decide (blocked (other r) m)) [
    | inl e ↦ some (m', signalling i, act_first 7 (omega arith) e did)
    | inr e ↦ some (m', unlocking i, act 7 (omega arith) e did)
  ]
]
next_move r m (unlocking i) = some (_, _, unlock)
next_move r m _ = none

signalling? : (p : Point) → Option ((k : ℕ) × (p ≡ signalling k))
signalling? (signalling k) = some (k, refl)
signalling? _ = none

asleep? : (p : Point) → Option ((k : ℕ) × (p ≡ asleep k))
asleep? (asleep k) = some (k, refl)
asleep? _ = none

-- Thread `i` of a role moves, or signals to the sleeper `j` of the other role.
pub data Turn : Type 0 where
  go : Role → ℕ → Turn
  wake : Role → ℕ → ℕ → Turn

pub record Ran (n : ℕ) : Type 0 where
  pub last : System
  pub reach : Reach n last

-- A turn that cannot be taken changes nothing.
unfoldable turn : {n : ℕ} → Ran n → Turn → Ran n
unfolding next_move decide Run-cases dec_lt signalling? asleep?
turn {n} x (go r i) = elim (dec_lt i n) [
  | no ge ↦ x
  | yes lt ↦ elim (next_move r x.last.shared (x.last.threads r i)) [
    | none ↦ x
    | some (m', p', mv) ↦ record { last = _; reach = later x.reach (moves r i lt mv) }
  ]
]
turn {n} x (wake r i j) = elim (dec_lt i n) [
  | no ge ↦ x
  | yes lt ↦ elim (dec_lt j n) [
    | no ge ↦ x
    | yes lt' ↦ elim (signalling? (x.last.threads r i)) [
      | none ↦ x
      | some (k, e) ↦ elim (asleep? (x.last.threads (other r) j)) [
        | none ↦ x
        | some (l, e') ↦ record {
          last = _;
          reach = later x.reach (signals r i lt e (wakes j lt' e'));
        }
      ]
    ]
  ]
]

unfoldable pub run : {n : ℕ} → Ran n → List Turn → Ran n
unfolding turn
run x [] = x
run x (t ∷ ts) = run (turn x t) ts

-- No step from a state in which every thread sleeps or has finished.
abbrev pub idle : Point → Bool
idle (asleep _) = true
idle finished = true
idle _ = false

Move-idle : {r : Role} {m m' : Shared} {p p' : Point} → Move r m p m' p' → idle p ≡ false
Move-idle (enter _) = refl
Move-idle mv = refl

pub idle-stops :
    {n : ℕ} {s t : System}
    → ((r : Role) (i : ℕ) → i < n → idle (s.threads r i) ≡ true)
    → ¬ Step n s t
idle-stops h (moves r i lt mv) = ground (arith, h r i lt, Move-idle mv)
idle-stops h (signals r i lt e sg) = ground (arith, h r i lt, e)
