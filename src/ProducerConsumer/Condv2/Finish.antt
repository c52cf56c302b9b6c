-- ===== src/ProducerConsumer/Condv2/Finish.antt =====
-- Every run of producerconsumer_condv2.c comes to an end, with every thread finished.
use mathlib.Core.Path.{subst}
use codingforfun.Prelude.{ℕ, suc, ◌+◌, ◌-◌, ◌*◌, ◌≤◌, ◌<◌, ◌≡◌, arith, ap, sym, refl, ◌∙◌, ◌⊎◌}
use codingforfun.ProducerConsumer.Census.{census, census-change, census-le}
use codingforfun.ProducerConsumer.Points.{
  Shared, Role, producer, consumer, other, Point, head, locking, testing, asleep, woken, inside,
  signalling, unlocking, finished, Threads, move_to, Signalled, wakes, nobody,
}
use codingforfun.ProducerConsumer.Condv2.{
  loops, Move, enter, System, Step, moves, signals, Reach, later, IsOver, Runs, here, then,
}
use codingforfun.ProducerConsumer.Condv2.Balance.{IsInRange}
use codingforfun.ProducerConsumer.Condv2.Invariant.{Inv, Reach-Inv}
use codingforfun.ProducerConsumer.Condv2.Progress.{progress}

-- A bound on the steps that a thread still takes, with two for each signal that it sends.
abbrev to_go : Point → ℕ
to_go (head i) = 20 * (loops - i) + 1
to_go (locking i) = 20 * (loops - i)
to_go (woken i) = 20 * (loops - i) - 4
to_go (testing i) = 20 * (loops - i) - 5
to_go (asleep i) = 20 * (loops - i) - 6
to_go (inside i) = 20 * (loops - i) - 7
to_go (unlocking i) = 20 * (loops - i) - 8
to_go (signalling i) = 20 * (loops - i) - 9
to_go finished = 0

to_go-le : (p : Point) → to_go p + 0 ≤ 201
to_go-le p = ground arith

abbrev cost : ℕ → Threads → ℕ
cost n f = census to_go n (f producer) + census to_go n (f consumer)

cost-move_to :
    (n : ℕ) (f : Threads) (r : Role) (i : ℕ) (p : Point)
    → i < n
    → cost n (move_to f r i p) + to_go (f r i) ≡ cost n f + to_go p
cost-move_to n f producer i p lt = omega (arith, census-change to_go n (f producer) i p lt)
cost-move_to n f consumer i p lt = omega (arith, census-change to_go n (f consumer) i p lt)

Move-to_go :
    {r : Role} {m m' : Shared} {p p' : Point} → Move r m p m' p' → IsInRange p → to_go p' < to_go p
Move-to_go (enter lt) ok = omega arith
Move-to_go mv ok = omega arith

Signalled-cost :
    {n : ℕ} {f : Threads} {r : Role} {g : Threads}
    → Signalled n f r g
    → ((q : Role) (i : ℕ) → IsInRange (f q i))
    → cost n g ≤ cost n f + 2
Signalled-cost (nobody h) ok = omega arith
Signalled-cost {n} {f} {r} (wakes {i} j lt e) ok =
    let same : to_go (asleep i) ≡ to_go (f r j) = ap to_go (sym e) in
    let in_range : IsInRange (asleep i) = subst IsInRange e (ok r j) in
    omega (arith, cost-move_to n f r j (woken i) lt)

Signalled-own :
    {n : ℕ} {f : Threads} (r : Role) {g : Threads} (i : ℕ)
    → Signalled n f (other r) g
    → g r i ≡ f r i
unfolding other
Signalled-own r i (nobody h) = refl
Signalled-own producer i (wakes j lt e) = refl
Signalled-own consumer i (wakes j lt e) = refl

Step-cost : {n : ℕ} {s t : System} → Step n s t → Inv n s → cost n t.threads < cost n s.threads
Step-cost {n} {s} (moves r i {p} lt mv) inv =
    omega (arith, Move-to_go mv (inv.range r i), cost-move_to n s.threads r i p lt)
Step-cost {n} {s} (signals r i {k} {f} lt e sg) inv =
    let in_range : IsInRange (signalling k) = subst IsInRange e (inv.range r i) in
    let same : to_go (f r i) ≡ to_go (signalling k) = ap to_go (Signalled-own r i sg ∙ e) in
    omega (arith, Signalled-cost sg inv.range, cost-move_to n f r i (head (suc k)) lt)

pub Runs-Reach : {n : ℕ} {s : System} {k : ℕ} {t : System} → Reach n s → Runs n s k t → Reach n t
Runs-Reach r here = r
Runs-Reach r (then run st) = later (Runs-Reach r run) st

Runs-cost :
    {n : ℕ} {s : System} {k : ℕ} {t : System}
    → Reach n s
    → Runs n s k t
    → k + cost n t.threads ≤ cost n s.threads
Runs-cost r here = omega arith
Runs-cost r (then run st) =
    omega (arith, Runs-cost r run, Step-cost st (Reach-Inv (Runs-Reach r run)))

-- From a state that `n` producers and `n` consumers can come to, a run without further wake-ups
-- that no signal sent has at most 402 steps for each pair of threads; and where it has come to,
-- some thread can take another step, or all threads have finished and the buffer is empty. So the
-- program ends, whatever the order of the steps.
pub condv2_finishes :
    {n : ℕ} {s : System} {k : ℕ} {t : System}
    → Reach n s
    → Runs n s k t
    → (k ≤ 402 * n) × (((u : System) × Step n t u) ⊎ IsOver n t)
condv2_finishes {n} {s} r run = (
  omega (
    arith,
    Runs-cost r run,
    census-le to_go (λ _. 0) 201 n (s.threads producer) λ i lt. bound producer i,
    census-le to_go (λ _. 0) 201 n (s.threads consumer) λ i lt. bound consumer i,
  ),
  progress (Reach-Inv (Runs-Reach r run)),
)
  where
    bound : (q : Role) (i : ℕ) → to_go (s.threads q i) + 0 ≤ 201
    bound q i = to_go-le (s.threads q i)
