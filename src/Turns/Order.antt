-- ===== src/Turns/Order.antt =====
-- The numbers come in order, and the program ends.
use codingforfun.Prelude.{
  ℕ, zero, suc, ◌+◌, ◌-◌, ◌*◌, ◌%◌, ◌≤◌, ◌<◌, ◌≡◌, refl, List, [], ◌∷◌, length, arith, ◌⊎◌, inl,
  inr, ap, ◌∙◌,
}
use native.Mathlib.Decide.{dec_lt}
use codingforfun.Turns.{
  Point, head, waiting, printing, posting, finished, Move, enter, leave, wait, print, post, Program,
  Step, even_moves, odd_moves, Runs, start, then,
}

-- The numbers from `k` down to 1.
abbrev pub down : ℕ → List ℕ
down zero = []
down (suc k) = suc k ∷ down k

abbrev next : Point → ℕ
next (head i) = i
next (waiting i) = i
next (printing i) = i
next (posting i) = i
next (finished i) = i

abbrev prints : Point → ℕ
prints (printing _) = 1
prints _ = 0

abbrev posts : Point → ℕ
posts (posting _) = 1
posts _ = 0

abbrev IsInRange : Point → Type 0
IsInRange (head i) = i ≤ 11
IsInRange (waiting i) = i < 10
IsInRange (printing i) = i < 10
IsInRange (posting i) = i ≤ 11
IsInRange (finished i) = (10 ≤ i) × (i ≤ 11)

-- Of two threads, the one at `p` with the semaphore `mine`, the other at `q` with `theirs`: there
-- is one turn in all, and who has it prints the next number. `r` tells even numbers from odd ones.
record Turn (r : ℕ) (mine theirs : ℕ) (out : List ℕ) (p q : Point) : Type 0 where
  one : mine + prints p + posts q + (theirs + prints q + posts p) ≡ 1
  mine_next : next p ≡ length out + 1 + (theirs + prints q + posts p)
  theirs_next : next q ≡ length out + 1 + (mine + prints p + posts q)
  parity : (next p % 2 ≡ r) × ((next q + 1) % 2 ≡ r)
  range : IsInRange p × IsInRange q
  order : out ≡ down (length out)

Move-Turn :
    {r mine theirs : ℕ} {out : List ℕ} {p q : Point} {mine' theirs' : ℕ} {out' : List ℕ}
    {p' : Point}
    → Move mine theirs out p mine' theirs' out' p'
    → Turn r mine theirs out p q
    → Turn r mine' theirs' out' p' q
Move-Turn (enter g) t = record {
  one = t.one;
  mine_next = t.mine_next;
  theirs_next = t.theirs_next;
  parity = t.parity;
  range = (g, t.range.1);
  order = t.order;
}
Move-Turn (leave g) t = record {
  one = t.one;
  mine_next = t.mine_next;
  theirs_next = t.theirs_next;
  parity = t.parity;
  range = ((g, t.range.0), t.range.1);
  order = t.order;
}
Move-Turn (wait g) t = record {
  one = omega arith;
  mine_next = t.mine_next;
  theirs_next = omega arith;
  parity = t.parity;
  range = t.range;
  order = t.order;
}
Move-Turn {out} (print {i}) t = record {
  one = omega arith;
  mine_next = omega arith;
  theirs_next = omega arith;
  parity = (omega arith, t.parity.1);
  range = (omega arith, t.range.1);
  order = let e : i ≡ suc (length out) = omega arith in let rest = t.order in cc;
}
Move-Turn post t = record {
  one = omega arith;
  mine_next = omega arith;
  theirs_next = omega arith;
  parity = t.parity;
  range = t.range;
  order = t.order;
}

swap_even :
    {mine theirs : ℕ} {out : List ℕ} {p q : Point}
    → Turn 0 mine theirs out p q
    → Turn 1 theirs mine out q p
swap_even t = record {
  one = omega arith;
  mine_next = t.theirs_next;
  theirs_next = t.mine_next;
  parity = (omega arith, omega arith);
  range = (t.range.1, t.range.0);
  order = t.order;
}

swap_odd :
    {mine theirs : ℕ} {out : List ℕ} {p q : Point}
    → Turn 1 mine theirs out p q
    → Turn 0 theirs mine out q p
swap_odd t = record {
  one = omega arith;
  mine_next = t.theirs_next;
  theirs_next = t.mine_next;
  parity = (omega arith, omega arith);
  range = (t.range.1, t.range.0);
  order = t.order;
}

abbrev Inv : Program → Type 0
Inv s = Turn 1 s.odd_sem s.even_sem s.out s.odd s.even

Step-Inv : {s t : Program} → Step s t → Inv s → Inv t
Step-Inv (odd_moves mv) t = Move-Turn mv t
Step-Inv (even_moves mv) t = swap_even (Move-Turn mv (swap_odd t))

Runs-Inv : {k : ℕ} {s : Program} → Runs k s → Inv s
Runs-Inv start = record {
  one = omega arith;
  mine_next = omega arith;
  theirs_next = omega arith;
  parity = (omega arith, omega arith);
  range = (omega arith, omega arith);
  order = refl;
}
Runs-Inv (then run st) = Step-Inv st (Runs-Inv run)

-- A bound on the steps that a thread still takes.
abbrev to_go : Point → ℕ
to_go (head i) = 2 * (12 - i) + 1
to_go (waiting i) = 2 * (12 - i)
to_go (printing i) = 2 * (12 - i) - 1
to_go (posting i) = 2 * (12 - i) + 2
to_go (finished i) = 0

Move-to_go :
    {mine theirs : ℕ} {out : List ℕ} {p : Point} {mine' theirs' : ℕ} {out' : List ℕ} {p' : Point}
    → Move mine theirs out p mine' theirs' out' p'
    → IsInRange p
    → suc (to_go p') ≤ to_go p
Move-to_go (enter g) ok = omega arith
Move-to_go mv ok = omega arith

Runs-to_go : {k : ℕ} {s : Program} → Runs k s → k + to_go s.odd + to_go s.even ≤ 44
Runs-to_go start = omega arith
Runs-to_go (then run (odd_moves mv)) =
    omega (arith, Runs-to_go run, Move-to_go mv (Runs-Inv run).range.0)
Runs-to_go (then run (even_moves mv)) =
    omega (arith, Runs-to_go run, Move-to_go mv (Runs-Inv run).range.1)

-- Both threads have returned, and the numbers from 1 to 9 have been printed.
abbrev pub IsOver : Program → Type 0
IsOver s = (s.odd ≡ finished 11) × (s.even ≡ finished 10) × (s.out ≡ down 9)

-- What a thread can do, or why it cannot.
abbrev Blocked : ℕ → Point → Type 0
Blocked mine (waiting i) = mine ≡ 0
Blocked mine (finished i) = Unit
Blocked mine _ = ⊥

abbrev CanMove : ℕ → ℕ → List ℕ → Point → Type 0
CanMove mine theirs out p =
    (mine' : ℕ) × (theirs' : ℕ) × (out' : List ℕ) × (p' : Point) × Move mine theirs out p mine'
      theirs' out' p'

CanMove-Blocked :
    (mine theirs : ℕ) (out : List ℕ) (p : Point) → CanMove mine theirs out p ⊎ Blocked mine p
CanMove-Blocked mine theirs out (head i) = elim (dec_lt i 10) [
  | yes lt ↦ inl (_, _, _, _, enter lt)
  | no ge ↦ inl (_, _, _, _, leave (omega arith))
]
CanMove-Blocked mine theirs out (waiting i) = elim (dec_lt 0 mine) [
  | yes lt ↦ inl (_, _, _, _, wait lt)
  | no ge ↦ inr (omega arith)
]
CanMove-Blocked mine theirs out (printing i) = inl (_, _, _, _, print)
CanMove-Blocked mine theirs out (posting i) = inl (_, _, _, _, post)
CanMove-Blocked mine theirs out (finished i) = inr tt

-- Two threads that cannot move have finished.
both-Blocked :
    (mine theirs : ℕ) (out : List ℕ) (p q : Point)
    → Turn 1 mine theirs out p q
    → Blocked mine p
    → Blocked theirs q
    → (p ≡ finished 11) × (q ≡ finished 10) × (out ≡ down 9)
both-Blocked mine theirs out (waiting i) (waiting j) t a b = absurd (omega (arith, t.one))
both-Blocked mine theirs out (waiting i) (finished j) t a b =
    absurd (omega (arith, t.one, t.mine_next, t.theirs_next, t.parity, t.range))
both-Blocked mine theirs out (finished i) (waiting j) t a b =
    absurd (omega (arith, t.one, t.mine_next, t.theirs_next, t.parity, t.range))
both-Blocked mine theirs out (finished i) (finished j) t a b =
    let e : i ≡ 11 = omega (arith, t.parity, t.range) in
    let e' : j ≡ 10 = omega (arith, t.parity, t.range) in
    let size : length out ≡ 9 = omega (arith, t.one, t.mine_next, t.theirs_next) in
    (ap finished e, ap finished e', t.order ∙ ap down size)
both-Blocked mine theirs out (head i) q t a b = absurd a
both-Blocked mine theirs out (printing i) q t a b = absurd a
both-Blocked mine theirs out (posting i) q t a b = absurd a
both-Blocked mine theirs out p (head j) t a b = absurd b
both-Blocked mine theirs out p (printing j) t a b = absurd b
both-Blocked mine theirs out p (posting j) t a b = absurd b

-- In every state that the program can come to, the numbers printed are those from 1 on, in order;
-- a run has at most 44 steps; and a thread can take another step, or both have returned and the
-- numbers from 1 to 9 are printed. So the program ends, whatever the order of the steps.
pub turns_lem :
    {k : ℕ} {s : Program}
    → Runs k s
    → (s.out ≡ down (length s.out)) × (k ≤ 44) × (((t : Program) × Step s t) ⊎ IsOver s)
turns_lem {k} {s} run =
    let t = Runs-Inv run in
    (
      t.order,
      omega (arith, Runs-to_go run),
      elim (CanMove-Blocked s.odd_sem s.even_sem s.out s.odd) [
        | inl (_, _, _, _, mv) ↦ inl (_, odd_moves mv)
        | inr odd ↦ elim (CanMove-Blocked s.even_sem s.odd_sem s.out s.even) [
          | inl (_, _, _, _, mv) ↦ inl (_, even_moves mv)
          | inr even ↦ inr (both-Blocked s.odd_sem s.even_sem s.out s.odd s.even t odd even)
        ]
      ],
    )
