-- ===== src/Turns/Tests.antt =====
-- The first turns of printoddseven.c.
use codingforfun.Prelude.{◌≤◌, ◌≡◌, [], ◌∷◌, ◌⊎◌, length, arith}
use codingforfun.Turns.{
  head, printing, Program, Step, even_moves, odd_moves, Runs, start, then, enter, wait, print, post,
}
use codingforfun.Turns.Order.{down, IsOver, turns_lem}

-- The second thread has the turn after the first number.
abbrev second : Program
second = record { even_sem = 0; odd_sem = 0; even = printing 2; odd = head 3; out = 1 ∷ [] }

second-run : Runs 6 second
second-run =
    let a = then start (odd_moves (enter (omega arith))) in
    let b = then a (odd_moves (wait (omega arith))) in
    let c = then b (odd_moves print) in
    let d = then c (even_moves (enter (omega arith))) in
    let e = then d (odd_moves post) in then e (even_moves (wait (omega arith)))

turns_lem_example :
    (second.out ≡ down (length second.out))
    × (6 ≤ 44)
    × (((t : Program) × Step second t) ⊎ IsOver second)
turns_lem_example = turns_lem second-run
