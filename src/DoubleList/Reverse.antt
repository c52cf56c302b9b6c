-- ===== src/DoubleList/Reverse.antt =====
-- reverse_double and reverse_double_circular link the same nodes in reverse order.
use mathlib.Core.List.{reverse_aux, reverse}
use codingforfun.Prelude.{
  ℕ, zero, suc, ◌<◌, ◌≡◌, refl, sym, ◌∙◌, ==_refl, [], ◌∷◌, true, false, ◌==◌, arith, length,
}
use codingforfun.Run.{◌>>=◌, Returns, returns, Returns-mono}
use codingforfun.Memory.{Ptr, null, Heap, put, put_self, put_other, read-done}
use codingforfun.SingleList.Segment.{Cells, start, Apart, Disjoint, Disjoint-nil, Disjoint-cons}
use codingforfun.DoubleList.{
  Node, node, turn_round, turn_last, reverse_double, reverse_double_circular,
}
use codingforfun.DoubleList.Segment.{
  Segment, Segment-put, set_next-done, set_prev-done, Segment-change, Apart-null,
}

-- The heaps agree but at the cells.
abbrev pub Agree : Cells → Heap Node → Heap Node → Type 0
Agree xs h g = (a : Ptr) → Apart a xs → g a ≡ h a

-- The list pointer and the heap hold the cells in reverse.
abbrev Turned : Ptr → Ptr → Cells → Cells → Heap Node → Ptr × Heap Node → Type 0
Turned stop last old xs h (list, g) =
    (list ≡ start xs last) × Segment g stop xs last × Agree old h g

-- `ptr` is at the first cell, and the cells `ys` are turned round already.
turn_round-Turned :
    (fuel : ℕ) (stop last : Ptr) (h : Heap Node) (c : Ptr) (v : ℕ) (zs ys : Cells)
    → length zs < fuel
    → Segment h (start ys last) ((c, v) ∷ zs) stop
    → Segment h c ys last
    → Disjoint ys ((c, v) ∷ zs)
    → Apart stop zs
    → Returns
        (Turned stop last ((c, v) ∷ zs) (reverse_aux zs ((c, v) ∷ ys)) h)
        (turn_round fuel stop h c (start zs stop) >>= turn_last stop)
unfolding turn_round turn_last
turn_round-Turned zero stop last h c v zs ys enough s t d past = absurd (omega arith)
turn_round-Turned (suc fuel) stop last h c v [] ys enough s t d past =
    let g = put h c (node (start ys last) (start ys last) v) in
    let holds = put_self h c (node (start ys last) (start ys last) v) in
    let turned = Segment-put h c ys last c (node (start ys last) (start ys last) v) d.0 t in
    rw
      (
        ==_refl stop,
        read-done h c (node stop (start ys last) v) s.0 s.1,
        set_next-done h c stop (start ys last) (start ys last) v s.0 s.1,
        set_prev-done g c (start ys last) (start ys last) stop v s.0 holds,
      )
      (returns (
        refl,
        Segment-change g stop c v ys last s.0 d.0 turned,
        λ a apart.
            put_other g c a (node (start ys last) stop v) apart.0
            ∙ put_other h c a (node (start ys last) (start ys last) v) apart.0,
      ))
turn_round-Turned (suc fuel) stop last h c v ((e, u) ∷ zs) ys enough s t d past =
    let going : (e == stop) ≡ false = ground (arith, past.0) in
    let prev = start ys last in
    let g = put h c (node prev prev v) in
    let holds = put_self h c (node prev prev v) in
    let f = put g c (node prev e v) in
    let turned = Segment-put h c ys last c (node prev prev v) d.0 t in
    let ahead_g = Segment-put h c ((e, u) ∷ zs) stop c (node prev prev v) s.2 s.3 in
    let ahead = Segment-put g c ((e, u) ∷ zs) stop c (node prev e v) s.2 ahead_g in
    rw
      (
        going,
        read-done h c (node e prev v) s.0 s.1,
        set_next-done h c e prev prev v s.0 s.1,
        set_prev-done g c prev prev e v s.0 holds,
        read-done f e (node (start zs stop) c u) ahead.0 ahead.1,
      )
      (Returns-mono
        (turn_round-Turned fuel stop last f e u zs ((c, v) ∷ ys) (omega arith) ahead
          (Segment-change g e c v ys last s.0 d.0 turned)
          (Disjoint-cons c v ys ((e, u) ∷ zs) s.2 d.1) past.1)
        λ (list, k) r. (
          r.0,
          r.1,
          λ a apart.
              r.2 a apart.1
              ∙ put_other g c a (node prev e v) apart.0
              ∙ put_other h c a (node prev prev v) apart.0,
        ))

-- The address of the last cell, or `p` if there is none.
abbrev pub final : Ptr → Cells → Ptr
final p [] = p
final p ((a, v) ∷ xs) = final a xs

-- A list that starts and ends in NULL.
abbrev pub IsList : Heap Node → Ptr → Cells → Type 0
IsList h list xs = (list ≡ start xs null) × Segment h null xs null

-- A circle: the last cell leads to the first, and the first back to the last.
abbrev pub IsCircle : Heap Node → Ptr → Cells → Type 0
IsCircle h list xs = (list ≡ start xs null) × Segment h (final null xs) xs (start xs null)

-- The list pointer and the heap hold the cells, and the other addresses have not changed.
abbrev pub Rearranged : Cells → Cells → Heap Node → Ptr × Heap Node → Type 0
Rearranged old xs h (list, g) = IsList g list xs × Agree old h g

abbrev pub RearrangedCircle : Cells → Cells → Heap Node → Ptr × Heap Node → Type 0
RearrangedCircle old xs h (list, g) = IsCircle g list xs × Agree old h g

start-reverse_aux :
    (zs ys : Cells) (c q : Ptr) (v : ℕ) → start (reverse_aux zs ((c, v) ∷ ys)) q ≡ final c zs
start-reverse_aux [] ys c q v = refl
start-reverse_aux ((e, u) ∷ zs) ys c q v = start-reverse_aux zs ((c, v) ∷ ys) e q u

final-reverse_aux :
    (zs ys : Cells) (c p : Ptr) (v : ℕ) → final p (reverse_aux zs ((c, v) ∷ ys)) ≡ final c ys
final-reverse_aux [] ys c p v = refl
final-reverse_aux ((e, u) ∷ zs) ys c p v = final-reverse_aux zs ((c, v) ∷ ys) e p u

-- reverse_double on a list that starts and ends in NULL ends without an access to anything but its
-- nodes, and leaves the same nodes in reverse order, linked in both directions.
reverse_double-Rearranged :
    (fuel : ℕ) (xs : Cells) (h : Heap Node)
    → length xs < fuel
    → Segment h null xs null
    → Returns (Rearranged xs (reverse xs) h) (reverse_double fuel (start xs null) h)
unfolding reverse_double
reverse_double-Rearranged fuel [] h enough s = returns ((refl, tt), λ a apart. refl)
reverse_double-Rearranged fuel ((c, v) ∷ []) h enough s =
    let some_node : (c == null) ≡ false = ground (arith, s.0) in
    rw (some_node, read-done h c (node null null v) s.0 s.1) (returns ((refl, s), λ a apart. refl))
reverse_double-Rearranged fuel ((c, v) ∷ (e, u) ∷ zs) h enough s =
    let some_node : (c == null) ≡ false = ground (arith, s.0) in
    let two : (e == null) ≡ false = ground (arith, s.3.0) in
    rw (some_node, read-done h c (node e null v) s.0 s.1, two)
      (Returns-mono
        (turn_round-Turned fuel null null h c v ((e, u) ∷ zs) [] (omega arith) s tt
          (tt, Disjoint-nil ((e, u) ∷ zs)) (Apart-null h c ((e, u) ∷ zs) null s.3))
        λ (list, g) r. ((r.0, r.1), r.2))

-- reverse_double_circular on a circle ends without an access to anything but its nodes, and leaves
-- the circle of the same nodes in reverse order.
reverse_double_circular-RearrangedCircle :
    (fuel : ℕ) (list : Ptr) (xs : Cells) (h : Heap Node)
    → length xs < fuel
    → IsCircle h list xs
    → Returns (RearrangedCircle xs (reverse xs) h) (reverse_double_circular fuel list h)
unfolding reverse_double_circular
reverse_double_circular-RearrangedCircle fuel list [] h enough s =
    let empty : (list == null) ≡ true = ground arith in rw empty (returns (s, λ b apart. refl))
reverse_double_circular-RearrangedCircle fuel list ((a, v) ∷ []) h enough (here, s) =
    let some_node : (a == null) ≡ false = ground (arith, s.0) in
    rw here (
      rw (some_node, read-done h a (node a a v) s.0 s.1, ==_refl a)
        (returns ((refl, s), λ b apart. refl)))
reverse_double_circular-RearrangedCircle fuel list ((a, v) ∷ (e, u) ∷ zs) h enough (here, s) =
    let some_node : (a == null) ≡ false = ground (arith, s.0) in
    let more : (e == a) ≡ false = ground (arith, s.2.0) in
    let last = final e zs in
    rw here (
      rw (some_node, read-done h a (node e last v) s.0 s.1, more)
        (Returns-mono
          (turn_round-Turned fuel a last h a v ((e, u) ∷ zs) [] (omega arith) s tt
            (tt, Disjoint-nil ((e, u) ∷ zs)) s.2)
          λ (list', g) r.
            let first = start-reverse_aux ((e, u) ∷ zs) [] a null v in
            let same = start-reverse_aux ((e, u) ∷ zs) [] a last v in
            let end = final-reverse_aux ((e, u) ∷ zs) [] a null v in
            ((r.0 ∙ same ∙ sym first, rw (end, first) r.1), r.2)))

-- reverse_double on a list that starts and ends in NULL, and reverse_double_circular on a circle,
-- end without an access to anything but its nodes, and leave the list, or the circle, of the same
-- nodes in reverse order, linked in both directions.
pub reversals_lem :
    (fuel : ℕ) (xs ys : Cells) (list : Ptr) (h k : Heap Node)
    → length xs < fuel
    → length ys < fuel
    → Segment h null xs null
    → IsCircle k list ys
    → Returns (Rearranged xs (reverse xs) h) (reverse_double fuel (start xs null) h)
      × Returns (RearrangedCircle ys (reverse ys) k) (reverse_double_circular fuel list k)
reversals_lem fuel xs ys list h k enough enough' s c = (
  reverse_double-Rearranged fuel xs h enough s,
  reverse_double_circular-RearrangedCircle fuel list ys k enough' c,
)
