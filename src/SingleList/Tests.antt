-- ===== src/SingleList/Tests.antt =====
-- Lists in a concrete heap, and each theorem at them.
use codingforfun.Prelude.{◌≡◌, refl, [], ◌∷◌, none, arith}
use mathlib.Core.List.{reverse}
use codingforfun.Run.{done, Returns, ◌>>=◌}
use codingforfun.Memory.{Ptr, Heap, put, read, write}
use codingforfun.SingleList.{
  Node, node, insert_single, insert_single2, insert_singlecircular, reverse_single,
  reverse_singlecircular, set_next,
}
use codingforfun.SingleList.Segment.{Cells, Apart, Segment}
use codingforfun.SingleList.Insert.{Holds, insert_sorted, insert_single-Holds}
use codingforfun.SingleList.Order.{Inserted, insert_single-Inserted}
use codingforfun.SingleList.Circular.{HoldsCircle, insert_circle, insert_singlecircular-HoldsCircle}
use codingforfun.SingleList.Reverse.{Rearranged}
use codingforfun.SingleList.ReverseCircular.{RearrangedCircle, single_reversals_lem}
use codingforfun.SingleList.Lossy.{HoldsAs, replace_behind, insert_single2-HoldsAs}

abbrev nothing : Heap Node
nothing a = none

-- Addresses 8, 24 and 16 with the values 1, 3 and 5.
abbrev cells : Cells
cells = (8, 1) ∷ (24, 3) ∷ (16, 5) ∷ []

abbrev behind : Cells
behind = (24, 3) ∷ (16, 5) ∷ []

-- The three nodes, the last of which leads to `last`.
abbrev heap : Ptr → Heap Node
heap last = put (put (put nothing 16 (node last 5)) 24 (node 16 3)) 8 (node 24 1)

cells-Segment : (last : Ptr) → Segment (heap last) cells last
unfolding put
cells-Segment last = (
  omega arith,
  refl,
  (omega arith, (omega arith, tt)),
  (omega arith, refl, (omega arith, tt), (omega arith, refl, tt, tt)),
)

apart : Apart 32 cells
apart = (omega arith, (omega arith, (omega arith, tt)))

-- The values of a reversed circle, two rounds of it.
circle-reversed :
    (do
      (p, h) ← reverse_singlecircular 5 8 (heap 8)
      a ← read h p
      b ← read h a.next
      c ← read h b.next
      d ← read h c.next
      done (a.value ∷ b.value ∷ c.value ∷ d.value ∷ []))
    ≡ done (5 ∷ 3 ∷ 1 ∷ 5 ∷ [])
unfolding reverse_singlecircular set_next read write put
circle-reversed = refl

insert_single-Holds_example :
    Returns (Holds 32 cells (insert_sorted 32 4 cells) (heap 0)) (insert_single 4 32 8 4 (heap 0))
insert_single-Holds_example =
    insert_single-Holds 4 32 cells 4 (heap 0) (omega arith) (omega arith) apart (cells-Segment 0)

insert_single-Inserted_example :
    Returns (Inserted 32 4 cells (heap 0)) (insert_single 4 32 8 4 (heap 0))
insert_single-Inserted_example =
    insert_single-Inserted 4 32 cells 4 (heap 0) (omega arith) (omega arith) apart (cells-Segment 0)
      (omega arith, (omega arith, tt))

insert_singlecircular-HoldsCircle_example :
    Returns
      (HoldsCircle 32 cells (insert_circle 32 4 cells) (heap 8))
      (insert_singlecircular 4 32 8 4 (heap 8))
insert_singlecircular-HoldsCircle_example =
    insert_singlecircular-HoldsCircle 4 32 8 cells 4 (heap 8) (omega arith) (omega arith) apart
      (refl, cells-Segment 8)

insert_single2-HoldsAs_example :
    Returns
      (HoldsAs 32 cells ((8, 1) ∷ replace_behind 32 4 behind) (heap 0))
      (insert_single2 4 32 8 4 (heap 0))
insert_single2-HoldsAs_example =
    insert_single2-HoldsAs 4 32 8 1 behind 4 (heap 0) (omega arith) (omega arith) apart
      (cells-Segment 0) (omega arith)

single_reversals_lem_example :
    Returns (Rearranged cells (reverse cells) (heap 0)) (reverse_single 4 8 (heap 0))
    × Returns
        (RearrangedCircle cells (reverse cells) (heap 8))
        (reverse_singlecircular 4 8 (heap 8))
single_reversals_lem_example =
    single_reversals_lem 4 cells cells 8 (heap 0) (heap 8) (omega arith) (omega arith)
      (cells-Segment 0) (refl, cells-Segment 8)
