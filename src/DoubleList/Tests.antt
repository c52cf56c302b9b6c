-- ===== src/DoubleList/Tests.antt =====
-- Double lists in a concrete heap, and each theorem at them.
use codingforfun.Prelude.{refl, [], ◌∷◌, none, arith}
use mathlib.Core.List.{reverse}
use codingforfun.Run.{Returns}
use codingforfun.Memory.{Ptr, null, Heap, put}
use codingforfun.SingleList.Segment.{Cells, Apart}
use codingforfun.SingleList.Insert.{insert_sorted}
use codingforfun.DoubleList.Circular.{HoldsCircle, insert_double_circular-HoldsCircle}
use codingforfun.DoubleList.{
  Node, node, insert_double, insert_double_circular, reverse_double, reverse_double_circular,
}
use codingforfun.DoubleList.Segment.{Segment}
use codingforfun.DoubleList.Insert.{Holds, insert_double-Holds}
use codingforfun.DoubleList.Reverse.{Rearranged, RearrangedCircle, reversals_lem}

abbrev nothing : Heap Node
nothing a = none

-- Addresses 8, 24 and 16 with the values 1, 3 and 5.
abbrev cells : Cells
cells = (8, 1) ∷ (24, 3) ∷ (16, 5) ∷ []

-- The three nodes; the first leads back to `before` and the last on to `last`.
abbrev heap : Ptr → Ptr → Heap Node
heap before last = put (put (put nothing 16 (node last 24 5)) 24 (node 16 8 3)) 8 (node 24 before 1)

cells-Segment : (before last : Ptr) → Segment (heap before last) before cells last
unfolding put
cells-Segment before last = (
  omega arith,
  refl,
  (omega arith, (omega arith, tt)),
  (omega arith, refl, (omega arith, tt), (omega arith, refl, tt, tt)),
)

apart : Apart 32 cells
apart = (omega arith, (omega arith, (omega arith, tt)))

insert_double-Holds_example :
    Returns
      (Holds 32 cells (insert_sorted 32 4 cells) (heap null null))
      (insert_double 4 32 8 4 (heap null null))
insert_double-Holds_example =
    insert_double-Holds 4 32 cells 4 (heap null null) (omega arith) (omega arith) apart
      (cells-Segment null null)

insert_double_circular-HoldsCircle_example :
    Returns
      (HoldsCircle 32 cells (insert_sorted 32 4 cells) (heap 16 8))
      (insert_double_circular 4 32 8 4 (heap 16 8))
insert_double_circular-HoldsCircle_example =
    insert_double_circular-HoldsCircle 4 32 8 cells 4 (heap 16 8) (omega arith) (omega arith) apart
      (refl, cells-Segment 16 8)

reversals_lem_example :
    Returns
      (Rearranged cells (reverse cells) (heap null null))
      (reverse_double 4 8 (heap null null))
    × Returns
        (RearrangedCircle cells (reverse cells) (heap 16 8))
        (reverse_double_circular 4 8 (heap 16 8))
reversals_lem_example =
    reversals_lem 4 cells cells 8 (heap null null) (heap 16 8) (omega arith) (omega arith)
      (cells-Segment null null) (refl, cells-Segment 16 8)
