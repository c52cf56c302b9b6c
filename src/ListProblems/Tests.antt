-- ===== src/ListProblems/Tests.antt =====
-- Lists of three nodes.
use codingforfun.Prelude.{
  ◌-◌, ◌≡◌, refl, [], ◌∷◌, none, ltb, true, false, set, if◌then◌else◌, arith, length,
}
use codingforfun.Run.{done}
use codingforfun.Memory.{null, Heap, put, read}
use codingforfun.SingleList.{Node, node}
use codingforfun.SingleList.Segment.{Cells, start, Segment}
use codingforfun.Array.{load, store}
use codingforfun.ListProblems.{
  nodefromend, detectloop, detect_from, ispalindrome, fill_queue, compare_queue, remove_node,
}
use codingforfun.ListProblems.Loop.{loops, detectloop_lem}
use codingforfun.ListProblems.Palindrome.{FalseOrFault, ispalindrome-FalseOrFault}
use codingforfun.ListProblems.Removal.{Removed, remove_node-Removed}
use codingforfun.ListProblems.FromEnd.{behind, nodefromend-behind}

-- Addresses 8, 16 and 24 with the values 3, 1 and 3.
abbrev three : Cells
three = (8, 3) ∷ (16, 1) ∷ (24, 3) ∷ []

abbrev heap : Heap Node
heap = put (put (put (λ a. none) 24 (node 0 3)) 16 (node 24 1)) 8 (node 16 3)

three-Segment : Segment heap three null
unfolding put
three-Segment = (
  omega arith,
  refl,
  (omega arith, (omega arith, tt)),
  (omega arith, refl, (omega arith, tt), (omega arith, refl, tt, tt)),
)

-- The last node but one, and NULL for the first one.
nodefromend-heap : (nodefromend 4 heap 8 2 ≡ done 16) × (nodefromend 4 heap 8 3 ≡ done 0)
unfolding nodefromend read put
nodefromend-heap = (refl, refl)

nodefromend-behind_example :
    nodefromend 4 heap 8 2
    ≡ done (if ltb 2 (length three) then start (behind (length three - 2) three) null else null)
nodefromend-behind_example = nodefromend-behind 4 2 three heap (omega arith) three-Segment

-- 8 leads to 16, 16 to 24, and 24 back to 16.
abbrev around : Heap Node
around = put (put (put (λ a. none) 24 (node 16 3)) 16 (node 24 1)) 8 (node 16 3)

around-Segment : Segment around three 16
unfolding put
around-Segment = (
  omega arith,
  refl,
  (omega arith, (omega arith, tt)),
  (omega arith, refl, (omega arith, tt), (omega arith, refl, tt, tt)),
)

detectloop-heaps : (detectloop 5 heap 8 ≡ done false) × (detectloop 5 around 8 ≡ done true)
unfolding detectloop detect_from read put
detectloop-heaps = (refl, refl)

detectloop_lem_example : detectloop 5 around 8 ≡ done true
detectloop_lem_example =
    detectloop_lem 5 3 around 8 true (loops ((8, 3) ∷ []) 16 1 ((24, 3) ∷ []) around-Segment)
      (omega arith)

-- The values 3, 1 and 3 are a palindrome. With 3 in the queue, 1 is compared.
ispalindrome-heap : ispalindrome 4 heap 8 (0 ∷ 0 ∷ []) ≡ done false
unfolding ispalindrome fill_queue compare_queue read put load store set
ispalindrome-heap = refl

ispalindrome-FalseOrFault_example : FalseOrFault (ispalindrome 4 heap 8 (0 ∷ 0 ∷ []))
ispalindrome-FalseOrFault_example =
    ispalindrome-FalseOrFault 4 three heap (0 ∷ 0 ∷ []) three-Segment (omega arith)

remove_node-Removed_example : Removed ((8, 3) ∷ []) 16 ((24, 3) ∷ []) (remove_node heap 16)
remove_node-Removed_example =
    remove_node-Removed ((8, 3) ∷ []) 16 1 ((24, 3) ∷ []) heap three-Segment
