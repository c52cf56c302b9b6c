-- ===== src/Sorting/Simple.antt =====
-- The routines of sorting.c that sort any array, empty ones too.
use codingforfun.Prelude.{ℕ, List, length}
use codingforfun.Run.{Returns}
use codingforfun.Sorting.{Sorts}
use codingforfun.Sorting.Insertion.{insertionsort, insertionsort-Sorts}
use codingforfun.Sorting.Selection.{selectionsort, selectionsort-Sorts}
use codingforfun.Sorting.Shell.{shellsort, shellsort-Sorts}
use codingforfun.Sorting.Heap.{heapsort}
use codingforfun.Sorting.Heap.Sort.{heapsort-Sorts}
use codingforfun.Sorting.Bubble.{bubblesort, bubblesort-Sorts}

-- insertionsort, selectionsort, bubblesort, shellsort and heapsort never read or write outside the array, end, and leave
-- the entries of the array in ascending order.
pub sorts_lem :
    (a : List ℕ)
    → Returns (Sorts a) (insertionsort a (length a))
      × Returns (Sorts a) (selectionsort a (length a))
      × Returns (Sorts a) (bubblesort a (length a))
      × Returns (Sorts a) (shellsort a (length a))
      × Returns (Sorts a) (heapsort a (length a))
sorts_lem a = (
  insertionsort-Sorts a,
  selectionsort-Sorts a,
  bubblesort-Sorts a,
  shellsort-Sorts a,
  heapsort-Sorts a,
)
