-- ===== src/Sorting/Tests.antt =====
-- Runs of the sorting routines, and each theorem at a concrete array.
use codingforfun.Prelude.{ℕ, ◌≡◌, refl, List, [], ◌∷◌, set, arith}
use codingforfun.Run.{done, fault, Returns}
use codingforfun.Array.{load, store}
use codingforfun.Sorting.{Sorts, swap}
use codingforfun.Sorting.Bubble.{bubblesort}
use codingforfun.Sorting.Insertion.{insertionsort}
use codingforfun.Sorting.Selection.{selectionsort}
use codingforfun.Sorting.Simple.{sorts_lem}
use codingforfun.Sorting.Shell.{shellsort}
use codingforfun.Sorting.Heap.{heapsort}
use codingforfun.Sorting.Quick.{quicksort}
use codingforfun.Sorting.Quick.Sort.{quicksort-Sorts}
use codingforfun.Sorting.Merge.{mergesort, mergesort-fault}

abbrev sample : List ℕ
sample = 3 ∷ 1 ∷ 6 ∷ 5 ∷ 1 ∷ []

abbrev ordered : List ℕ
ordered = 1 ∷ 1 ∷ 3 ∷ 5 ∷ 6 ∷ []

bubblesort-sample : bubblesort sample 5 ≡ done ordered
unfolding bubblesort swap load store set
bubblesort-sample = refl

insertionsort-sample : insertionsort sample 5 ≡ done ordered
unfolding insertionsort load store set
insertionsort-sample = refl

selectionsort-sample : selectionsort sample 5 ≡ done ordered
unfolding selectionsort swap load store set
selectionsort-sample = refl

shellsort-sample : shellsort sample 5 ≡ done ordered
unfolding shellsort swap load store set
shellsort-sample = refl

heapsort-sample : heapsort sample 5 ≡ done ordered
unfolding heapsort swap load store set
heapsort-sample = refl

quicksort-sample : quicksort sample 5 ≡ done ordered
unfolding quicksort load store set
quicksort-sample = refl

quicksort-Sorts_example : Returns (Sorts sample) (quicksort sample 5)
quicksort-Sorts_example = quicksort-Sorts sample (omega arith)

mergesort-fault_example : mergesort sample 5 ordered ≡ fault
mergesort-fault_example = mergesort-fault sample ordered (omega arith) (omega arith)

sorts_lem_example :
    Returns (Sorts sample) (insertionsort sample 5)
    × Returns (Sorts sample) (selectionsort sample 5)
    × Returns (Sorts sample) (bubblesort sample 5)
    × Returns (Sorts sample) (shellsort sample 5)
    × Returns (Sorts sample) (heapsort sample 5)
sorts_lem_example = sorts_lem sample
