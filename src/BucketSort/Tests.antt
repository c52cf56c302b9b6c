-- ===== src/BucketSort/Tests.antt =====
-- Runs of bucketsort, and the theorem at an array.
use codingforfun.Prelude.{ℕ, ◌≡◌, refl, List, [], ◌∷◌, if◌then◌else◌, length, set}
use codingforfun.Run.{done, fault, for_up}
use codingforfun.Array.{load, store}
use codingforfun.Sorting.Insertion.{insertionsort}
use codingforfun.BucketSort.{hash, slide, insertsort, store_element, retrieve, collect, bucketsort}
use codingforfun.BucketSort.Insertsort.{first_least, insertsort-insertionsort}

-- The first bucket gives its least entry first.
bucketsort-works : bucketsort (7 ∷ 4 ∷ 3 ∷ 9 ∷ 6 ∷ 1 ∷ []) 6 10 ≡ done (1 ∷ 3 ∷ 4 ∷ 6 ∷ 7 ∷ 9 ∷ [])
unfolding bucketsort hash slide insertsort store_element retrieve collect load store set for_up
bucketsort-works = refl

-- The first bucket gives 2 before 1.
bucketsort-in_front : bucketsort (1 ∷ 2 ∷ []) 2 10 ≡ fault
unfolding bucketsort hash slide insertsort store_element retrieve collect load store set for_up
bucketsort-in_front = refl

-- The value is not below `max`, and there is no second bucket.
bucketsort-no_bucket : bucketsort (3 ∷ 10 ∷ []) 2 10 ≡ fault
unfolding bucketsort hash slide insertsort store_element retrieve collect load store set for_up
bucketsort-no_bucket = refl

abbrev sample : List ℕ
sample = 4 ∷ 9 ∷ 3 ∷ []

insertsort-insertionsort_example :
    insertsort sample 0 (length sample)
    ≡ (if first_least sample then insertionsort sample (length sample) else fault)
insertsort-insertionsort_example = insertsort-insertionsort sample
