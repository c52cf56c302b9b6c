-- ===== src/BucketSort.antt =====
-- bucketsort.c. The values are not negative, as those of main, so that an `int` is its number; a
-- product beyond 2^31 - 1 is undefined.
mod Insertsort
mod Tests
use codingforfun.Prelude.{
  ℕ, zero, suc, ◌+◌, ◌-◌, ◌*◌, ◌/◌, ◌^◌, List, [], ◌∷◌, ltb, ◌==◌, if◌then◌else◌,
}
use codingforfun.Run.{Run, done, fault, ◌>>=◌, for_up}
use codingforfun.Array.{load, store}

-- `struct bucket`, whose nodes are the list of their data.
pub record Bucket : Type 0 where
  pub size : ℕ
  pub list : List ℕ

-- The inner loop of insertsort and the write behind it. The last argument is `j + 1`. The loop
-- tests `i` in place of `j`, so that it reads seq[-1] once `j` is below 0.
unfoldable pub slide : ℕ → ℕ → List ℕ → Run (List ℕ)
slide element zero seq = fault
slide element (suc j) seq = do
  v ← load seq j
  if ltb element v then store seq (j + 1) v >>= slide element j else store seq (j + 1) element

unfoldable pub insertsort : List ℕ → ℕ → ℕ → Run (List ℕ)
insertsort seq left right =
    for_up (right - (left + 1)) (left + 1) (λ i b. do element ← load b i; slide element i b) seq

pub hash : ℕ → ℕ → ℕ → Run ℕ
hash value numb_buckets max =
    let product = value * numb_buckets in
    if max == 0 then fault else if ltb product (2 ^ 31) then done (product / max) else fault

-- The loop that puts the element at `i` into a bucket.
pub store_element : ℕ → ℕ → List ℕ → ℕ → List Bucket → Run (List Bucket)
unfolding hash
store_element numb_buckets max seq i buckets = do
  value ← load seq i
  bucket_numb ← hash value numb_buckets max
  b ← load buckets bucket_numb
  store buckets bucket_numb (record { size = b.size + 1; list = value ∷ b.list })

-- The loop that writes the data of a bucket from index `j` on.
pub retrieve : List ℕ → ℕ → List ℕ → Run (ℕ × List ℕ)
retrieve [] j seq = done (j, seq)
retrieve (value ∷ list) j seq = do seq' ← store seq j value; retrieve list (j + 1) seq'

-- One round of the last loop.
pub collect : List Bucket → ℕ → ℕ × List ℕ → Run (ℕ × List ℕ)
unfolding retrieve insertsort
collect buckets i (j, seq) = do
  b ← load buckets i
  let some_data : Run (ℕ × List ℕ) = do
    (right, seq') ← retrieve b.list j seq
    sorted ← insertsort seq' j right
    done (right, sorted)
  if ltb 0 b.size then some_data else done (j, seq)

abbrev no_data : ℕ → List Bucket
no_data zero = []
no_data (suc n) = record { size = 0; list = [] } ∷ no_data n

pub bucketsort : List ℕ → ℕ → ℕ → Run (List ℕ)
unfolding store_element collect
bucketsort seq size max = do
  let numb_buckets = size / 2
  buckets ← for_up size 0 (store_element numb_buckets max seq) (no_data numb_buckets)
  (j, sorted) ← for_up numb_buckets 0 (collect buckets) (0, seq)
  done sorted
