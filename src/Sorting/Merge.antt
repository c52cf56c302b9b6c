-- ===== src/Sorting/Merge.antt =====
-- mergesort, m_sort and merge of sorting.c. The buffer `temp` is a local array of SIZE entries,
-- which nothing initialises and no file defines: its contents are an argument here.
use native.Mathlib.Decide.{dec_lt}
use codingforfun.Prelude.{
  ℕ, zero, suc, ◌+◌, ◌-◌, ◌/◌, ◌≤◌, ◌<◌, ◌≡◌, List, [], ◌∷◌, ◌&&◌, ltb, leb, ltb_of_lt,
  if◌then◌else◌, arith, length, set,
}
use codingforfun.Run.{Run, done, fault, no_fuel, ◌>>=◌}
use codingforfun.Array.{load, store}

-- The local variables of `merge` that its loops change.
pub record Merging : Type 0 where
  pub temp : List ℕ
  pub left : ℕ
  pub mid : ℕ
  pub tmp_pos : ℕ

-- One write to `temp`, from `numbers[from]`.
emit : List ℕ → List ℕ → ℕ → ℕ → Run (List ℕ)
emit numbers temp tmp_pos from = do v ← load numbers from; store temp tmp_pos v

-- The first loop. Each round moves `left` or `mid`.
merge_both : ℕ → List ℕ → ℕ → ℕ → Merging → Run Merging
merge_both zero numbers left_end right s = no_fuel
merge_both (suc fuel) numbers left_end right s =
    let round : Run Merging = do
      x ← load numbers s.left
      y ← load numbers s.mid
      let first : Run Merging = do
        t ← emit numbers s.temp s.tmp_pos s.left
        merge_both fuel numbers left_end right
            (record s { temp = t; tmp_pos = s.tmp_pos + 1; left = s.left + 1 })
      let second : Run Merging = do
        t ← emit numbers s.temp s.tmp_pos s.mid
        merge_both fuel numbers left_end right
            (record s { temp = t; tmp_pos = s.tmp_pos + 1; mid = s.mid + 1 })
      if leb x y then first else second
    in if leb s.left left_end && leb s.mid right then round else done s

-- The second loop.
merge_left : ℕ → List ℕ → ℕ → Merging → Run Merging
merge_left zero numbers left_end s = no_fuel
merge_left (suc fuel) numbers left_end s =
    let round : Run Merging = do
      t ← emit numbers s.temp s.tmp_pos s.left
      merge_left fuel numbers left_end
          (record s { temp = t; left = s.left + 1; tmp_pos = s.tmp_pos + 1 })
    in if leb s.left left_end then round else done s

-- The third loop.
merge_right : ℕ → List ℕ → ℕ → Merging → Run Merging
merge_right zero numbers right s = no_fuel
merge_right (suc fuel) numbers right s =
    let round : Run Merging = do
      t ← emit numbers s.temp s.tmp_pos s.mid
      merge_right fuel numbers right
          (record s { temp = t; mid = s.mid + 1; tmp_pos = s.tmp_pos + 1 })
    in if leb s.mid right then round else done s

-- The last loop, with the rounds left and `right + 1`: an index of -1 is outside the arrays.
copy_back : ℕ → ℕ → List ℕ → List ℕ → Run (List ℕ)
copy_back zero past temp numbers = done numbers
copy_back (suc rounds) zero temp numbers = fault
copy_back (suc rounds) (suc right) temp numbers = do
  v ← load temp right
  b ← store numbers right v
  copy_back rounds right temp b

-- `merge`, which returns both arrays. It is called with `mid > 0`.
merge : List ℕ → List ℕ → ℕ → ℕ → ℕ → Run (List ℕ × List ℕ)
unfolding merge_both merge_left merge_right copy_back emit
merge numbers temp left mid right =
    let left_end = mid - 1 in
    let num_elements = right - left + 1 in
    let fuel = num_elements + 1 in
    do
      s ←
          merge_both fuel numbers left_end right
            (record { temp = temp; left = left; mid = mid; tmp_pos = left })
      s' ← merge_left fuel numbers left_end s
      s'' ← merge_right fuel numbers right s'
      b ← copy_back (num_elements + 1) (right + 1) s''.temp numbers
      done (b, s''.temp)

m_sort : ℕ → List ℕ → List ℕ → ℕ → ℕ → Run (List ℕ × List ℕ)
m_sort zero numbers temp left right = no_fuel
m_sort (suc fuel) numbers temp left right =
    let mid = (right + left) / 2 in
    let parts : Run (List ℕ × List ℕ) = do
      (b, t) ← m_sort fuel numbers temp left mid
      (c, u) ← m_sort fuel b t (mid + 1) right
      merge c u left (mid + 1) right
    in if ltb left right then parts else done (numbers, temp)

-- With no entries `right` is -1 and nothing is done.
unfoldable pub mergesort : List ℕ → ℕ → List ℕ → Run (List ℕ × List ℕ)
unfolding m_sort merge
mergesort numbers zero temp = done (numbers, temp)
mergesort numbers (suc n) temp = m_sort (suc n) numbers temp 0 n

-- The merge of the first two entries: after two copies the last loop goes on to index -1.
merge_two-fault : (x y u v : ℕ) (a t : List ℕ) → merge (x ∷ y ∷ a) (u ∷ v ∷ t) 0 1 1 ≡ fault
unfolding merge load store set
merge_two-fault x y u v a t = ground arith

first_merge-fault :
    (fuel : ℕ) (a t : List ℕ) → 1 < fuel → 1 < length a → 1 < length t → m_sort fuel a t 0 1 ≡ fault
unfolding m_sort
first_merge-fault (suc (suc fuel)) (x ∷ y ∷ a) (u ∷ v ∷ t) enough h k = merge_two-fault x y u v a t
first_merge-fault zero a t enough h k = absurd (omega arith)
first_merge-fault (suc zero) a t enough h k = absurd (omega arith)
first_merge-fault (suc (suc fuel)) [] t enough h k = absurd (omega arith)
first_merge-fault (suc (suc fuel)) (x ∷ []) t enough h k = absurd (omega arith)
first_merge-fault (suc (suc fuel)) (x ∷ y ∷ a) [] enough h k = absurd (omega arith)
first_merge-fault (suc (suc fuel)) (x ∷ y ∷ a) (u ∷ []) enough h k = absurd (omega arith)

m_sort-fault :
    (fuel right : ℕ) (a t : List ℕ)
    → right < fuel
    → 0 < right
    → right < length a
    → right < length t
    → m_sort fuel a t 0 right ≡ fault
unfolding m_sort
m_sort-fault zero right a t enough pos h k = absurd (omega arith)
m_sort-fault (suc fuel) right a t enough pos h k = elim (dec_lt 1 right) [
  | yes more ↦
      let inner : m_sort fuel a t 0 ((right + 0) / 2) ≡ fault =
        m_sort-fault fuel ((right + 0) / 2) a t (omega arith) (omega arith) (omega arith)
          (omega arith) in
      rw (ltb_of_lt 0 right pos, inner)
  | no last ↦
      let one : right ≡ 1 = omega arith in
      rw one (first_merge-fault (suc fuel) a t (omega arith) (omega arith) (omega arith))
]

-- mergesort on two entries or more, with a buffer that is large enough, ends in undefined
-- behaviour whatever the entries and the contents of the buffer are: the first merge copies from
-- and to index -1.
pub mergesort-fault :
    (a temp : List ℕ) → 1 < length a → length a ≤ length temp → mergesort a (length a) temp ≡ fault
unfolding mergesort
mergesort-fault [] temp h k = absurd (omega arith)
mergesort-fault (x ∷ a) temp h k =
    m_sort-fault (suc (length a)) (length a) (x ∷ a) temp (omega arith) (omega arith) (omega arith)
      (omega arith)
