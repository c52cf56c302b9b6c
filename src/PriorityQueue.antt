-- ===== src/PriorityQueue.antt =====
-- priorityqueue_heap.c: a priority queue in a binary heap, lowest priority first.
--
-- `data` and `priority` are `int`s that the code only copies and compares: an `int` v is the
-- number v + 2^31. Sizes and indices are numbers, and do not wrap below 2^30 entries. malloc and
-- realloc succeed, as the code assumes, and `junk i` is what new memory holds in place of entry i.
pub mod Order
pub mod Push
pub mod Lift
pub mod Pop
pub mod Change
mod Tests
use codingforfun.Prelude.{
  ℕ, zero, suc, ◌+◌, ◌-◌, ◌*◌, ◌/◌, List, [], ◌∷◌, ◌++◌, Bool, true, false, ◌||◌, ◌&&◌, ltb, leb,
  ◌==◌, if◌then◌else◌, take, Option, none, some,
}
use codingforfun.Run.{Run, done, fault, no_fuel, ◌>>=◌, for_up}
use codingforfun.Array.{load, store}

-- `pq_element`
pub record Element : Type 0 where
  pub value : ℕ
  pub priority : ℕ

-- `struct pq`; the array has `alloc` entries.
pub record Pq : Type 0 where
  pub pq_array : List Element
  pub n : ℕ
  pub alloc : ℕ

-- `count` entries of new memory, from entry `i` on.
unfoldable pub fresh : (ℕ → Element) → ℕ → ℕ → List Element
fresh junk i zero = []
fresh junk i (suc count) = junk i ∷ fresh junk (i + 1) count

abbrev pub parent : ℕ → ℕ
parent s = (s - 1) / 2

unfoldable pub pq_new : (ℕ → Element) → ℕ → Pq
pq_new junk size =
    let size' = if ltb size 4 then 4 else size in
    record { pq_array = fresh junk 0 size'; n = 0; alloc = size' }

-- The reallocation at the head of pq_push.
pub grow : (ℕ → Element) → Pq → Pq
grow junk q =
    if leb q.alloc q.n
    then record q { alloc = q.alloc * 2; pq_array = q.pq_array ++ fresh junk q.alloc q.alloc }
    else q

-- The loop of pq_push and the write that follows it: `e` moves up from the free entry `s`. The
-- parent of a positive index is below it, so `s + 1` rounds are enough.
pub place : ℕ → List Element → ℕ → Element → Run (List Element)
place zero a s e = no_fuel
place (suc fuel) a s e =
    let up : Run (List Element) = do
      f ← load a (parent s)
      let shift = store a s f >>= λ b. place fuel b (parent s) e
      let stay = store a s e
      if ltb e.priority f.priority then shift else stay
    in if ltb 0 s then up else store a s e

unfoldable pub pq_push : (ℕ → Element) → Pq → ℕ → ℕ → Run Pq
unfolding place grow
pq_push junk q value priority =
    let q' = grow junk q in
    do
      b ← place (q'.n + 1) q'.pq_array q'.n (record { value = value; priority = priority })
      done (record q' { n = q'.n + 1; pq_array = b })

-- The child of `p` that the loop of pq_adjusttree moves up.
pub lower_child : List Element → ℕ → ℕ → Run ℕ
lower_child a n p =
    let s1 = 2 * p + 1 in
    let s2 = 2 * p + 2 in
    let compared : Run ℕ = do
      x ← load a s1
      y ← load a s2
      done (if ltb x.priority y.priority then s1 else s2)
    in if ltb (n - 1) s2 then done s1 else compared

-- The `do` loop of pq_adjusttree, from the parent `p`; it returns the array and the last `p`.
pub lift : ℕ → List Element → ℕ → ℕ → Run (List Element × ℕ)
lift zero a n p = no_fuel
lift (suc fuel) a n p = do
  s ← lower_child a n p
  x ← load a s
  b ← store a p x
  let again = lift fuel b n s
  if leb (2 * s + 1) (n - 1) then again else done (b, s)

-- A round of the second loop of pq_adjusttree, which inserts the entry at `current` anew.
pub relocate : (ℕ → Element) → ℕ → Pq → Run Pq
relocate junk current q = do
  x ← load q.pq_array current
  pq_push junk (record q { n = current - 1 }) x.value x.priority

-- The reallocation at the end of pq_adjusttree.
pub shrink : Pq → Pq
shrink q =
    if ltb q.n (q.alloc / 2) && leb 4 q.n
    then record q { pq_array = take (q.alloc / 2) q.pq_array; alloc = q.alloc / 2 }
    else q

-- pq_adjusttree, which is called with two elements or more. The last parent is below `n`, so the
-- test `current != size` of the second loop counts `n - (p + 1)` rounds.
unfoldable pub pq_adjusttree : (ℕ → Element) → Pq → Run Pq
unfolding lift lower_child relocate shrink pq_push
pq_adjusttree junk q = do
  (b, p) ← lift q.n q.pq_array q.n 0
  q' ← for_up (q.n - (p + 1)) (p + 1) (relocate junk) (record q { pq_array = b })
  done (shrink (record q' { n = q.n - 1 }))

-- pq_pop. On an empty queue it prints a message and returns 0.
unfoldable pub pq_pop : (ℕ → Element) → Pq → Run (ℕ × Pq)
unfolding pq_adjusttree
pq_pop junk q =
    let rest : Run (ℕ × Pq) = do
      out ← load q.pq_array 0
      let last = done (out.value, record q { n = 0 })
      let more = pq_adjusttree junk q >>= λ q'. done (out.value, q')
      if q.n == 1 then last else more
    in if q.n == 0 then done (2147483648, q) else rest

-- The index at which the loops of pq_changepriority and pq_haskey stop, if they find the data. The
-- first argument counts the entries that are left, up to `n`.
pub find : ℕ → ℕ → List Element → ℕ → Run (Option ℕ)
find zero i a value = done none
find (suc left) i a value = do
  x ← load a i
  let rest = find left (i + 1) a value
  if x.value == value then done (some i) else rest

-- pq_changepriority; without the data it prints a message and ends the program, which is `none`.
unfoldable pub pq_changepriority : Pq → ℕ → ℕ → Run (Option Pq)
unfolding find
pq_changepriority q value priority = do
  found ← find q.n 0 q.pq_array value
  let change : ℕ → Run (Option Pq) = λ i. do
    x ← load q.pq_array i
    b ← store q.pq_array i (record x { priority = priority })
    done (some (record q { pq_array = b }))
  elim found [ none ↦ done none | some i ↦ change i ]

unfoldable pub pq_haskey : Pq → ℕ → Run Bool
unfolding find
pq_haskey q value = do
  found ← find q.n 0 q.pq_array value
  elim found [ none ↦ done false | some _ ↦ done true ]
