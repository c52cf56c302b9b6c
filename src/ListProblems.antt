-- ===== src/ListProblems.antt =====
-- linkedlistproblems.c, as far as it looks at a list or removes one node; its nodes are those of
-- SingleList.
pub mod FromEnd
pub mod Hops
pub mod Loop
pub mod Palindrome
pub mod Removal
mod Tests
use codingforfun.Prelude.{
  ℕ, zero, suc, ◌+◌, ◌-◌, List, [], ◌∷◌, ◌++◌, Bool, true, false, ◌==◌, if◌then◌else◌,
}
use codingforfun.Run.{Run, done, fault, no_fuel, ◌>>=◌}
use codingforfun.Array.{load, store}
use codingforfun.Memory.{Ptr, null, Heap, read, write, free}
use codingforfun.SingleList.{Node}

-- The first loop, which moves `first`; the number counts `k - i`.
pub advance : ℕ → Heap Node → Ptr → Run Ptr
advance zero h first = done first
advance (suc left) h first =
    let round : Run Ptr = (do n ← read h first; advance left h n.next) in
    if first == null then done first else round

-- The second loop, which moves both pointers.
pub follow : ℕ → Heap Node → Ptr → Ptr → Run Ptr
follow zero h first second = no_fuel
follow (suc fuel) h first second =
    let round : Run Ptr = do n ← read h first; m ← read h second; follow fuel h n.next m.next
    in if first == null then done second else round

-- nodefromend, for a `k` that is not negative.
pub nodefromend : ℕ → Heap Node → Ptr → ℕ → Run Ptr
unfolding advance follow
nodefromend fuel h list k = do
  first ← advance k h list
  let rest = follow fuel h first list
  if first == null then done null else rest

-- The loop of detectloop, whose test reads up to two nodes ahead of `fast`.
pub detect_from : ℕ → Heap Node → Ptr → Ptr → Run Bool
detect_from zero h slow fast = no_fuel
detect_from (suc fuel) h slow fast =
    let round : Run Bool = do
      n ← read h fast
      let second : Run Bool = do
        m ← read h n.next
        let third : Run Bool = do
          s ← read h slow
          let further = detect_from fuel h s.next m.next
          if m.next == s.next then done true else further
        if m.next == null then done false else third
      if n.next == null then done false else second
    in if fast == null then done false else round

pub detectloop : ℕ → Heap Node → Ptr → Run Bool
unfolding detect_from
detectloop fuel h list =
    let search = detect_from fuel h list list in if list == null then done false else search

-- The first loop of ispalindrome, which puts the values of the first half into `queue`. It returns
-- `fast`, `slow`, `queue` and `index`.
pub fill_queue : ℕ → Heap Node → Ptr → Ptr → List ℕ → ℕ → Run (Ptr × Ptr × List ℕ × ℕ)
fill_queue zero h fast slow queue index = no_fuel
fill_queue (suc fuel) h fast slow queue index =
    let stop : Run (Ptr × Ptr × List ℕ × ℕ) = done (fast, slow, queue, index) in
    let first : Run (Ptr × Ptr × List ℕ × ℕ) = do
      n ← read h fast
      let second : Run (Ptr × Ptr × List ℕ × ℕ) = do
        m ← read h n.next
        let third : Run (Ptr × Ptr × List ℕ × ℕ) = do
          s ← read h slow
          queue' ← store queue index s.value
          fill_queue fuel h m.next s.next queue' (index + 1)
        if m.next == null then stop else third
      if n.next == null then stop else second
    in if fast == null then stop else first

-- The second loop; `queue[--index]` at 0 would read in front of the array.
pub compare_queue : ℕ → Heap Node → Ptr → List ℕ → ℕ → Run Bool
compare_queue zero h slow queue index = no_fuel
compare_queue (suc fuel) h slow queue index =
    let round : Run Bool = do
      s ← read h slow
      v ← if index == 0 then fault else load queue (index - 1)
      let further = compare_queue fuel h s.next queue (index - 1)
      if s.value == v then further else done false
    in if slow == null then done true else round

-- `queue` is what the array contains at first.
pub ispalindrome : ℕ → Heap Node → Ptr → List ℕ → Run Bool
unfolding fill_queue compare_queue
ispalindrome fuel h list queue =
    let search : Run Bool = do
      n ← read h list
      let halves : Run Bool = do
        (fast, slow, queue', index) ← fill_queue fuel h list list queue 0
        f ← read h fast
        let even : Run Bool = do s ← read h slow; compare_queue fuel h s.next queue' index
        if f.next == null then compare_queue fuel h slow queue' index else even
      if n.next == null then done false else halves
    in if list == null then done false else search

-- remove_node: memcpy copies both fields of the next node, which is then freed.
pub remove_node : Heap Node → Ptr → Run (Heap Node)
remove_node h p = do n ← read h p; m ← read h n.next; g ← write h p m; free g n.next

-- The values that print_list prints, and those that readbackwards does.
pub print_list : ℕ → Heap Node → Ptr → Run (List ℕ)
print_list zero h list = no_fuel
print_list (suc fuel) h list =
    let round : Run (List ℕ) = do
      n ← read h list
      rest ← print_list fuel h n.next
      done (n.value ∷ rest)
    in if list == null then done [] else round

pub readbackwards : ℕ → Heap Node → Ptr → Run (List ℕ)
readbackwards zero h list = no_fuel
readbackwards (suc fuel) h list =
    let round : Run (List ℕ) = do
      n ← read h list
      behind ← readbackwards fuel h n.next
      done (behind ++ n.value ∷ [])
    in if list == null then done [] else round
