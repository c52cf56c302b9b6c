-- ===== src/SingleList.antt =====
-- The single linked lists of alllinkedlists.c, plain and circular. Values are only compared and
-- copied: an `int` v is the number v + 2^31.
pub mod Circular
pub mod Insert
pub mod Lossy
pub mod Order
pub mod Reverse
pub mod ReverseCircular
pub mod Segment
mod Tests
use codingforfun.Prelude.{ℕ, zero, suc, Bool, true, false, ◌||◌, not, ltb, ◌==◌, if◌then◌else◌}
use codingforfun.Run.{Run, done, fault, no_fuel, ◌>>=◌}
use codingforfun.Memory.{Ptr, null, Heap, read, write, allocate}

-- `node_ts`
pub record Node : Type 0 where
  pub next : Ptr
  pub value : ℕ

abbrev pub node : Ptr → ℕ → Node
node q v = record { next = q; value = v }

-- `p->next = q`
pub set_next : Heap Node → Ptr → Ptr → Run (Heap Node)
set_next h p q = do n ← read h p; write h p (record n { next = q })

-- The loop of insert_single, which ends at `stop`, and that of insert_singlecircular. It returns
-- `prev` and `ptr`. Each round goes on to the next node.
pub find_place : ℕ → Ptr → ℕ → Heap Node → Ptr → Ptr → Run (Ptr × Ptr)
find_place zero stop value h prev ptr = no_fuel
find_place (suc fuel) stop value h prev ptr =
    let round : Run (Ptr × Ptr) = do
      n ← read h ptr
      let further = find_place fuel stop value h ptr n.next
      if ltb n.value value then further else done (prev, ptr)
    in if ptr == stop then done (prev, ptr) else round

-- `prev->next = new; new->next = ptr;`
pub link : Heap Node → Ptr → Ptr × Ptr → Run (Heap Node)
link h new (prev, ptr) = do g ← set_next h prev new; set_next g new ptr

-- insert_single; `new` is what malloc returns. The result is the list pointer and the heap.
pub insert_single : ℕ → Ptr → Ptr → ℕ → Heap Node → Run (Ptr × Heap Node)
unfolding find_place link set_next
insert_single fuel new list value h = do
  g ← allocate h new (node null value)
  let insert : Run (Ptr × Heap Node) = do
    first ← read g list
    let front : Run (Ptr × Heap Node) = do g' ← set_next g new list; done (new, g')
    let inside : Run (Ptr × Heap Node) = do
      place ← find_place fuel null value g list first.next
      g' ← link g new place
      done (list, g')
    if ltb value first.value then front else inside
  if list == null then done (new, g) else insert

-- The loop of insert_single2, which looks one node ahead. It returns the last `ptr`.
pub look_ahead : ℕ → ℕ → Heap Node → Ptr → Run Ptr
look_ahead zero value h ptr = no_fuel
look_ahead (suc fuel) value h ptr = do
  n ← read h ptr
  let ahead : Run Ptr = do
    m ← read h n.next
    let further = look_ahead fuel value h n.next
    if ltb m.value value then further else done ptr
  if n.next == null then done ptr else ahead

-- The end of insert_single2: behind `ptr`.
pub link2 : Heap Node → Ptr → Ptr → Run (Heap Node)
link2 h new ptr = do
  n ← read h ptr
  let before : Run (Heap Node) = do m ← read h n.next; g ← set_next h new m.next; set_next g ptr new
  if n.next == null then set_next h ptr new else before

-- insert_single2, which names the field `val`.
pub insert_single2 : ℕ → Ptr → Ptr → ℕ → Heap Node → Run (Ptr × Heap Node)
unfolding look_ahead link2 set_next
insert_single2 fuel new list value h = do
  g ← allocate h new (node null value)
  let front : Run (Ptr × Heap Node) = do g' ← set_next g new list; done (new, g')
  let insert : Run (Ptr × Heap Node) = do
    first ← read g list
    let inside : Run (Ptr × Heap Node) = do
      ptr ← look_ahead fuel value g list
      g' ← link2 g new ptr
      done (list, g')
    if ltb value first.value then front else inside
  if list == null then front else insert

-- insert_singlecircular, in the variant without TRAVERSE. `memcpy(new, *list, …)` copies the node.
pub insert_singlecircular : ℕ → Ptr → Ptr → ℕ → Heap Node → Run (Ptr × Heap Node)
unfolding find_place link set_next
insert_singlecircular fuel new list value h = do
  g ← allocate h new (node null value)
  let alone : Run (Ptr × Heap Node) = do g' ← set_next g new new; done (new, g')
  let insert : Run (Ptr × Heap Node) = do
    first ← read g list
    let front : Run (Ptr × Heap Node) = do
      g' ← write g new first
      old ← read g' list
      g'' ← write g' list (record old { value = value })
      g''' ← set_next g'' list new
      done (list, g''')
    let inside : Run (Ptr × Heap Node) = do
      place ← find_place fuel list value g list first.next
      g' ← link g new place
      done (list, g')
    if ltb value first.value then front else inside
  if list == null then alone else insert

-- The loop of reverse_singlecircular. It returns `prev`, `current` and the heap.
pub reverse_circular_loop : ℕ → Ptr → Heap Node → Ptr → Ptr → Ptr → Run (Ptr × Ptr × Heap Node)
reverse_circular_loop zero list h prev current next = no_fuel
reverse_circular_loop (suc fuel) list h prev current next =
    let round : Run (Ptr × Ptr × Heap Node) = do
      g ← set_next h current prev
      n ← read g next
      reverse_circular_loop fuel list g current next n.next
    in if not (current == list) then round else done (prev, current, h)

pub reverse_singlecircular : ℕ → Ptr → Heap Node → Run (Ptr × Heap Node)
unfolding reverse_circular_loop set_next
reverse_singlecircular fuel list h =
    let longer : Ptr → Run (Ptr × Heap Node) = λ second. do
      n ← read h second
      (prev, current, g) ← reverse_circular_loop fuel list h list second n.next
      g' ← set_next g current prev
      done (prev, g')
    in let nonempty : Run (Ptr × Heap Node) = do
      first ← read h list
      let more = longer first.next
      if first.next == list then done (list, h) else more
      in if list == null then done (list, h) else nonempty

-- The loop of reverse_single. It returns `current`, `prev` and the heap.
pub reverse_loop : ℕ → Heap Node → Ptr → Ptr → Ptr → Run (Ptr × Ptr × Heap Node)
reverse_loop zero h prev current next = no_fuel
reverse_loop (suc fuel) h prev current next =
    let round : Run (Ptr × Ptr × Heap Node) = do
      g ← set_next h current prev
      n ← read g next
      reverse_loop fuel g current next n.next
    in if next == null then done (current, prev, h) else round

pub reverse_single : ℕ → Ptr → Heap Node → Run (Ptr × Heap Node)
unfolding reverse_loop set_next
reverse_single fuel list h =
    let longer : Ptr → Run (Ptr × Heap Node) = λ second. do
      (current, prev, g) ← reverse_loop fuel h null list second
      g' ← set_next g current prev
      done (current, g')
    in let nonempty : Run (Ptr × Heap Node) = do
      first ← read h list
      let two = longer first.next
      if first.next == null then done (list, h) else two
      in if list == null then done (list, h) else nonempty
