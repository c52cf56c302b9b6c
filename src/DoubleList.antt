-- ===== src/DoubleList.antt =====
-- The double lists of alllinkedlists.c, plain and circular. An `int` v is the number v + 2^31.
pub mod Circular
pub mod Insert
mod Relink
pub mod Reverse
pub mod Segment
mod Splice
mod Tests
use codingforfun.Prelude.{ℕ, zero, suc, Bool, true, false, not, ltb, ◌==◌, if◌then◌else◌}
use codingforfun.Run.{Run, done, no_fuel, ◌>>=◌}
use codingforfun.Memory.{Ptr, null, Heap, read, write, allocate}

-- `node_td`
pub record Node : Type 0 where
  pub next : Ptr
  pub prev : Ptr
  pub value : ℕ

abbrev pub node : Ptr → Ptr → ℕ → Node
node q p v = record { next = q; prev = p; value = v }

-- `p->next = q`
pub set_next : Heap Node → Ptr → Ptr → Run (Heap Node)
set_next h p q = do n ← read h p; write h p (record n { next = q })

-- `p->prev = q`
pub set_prev : Heap Node → Ptr → Ptr → Run (Heap Node)
set_prev h p q = do n ← read h p; write h p (record n { prev = q })

-- The loop of insert_double, which looks one node ahead. It returns the last `ptr`.
pub look_ahead : ℕ → ℕ → Heap Node → Ptr → Run Ptr
look_ahead zero value h ptr = no_fuel
look_ahead (suc fuel) value h ptr = do
  n ← read h ptr
  let ahead : Run Ptr = do
    m ← read h n.next
    let further = look_ahead fuel value h n.next
    if ltb m.value value then further else done ptr
  if n.next == null then done ptr else ahead

-- The end of insert_double, without TWOSTEPS.
pub link_behind : Heap Node → Ptr → Ptr → Run (Heap Node)
link_behind h new ptr = do
  h1 ← set_prev h new ptr
  n ← read h1 ptr
  h2 ← set_next h1 new n.next
  h3 ← set_next h2 ptr new
  m ← read h3 new
  if m.next == null then done h3 else set_prev h3 m.next new

-- insert_double; `new` is what malloc returns. The result is the list pointer and the heap.
pub insert_double : ℕ → Ptr → Ptr → ℕ → Heap Node → Run (Ptr × Heap Node)
insert_double fuel new list value h = do
  g ← allocate h new (node null null value)
  let insert : Run (Ptr × Heap Node) = do
    first ← read g list
    let front : Run (Ptr × Heap Node) = do
      g1 ← set_next g new list
      g2 ← set_prev g1 list new
      done (new, g2)
    let inside : Run (Ptr × Heap Node) = do
      ptr ← look_ahead fuel value g list
      g' ← link_behind g new ptr
      done (list, g')
    if ltb value first.value then front else inside
  if list == null then done (new, g) else insert

-- The loops of reverse_double, which ends at NULL, and of reverse_double_circular, which ends at
-- the list pointer. They return the last `ptr` and the heap.
pub turn_round : ℕ → Ptr → Heap Node → Ptr → Ptr → Run (Ptr × Heap Node)
turn_round zero stop h ptr next = no_fuel
turn_round (suc fuel) stop h ptr next =
    let round : Run (Ptr × Heap Node) = do
      n ← read h ptr
      h1 ← set_next h ptr n.prev
      h2 ← set_prev h1 ptr next
      m ← read h2 next
      turn_round fuel stop h2 next m.next
    in if not (next == stop) then round else done (ptr, h)

-- The lines behind the loop: `ptr->next = ptr->prev; ptr->prev = …; *list = ptr;`
pub turn_last : Ptr → Ptr × Heap Node → Run (Ptr × Heap Node)
turn_last before (ptr, h) = do
  n ← read h ptr
  h1 ← set_next h ptr n.prev
  h2 ← set_prev h1 ptr before
  done (ptr, h2)

pub reverse_double : ℕ → Ptr → Heap Node → Run (Ptr × Heap Node)
reverse_double fuel list h =
    let nonempty : Run (Ptr × Heap Node) = do
      first ← read h list
      let longer = turn_round fuel null h list first.next >>= turn_last null
      if first.next == null then done (list, h) else longer
    in if list == null then done (list, h) else nonempty

-- Behind its loop `next` is the list pointer.
pub reverse_double_circular : ℕ → Ptr → Heap Node → Run (Ptr × Heap Node)
reverse_double_circular fuel list h =
    let nonempty : Run (Ptr × Heap Node) = do
      first ← read h list
      let longer = turn_round fuel list h list first.next >>= turn_last list
      if first.next == list then done (list, h) else longer
    in if list == null then done (list, h) else nonempty

-- The loop of insert_double_circular. It returns the last `ptr`.
pub find_from : ℕ → Ptr → ℕ → Heap Node → Ptr → Run Ptr
find_from zero list value h ptr = no_fuel
find_from (suc fuel) list value h ptr =
    let round : Run Ptr = do
      n ← read h ptr
      let further = find_from fuel list value h n.next
      if ltb n.value value then further else done ptr
    in if ptr == list then done ptr else round

-- The end of insert_double_circular.
pub link_before : Heap Node → Ptr → Ptr → Run (Heap Node)
link_before h new ptr = do
  n ← read h ptr
  h1 ← set_next h n.prev new
  h2 ← set_prev h1 ptr new
  h3 ← set_next h2 new ptr
  set_prev h3 new n.prev

-- Its part for the beginning, without the list pointer.
pub link_front : Heap Node → Ptr → Ptr → Run (Heap Node)
link_front h new list = do
  first ← read h list
  h1 ← set_next h new list
  again ← read h1 list
  h2 ← set_prev h1 new again.prev
  h3 ← set_prev h2 list new
  set_next h3 first.prev new

-- insert_double_circular
pub insert_double_circular : ℕ → Ptr → Ptr → ℕ → Heap Node → Run (Ptr × Heap Node)
insert_double_circular fuel new list value h = do
  g ← allocate h new (node null null value)
  let alone : Run (Ptr × Heap Node) = do
    g1 ← set_prev g new new
    g2 ← set_next g1 new new
    done (new, g2)
  let insert : Run (Ptr × Heap Node) = do
    first ← read g list
    let front : Run (Ptr × Heap Node) = do g' ← link_front g new list; done (new, g')
    let inside : Run (Ptr × Heap Node) = do
      ptr ← find_from fuel list value g first.next
      g' ← link_before g new ptr
      done (list, g')
    if ltb value first.value then front else inside
  if list == null then alone else insert
