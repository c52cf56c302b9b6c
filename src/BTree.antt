-- ===== src/BTree.antt =====
-- btree.c: a B-tree of order 5. Only `insert` and its helpers link nodes, and no node has two
-- parents, so a tree is a value. A key is an `int` v as the number v + 2^31.
mod Insert
mod Program
mod Flat
mod Order
mod Node
mod Contents
mod Tests
use codingforfun.Prelude.{
  ℕ, zero, suc, ◌+◌, ◌-◌, ◌*◌, ◌/◌, Bool, true, false, List, [], ◌∷◌, ◌++◌, ltb, ◌==◌,
  if◌then◌else◌, drop,
}
use codingforfun.Run.{Run, done, fault, ◌>>=◌}

-- `M`
abbrev pub order : ℕ
order = 5

-- A pointer to `struct node`: NULL, or the node with `n`, `keys` and `p`.
pub data Tree : Type 0 where
  empty : Tree
  branch : ℕ → (ℕ → ℕ) → (ℕ → Tree) → Tree

-- `enum KeyStatus` without InsertIt, with which *upKey and *newnode are set.
pub data KeyStatus : Type 0 where
  duplicate : KeyStatus
  search_failure : KeyStatus
  success : KeyStatus
  less_keys : KeyStatus

-- What insertHelper returns and what it leaves at the pointer; with InsertIt also *upKey and
-- *newnode.
pub data Outcome : Type 0 where
  stays : KeyStatus → Tree → Outcome
  insert_it : Tree → ℕ → Tree → Outcome

-- An array of a node, with one entry changed.
unfoldable pub change {ℓ} : {A : Type ℓ} → (ℕ → A) → ℕ → A → ℕ → A
change a i v j = if j == i then v else a j

-- `a[i]` and `a[i] = v` for an array of `size` entries.
unfoldable pub entry {ℓ} : {A : Type ℓ} → ℕ → (ℕ → A) → ℕ → Run A
entry size a i = if ltb i size then done (a i) else fault

unfoldable pub assign {ℓ} : {A : Type ℓ} → ℕ → (ℕ → A) → ℕ → A → Run (ℕ → A)
assign size a i v = if ltb i size then done (change a i v) else fault

-- searchPos, with `left` for `n - pos`.
pub search_from : ℕ → ℕ → ℕ → (ℕ → ℕ) → Run ℕ
search_from zero pos key keys = done pos
search_from (suc left) pos key keys = do
  k ← entry (order - 1) keys pos
  let further = search_from left (pos + 1) key keys
  if ltb k key then further else done pos

pub search_pos : ℕ → (ℕ → ℕ) → ℕ → Run ℕ
search_pos key keys n = search_from n 0 key keys

-- `for (i = …; i > pos; i--)`, which moves keys and pointers up, with the rounds first.
pub shift_up : ℕ → ℕ → (ℕ → ℕ) → (ℕ → Tree) → Run ((ℕ → ℕ) × (ℕ → Tree))
shift_up zero i keys p = done (keys, p)
shift_up (suc rounds) i keys p = do
  k ← entry (order - 1) keys (i - 1)
  keys' ← assign (order - 1) keys i k
  q ← entry order p i
  p' ← assign order p (i + 1) q
  shift_up rounds (i - 1) keys' p'

-- The part of insertHelper for a node with room.
pub add_key : ℕ → (ℕ → ℕ) → (ℕ → Tree) → ℕ → Tree → Run Outcome
add_key n keys p new_key new_ptr = do
  pos ← search_pos new_key keys n
  (keys1, p1) ← shift_up (n - pos) n keys p
  keys2 ← assign (order - 1) keys1 pos new_key
  p2 ← assign order p1 (pos + 1) new_ptr
  done (stays success (branch (n + 1) keys2 p2))

-- The choice of lastKey and lastPtr.
pub make_room : ℕ → (ℕ → ℕ) → (ℕ → Tree) → ℕ → Tree → Run (ℕ × Tree × (ℕ → ℕ) × (ℕ → Tree))
make_room pos keys p new_key new_ptr =
    let inside : Run (ℕ × Tree × (ℕ → ℕ) × (ℕ → Tree)) = do
      last_key ← entry (order - 1) keys (order - 2)
      last_ptr ← entry order p (order - 1)
      (keys1, p1) ← shift_up (order - 2 - pos) (order - 2) keys p
      keys2 ← assign (order - 1) keys1 pos new_key
      p2 ← assign order p1 (pos + 1) new_ptr
      done (last_key, last_ptr, keys2, p2)
    in if pos == order - 1 then done (new_key, new_ptr, keys, p) else inside

abbrev pub split_pos : ℕ
split_pos = (order - 1) / 2

-- The loop that fills the right node of `n` keys, with the rounds first.
pub fill_right :
    ℕ → ℕ → ℕ → ℕ → (ℕ → ℕ) → (ℕ → Tree) → (ℕ → ℕ) → (ℕ → Tree) → Run ((ℕ → ℕ) × (ℕ → Tree))
fill_right zero i n last_key keys p keys' p' = done (keys', p')
fill_right (suc rounds) i n last_key keys p keys' p' = do
  q ← entry order p (i + split_pos + 1)
  p1 ← assign order p' i q
  k ← if ltb i (n - 1) then entry (order - 1) keys (i + split_pos + 1) else done last_key
  keys1 ← assign (order - 1) keys' i k
  fill_right rounds (i + 1) n last_key keys p keys1 p1

-- What the memory that malloc returns contains.
pub record Fresh : Type 0 where
  pub keys : ℕ → ℕ
  pub p : ℕ → Tree

-- The part of insertHelper for a full node.
pub split : Fresh → ℕ → (ℕ → ℕ) → (ℕ → Tree) → ℕ → Tree → Run Outcome
unfolding make_room fill_right
split fresh pos keys p new_key new_ptr = do
  (last_key, last_ptr, keys1, p1) ← make_room pos keys p new_key new_ptr
  up_key ← entry (order - 1) keys1 split_pos
  let n = order - 1 - split_pos
  (keys2, p2) ← fill_right n 0 n last_key keys1 p1 fresh.keys fresh.p
  p3 ← assign order p2 n last_ptr
  done (insert_it (branch split_pos keys1 p1) up_key (branch n keys2 p3))

-- insertHelper behind its recursive call, whose outcome is the last argument.
pub go_back : Fresh → ℕ → ℕ → (ℕ → ℕ) → (ℕ → Tree) → Outcome → Run Outcome
go_back fresh n pos keys p (stays value child) =
    done (stays value (branch n keys (change p pos child)))
go_back fresh n pos keys p (insert_it child new_key new_ptr) =
    let p1 = change p pos child in
    if ltb n (order - 1)
    then add_key n keys p1 new_key new_ptr
    else split fresh pos keys p1 new_key new_ptr

pub insert_helper : Fresh → ℕ → Tree → Run Outcome
insert_helper fresh key empty = done (insert_it empty key empty)
insert_helper fresh key (branch n keys p) =
    let below : ℕ → Run Outcome = λ i. insert_helper fresh key (p i) in
    search_pos key keys n >>= λ pos.
    (if ltb pos n then (entry (order - 1) keys pos >>= λ k. done (key == k)) else done false)
    >>= λ same.
        let further : Run Outcome =
          (if ltb pos order then below pos else fault) >>= go_back fresh n pos keys p in
        if same then done (stays duplicate (branch n keys p)) else further

-- The end of insert: a new root above the two halves.
pub new_root : Fresh → Outcome → Tree
new_root fresh (stays value tree) = tree
new_root fresh (insert_it left up_key right) =
    branch 1 (change fresh.keys 0 up_key) (change (change fresh.p 0 left) 1 right)

pub insert : Fresh → ℕ → Tree → Run Tree
unfolding new_root
insert fresh key root = insert_helper fresh key root >>= λ out. done (new_root fresh out)

-- The loop of traverse, with the rounds first, and the call behind it. The list is what is printed.
pub traverse_from : ℕ → ℕ → (ℕ → ℕ) → (ℕ → Run (List ℕ)) → Run (List ℕ)
traverse_from zero i keys below = entry order below i >>= λ out. out
traverse_from (suc rounds) i keys below = entry order below i >>= λ first. first >>= λ out.
    entry (order - 1) keys i >>= λ k.
    traverse_from rounds (i + 1) keys below >>= λ rest. done (out ++ k ∷ rest)

pub traverse : Tree → Run (List ℕ)
unfolding traverse_from
traverse empty = done []
traverse (branch n keys p) = traverse_from n 0 keys (λ i. traverse (p i))

-- The loop of main, with the numbers that fscanf still reads. It returns the root and what
-- traverse prints after each of them.
pub add_numbers : Fresh → List ℕ → Tree → Run (Tree × List (List ℕ))
add_numbers fresh [] root = done (root, [])
add_numbers fresh (key ∷ numbers) root = do
  root' ← insert fresh key root
  out ← traverse root'
  (last, outs) ← add_numbers fresh numbers root'
  done (last, out ∷ outs)

-- main, with the numbers in the file. The first one is read in front of the loop.
pub read_file : Fresh → List ℕ → Run (Tree × List (List ℕ))
unfolding add_numbers
read_file fresh numbers = add_numbers fresh (drop 1 numbers) empty
