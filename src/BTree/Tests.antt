-- ===== src/BTree/Tests.antt =====
-- Trees that grow by two levels, and each theorem at one.
use codingforfun.Prelude.{ℕ, ◌+◌, ◌*◌, ◌≡◌, refl, List, [], ◌∷◌, drop, arith}
use codingforfun.Run.{done, ◌>>=◌, Returns}
use codingforfun.BTree.{
  insert_helper, search_pos, search_from, go_back, split, make_room, shift_up, fill_right, new_root,
  Tree, empty, branch, Fresh, change, entry, assign, insert, read_file,
}
use codingforfun.BTree.Contents.{contents}
use codingforfun.BTree.Insert.{IsBTree, GrownTree, insert-GrownTree}
use codingforfun.BTree.Program.{snapshots, read_file-snapshots}

abbrev fresh : Fresh
fresh = record { keys = λ i. 99; p = λ i. empty }

-- A full leaf with 10, 20, 30 and 40.
abbrev full : Tree
full = branch 4 (λ i. 10 * i + 10) (λ i. empty)

-- The key 25 splits it; 25 goes up.
insert-full : (insert fresh 25 full >>= λ t. done (contents t)) ≡ done (10 ∷ 20 ∷ 25 ∷ 30 ∷ 40 ∷ [])
unfolding insert insert_helper search_pos search_from go_back split make_room shift_up fill_right
    new_root change entry assign
insert-full = refl

full-IsBTree : IsBTree 1 full
full-IsBTree = (
  (omega arith, omega arith, λ i h. tt),
  (
    (omega arith, (omega arith, (omega arith, tt))),
    ((omega arith, (omega arith, tt)), ((omega arith, tt), (tt, tt))),
  ),
)

insert-GrownTree_example : Returns (GrownTree 25 1 (contents full)) (insert fresh 25 full)
insert-GrownTree_example = insert-GrownTree fresh 25 1 full full-IsBTree

abbrev numbers : List ℕ
numbers = 3 ∷ 8 ∷ 1 ∷ 9 ∷ 4 ∷ 7 ∷ 2 ∷ 8 ∷ 6 ∷ []

read_file-snapshots_example :
    Returns (λ (root, outs). outs ≡ snapshots (drop 1 numbers) []) (read_file fresh numbers)
read_file-snapshots_example = read_file-snapshots fresh numbers
