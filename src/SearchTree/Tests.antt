-- ===== src/SearchTree/Tests.antt =====
-- The tree that the main programs build, and each theorem at it.
use codingforfun.Prelude.{
  ℕ, ◌≤◌, ◌≡◌, ◌≢◌, ◌↔◌, ◌⊎◌, refl, true, List, [], ◌∷◌, none, some, Perm, arith,
}
use codingforfun.Ascending.{Ascends}
use codingforfun.SearchTree.{
  Tree, leaf, fork, insert, findnode, no_key, find_key, traverse_inorder, traverse_preorder,
  traverse_postorder, maxdepth, mindepth, isbalanced,
}
use codingforfun.SearchTree.Order.{IsSearchTree, Located, Grown, insert-Grown, lookups_lem}
use codingforfun.SearchTree.Depth.{Way, depths_lem}

abbrev three : ℕ
three = 3

abbrev six : ℕ
six = 6

abbrev grow : List ℕ → Tree → Tree
grow [] t = t
grow (x ∷ xs) t = grow xs (insert x t)

abbrev small : Tree
small = fork (fork leaf 2 (fork leaf 3 leaf)) 5 (fork leaf 7 leaf)

grow-small : grow (5 ∷ 2 ∷ 7 ∷ 3 ∷ 7 ∷ []) leaf ≡ small
unfolding insert
grow-small = refl

findnode-small : findnode 2 small ≡ some (fork leaf 2 (fork leaf 3 leaf))
unfolding findnode
findnode-small = refl

small-IsSearchTree : IsSearchTree small
small-IsSearchTree = (
  (tt, omega arith, (tt, omega arith, tt)),
  (tt, omega arith, tt),
  (tt, (tt, omega arith, tt), tt, (tt, tt, tt, tt)),
  (tt, tt, tt, tt),
)

insert-Grown_example : Grown 6 small (insert 6 small)
insert-Grown_example = insert-Grown 6 small small-IsSearchTree

lookups_lem_example :
    Located 3 small (findnode 3 small)
    × (((find_key 3 small ≡ no_key) × (findnode 3 small ≡ none))
        ⊎ ((find_key 3 small ≡ 3) × (findnode 3 small ≢ none)))
    × Ascends (traverse_inorder small)
    × Perm (traverse_preorder small) (traverse_inorder small)
    × Perm (traverse_postorder small) (traverse_inorder small)
lookups_lem_example = lookups_lem 3 small small-IsSearchTree

depths_lem_example :
    Way small (mindepth small)
    × Way small (maxdepth small)
    × ((n : ℕ) → Way small n → (mindepth small ≤ n) × (n ≤ maxdepth small))
    × ((isbalanced small ≡ true) ↔ ((n : ℕ) → Way small n → n ≡ maxdepth small))
depths_lem_example = depths_lem small
