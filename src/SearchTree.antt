-- ===== src/SearchTree.antt =====
-- binarysearchtree.c and bstproblems.c: binary search trees. No node is shared or changed but at
-- the end of the path to it, so a tree of nodes is a value here. A key is only compared, copied and
-- printed: an `int` v is the number v + 2^31. What the code prints is the list of printed keys.
pub mod Depth
pub mod Order
mod Tests
use codingforfun.Prelude.{
  ℕ, suc, ◌+◌, Bool, true, false, List, [], ◌∷◌, ◌++◌, ltb, ◌==◌, if◌then◌else◌, Option, none, some,
}

-- `struct node`; `leaf` is NULL.
pub data Tree : Type 0 where
  leaf : Tree
  fork : Tree → ℕ → Tree → Tree

-- insert of binarysearchtree.c. A duplicate leaves the tree as it is.
pub insert : ℕ → Tree → Tree
insert value leaf = fork leaf value leaf
insert value (fork l k r) =
    let left = fork (insert value l) k r in
    let right = fork l k (insert value r) in
    if ltb value k then left else if ltb k value then right else fork l k r

-- findnode of binarysearchtree.c: the subtree whose root has the value.
pub findnode : ℕ → Tree → Option Tree
findnode value leaf = none
findnode value (fork l k r) =
    let left = findnode value l in
    let right = findnode value r in
    if k == value then some (fork l k r) else if ltb value k then left else right

-- 0, encoded.
abbrev pub no_key : ℕ
no_key = 2147483648

-- find_key of bstproblems.c, which returns 0 where there is no such key.
pub find_key : ℕ → Tree → ℕ
find_key key leaf = no_key
find_key key (fork l k r) =
    let left = find_key key l in
    let right = find_key key r in if k == key then k else if ltb key k then left else right

pub traverse_inorder : Tree → List ℕ
traverse_inorder leaf = []
traverse_inorder (fork l k r) = traverse_inorder l ++ k ∷ traverse_inorder r

pub traverse_preorder : Tree → List ℕ
traverse_preorder leaf = []
traverse_preorder (fork l k r) = k ∷ traverse_preorder l ++ traverse_preorder r

pub traverse_postorder : Tree → List ℕ
traverse_postorder leaf = []
traverse_postorder (fork l k r) = traverse_postorder l ++ (traverse_postorder r ++ k ∷ [])

pub maxdepth : Tree → ℕ
maxdepth leaf = 0
maxdepth (fork l k r) =
    let nleft = maxdepth l in
    let nright = maxdepth r in if ltb nright nleft then 1 + nleft else 1 + nright

pub mindepth : Tree → ℕ
mindepth leaf = 0
mindepth (fork l k r) =
    let nleft = mindepth l in
    let nright = mindepth r in if ltb nright nleft then 1 + nright else 1 + nleft

pub isbalanced : Tree → Bool
unfolding mindepth maxdepth
isbalanced root = mindepth root == maxdepth root
