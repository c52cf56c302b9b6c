-- ===== src/SearchTree/Order.antt =====
-- The order of a search tree, and what insertion, search and traversal do to it.
use mathlib.Core.List.{append-nil, perm_middle}
use mathlib.Core.List.Perm
use codingforfun.Prelude.{
  ℕ, ◌<◌, ◌≡◌, ◌≢◌, ◌↔◌, ◌⊎◌, inl, inr, refl, ap, sym, [], ◌∷◌, Perm, ltb, ◌==◌, Option, none, some,
  arith, Bool-cases,
}
use codingforfun.Ascending.{All, Ascends, All-append, Ascends-append}
use codingforfun.SearchTree.{
  Tree, leaf, fork, insert, findnode, no_key, find_key, traverse_inorder, traverse_preorder,
  traverse_postorder,
}

-- The key is in the tree.
abbrev pub In : ℕ → Tree → Type 0
In x leaf = ⊥
In x (fork l k r) = In x l ⊎ (x ≡ k) ⊎ In x r

-- All keys are above `low` and all below `high`, and each subtree is on its side of its root.
abbrev pub Within : (ℕ → Type 0) → Tree → Type 0
Within P leaf = Unit
Within P (fork l k r) = Within P l × P k × Within P r

abbrev pub IsSearchTree : Tree → Type 0
IsSearchTree leaf = Unit
IsSearchTree (fork l k r) =
    Within (λ x. x < k) l × Within (λ x. k < x) r × IsSearchTree l × IsSearchTree r

insert-Within :
    (P : ℕ → Type 0) (value : ℕ) (t : Tree) → P value → Within P t → Within P (insert value t)
unfolding insert
insert-Within P value leaf p w = (tt, p, tt)
insert-Within P value (fork l k r) p w = elim (Bool-cases (ltb value k)) [
  | inl left ↦ rw left (insert-Within P value l p w.0, w.1, w.2)
  | inr other ↦ rw other (elim (Bool-cases (ltb k value)) [
    | inl right ↦ rw right (w.0, w.1, insert-Within P value r p w.2)
    | inr same ↦ rw same w
  ])
]

-- insert keeps a search tree a search tree.
insert-IsSearchTree : (value : ℕ) (t : Tree) → IsSearchTree t → IsSearchTree (insert value t)
unfolding insert
insert-IsSearchTree value leaf s = (tt, tt, tt, tt)
insert-IsSearchTree value (fork l k r) s = elim (Bool-cases (ltb value k)) [
  | inl left ↦ rw left (
    insert-Within (λ x. x < k) value l (ground arith) s.0,
    s.1,
    insert-IsSearchTree value l s.2,
    s.3,
  )
  | inr other ↦ rw other (elim (Bool-cases (ltb k value)) [
    | inl right ↦ rw right (
      s.0,
      insert-Within (λ x. k < x) value r (ground arith) s.1,
      s.2,
      insert-IsSearchTree value r s.3,
    )
    | inr same ↦ rw same s
  ])
]

-- insert adds exactly the value.
In-insert : (x value : ℕ) (t : Tree) → In x (insert value t) ↔ ((x ≡ value) ⊎ In x t)
unfolding insert
In-insert x value leaf = ground arith
In-insert x value (fork l k r) = ground (arith, In-insert x value l, In-insert x value r)

In-Within : (P : ℕ → Type 0) (x : ℕ) (t : Tree) → Within P t → In x t → P x
In-Within P x leaf w m = absurd m
In-Within P x (fork l k r) w (inl m) = In-Within P x l w.0 m
In-Within P x (fork l k r) w (inr (inl e)) = rw e w.1
In-Within P x (fork l k r) w (inr (inr m)) = In-Within P x r w.2 m

-- What a search returns: the subtree at the value, or nothing if the tree does not have it.
abbrev pub Located : ℕ → Tree → Option Tree → Type 0
Located value t none = ¬ In value t
Located value t (some u) = (l : Tree) × (r : Tree) × (u ≡ fork l value r) × In value t

-- findnode on a search tree finds a node with the value exactly if there is one.
findnode-Located : (value : ℕ) (t : Tree) → IsSearchTree t → Located value t (findnode value t)
unfolding findnode
findnode-Located value leaf s = λ m. m
findnode-Located value (fork l k r) s = elim (Bool-cases (k == value)) [
  | inl here ↦
      rw here
        (let e : k ≡ value = ground arith in (l, r, ap (λ x. fork l x r) e, inr (inl (sym e))))
  | inr other ↦ rw other (elim (Bool-cases (ltb value k)) [
    | inl left ↦ rw left (on_left (findnode value l) (findnode-Located value l s.2) (ground arith))
    | inr right ↦
        rw right (on_right (findnode value r) (findnode-Located value r s.3) (ground arith))
  ])
]
  where
    absent_left : ¬ In value l → value < k → In value (fork l k r) → ⊥
    absent_left f lt (inl m) = f m
    absent_left f lt (inr (inl e)) = omega arith
    absent_left f lt (inr (inr m)) =
        let above : k < value = In-Within (λ x. k < x) value r s.1 m in omega arith

    absent_right : ¬ In value r → k < value → In value (fork l k r) → ⊥
    absent_right f lt (inl m) =
        let below : value < k = In-Within (λ x. x < k) value l s.0 m in omega arith
    absent_right f lt (inr (inl e)) = omega arith
    absent_right f lt (inr (inr m)) = f m

    on_left : (o : Option Tree) → Located value l o → value < k → Located value (fork l k r) o
    on_left none f lt = absent_left f lt
    on_left (some u) (a, b, e, m) lt = (a, b, e, inl m)

    on_right : (o : Option Tree) → Located value r o → k < value → Located value (fork l k r) o
    on_right none f lt = absent_right f lt
    on_right (some u) (a, b, e, m) lt = (a, b, e, inr (inr m))

-- find_key returns the key where findnode finds a node, and 0 where it finds none.
find_key-findnode :
    (key : ℕ) (t : Tree)
    → ((find_key key t ≡ no_key) × (findnode key t ≡ none))
      ⊎ ((find_key key t ≡ key) × (findnode key t ≢ none))
unfolding find_key findnode
find_key-findnode key leaf = inl (refl, refl)
find_key-findnode key (fork l k r) =
    ground (arith, find_key-findnode key l, find_key-findnode key r)

All-traverse_inorder : (P : ℕ → Type 0) (t : Tree) → Within P t → All P (traverse_inorder t)
unfolding traverse_inorder
All-traverse_inorder P leaf w = tt
All-traverse_inorder P (fork l k r) w =
    All-append P (traverse_inorder l) (k ∷ traverse_inorder r) (All-traverse_inorder P l w.0)
      (w.1, All-traverse_inorder P r w.2)

-- traverse_inorder prints the keys of a search tree in ascending order, none twice.
traverse_inorder-Ascends : (t : Tree) → IsSearchTree t → Ascends (traverse_inorder t)
unfolding traverse_inorder
traverse_inorder-Ascends leaf s = tt
traverse_inorder-Ascends (fork l k r) s =
    Ascends-append (traverse_inorder l) (traverse_inorder r) k (traverse_inorder-Ascends l s.2)
      (All-traverse_inorder (λ x. x < k) l s.0)
      (All-traverse_inorder (λ x. k < x) r s.1, traverse_inorder-Ascends r s.3)

preorder-perm : (t : Tree) → Perm (traverse_preorder t) (traverse_inorder t)
unfolding traverse_preorder traverse_inorder
preorder-perm leaf = Perm.refl []
preorder-perm (fork l k r) =
    Perm.trans (Perm.cons k (Perm.append (preorder-perm l) (preorder-perm r)))
      (Perm.symm (perm_middle (traverse_inorder l) (traverse_inorder r)))

postorder-perm : (t : Tree) → Perm (traverse_postorder t) (traverse_inorder t)
unfolding traverse_postorder traverse_inorder
postorder-perm leaf = Perm.refl []
postorder-perm (fork l k r) = Perm.append (postorder-perm l) (
    Perm.trans (perm_middle (traverse_postorder r) [])
      (Perm.cons k (rw (append-nil (traverse_postorder r)) (postorder-perm r))))

-- The new tree is a search tree of the old keys and the value.
abbrev pub Grown : ℕ → Tree → Tree → Type 0
Grown value old new = IsSearchTree new × ((x : ℕ) → In x new ↔ ((x ≡ value) ⊎ In x old))

-- insert keeps a search tree a search tree, and adds exactly the value.
pub insert-Grown : (value : ℕ) (t : Tree) → IsSearchTree t → Grown value t (insert value t)
insert-Grown value t s = (insert-IsSearchTree value t s, λ x. In-insert x value t)

-- On a search tree findnode finds a node with the value exactly if there is one, and find_key
-- returns the key where findnode finds a node, and 0 where it finds none; traverse_inorder prints
-- the keys in ascending order, none twice, and the other two traversals print the same keys.
pub lookups_lem :
    (key : ℕ) (t : Tree)
    → IsSearchTree t
    → Located key t (findnode key t)
      × (((find_key key t ≡ no_key) × (findnode key t ≡ none))
          ⊎ ((find_key key t ≡ key) × (findnode key t ≢ none)))
      × Ascends (traverse_inorder t)
      × Perm (traverse_preorder t) (traverse_inorder t)
      × Perm (traverse_postorder t) (traverse_inorder t)
lookups_lem key t s = (
  findnode-Located key t s,
  find_key-findnode key t,
  traverse_inorder-Ascends t s,
  preorder-perm t,
  postorder-perm t,
)
