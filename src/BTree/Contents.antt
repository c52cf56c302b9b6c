-- ===== src/BTree/Contents.antt =====
-- The keys of a tree, its shape, and what searchPos and the loops on a node do.
use mathlib.Core.Path.{subst}
use native.Mathlib.Decide.{ℕ_discrete}
use codingforfun.Prelude.{
  ℕ, zero, suc, ◌+◌, ◌-◌, ◌≤◌, ◌<◌, ◌≡◌, refl, true, List, [], ltb, leb, ◌&&◌, ◌==◌, if◌then◌else◌,
  arith, Bool-cases, inl, inr,
}
use codingforfun.Run.{Run, done, Returns, returns, Returns-mono}
use codingforfun.BTree.{
  order, Tree, empty, branch, change, entry, assign, search_from, search_pos, shift_up,
  traverse_from, traverse,
}
use codingforfun.BTree.Flat.{flat, wider}
use codingforfun.BTree.Order.{Between}

-- The keys in order.
abbrev pub contents : Tree → List ℕ
contents empty = []
contents (branch n keys p) = flat n 0 keys (λ i. contents (p i))

-- A tree of a height: each node has one child more than keys, all of one height; a node has at
-- most four keys, and at least two, but the root at least `least`.
abbrev pub IsTree : ℕ → ℕ → Tree → Type 0
IsTree least zero empty = Unit
IsTree least (suc d) empty = ⊥
IsTree least zero (branch n keys p) = ⊥
IsTree least (suc d) (branch n keys p) =
    (least ≤ n) × (n < order) × ((i : ℕ) → i ≤ n → IsTree 2 d (p i))

-- The index that searchPos returns.
abbrev pub Place : ℕ → ℕ → (ℕ → ℕ) → ℕ → Type 0
Place key n keys pos = (pos ≤ n) × ((j : ℕ) → j < pos → keys j < key) × (pos < n → key ≤ keys pos)

search_from-Place :
    (left pos key n : ℕ) (keys : ℕ → ℕ)
    → pos + left ≡ n
    → n < order
    → ((j : ℕ) → j < pos → keys j < key)
    → Returns (Place key n keys) (search_from left pos key keys)
unfolding search_from entry
search_from-Place zero pos key n keys e fits below =
    returns (omega arith, below, λ h. absurd (omega arith))
search_from-Place (suc left) pos key n keys e fits below =
    let ok : ltb pos (order - 1) ≡ true = ground arith in
    rw ok (elim (Bool-cases (ltb (keys pos) key)) [
      | inl more ↦ rw more (
          search_from-Place left (pos + 1) key n keys (omega arith) fits λ j h.
            elim (ℕ_discrete j pos) [
              | yes same ↦ rw same (ground arith)
              | no other ↦ below j (omega arith)
            ])
      | inr stop ↦ rw stop (returns (omega arith, below, λ h. ground arith))
    ])

pub search_pos-Place :
    (key n : ℕ) (keys : ℕ → ℕ) → n < order → Returns (Place key n keys) (search_pos key keys n)
unfolding search_pos
search_pos-Place key n keys fits =
    search_from-Place n 0 key n keys (omega arith) fits (λ j h. absurd (omega arith))

-- A key between the keys around `pos` has its place there.
pub Place-Between :
    (key n pos pos' : ℕ) (keys : ℕ → ℕ)
    → pos ≤ n
    → Between n pos 0 keys key
    → Place key n keys pos'
    → pos' ≡ pos
Place-Between key n pos pos' keys le b (le', below, above) = elim (ℕ_discrete pos' pos) [
  | yes same ↦ same
  | no other ↦ elim (Bool-cases (ltb pos' pos)) [
    | inl less ↦
        let one = b.0 pos' (omega arith) (ground arith) in
        let two : key ≤ keys pos' = above (ground arith) in absurd (omega arith)
    | inr more ↦
        let one = below pos (ground arith) in
        let e : 0 + pos ≡ pos = omega arith in
        let two : key < keys pos = subst (λ j. key < keys j) e (b.1 (ground arith)) in
        absurd (omega arith)
  ]
]

-- What shift_up leaves.
abbrev pub Shifted : ℕ → ℕ → (ℕ → ℕ) → (ℕ → Tree) → (ℕ → ℕ) × (ℕ → Tree) → Type 0
Shifted pos i keys p (keys', p') =
    ((j : ℕ) → keys' j ≡ (if ltb pos j && leb j i then keys (j - 1) else keys j))
    × ((j : ℕ) → p' j ≡ (if ltb (pos + 1) j && leb j (i + 1) then p (j - 1) else p j))

pub shift_up-Shifted :
    (rounds pos i : ℕ) (keys : ℕ → ℕ) (p : ℕ → Tree)
    → pos + rounds ≡ i
    → i < order - 1
    → Returns (Shifted pos i keys p) (shift_up rounds i keys p)
unfolding shift_up entry assign change
shift_up-Shifted zero pos i keys p e fits = returns ((λ j. ground arith), λ j. ground arith)
shift_up-Shifted (suc rounds) pos i keys p e fits =
    let ok1 : ltb (i - 1) (order - 1) ≡ true = ground arith in
    let ok2 : ltb i (order - 1) ≡ true = ground arith in
    let ok3 : ltb i order ≡ true = ground arith in
    let ok4 : ltb (i + 1) order ≡ true = ground arith in
    rw (ok1, ok2, ok3, ok4)
      (Returns-mono
        (shift_up-Shifted rounds pos (i - 1) (change keys i (keys (i - 1))) (change p (i + 1) (p i))
          (omega arith) (omega arith))
        λ (keys', p') s. ((λ j. ground (arith, s.0 j)), λ j. ground (arith, s.1 j)))

traverse_from-flat :
    (r i : ℕ) (keys : ℕ → ℕ) (below : ℕ → Run (List ℕ)) (c : ℕ → List ℕ)
    → i + r < order
    → ((j : ℕ) → j ≤ i + r → below j ≡ done (c j))
    → traverse_from r i keys below ≡ done (flat r i keys c)
unfolding traverse_from entry
traverse_from-flat zero i keys below c fits e =
    let ok : ltb i order ≡ true = ground arith in rw (ok, e i (omega arith)) refl
traverse_from-flat (suc r) i keys below c fits e =
    let ok : ltb i order ≡ true = ground arith in
    let ok1 : ltb i (order - 1) ≡ true = ground arith in
    rw
      (
        ok,
        e i (omega arith),
        ok1,
        traverse_from-flat r (i + 1) keys below c (omega arith) (λ j h. e j (omega arith)),
      )
      refl

-- traverse on a tree never reads outside a node, and prints the keys in order.
pub traverse-contents : (least d : ℕ) (t : Tree) → IsTree least d t → traverse t ≡ done (contents t)
unfolding traverse
traverse-contents least zero empty s = refl
traverse-contents least (suc d) empty s = absurd s
traverse-contents least zero (branch n keys p) s = absurd s
traverse-contents least (suc d) (branch n keys p) s =
    traverse_from-flat n 0 keys (λ i. traverse (p i)) (λ i. contents (p i)) (omega (arith, s.1))
      (λ j h. traverse-contents 2 d (p j) (s.2 j (omega arith)))

module _ (n pos : ℕ) (p : ℕ → Tree) (child right : Tree) (le : pos ≤ n) where
  -- The children of a node, one changed and a new one behind it.
  abbrev pub children : ℕ → Tree
  children = wider (change p pos child) (pos + 1) right

  pub contents-children :
      (j : ℕ)
      → contents (children j)
        ≡ wider (change (λ i. contents (p i)) pos (contents child)) (pos + 1) (contents right) j
  unfolding wider change
  contents-children j = elim (Bool-cases (ltb j (pos + 1))) [
    | inl low ↦
        rw low
          (elim (Bool-cases (j == pos)) [ inl same ↦ rw same refl | inr other ↦ rw other refl ])
    | inr high ↦ rw high (elim (Bool-cases (j == pos + 1)) [
      | inl same ↦ rw same refl
      | inr other ↦
          rw other (elim (Bool-cases (j - 1 == pos)) [
            | inl same ↦ rw same refl
            | inr other ↦ rw other refl
          ])
    ])
  ]

  module _ (P : Tree → Type 0) (kids : (i : ℕ) → i ≤ n → P (p i)) (first : P child) where
    pub kids-change : (i : ℕ) → i ≤ n → P (change p pos child i)
    unfolding change
    kids-change i h = elim (Bool-cases (i == pos)) [
      | inl same ↦ rw same first
      | inr other ↦ rw other (kids i h)
    ]

    pub kids-children : P right → (i : ℕ) → i ≤ n + 1 → P (children i)
    unfolding wider
    kids-children second i h = elim (Bool-cases (ltb i (pos + 1))) [
      | inl low ↦ rw low (kids-change i (ground arith))
      | inr high ↦ rw high (elim (Bool-cases (i == pos + 1)) [
        | inl same ↦ rw same second
        | inr other ↦ rw other (kids-change (i - 1) (omega arith))
      ])
    ]
