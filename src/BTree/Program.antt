-- ===== src/BTree/Program.antt =====
-- The program prints what a sorted list would.
use mathlib.Core.Path.{subst}
use codingforfun.Prelude.{
  ℕ, suc, ◌<◌, ◌≡◌, ◌⊎◌, refl, sym, ap, ◌∙◌, true, false, List, [], ◌∷◌, ◌++◌, ltb, ◌==◌,
  if◌then◌else◌, arith, inl, inr, ==_refl, drop,
}
use codingforfun.Run.{Returns, returns, Returns-mono, Returns-bind}
use codingforfun.Ascending.{All, Ascends, Ascends-sides}
use codingforfun.BTree.{Tree, empty, Fresh, insert, add_numbers, read_file}
use codingforfun.BTree.Order.{Inserted, Has}
use codingforfun.BTree.Contents.{contents, traverse-contents}
use codingforfun.BTree.Insert.{IsBTree, insert-GrownTree}

-- The list with the key at its place, if it is not there already.
abbrev pub insert_ordered : ℕ → List ℕ → List ℕ
insert_ordered key [] = key ∷ []
insert_ordered key (x ∷ xs) =
    if ltb key x then key ∷ x ∷ xs else if key == x then x ∷ xs else x ∷ insert_ordered key xs

-- The list after each of the keys.
abbrev pub snapshots : List ℕ → List ℕ → List (List ℕ)
snapshots [] old = []
snapshots (key ∷ keys) old = insert_ordered key old ∷ snapshots keys (insert_ordered key old)

-- In front of a list whose entries are all above the key.
insert_ordered-front :
    (key : ℕ) (ys : List ℕ) → All (λ x. key < x) ys → insert_ordered key ys ≡ key ∷ ys
insert_ordered-front key [] a = refl
insert_ordered-front key (y ∷ ys) a = let lt : ltb key y ≡ true = ground (arith, a.0) in rw lt refl

-- Behind entries that are all below the key.
insert_ordered-behind :
    (key : ℕ) (xs ys : List ℕ)
    → All (λ x. x < key) xs
    → insert_ordered key (xs ++ ys) ≡ xs ++ insert_ordered key ys
insert_ordered-behind key [] ys b = refl
insert_ordered-behind key (x ∷ xs) ys b =
    let above : ltb key x ≡ false = ground (arith, b.0) in
    let other : (key == x) ≡ false = ground (arith, b.0) in
    rw (above, other, insert_ordered-behind key xs ys b.1) refl

Inserted-insert_ordered :
    (key : ℕ) (old new : List ℕ) → Inserted key old new → new ≡ insert_ordered key old
Inserted-insert_ordered key old new (xs, ys, e, e', b, a) =
    e'
    ∙ sym (
        ap (insert_ordered key) e
        ∙ insert_ordered-behind key xs ys b
        ∙ ap (λ l. xs ++ l) (insert_ordered-front key ys a))

Has-insert_ordered :
    (key : ℕ) (old : List ℕ) → Has key old → Ascends old → insert_ordered key old ≡ old
Has-insert_ordered key old (xs, ys, e) a =
    let (left, below, above, right) = Ascends-sides xs ys key (subst Ascends e a) in
    let here : insert_ordered key (key ∷ ys) ≡ key ∷ ys =
      let not_below : ltb key key ≡ false = ground arith in rw (not_below, ==_refl key) refl in
    ap (insert_ordered key) e
    ∙ insert_ordered-behind key xs (key ∷ ys) below
    ∙ ap (λ l. xs ++ l) here
    ∙ sym e

-- A B-tree of some height with the given keys.
abbrev pub Holding : List ℕ → Tree → Type 0
Holding keys t = (d : ℕ) × IsBTree d t × (contents t ≡ keys)

insert-Holding :
    (fresh : Fresh) (key : ℕ) (old : List ℕ) (t : Tree)
    → Holding old t
    → Returns (Holding (insert_ordered key old)) (insert fresh key t)
insert-Holding fresh key old t (d, is, e) =
    Returns-mono (insert-GrownTree fresh key d t is) λ t' (height, keys).
      (let same : contents t' ≡ insert_ordered key old = which t' keys in
        elim height [ inl low ↦ (d, low, same) | inr high ↦ (suc d, high, same) ])
  where
    which :
        (t' : Tree)
        → ((Has key (contents t) × (contents t' ≡ contents t))
            ⊎ Inserted key (contents t) (contents t'))
        → contents t' ≡ insert_ordered key old
    which t' (inl (has, same)) =
        same ∙ sym (Has-insert_ordered key (contents t) has is.1) ∙ ap (insert_ordered key) e
    which t' (inr ins) =
        Inserted-insert_ordered key (contents t) (contents t') ins ∙ ap (insert_ordered key) e

add_numbers-snapshots :
    (fresh : Fresh) (numbers old : List ℕ) (t : Tree)
    → Holding old t
    → Returns (λ (root, outs). outs ≡ snapshots numbers old) (add_numbers fresh numbers t)
unfolding add_numbers
add_numbers-snapshots fresh [] old t h = returns refl
add_numbers-snapshots fresh (key ∷ numbers) old t h =
    Returns-bind (insert-Holding fresh key old t h) λ t' (d, is, e).
      rw (traverse-contents 1 d t' is.0) (
        Returns-bind (add_numbers-snapshots fresh numbers (insert_ordered key old) t' (d, is, e))
          λ (root, outs) same. returns (rw (e, same) refl))

-- The program ends without an access outside a node, and after each number prints what a sorted
-- list without repetitions of the numbers so far would hold; the first number of the file is
-- missing.
pub read_file-snapshots :
    (fresh : Fresh) (numbers : List ℕ)
    → Returns (λ (root, outs). outs ≡ snapshots (drop 1 numbers) []) (read_file fresh numbers)
unfolding read_file
read_file-snapshots fresh numbers =
    add_numbers-snapshots fresh (drop 1 numbers) [] empty (0, (tt, tt), refl)
