-- ===== src/BTree/Order.antt =====
-- The order of the keys around a child, and a key that is added to a child or found in it.
use mathlib.Core.List.{append-nil, append_assoc}
use mathlib.Core.Path.{subst}
use native.Mathlib.Decide.{ℕ_discrete}
use codingforfun.Prelude.{
  ℕ, zero, suc, ◌+◌, ◌≤◌, ◌<◌, ◌≡◌, refl, sym, ap, ◌∙◌, List, [], ◌∷◌, ◌++◌, arith,
}
use codingforfun.Ascending.{
  All, Ascends, All-append, All-map, Ascends-append, Ascends-sides, All-sides,
}
use codingforfun.BTree.Flat.{flat, tail, fill}

-- The key is added at its place.
abbrev pub Inserted : ℕ → List ℕ → List ℕ → Type 0
Inserted key old new =
    (xs : List ℕ) × (ys : List ℕ) × (old ≡ xs ++ ys)
    × (new ≡ xs ++ key ∷ ys)
    × All (λ x. x < key) xs
    × All (λ x. key < x) ys

abbrev pub Has : ℕ → List ℕ → Type 0
Has key keys = (xs : List ℕ) × (ys : List ℕ) × (keys ≡ xs ++ key ∷ ys)

Inserted-append :
    (key : ℕ) (old new t : List ℕ)
    → All (λ x. key < x) t
    → Inserted key old new
    → Inserted key (old ++ t) (new ++ t)
Inserted-append key old new t above (xs, ys, e, e', b, a) = (
  xs,
  ys ++ t,
  ap (λ l. l ++ t) e ∙ append_assoc xs ys t,
  ap (λ l. l ++ t) e' ∙ append_assoc xs (key ∷ ys) t,
  b,
  All-append (λ x. key < x) ys t a above,
)

Inserted-prepend :
    (key k : ℕ) (old new front : List ℕ)
    → All (λ x. x < key) front
    → k < key
    → Inserted key old new
    → Inserted key (front ++ k ∷ old) (front ++ k ∷ new)
Inserted-prepend key k old new front below lt (xs, ys, e, e', b, a) = (
  front ++ k ∷ xs,
  ys,
  ap (λ l. front ++ k ∷ l) e ∙ sym (append_assoc front (k ∷ xs) ys),
  ap (λ l. front ++ k ∷ l) e' ∙ sym (append_assoc front (k ∷ xs) (key ∷ ys)),
  All-append (λ x. x < key) front (k ∷ xs) below (lt, b),
  a,
)

-- The key lies between the keys around child `q`.
abbrev pub Between : ℕ → ℕ → ℕ → (ℕ → ℕ) → ℕ → Type 0
Between r q i keys key = ((j : ℕ) → i ≤ j → j < i + q → keys j < key) × (q < r → key < keys (i + q))

-- A key that is added to the right child is added to the node.
pub fill-Inserted :
    (r q i : ℕ) (keys : ℕ → ℕ) (c : ℕ → List ℕ) (mid : List ℕ) (key : ℕ)
    → q ≤ r
    → Ascends (flat r i keys c)
    → Between r q i keys key
    → Inserted key (c (i + q)) mid
    → Inserted key (flat r i keys c) (fill r q i keys c mid)
fill-Inserted zero zero i keys c mid key le a b ins =
    let e : i + 0 ≡ i = omega arith in rw (append-nil mid, ← e) ins
fill-Inserted (suc r) zero i keys c mid key le a b ins =
    let e : i + 0 ≡ i = omega arith in
    let (left, below, above, right) = Ascends-sides (c i) (flat r (i + 1) keys c) (keys i) a in
    let lt : key < keys i = subst (λ j. key < keys j) e (b.1 (omega arith)) in
    Inserted-append key (c i) mid (keys i ∷ flat r (i + 1) keys c)
      (
        lt,
        All-map (λ x. keys i < x) (λ x. key < x) (flat r (i + 1) keys c) (λ x h. omega arith) above,
      )
      (subst (λ j. Inserted key (c j) mid) e ins)
fill-Inserted zero (suc q) i keys c mid key le a b ins = absurd (omega arith)
fill-Inserted (suc r) (suc q) i keys c mid key le a b ins =
    let e : i + suc q ≡ i + 1 + q = omega arith in
    let (left, below, above, right) = Ascends-sides (c i) (flat r (i + 1) keys c) (keys i) a in
    let lt : keys i < key = b.0 i (omega arith) (omega arith) in
    Inserted-prepend key (keys i) (flat r (i + 1) keys c) (fill r q (i + 1) keys c mid) (c i)
      (All-map (λ x. x < keys i) (λ x. x < key) (c i) (λ x h. omega arith) below) lt
      (fill-Inserted r q (i + 1) keys c mid key (omega arith) right
        (
          (λ j l h. b.0 j (omega arith) (omega arith)),
          λ h. subst (λ j. key < keys j) e (b.1 (omega arith)),
        )
        (subst (λ j. Inserted key (c j) mid) e ins))

pub Ascends-child :
    (r q i : ℕ) (keys : ℕ → ℕ) (c : ℕ → List ℕ)
    → q ≤ r
    → Ascends (flat r i keys c)
    → Ascends (c (i + q))
Ascends-child zero zero i keys c le a = let e : i + 0 ≡ i = omega arith in rw e a
Ascends-child (suc r) zero i keys c le a =
    let e : i + 0 ≡ i = omega arith in
    rw e (Ascends-sides (c i) (flat r (i + 1) keys c) (keys i) a).0
Ascends-child zero (suc q) i keys c le a = absurd (omega arith)
Ascends-child (suc r) (suc q) i keys c le a =
    let e : i + suc q ≡ i + 1 + q = omega arith in
    rw e (
      Ascends-child r q (i + 1) keys c (omega arith)
        (Ascends-sides (c i) (flat r (i + 1) keys c) (keys i) a).3)

-- Both sides of two lists in a row.
Ascends-parts : (xs ys : List ℕ) → Ascends (xs ++ ys) → Ascends xs × Ascends ys
Ascends-parts [] ys a = (tt, a)
Ascends-parts (x ∷ xs) ys a =
    let (left, right) = Ascends-parts xs ys a.1 in
    (((All-sides (λ y. x < y) xs ys a.0).0, left), right)

pub Inserted-Ascends :
    (key : ℕ) (old new : List ℕ) → Inserted key old new → Ascends old → Ascends new
Inserted-Ascends key old new (xs, ys, e, e', b, a) h =
    let (left, right) = Ascends-parts xs ys (subst Ascends e h) in
    rw e' (Ascends-append xs ys key left b (a, right))

All-fill :
    (P : ℕ → Type 0) (r q i : ℕ) (keys : ℕ → ℕ) (c : ℕ → List ℕ) (mid : List ℕ)
    → All P (fill r q i keys c mid)
    → All P mid
All-fill P r zero i keys c mid a = (All-sides P mid (tail r i keys c) a).0
All-fill P zero (suc q) i keys c mid a = a
All-fill P (suc r) (suc q) i keys c mid a =
    All-fill P r q (i + 1) keys c mid
      (All-sides P (c i) (keys i ∷ fill r q (i + 1) keys c mid) a).1.1

-- Where the list ascends, a key of the child lies between the keys around it.
pub fill-Between :
    (r q i : ℕ) (keys : ℕ → ℕ) (c : ℕ → List ℕ) (k : ℕ) (xs ys : List ℕ)
    → q ≤ r
    → Ascends (fill r q i keys c (xs ++ k ∷ ys))
    → Between r q i keys k
fill-Between zero zero i keys c k xs ys le a =
    ((λ j l h. absurd (omega arith)), λ h. absurd (omega arith))
fill-Between (suc r) zero i keys c k xs ys le a =
    let e : i + 0 ≡ i = omega arith in
    let t = keys i ∷ flat r (i + 1) keys c in
    let (left, below, above, right) =
      Ascends-sides xs (ys ++ t) k (subst Ascends (append_assoc xs (k ∷ ys) t) a) in
    ((λ j l h. absurd (omega arith)), λ h. rw e (All-sides (λ x. k < x) ys t above).1.0)
fill-Between zero (suc q) i keys c k xs ys le a = absurd (omega arith)
fill-Between (suc r) (suc q) i keys c k xs ys le a =
    let e : i + suc q ≡ i + 1 + q = omega arith in
    let mid = xs ++ k ∷ ys in
    let (left, below, above, right) =
      Ascends-sides (c i) (fill r q (i + 1) keys c mid) (keys i) a in
    let lt : keys i < k =
      (All-sides (λ x. keys i < x) xs (k ∷ ys)
        (All-fill (λ x. keys i < x) r q (i + 1) keys c mid above)).1.0 in
    let between = fill-Between r q (i + 1) keys c k xs ys (omega arith) right in
    (
      λ j l h. elim (ℕ_discrete j i) [
        | yes same ↦ rw same lt
        | no other ↦ between.0 j (omega arith) (omega arith)
      ],
      λ h. rw e (between.1 (omega arith)),
    )

Has-around : (key : ℕ) (front mid back : List ℕ) → Has key mid → Has key (front ++ (mid ++ back))
Has-around key front mid back (xs, ys, e) = (
  front ++ xs,
  ys ++ back,
  ap (λ l. front ++ (l ++ back)) e
      ∙ ap (λ l. front ++ l) (append_assoc xs (key ∷ ys) back)
      ∙ sym (append_assoc front xs (key ∷ (ys ++ back))),
)

Has-behind : (key : ℕ) (front mid : List ℕ) → Has key mid → Has key (front ++ mid)
Has-behind key front mid (xs, ys, e) =
    (front ++ xs, ys, ap (λ l. front ++ l) e ∙ sym (append_assoc front xs (key ∷ ys)))

-- A key of a child is in the list.
pub fill-Has :
    (r q i : ℕ) (keys : ℕ → ℕ) (c : ℕ → List ℕ) (mid : List ℕ) (key : ℕ)
    → Has key mid
    → Has key (fill r q i keys c mid)
fill-Has r zero i keys c mid key has = Has-around key [] mid (tail r i keys c) has
fill-Has zero (suc q) i keys c mid key has = has
fill-Has (suc r) (suc q) i keys c mid key has =
    Has-behind key (c i) (keys i ∷ fill r q (i + 1) keys c mid) (
      Has-behind key (keys i ∷ []) (fill r q (i + 1) keys c mid)
        (fill-Has r q (i + 1) keys c mid key has))

-- A key of the node is in the list.
pub flat-Has :
    (r q i : ℕ) (keys : ℕ → ℕ) (c : ℕ → List ℕ) → q < r → Has (keys (i + q)) (flat r i keys c)
flat-Has zero q i keys c lt = absurd (omega arith)
flat-Has (suc r) zero i keys c lt =
    let e : i + 0 ≡ i = omega arith in rw e (c i, flat r (i + 1) keys c, refl)
flat-Has (suc r) (suc q) i keys c lt =
    let e : i + suc q ≡ i + 1 + q = omega arith in
    rw e (
      Has-behind (keys (i + 1 + q)) (c i) (keys i ∷ flat r (i + 1) keys c) (
        Has-behind (keys (i + 1 + q)) (keys i ∷ []) (flat r (i + 1) keys c)
          (flat-Has r q (i + 1) keys c (omega arith))))
