-- ===== src/Ascending.antt =====
-- Ascending lists of numbers, none twice.
use codingforfun.Prelude.{ℕ, ◌<◌, List, [], ◌∷◌, ◌++◌, arith}

-- Every entry has the property.
abbrev pub All : (ℕ → Type 0) → List ℕ → Type 0
All P [] = Unit
All P (x ∷ xs) = P x × All P xs

-- Each entry is below those behind it.
abbrev pub Ascends : List ℕ → Type 0
Ascends [] = Unit
Ascends (x ∷ xs) = All (λ y. x < y) xs × Ascends xs

pub All-append : (P : ℕ → Type 0) (xs ys : List ℕ) → All P xs → All P ys → All P (xs ++ ys)
All-append P [] ys a b = b
All-append P (x ∷ xs) ys a b = (a.0, All-append P xs ys a.1 b)

pub All-map : (P Q : ℕ → Type 0) (xs : List ℕ) → ((x : ℕ) → P x → Q x) → All P xs → All Q xs
All-map P Q [] f a = tt
All-map P Q (x ∷ xs) f a = (f x a.0, All-map P Q xs f a.1)

pub Ascends-append :
    (xs ys : List ℕ) (k : ℕ)
    → Ascends xs
    → All (λ x. x < k) xs
    → Ascends (k ∷ ys)
    → Ascends (xs ++ k ∷ ys)
Ascends-append [] ys k a b c = c
Ascends-append (x ∷ xs) ys k a b c = (
  All-append (λ y. x < y) xs (k ∷ ys) a.0
      (b.0, All-map (λ y. k < y) (λ y. x < y) ys (λ y lt. omega arith) c.0),
  Ascends-append xs ys k a.1 b.1 c,
)

pub All-sides : (P : ℕ → Type 0) (xs ys : List ℕ) → All P (xs ++ ys) → All P xs × All P ys
All-sides P [] ys a = (tt, a)
All-sides P (x ∷ xs) ys a = let (front, back) = All-sides P xs ys a.1 in ((a.0, front), back)

-- The two sides of an entry of an ascending list.
pub Ascends-sides :
    (xs ys : List ℕ) (k : ℕ)
    → Ascends (xs ++ k ∷ ys)
    → Ascends xs × All (λ x. x < k) xs × All (λ x. k < x) ys × Ascends ys
Ascends-sides [] ys k a = (tt, tt, a.0, a.1)
Ascends-sides (x ∷ xs) ys k a =
    let (left, below, above, right) = Ascends-sides xs ys k a.1 in
    let (front, back) = All-sides (λ y. x < y) xs (k ∷ ys) a.0 in
    ((front, left), (back.0, below), above, right)
