-- ===== src/Prelude/Tally.antt =====
-- Sums over a list by a weight: two lists with the same sum for every weight are rearrangements
-- of one another. Sums suit code that overwrites entries, since they are linear arithmetic.
use Prim.Native.Nat.{ℕ, zero, suc, ◌+◌, ◌≤◌, ◌<◌}
use mathlib.Core.Path.{◌≡◌, refl}
use mathlib.Core.List.{List, [], ◌∷◌, ◌++◌, Perm, perm_middle}
use mathlib.Core.List.Perm
use mathlib.Core.Path.{ap}
use mathlib.Core.Logic.{ite, if_pos, if_neg}
use native.Mathlib.Decide.{dec_lt}
use native.Mathlib.Omega.{arith}
use native.Mathlib.Numerals.{add-one}
use codingforfun.Prelude.Lists.{length, get_or, set, get_or-set, take}

module _ {ℓ} {A : Type ℓ} where
  unfoldable pub tally : (A → ℕ) → List A → ℕ
  tally w [] = 0
  tally w (x ∷ xs) = w x + tally w xs

  -- Every weight has the same sum over both lists.
  abbrev pub SameItems : List A → List A → Type ℓ
  SameItems xs ys = (w : A → ℕ) → tally w xs ≡ tally w ys

  -- A write trades the old entry for the new one.
  pub tally-set :
      (w : A → ℕ) (xs : List A) (i : ℕ) (v d : A)
      → i < length xs
      → tally w (set xs i v) + w (get_or xs i d) ≡ tally w xs + w v
  unfolding tally set get_or
  tally-set w [] i v d h = absurd (omega arith)
  tally-set w (x ∷ xs) zero v d h = omega arith
  tally-set w (x ∷ xs) (suc i) v d h = omega (arith, tally-set w xs i v d)

  pub tally-append : (w : A → ℕ) (xs ys : List A) → tally w (xs ++ ys) ≡ tally w xs + tally w ys
  unfolding tally
  tally-append w [] ys = omega arith
  tally-append w (x ∷ xs) ys = omega (arith, tally-append w xs ys)

  tally-one : (xs : List A) → tally (λ _. 1) xs ≡ length xs
  unfolding tally
  tally-one [] = refl
  tally-one (x ∷ xs) = omega (arith, tally-one xs)

  pub SameItems-length : (xs ys : List A) → SameItems xs ys → length xs ≡ length ys
  SameItems-length xs ys h = omega (arith, tally-one xs, tally-one ys, h (λ _. 1))

  tally_zero : (w : A → ℕ) (xs : List A) → tally w (take 0 xs) ≡ 0
  unfolding tally take
  tally_zero w xs = refl

  tally-take-suc :
      (d : A) (w : A → ℕ) (n : ℕ) (xs : List A)
      → n < length xs
      → tally w (take (suc n) xs) ≡ tally w (take n xs) + w (get_or xs n d)
  unfolding tally take get_or
  tally-take-suc d w n [] h = absurd (omega arith)
  tally-take-suc d w zero (x ∷ xs) h = omega arith
  tally-take-suc d w (suc n) (x ∷ xs) h = omega (arith, tally-take-suc d w n xs (omega arith))

  -- The sum over the first `n` entries; `d` stands for those that are missing.
  unfoldable pub sum_to : A → (A → ℕ) → ℕ → List A → ℕ
  sum_to d w zero xs = 0
  sum_to d w (suc n) xs = sum_to d w n xs + w (get_or xs n d)

  pub sum_to-add_one :
      (d : A) (w : A → ℕ) (n : ℕ) (xs : List A)
      → sum_to d w (n + 1) xs ≡ sum_to d w n xs + w (get_or xs n d)
  unfolding sum_to
  sum_to-add_one d w n xs = rw add-one

  pub sum_to-set_beyond :
      (d : A) (w : A → ℕ) (n : ℕ) (xs : List A) (i : ℕ) (v : A)
      → n ≤ i
      → i < length xs
      → sum_to d w n (set xs i v) ≡ sum_to d w n xs
  unfolding sum_to
  sum_to-set_beyond d w zero xs i v h l = refl
  sum_to-set_beyond d w (suc n) xs i v h l =
      ground (arith, get_or-set xs i n v d, sum_to-set_beyond d w n xs i v)

  pub sum_to-set :
      (d : A) (w : A → ℕ) (n : ℕ) (xs : List A) (i : ℕ) (v : A)
      → i < n
      → n ≤ length xs
      → sum_to d w n (set xs i v) + w (get_or xs i d) ≡ sum_to d w n xs + w v
  unfolding sum_to
  sum_to-set d w zero xs i v h l = absurd (omega arith)
  sum_to-set d w (suc n) xs i v h l =
      ground (arith, get_or-set xs i n v d, sum_to-set d w n xs i v, sum_to-set_beyond d w n xs i v)

  pub sum_to-congr :
      (d : A) (w : A → ℕ) (n : ℕ) (xs ys : List A)
      → ((i : ℕ) → i < n → get_or xs i d ≡ get_or ys i d)
      → sum_to d w n xs ≡ sum_to d w n ys
  unfolding sum_to
  sum_to-congr d w zero xs ys h = refl
  sum_to-congr d w (suc n) xs ys h =
      let rest = sum_to-congr d w n xs ys (λ i p. h i (omega arith)) in
      omega (arith, rest, ap w (h n (omega arith)))

  -- The sum over the first `n` entries is the sum over that part of the list.
  pub tally-take :
      (d : A) (w : A → ℕ) (n : ℕ) (xs : List A)
      → n ≤ length xs
      → tally w (take n xs) ≡ sum_to d w n xs
  unfolding sum_to
  tally-take d w zero xs h = tally_zero w xs
  tally-take d w (suc n) xs h =
      omega (arith, tally-take d w n xs (omega arith), tally-take-suc d w n xs h)

  -- A weight above 0 in total is above 0 at some value of the list.
  split_at :
      (w : A → ℕ) (ys : List A)
      → 0 < tally w ys
      → (x : A) × (l : List A) × (r : List A) × (ys ≡ l ++ x ∷ r) × (0 < w x)
  unfolding tally
  split_at w [] h = absurd (omega arith)
  split_at w (y ∷ ys) h = elim (dec_lt 0 (w y)) [
    | yes p ↦ (y, [], ys, refl, p)
    | no p ↦ let (x, l, r, e, q) = split_at w ys (omega arith) in (x, y ∷ l, r, ap (◌∷◌ y) e, q)
  ]

  module _ (dec : Discrete A) where
    hits : A → A → ℕ
    hits x y = ite (dec x y) 1 0

    hits_self : (x : A) → hits x x ≡ 1
    unfolding hits
    hits_self x = rw (if_pos (dec x x) refl)

    eq_of_hits : (x y : A) → 0 < hits x y → x ≡ y
    unfolding hits
    eq_of_hits x y h = elim (dec x y) [
      | yes p ↦ p
      | no p ↦ let h' : 0 < 0 = rw (if_neg (dec x y) p) at h in absurd (omega arith)
    ]

    -- With decidable equality, equal sums are a rearrangement.
    pub SameItems-perm : (xs ys : List A) → SameItems xs ys → Perm xs ys
    unfolding tally
    SameItems-perm [] [] h = Perm.refl []
    SameItems-perm [] (y ∷ ys) h = absurd (omega (arith, h (λ _. 1)))
    SameItems-perm (x ∷ xs) ys h =
        let met : 0 < tally (hits x) ys = omega (arith, h (hits x), hits_self x) in
        let (y, l, r, e, q) = split_at (hits x) ys met in
        let same : x ≡ y = eq_of_hits x y q in
        let rest : SameItems xs (l ++ r) = λ w.
          omega
            (arith, h w, ap (tally w) e, ap w same, tally-append w l (y ∷ r), tally-append w l r) in
        rw e (
          Perm.trans (Perm.cons' same (SameItems-perm xs (l ++ r) rest))
            (Perm.symm (perm_middle l r)))
