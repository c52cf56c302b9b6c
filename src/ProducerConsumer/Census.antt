-- ===== src/ProducerConsumer/Census.antt =====
-- Families of values by thread number: the change at one thread, and sums over the first threads.
use native.Mathlib.Decide.{dec_lt}
use codingforfun.Prelude.{ℕ, zero, suc, ◌+◌, ◌*◌, ◌≤◌, ◌<◌, ◌≡◌, refl, ◌==◌, if◌then◌else◌, arith}

module _ {ℓ} {A : Type ℓ} where
  -- The family `f` with `a` at `i`.
  abbrev pub change : (ℕ → A) → ℕ → A → ℕ → A
  change f i a j = if i == j then a else f j

  unfoldable pub census : (A → ℕ) → ℕ → (ℕ → A) → ℕ
  census w zero f = 0
  census w (suc n) f = census w n f + w (f n)

  census-change_beyond :
      (w : A → ℕ) (n : ℕ) (f : ℕ → A) (i : ℕ) (a : A)
      → n ≤ i
      → census w n (change f i a) ≡ census w n f
  unfolding census
  census-change_beyond w zero f i a h = refl
  census-change_beyond w (suc n) f i a h = ground (arith, census-change_beyond w n f i a)

  pub census-change :
      (w : A → ℕ) (n : ℕ) (f : ℕ → A) (i : ℕ) (a : A)
      → i < n
      → census w n (change f i a) + w (f i) ≡ census w n f + w a
  unfolding census
  census-change w zero f i a h = absurd (omega arith)
  census-change w (suc n) f i a h = elim (dec_lt i n) [
    | yes below ↦ ground (arith, census-change w n f i a below)
    | no last ↦ ground (arith, census-change_beyond w n f i a)
  ]

  pub census-change_same :
      (w : A → ℕ) (n : ℕ) (f : ℕ → A) (i : ℕ) (a : A)
      → i < n
      → w (f i) ≡ w a
      → census w n (change f i a) ≡ census w n f
  census-change_same w n f i a lt e = omega (arith, census-change w n f i a lt)

  -- A sum above 0 has a member above 0.
  pub census-member :
      (w : A → ℕ) (n : ℕ) (f : ℕ → A) → 0 < census w n f → (i : ℕ) × (i < n) × (0 < w (f i))
  unfolding census
  census-member w zero f h = absurd (omega arith)
  census-member w (suc n) f h = elim (dec_lt 0 (w (f n))) [
    | yes p ↦ (n, omega arith, p)
    | no p ↦ let (i, lt, q) = census-member w n f (omega arith) in (i, omega arith, q)
  ]

  pub le-census : (w : A → ℕ) (n : ℕ) (f : ℕ → A) (i : ℕ) → i < n → w (f i) ≤ census w n f
  unfolding census
  le-census w zero f i h = absurd (omega arith)
  le-census w (suc n) f i h = elim (dec_lt i n) [
    | yes below ↦ omega (arith, le-census w n f i below)
    | no last ↦ ground arith
  ]

  pub census-zero :
      (w : A → ℕ) (n : ℕ) (f : ℕ → A) → ((i : ℕ) → i < n → w (f i) ≡ 0) → census w n f ≡ 0
  unfolding census
  census-zero w zero f h = refl
  census-zero w (suc n) f h =
      omega (arith, h n (omega arith), census-zero w n f λ i lt. h i (omega arith))

  pub census-le :
      (w v : A → ℕ) (c n : ℕ) (f : ℕ → A)
      → ((i : ℕ) → i < n → w (f i) + v (f i) ≤ c)
      → census w n f + census v n f ≤ n * c
  unfolding census
  census-le w v c zero f h = omega arith
  census-le w v c (suc n) f h =
      let rest = census-le w v c n f λ i lt. h i (omega arith) in
      grind (arith, rest, h n (omega arith))

  pub le-census_two :
      (w v : A → ℕ) (c n : ℕ) (f : ℕ → A)
      → ((i : ℕ) → i < n → c ≤ w (f i) + c * v (f i))
      → n * c ≤ census w n f + c * census v n f
  unfolding census
  le-census_two w v c zero f h = omega arith
  le-census_two w v c (suc n) f h =
      let rest = le-census_two w v c n f λ i lt. h i (omega arith) in
      grind (arith, rest, h n (omega arith))

  pub two_le-census :
      (w : A → ℕ) (n : ℕ) (f : ℕ → A) (i j : ℕ) → i < j → j < n → w (f i) + w (f j) ≤ census w n f
  unfolding census
  two_le-census w zero f i j lt h = absurd (omega arith)
  two_le-census w (suc n) f i j lt h = elim (dec_lt j n) [
    | yes below ↦ omega (arith, two_le-census w n f i j lt below)
    | no last ↦ ground (arith, le-census w n f i (omega arith))
  ]
