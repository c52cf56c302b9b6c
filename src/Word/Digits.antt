-- ===== src/Word/Digits.antt =====
-- The digits of `&`, `|` and `^`, and that a number is its digits.
use Prim.Native.Nat.{
  ℕ, zero, suc, ◌+◌, ◌*◌, ◌/◌, ◌%◌, ◌≤◌, min, max, digits, differ, bit_and, bit_or, bit_xor,
  bit_and-bitwise, bit_or-bitwise, bit_xor-bitwise,
}
use mathlib.Core.Path.{◌≡◌, refl, sym, ap, ◌∙◌}
use native.Mathlib.Omega.{arith}

-- Digit `i` of a number, 0 or 1; digit 0 is the lowest.
unfoldable pub bit : ℕ → ℕ → ℕ
bit x zero = x % 2
bit x (suc i) = bit (x / 2) i

pub bit-le-one : (x i : ℕ) → bit x i ≤ 1
unfolding bit
bit-le-one x zero = omega arith
bit-le-one x (suc i) = bit-le-one (x / 2) i

pub bit-zero : (i : ℕ) → bit 0 i ≡ 0
unfolding bit
bit-zero zero = refl
bit-zero (suc i) = bit-zero i

eq_below : (k x y : ℕ) → x ≤ k → y ≤ k → ((i : ℕ) → bit x i ≡ bit y i) → x ≡ y
unfolding bit
eq_below zero x y p q h = omega arith
eq_below (suc k) x y p q h =
    let low : x % 2 ≡ y % 2 = h 0 in
    let rest = eq_below k (x / 2) (y / 2) (omega arith) (omega arith) (λ i. h (suc i)) in
    omega arith

-- Numbers with the same digits are equal.
pub eq_of_bit : (x y : ℕ) → ((i : ℕ) → bit x i ≡ bit y i) → x ≡ y
eq_of_bit x y h = eq_below (x + y) x y (omega arith) (omega arith) h

-- An operation on digits, as the native operations define it.
module _ (z : ℕ → ℕ) (f : ℕ → ℕ → ℕ) (start : (b i : ℕ) → bit (z b) i ≡ f 0 (bit b i))
    (small : (x y : ℕ) → x ≤ 1 → y ≤ 1 → f x y ≤ 1) where
  bit-digits : (n a b i : ℕ) → a ≤ n → bit (digits z f n a b) i ≡ f (bit a i) (bit b i)
  unfolding bit
  bit-digits zero zero b i h = start b i ∙ ap (λ c. f c (bit b i)) (sym (bit-zero i))
  bit-digits zero (suc a) b i h = absurd (omega arith)
  bit-digits (suc n) zero b i h = start b i ∙ ap (λ c. f c (bit b i)) (sym (bit-zero i))
  bit-digits (suc n) (suc a) b zero h =
      let fits = small (suc a % 2) (b % 2) (omega arith) (omega arith) in omega arith
  bit-digits (suc n) (suc a) b (suc i) h =
      let fits = small (suc a % 2) (b % 2) (omega arith) (omega arith) in
      let whole = digits z f n (suc a / 2) (b / 2) in
      let half : (whole * 2 + f (suc a % 2) (b % 2)) / 2 ≡ whole = omega arith in
      rw half (bit-digits n (suc a / 2) (b / 2) i (omega arith))

differ-le-one : (x y : ℕ) → x ≤ 1 → y ≤ 1 → differ x y ≤ 1
differ-le-one zero y p q = q
differ-le-one (suc x) zero p q = p
differ-le-one (suc zero) (suc zero) p q = omega arith
differ-le-one (suc (suc x)) (suc y) p q = absurd (omega arith)
differ-le-one (suc zero) (suc (suc y)) p q = absurd (omega arith)

pub bit-bit_and : (a b i : ℕ) → bit (bit_and a b) i ≡ min (bit a i) (bit b i)
bit-bit_and a b i = rw bit_and-bitwise (
    bit-digits (λ _. 0) min (λ c j. omega (arith, bit-zero j)) (λ x y p q. omega arith) a a b i
      (omega arith))

pub bit-bit_or : (a b i : ℕ) → bit (bit_or a b) i ≡ max (bit a i) (bit b i)
bit-bit_or a b i =
    rw bit_or-bitwise
      (bit-digits (λ c. c) max (λ c j. omega arith) (λ x y p q. omega arith) a a b i (omega arith))

pub bit-bit_xor : (a b i : ℕ) → bit (bit_xor a b) i ≡ differ (bit a i) (bit b i)
bit-bit_xor a b i =
    rw bit_xor-bitwise
      (bit-digits (λ c. c) differ (λ c j. refl) differ-le-one a a b i (omega arith))
