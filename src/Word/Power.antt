-- ===== src/Word/Power.antt =====
-- The digits of powers of two, of multiples of them, of remainders by them, and of complements.
use native.Mathlib.Nat.{
  pow-succ', one-le-pow, mul_left_comm, add-mod_right, mod-eq_of_lt, mod-lt, div-add-mod,
  div-div-eq-div-mul,
}
use codingforfun.Prelude.{
  ℕ, zero, suc, ◌+◌, ◌-◌, ◌*◌, ◌/◌, ◌%◌, ◌^◌, ◌≤◌, ◌<◌, ◌≡◌, refl, sym, ◌∙◌, ltb, if◌then◌else◌,
  arith,
}
use codingforfun.Word.Digits.{bit, bit-zero}

pub pow_pos : (k : ℕ) → 1 ≤ 2 ^ k
pow_pos k = one-le-pow k 2 (omega arith)

shift_step : (x p q : ℕ) → q ≡ 2 * p → x * q ≡ 2 * (x * p)
shift_step x p q e = rw e (mul_left_comm x 2 p)

halves : (x y : ℕ) → y ≡ 2 * x → (y % 2 ≡ 0) × (y / 2 ≡ x)
halves x y e = (omega arith, omega arith)

-- A shift to the left.
pub bit-shift : (x k i : ℕ) → bit (x * 2 ^ k) i ≡ (if ltb i k then 0 else bit x (i - k))
unfolding bit
bit-shift x zero i = let e : x * 2 ^ 0 ≡ x = omega arith in rw e (ground arith)
bit-shift x (suc k) zero =
    let e = halves (x * 2 ^ k) (x * 2 ^ suc k) (shift_step x (2 ^ k) (2 ^ suc k) (pow-succ' 2 k)) in
    ground (arith, e.0)
bit-shift x (suc k) (suc i) =
    let e = halves (x * 2 ^ k) (x * 2 ^ suc k) (shift_step x (2 ^ k) (2 ^ suc k) (pow-succ' 2 k)) in
    rw (e.1) (ground (arith, bit-shift x k i))

mod_unique : (q a r : ℕ) → r < q → (a * q + r) % q ≡ r
mod_unique q zero r lt = let e : 0 * q + r ≡ r = omega arith in rw e (mod-eq_of_lt lt)
mod_unique q (suc a) r lt =
    let e : suc a * q + r ≡ a * q + r + q = omega arith in
    rw e (add-mod_right (a * q + r) q ∙ mod_unique q a r lt)

mod_step : (x p q : ℕ) → q ≡ 2 * p → 1 ≤ p → ((x % q) % 2 ≡ x % 2) × ((x % q) / 2 ≡ (x / 2) % p)
mod_step x p q e pos =
    let r = x % q in
    let fits : r < 2 * p = rw (sym e) (mod-lt x {m = q} (omega arith)) in
    let whole : x ≡ 2 * (x / q * p) + r =
      omega (arith, div-add-mod x q, shift_step (x / q) p q e) in
    let half : x / 2 ≡ x / q * p + r / 2 = omega arith in
    (omega arith, rw half (sym (mod_unique p (x / q) (r / 2) (omega arith))))

-- A remainder keeps the low digits.
pub bit-mod : (x k i : ℕ) → bit (x % 2 ^ k) i ≡ (if ltb i k then bit x i else 0)
unfolding bit
bit-mod x zero i = let e : x % 2 ^ 0 ≡ 0 = omega arith in rw e (ground (arith, bit-zero i))
bit-mod x (suc k) zero =
    let e = mod_step x (2 ^ k) (2 ^ suc k) (pow-succ' 2 k) (pow_pos k) in ground (arith, e.0)
bit-mod x (suc k) (suc i) =
    let e = mod_step x (2 ^ k) (2 ^ suc k) (pow-succ' 2 k) (pow_pos k) in
    rw (e.1) (ground (arith, bit-mod (x / 2) k i))

complement_step :
    (x p q : ℕ)
    → q ≡ 2 * p
    → x < q
    → ((q - 1 - x) % 2 ≡ 1 - x % 2) × ((q - 1 - x) / 2 ≡ p - 1 - x / 2)
complement_step x p q e lt = (omega arith, omega arith)

-- All digits of a number below `2 ^ k` turned round.
pub bit-complement :
    (x k i : ℕ) → x < 2 ^ k → bit (2 ^ k - 1 - x) i ≡ (if ltb i k then 1 - bit x i else 0)
unfolding bit
bit-complement x zero i h =
    let e : 2 ^ 0 - 1 - x ≡ 0 = omega arith in rw e (ground (arith, bit-zero i))
bit-complement x (suc k) zero h =
    let e = complement_step x (2 ^ k) (2 ^ suc k) (pow-succ' 2 k) h in ground (arith, e.0)
bit-complement x (suc k) (suc i) h =
    let e = complement_step x (2 ^ k) (2 ^ suc k) (pow-succ' 2 k) h in
    rw (e.1) (ground (arith, bit-complement (x / 2) k i (omega (arith, h, pow-succ' 2 k))))

-- A shift to the right.
pub bit-shr : (v k i : ℕ) → bit (v / 2 ^ k) i ≡ bit v (i + k)
unfolding bit
bit-shr v zero i =
    let e : v / 2 ^ 0 ≡ v = omega arith in let f : i + 0 ≡ i = omega arith in rw (e, f) refl
bit-shr v (suc k) i =
    let e : v / 2 ^ suc k ≡ v / 2 / 2 ^ k =
      rw (pow-succ' 2 k) (sym (div-div-eq-div-mul v 2 (2 ^ k))) in
    let f : i + suc k ≡ suc (i + k) = omega arith in rw (e, f) (bit-shr (v / 2) k i)
