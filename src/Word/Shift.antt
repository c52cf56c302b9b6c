-- ===== src/Word/Shift.antt =====
-- The operators of C on `uint32_t` that wrap around, by their digits. A shift by 32 or more is
-- undefined in C; the lemmas exclude it where it would matter.
use native.Mathlib.Nat.{mod-eq_of_lt, mod-lt, pow-le-pow_right}
use codingforfun.Prelude.{
  ℕ, zero, suc, ◌+◌, ◌-◌, ◌*◌, ◌%◌, ◌^◌, ◌≤◌, ◌<◌, ◌≡◌, refl, ltb, ◌==◌, if◌then◌else◌, arith,
}
use codingforfun.Word.Digits.{bit, bit-zero, eq_of_bit}
use codingforfun.Word.Power.{bit-shift, bit-mod, bit-complement, pow_pos}

abbrev pub word : ℕ
word = 2 ^ 32

-- `v << k`
unfoldable pub shl : ℕ → ℕ → ℕ
shl v k = (v * 2 ^ k) % word

-- `~v`
unfoldable pub inverse : ℕ → ℕ
inverse v = word - 1 - v

-- `v - 1`
unfoldable pub minus_one : ℕ → ℕ
minus_one v = (v + (word - 1)) % word

-- A word has no digit from 32 on.
pub bit-high : (v i : ℕ) → v < word → 32 ≤ i → bit v i ≡ 0
bit-high v i lt le =
    let e : v % word ≡ v = mod-eq_of_lt lt in let d = bit-mod v 32 i in ground (arith, e, d)

pub bit-shl :
    (v k i : ℕ) → bit (shl v k) i ≡ (if ltb i 32 then (if ltb i k then 0 else bit v (i - k)) else 0)
unfolding shl
bit-shl v k i = ground (arith, bit-mod (v * 2 ^ k) 32 i, bit-shift v k i)

pub bit-inverse : (v i : ℕ) → v < word → bit (inverse v) i ≡ (if ltb i 32 then 1 - bit v i else 0)
unfolding inverse
bit-inverse v i lt = bit-complement v 32 i lt

bit-one : (i : ℕ) → bit 1 i ≡ (if i == 0 then 1 else 0)
unfolding bit
bit-one zero = refl
bit-one (suc i) = ground (arith, bit-zero i)

-- `1 << k`
pub bit-shl_one : (k i : ℕ) → k < 32 → bit (shl 1 k) i ≡ (if i == k then 1 else 0)
bit-shl_one k i lt = ground (arith, bit-shl 1 k i, bit-one (i - k))

-- `(1 << k) - 1`
pub bit-minus_one : (k i : ℕ) → k < 32 → bit (minus_one (shl 1 k)) i ≡ (if ltb i k then 1 else 0)
unfolding minus_one shl
bit-minus_one k i lt =
    let small : 2 ^ k < word =
      omega (arith, pow-le-pow_right {n = 2} (omega arith) {i = k} {j = 31} (omega arith)) in
    let e : minus_one (shl 1 k) ≡ 2 ^ k - 1 - 0 = omega (arith, pow_pos k) in
    rw e (ground (arith, bit-complement 0 k i (pow_pos k), bit-zero i))

pub shl-lt : (v k : ℕ) → shl v k < word
unfolding shl
shl-lt v k = mod-lt (v * 2 ^ k) {m = word} (omega arith)

pub minus_one-lt : (v : ℕ) → minus_one v < word
unfolding minus_one
minus_one-lt v = mod-lt (v + (word - 1)) {m = word} (omega arith)

-- A number without a digit from 32 on is a word.
pub word_of_digits : (v : ℕ) → ((i : ℕ) → 32 ≤ i → bit v i ≡ 0) → v < word
word_of_digits v none =
    let e : v % word ≡ v = eq_of_bit (v % word) v λ i. ground (arith, bit-mod v 32 i, none i) in
    let lt = mod-lt v {m = word} (omega arith) in omega arith
