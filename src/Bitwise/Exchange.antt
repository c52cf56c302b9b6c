-- ===== src/Bitwise/Exchange.antt =====
-- swapbits and swaporderbits.
use Prim.Native.Nat.{bit_or, max}
use native.Mathlib.Decide.{ℕ_discrete}
use codingforfun.Prelude.{
  ℕ, zero, suc, ◌+◌, ◌-◌, ◌<◌, ◌≤◌, ◌≡◌, ◌≢◌, ◌↔◌, refl, ap, not, ltb, ◌==◌, if◌then◌else◌, arith,
}
use codingforfun.Word.{
  bit, bit-le-one, bit-zero, word_of_digits, bit-bit_or, word, shl, bit-high, bit-shl_one,
}
use codingforfun.Bitwise.{
  setbit, clearbit, togglebit, updatebit, updatebit2, isbitset, swapbits, turn, swaporderbits,
}
use codingforfun.Bitwise.Update.{bit-setbit, bit-clearbit, isbitset-test, updates_lem}

-- A word with digit `j` replaced, as swapbits does it.
replaced : ℕ → ℕ → ℕ → ℕ
replaced test b j = if not (test == 0) then setbit b j else clearbit b j

bit-replaced :
    (test b j k : ℕ)
    → b < word
    → j < 32
    → bit (replaced test b j) k ≡ (if k == j then (if test == 0 then 0 else 1) else bit b k)
unfolding replaced
bit-replaced test b j k fits lt = ground (arith, bit-setbit b j k lt, bit-clearbit b j k fits lt)

replaced-lt : (test b j : ℕ) → b < word → j < 32 → replaced test b j < word
replaced-lt test b j fits lt =
    word_of_digits (replaced test b j)
      λ k le. ground (arith, bit-replaced test b j k fits lt, bit-high b k fits)

-- swapbits on a word exchanges digits `i` and `j`, which are below 32.
bit-swapbits :
    (a i j k : ℕ)
    → a < word
    → i < 32
    → j < 32
    → bit (swapbits a i j) k ≡ bit a (if k == i then j else if k == j then i else k)
unfolding swapbits replaced setbit clearbit isbitset
bit-swapbits a i j k fits lti ltj =
    let b = replaced (isbitset a i) a j in
    ground (
      arith,
      bit-replaced (isbitset a j) b i k (replaced-lt (isbitset a i) a j fits ltj) lti,
      bit-replaced (isbitset a i) a j k fits ltj,
      isbitset-test a i lti,
      isbitset-test a j ltj,
      bit-le-one a i,
      bit-le-one a j,
    )

bit-marked :
    (a i place swapped k : ℕ)
    → i < 32
    → place < 32
    → bit (if not (isbitset a i == 0) then bit_or swapped (shl 1 place) else swapped) k
      ≡ (if k == place then max (bit swapped k) (bit a i) else bit swapped k)
bit-marked a i place swapped k lt fits =
    let both = bit-bit_or swapped (shl 1 place) k in
    ground (
      arith,
      isbitset-test a i lt,
      both,
      bit-shl_one place k fits,
      bit-le-one a i,
      bit-le-one swapped k,
    )

bit-turn :
    (a left i swapped k : ℕ)
    → i + left ≡ 32
    → bit (turn a left i swapped) k
      ≡ (if ltb k left then max (bit swapped k) (bit a (31 - k)) else bit swapped k)
unfolding turn isbitset
bit-turn a zero i swapped k e = ground arith
bit-turn a (suc left) i swapped k e =
    let place : 32 - i - 1 ≡ left = omega arith in
    let own : i ≡ 31 - left = omega arith in
    rw place (
      let next = if not (isbitset a i == 0) then bit_or swapped (shl 1 left) else swapped in
      let rest = bit-turn a left (i + 1) next k (omega arith) in
      let mark = bit-marked a i left swapped k (omega arith) (omega arith) in
      elim (ℕ_discrete k left) [
        | yes same ↦
            let same_digit : bit a i ≡ bit a (31 - k) = ap (bit a) (omega arith) in
            ground (arith, rest, mark, same_digit)
        | no other ↦ ground (arith, rest, mark)
      ])

-- swaporderbits turns the 32 digits round.
bit-swaporderbits : (a k : ℕ) → bit (swaporderbits a) k ≡ (if ltb k 32 then bit a (31 - k) else 0)
unfolding swaporderbits
bit-swaporderbits a k = ground (arith, bit-turn a 32 0 0 k refl, bit-zero k, bit-le-one a (31 - k))

-- For `i` and `j` below 32: what setbit, clearbit and togglebit do to each digit of a word, and what
-- isbitset tells; updatebit2 with a new value of 0 or 1 does what updatebit does; swapbits exchanges
-- digits `i` and `j`, and swaporderbits turns the 32 digits round.
pub single_bits_lem :
    (v i j k new : ℕ)
    → v < word
    → i < 32
    → j < 32
    → new ≤ 1
    → (bit (setbit v i) k ≡ (if k == i then 1 else bit v k))
      × (bit (clearbit v i) k ≡ (if k == i then 0 else bit v k))
      × (bit (togglebit v i) k ≡ (if k == i then 1 - bit v k else bit v k))
      × ((isbitset v i ≢ 0) ↔ (bit v i ≡ 1))
      × (updatebit2 v i new ≡ updatebit v i new)
      × (bit (swapbits v i j) k ≡ bit v (if k == i then j else if k == j then i else k))
      × (bit (swaporderbits v) k ≡ (if ltb k 32 then bit v (31 - k) else 0))
single_bits_lem v i j k new fits lti ltj one =
    let (set, clear, toggle, test, same) = updates_lem v i k new fits lti one in
    (set, clear, toggle, test, same, bit-swapbits v i j k fits lti ltj, bit-swaporderbits v k)
