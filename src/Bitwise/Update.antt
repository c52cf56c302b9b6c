-- ===== src/Bitwise/Update.antt =====
-- The macros that set, clear, toggle, test and update one bit.
use native.Mathlib.Decide.{ℕ_discrete}
use Prim.Native.Nat.{differ}
use codingforfun.Prelude.{
  ℕ, zero, suc, ◌-◌, ◌≤◌, ◌<◌, ◌≡◌, ◌≢◌, refl, ap, sym, ◌∙◌, ◌==◌, if◌then◌else◌, arith, ◌↔◌,
}
use codingforfun.Word.{
  bit, bit-le-one, bit-zero, eq_of_bit, bit-bit_and, bit-bit_or, bit-bit_xor, word, shl, inverse,
  bit-high, bit-shl, shl-lt, bit-inverse, bit-shl_one,
}
use codingforfun.Bitwise.{setbit, clearbit, togglebit, isbitset, updatebit, updatebit2}

pub bit-setbit : (v i j : ℕ) → i < 32 → bit (setbit v i) j ≡ (if j == i then 1 else bit v j)
unfolding setbit
bit-setbit v i j lt =
    rw (bit-bit_or v (shl 1 i) j, bit-shl_one i j lt) (ground (arith, bit-le-one v j))

pub bit-clearbit :
    (v i j : ℕ) → v < word → i < 32 → bit (clearbit v i) j ≡ (if j == i then 0 else bit v j)
unfolding clearbit
bit-clearbit v i j fits lt =
    rw
      (
        bit-bit_and v (inverse (shl 1 i)) j,
        bit-inverse (shl 1 i) j (shl-lt 1 i),
        bit-shl_one i j lt,
      )
      (ground (arith, bit-le-one v j, bit-high v j fits))

differ_value : (x y : ℕ) → x ≤ 1 → y ≤ 1 → differ x y ≡ (if x == y then 0 else 1)
differ_value zero y p q = ground arith
differ_value (suc x) zero p q = ground arith
differ_value (suc zero) (suc zero) p q = refl
differ_value (suc (suc x)) (suc y) p q = absurd (omega arith)
differ_value (suc zero) (suc (suc y)) p q = absurd (omega arith)

bit-togglebit :
    (v i j : ℕ) → i < 32 → bit (togglebit v i) j ≡ (if j == i then 1 - bit v j else bit v j)
unfolding togglebit
bit-togglebit v i j lt =
    let e = differ_value (bit v j) (bit (shl 1 i) j) (bit-le-one v j) (bit-le-one (shl 1 i) j) in
    ground (arith, bit-bit_xor v (shl 1 i) j, e, bit-shl_one i j lt, bit-le-one v j)

bit-isbitset : (v i j : ℕ) → i < 32 → bit (isbitset v i) j ≡ (if j == i then bit v i else 0)
unfolding isbitset
bit-isbitset v i j lt = elim (ℕ_discrete j i) [
  | yes e ↦ rw (bit-bit_and v (shl 1 i) j, bit-shl_one i j lt, e) (ground (arith, bit-le-one v i))
  | no f ↦ ground (arith, bit-bit_and v (shl 1 i) j, bit-shl_one i j lt)
]

-- The test `a & 1<<i` tells whether digit `i` is set.
pub isbitset-test : (v i : ℕ) → i < 32 → (isbitset v i == 0) ≡ (bit v i == 0)
isbitset-test v i lt = elim (ℕ_discrete (bit v i) 0) [
  | yes e ↦
      let all : isbitset v i ≡ 0 =
        eq_of_bit (isbitset v i) 0 λ j. ground (arith, bit-isbitset v i j lt, bit-zero j) in
      ground arith
  | no f ↦
      let own : bit (isbitset v i) i ≡ bit v i = ground (arith, bit-isbitset v i i lt) in
      let some_digit : isbitset v i ≢ 0 = λ e. f (sym own ∙ ap (λ x. bit x i) e ∙ bit-zero i) in
      ground arith
]

-- For `i < 32`: what setbit, clearbit and togglebit do to each digit of a word, and what
-- isbitset tells.
single_digits :
    (v i j : ℕ)
    → v < word
    → i < 32
    → (bit (setbit v i) j ≡ (if j == i then 1 else bit v j))
      × (bit (clearbit v i) j ≡ (if j == i then 0 else bit v j))
      × (bit (togglebit v i) j ≡ (if j == i then 1 - bit v j else bit v j))
      × ((isbitset v i ≢ 0) ↔ (bit v i ≡ 1))
single_digits v i j fits lt = (
  bit-setbit v i j lt,
  bit-clearbit v i j fits lt,
  bit-togglebit v i j lt,
  ground (arith, isbitset-test v i lt, bit-le-one v i),
)

bit-updatebit :
    (v i new j : ℕ)
    → v < word
    → i < 32
    → bit (updatebit v i new) j ≡ (if j == i then (if new == 0 then 0 else 1) else bit v j)
unfolding updatebit setbit clearbit
bit-updatebit v i new j fits lt = ground (arith, bit-setbit v i j lt, bit-clearbit v i j fits lt)

bit-updatebit2 :
    (v i new j : ℕ)
    → v < word
    → i < 32
    → new ≤ 1
    → bit (updatebit2 v i new) j ≡ (if j == i then (if new == 0 then 0 else 1) else bit v j)
unfolding updatebit2 clearbit
bit-updatebit2 v i zero j fits lt one =
    rw (bit-bit_or (clearbit v i) (shl 0 i) j, bit-shl 0 i j, bit-clearbit v i j fits lt)
      (ground (arith, bit-zero (j - i)))
bit-updatebit2 v i (suc zero) j fits lt one =
    rw (bit-bit_or (clearbit v i) (shl 1 i) j, bit-shl_one i j lt, bit-clearbit v i j fits lt)
      (ground (arith, bit-le-one v j))
bit-updatebit2 v i (suc (suc n)) j fits lt one = absurd (omega arith)

-- updatebit2 on a word, an index below 32 and a new value of 0 or 1 does what updatebit does.
updatebit2-updatebit :
    (v i new : ℕ) → v < word → i < 32 → new ≤ 1 → updatebit2 v i new ≡ updatebit v i new
updatebit2-updatebit v i new fits lt one =
    eq_of_bit (updatebit2 v i new) (updatebit v i new)
      λ j. bit-updatebit2 v i new j fits lt one ∙ sym (bit-updatebit v i new j fits lt)

-- For `i < 32`: what setbit, clearbit and togglebit do to each digit of a word, and what isbitset
-- tells; updatebit2 with a new value of 0 or 1 does what updatebit does.
pub updates_lem :
    (v i j new : ℕ)
    → v < word
    → i < 32
    → new ≤ 1
    → (bit (setbit v i) j ≡ (if j == i then 1 else bit v j))
      × (bit (clearbit v i) j ≡ (if j == i then 0 else bit v j))
      × (bit (togglebit v i) j ≡ (if j == i then 1 - bit v j else bit v j))
      × ((isbitset v i ≢ 0) ↔ (bit v i ≡ 1))
      × (updatebit2 v i new ≡ updatebit v i new)
updates_lem v i j new fits lt one =
    let (set, clear, toggle, test) = single_digits v i j fits lt in
    (set, clear, toggle, test, updatebit2-updatebit v i new fits lt one)
