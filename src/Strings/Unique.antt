-- ===== src/Strings/Unique.antt =====
-- What uniqueCharac1 and uniqueCharac2 return.
use mathlib.Core.List.{append_assoc}
use codingforfun.Prelude.{
  ℕ, zero, suc, ◌+◌, ◌-◌, ◌≤◌, ◌<◌, ◌≡◌, ◌≢◌, refl, sym, ◌∙◌, List, [], ◌∷◌, ◌++◌, Bool, true,
  false, ◌==◌, if◌then◌else◌, ltb, length, length-append, arith, Bool-cases, inl, inr,
}
use Prim.Native.Nat.{◌^◌, bit_or}
use codingforfun.Word.{bit-bit_or, bit-zero, eq_of_bit, pow_pos}
use codingforfun.Run.{Run, done, fault}
use codingforfun.Array.{load}
use codingforfun.Strings.{
  repeats_from, unique_from, unique_charac1, letter_bit, unique_bits, unique_charac2,
}
use codingforfun.Strings.Removal.{IsText, load-append, listed}

-- No character of the text occurs twice.
abbrev pub distinct : List ℕ → Bool
distinct [] = true
distinct (c ∷ text) = if listed c text then false else distinct text

load-second :
    (front back : List ℕ) (d x : ℕ) → load (front ++ d ∷ x ∷ back) (length front + 1) ≡ done x
load-second front back d x = rw (sym (append_assoc front (d ∷ []) (x ∷ back))) (
    load-append (front ++ d ∷ []) back x (length front + 1)
      (omega (arith, length-append front (d ∷ []))))

-- At the end of the string.
repeats_from-end :
    (fuel : ℕ) (str : List ℕ) (ptr1 ptr2 : ℕ)
    → load str ptr2 ≡ done 0
    → 0 < fuel
    → repeats_from fuel str ptr1 ptr2 ≡ done false
unfolding repeats_from
repeats_from-end zero str ptr1 ptr2 e pos = absurd (omega arith)
repeats_from-end (suc fuel) str ptr1 ptr2 e pos = rw e refl

unique_from-end :
    (fuel : ℕ) (str : List ℕ) (ptr1 : ℕ)
    → load str ptr1 ≡ done 0
    → 0 < fuel
    → unique_from fuel str ptr1 ≡ done true
unfolding unique_from
unique_from-end zero str ptr1 e pos = absurd (omega arith)
unique_from-end (suc fuel) str ptr1 e pos = rw e refl

-- The inner loop, at the character `d`, looks for `c` among what follows.
repeats_from-listed :
    (fuel : ℕ) (str front text rest : List ℕ) (d c ptr1 : ℕ)
    → str ≡ front ++ d ∷ (text ++ 0 ∷ rest)
    → load str ptr1 ≡ done c
    → c ≢ 0
    → d ≢ 0
    → IsText text
    → suc (length text) < fuel
    → repeats_from fuel str ptr1 (length front) ≡ done (listed c text)
unfolding repeats_from
repeats_from-listed zero str front text rest d c ptr1 e at cn dn is enough = absurd (omega arith)
repeats_from-listed (suc fuel) str front [] rest d c ptr1 e at cn dn is enough =
    let here : load str (length front) ≡ done d =
      rw e (load-append front (0 ∷ rest) d (length front) refl) in
    let next : load str (length front + 1) ≡ done 0 = rw e (load-second front rest d 0) in
    let go : (d == 0) ≡ false = ground arith in
    let other : (0 == c) ≡ false = ground arith in
    rw (here, go, next, at, other)
      (repeats_from-end fuel str ptr1 (length front + 1) next (omega arith))
repeats_from-listed (suc fuel) str front (x ∷ text) rest d c ptr1 e at cn dn is enough =
    let tail = text ++ 0 ∷ rest in
    let here : load str (length front) ≡ done d =
      rw e (load-append front (x ∷ tail) d (length front) refl) in
    let next : load str (length front + 1) ≡ done x = rw e (load-second front tail d x) in
    let go : (d == 0) ≡ false = ground arith in
    let size : length (front ++ d ∷ []) ≡ length front + 1 = length-append front (d ∷ []) in
    let regrouped : str ≡ (front ++ d ∷ []) ++ x ∷ tail =
      e ∙ sym (append_assoc front (d ∷ []) (x ∷ tail)) in
    let rest' =
      repeats_from-listed fuel str (front ++ d ∷ []) text rest x c ptr1 regrouped at cn is.0 is.1
        (omega arith) in
    rw (here, go, next, at)
      (elim (Bool-cases (x == c)) [
        | inl same ↦ rw same refl
        | inr other ↦ rw (other, ← size) rest'
      ])

-- The outer loop, at the character `d`.
unique_from-distinct :
    (fuel : ℕ) (str front text rest : List ℕ) (d : ℕ)
    → str ≡ front ++ d ∷ (text ++ 0 ∷ rest)
    → d ≢ 0
    → IsText text
    → suc (length text) < fuel
    → unique_from fuel str (length front) ≡ done (distinct text)
unfolding unique_from
unique_from-distinct zero str front text rest d e dn is enough = absurd (omega arith)
unique_from-distinct (suc fuel) str front [] rest d e dn is enough =
    let here : load str (length front) ≡ done d =
      rw e (load-append front (0 ∷ rest) d (length front) refl) in
    let next : load str (length front + 1) ≡ done 0 = rw e (load-second front rest d 0) in
    let go : (d == 0) ≡ false = ground arith in
    rw
      (
        here,
        go,
        repeats_from-end (suc fuel) str (length front + 1) (length front + 1) next (omega arith),
      )
      (unique_from-end fuel str (length front + 1) next (omega arith))
unique_from-distinct (suc fuel) str front (x ∷ text) rest d e dn is enough =
    let tail = text ++ 0 ∷ rest in
    let here : load str (length front) ≡ done d =
      rw e (load-append front (x ∷ tail) d (length front) refl) in
    let next : load str (length front + 1) ≡ done x = rw e (load-second front tail d x) in
    let go : (d == 0) ≡ false = ground arith in
    let size : length (front ++ d ∷ []) ≡ length front + 1 = length-append front (d ∷ []) in
    let regrouped : str ≡ (front ++ d ∷ []) ++ x ∷ tail =
      e ∙ sym (append_assoc front (d ∷ []) (x ∷ tail)) in
    let inner : repeats_from (suc fuel) str (length front + 1) (length front + 1)
        ≡ done (listed x text) =
      rw (← size) (
        repeats_from-listed (suc fuel) str (front ++ d ∷ []) text rest x x
          (length (front ++ d ∷ [])) regrouped (rw size next) is.0 is.0 is.1 (omega arith)) in
    let outer : unique_from fuel str (length front + 1) ≡ done (distinct text) = rw (← size) (
      unique_from-distinct fuel str (front ++ d ∷ []) text rest x regrouped is.0 is.1
        (omega arith)) in
    rw (here, go, inner)
      (elim (Bool-cases (listed x text)) [
        | inl same ↦ rw same refl
        | inr other ↦ rw (other, outer) refl
      ])

abbrev pub AreLetters : List ℕ → Type 0
AreLetters [] = Unit
AreLetters (c ∷ text) = (97 ≤ c) × (c ≤ 122) × AreLetters text

letter_bit-letter : (c : ℕ) → 97 ≤ c → c ≤ 122 → letter_bit c ≡ done (2 ^ (c - 96))
unfolding letter_bit
letter_bit-letter c low high =
    let a : ltb c 96 ≡ false = ground arith in
    let b : ltb 126 c ≡ false = ground arith in rw (a, b) refl

letter_bit-end : letter_bit 0 ≡ fault
unfolding letter_bit
letter_bit-end = refl

bit_or-zero : (b : ℕ) → bit_or 0 b ≡ b
bit_or-zero b = eq_of_bit _ _ λ i. rw (bit-bit_or 0 b i, bit-zero i) (omega arith)

pow-nonzero : (k : ℕ) → (2 ^ k == 0) ≡ false
pow-nonzero k = ground (arith, pow_pos k)

-- What uniqueCharac2 comes to on a text of lower case letters.
abbrev pub outcome : List ℕ → Run Bool
outcome [] = done true
outcome (c ∷ []) = fault
outcome (c ∷ d ∷ []) = fault
outcome (c ∷ d ∷ e ∷ text) = done false

unique_charac2-outcome :
    (fuel : ℕ) (text rest : List ℕ)
    → AreLetters text
    → 2 < fuel
    → unique_charac2 fuel (text ++ 0 ∷ rest) ≡ outcome text
unfolding unique_charac2 unique_bits load
unique_charac2-outcome zero text rest is enough = absurd (omega arith)
unique_charac2-outcome (suc zero) text rest is enough = absurd (omega arith)
unique_charac2-outcome (suc (suc zero)) text rest is enough = absurd (omega arith)
unique_charac2-outcome (suc (suc (suc fuel))) [] rest is enough = refl
unique_charac2-outcome (suc (suc (suc fuel))) (c ∷ []) rest is enough =
    let go : (c == 0) ≡ false = ground arith in rw (go, letter_bit-end) refl
unique_charac2-outcome (suc (suc (suc fuel))) (c ∷ d ∷ []) rest is enough =
    let go : (c == 0) ≡ false = ground arith in
    let go' : (d == 0) ≡ false = ground arith in
    rw
      (
        go,
        letter_bit-letter d is.2.0 is.2.1,
        go',
        bit_or-zero (2 ^ (d - 96)),
        pow-nonzero (d - 96),
        letter_bit-end,
      )
      refl
unique_charac2-outcome (suc (suc (suc fuel))) (c ∷ d ∷ e ∷ text) rest is enough =
    let go : (c == 0) ≡ false = ground arith in
    let go' : (d == 0) ≡ false = ground arith in
    rw
      (
        go,
        letter_bit-letter d is.2.0 is.2.1,
        go',
        bit_or-zero (2 ^ (d - 96)),
        pow-nonzero (d - 96),
        letter_bit-letter e is.2.2.0 is.2.2.1,
        pow-nonzero (e - 96),
      )
      refl

letters-IsText : (text : List ℕ) → AreLetters text → IsText text
letters-IsText [] is = tt
letters-IsText (c ∷ text) is = ((ground arith), letters-IsText text is.2)

-- The characters that uniqueCharac1 compares.
abbrev pub tail : List ℕ → List ℕ
tail [] = []
tail (c ∷ text) = text

-- On an array with a string of lower case letters that ends in 0, given more than two rounds more
-- than the string has letters, uniqueCharac1 ends without an access outside of it, and tells whether
-- the letters behind the first one are all different. uniqueCharac2 returns TRUE on the empty string
-- and FALSE on three letters or more, whatever they are; on one or two it shifts by a negative number.
pub unique_lem :
    (fuel : ℕ) (text rest : List ℕ)
    → AreLetters text
    → length text + 2 < fuel
    → (unique_charac1 fuel (text ++ 0 ∷ rest) ≡ done (distinct (tail text)))
      × (unique_charac2 fuel (text ++ 0 ∷ rest) ≡ outcome text)
unfolding unique_charac1
unique_lem fuel [] rest is enough = (
  unique_from-end fuel (0 ∷ rest) 0 (load-append [] rest 0 0 refl) (omega arith),
  unique_charac2-outcome fuel [] rest is (omega arith),
)
unique_lem fuel (c ∷ text) rest is enough = (
  unique_from-distinct fuel (c ∷ (text ++ 0 ∷ rest)) [] text rest c refl (ground arith)
      (letters-IsText text is.2) (omega arith),
  unique_charac2-outcome fuel (c ∷ text) rest is (omega arith),
)
