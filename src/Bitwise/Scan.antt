-- ===== src/Bitwise/Scan.antt =====
-- numberbitssettoone, indexhighestbitset and indexlowestbitset.
use Prim.Native.Nat.{bit_and}
use codingforfun.Prelude.{
  if◌then◌else◌, ℕ, zero, suc, ◌+◌, ◌/◌, ◌^◌, ◌≤◌, ◌<◌, ◌≡◌, refl, ap, sym, ◌∙◌, true, false, ltb,
  ◌==◌, Option, none, some, Bool-cases, inl, inr, arith,
}
use native.Mathlib.Decide.{ℕ_discrete}
use native.Mathlib.Nat.{pow-succ', zero-add}
use mathlib.Core.Path.{subst}
use codingforfun.Run.{done, no_fuel}
use codingforfun.Word.{bit, bit-le-one, bit-zero, word, shl}
use codingforfun.Bitwise.{
  isbitset, halve, count, numberbitssettoone, highest, indexhighestbitset, lowest,
  indexlowestbitset,
}
use codingforfun.Bitwise.Update.{isbitset-test}

-- How many of the lowest `n` digits are set.
abbrev pub ones : ℕ → ℕ → ℕ
ones zero v = 0
ones (suc n) v = ones n v + bit v n

ones-suc : (n v : ℕ) → ones (suc n) v ≡ bit v 0 + ones n (v / 2)
unfolding bit
ones-suc zero v = omega arith
ones-suc (suc n) v = omega (arith, ones-suc n v)

ones-zero : (n : ℕ) → ones n 0 ≡ 0
ones-zero zero = refl
ones-zero (suc n) = omega (arith, ones-zero n, bit-zero n)

odd_test : (v : ℕ) → (bit_and v 1 == 0) ≡ (bit v 0 == 0)
unfolding isbitset shl
odd_test v = isbitset-test v 0 (omega arith)

count-ones :
    (fuel n v cont : ℕ)
    → n < fuel
    → v < 2 ^ n
    → v < 2147483648
    → count fuel v cont ≡ done (cont + ones n v)
unfolding count halve
count-ones zero n v cont enough fits pos = absurd (omega arith)
count-ones (suc fuel) zero v cont enough fits pos =
    let e : v ≡ 0 = omega arith in let f : cont + 0 ≡ cont = omega arith in rw (e, f) refl
count-ones (suc fuel) (suc n) v cont enough fits pos =
    let half : v / 2 < 2 ^ n = omega (arith, fits, pow-succ' 2 n) in
    let rest = count-ones fuel n (v / 2) in
    elim (ℕ_discrete v 0) [
      | yes e ↦
          let f : cont + ones (suc n) v ≡ cont = rw e (omega (arith, ones-zero (suc n))) in
          let stop : (v == 0) ≡ true = ground arith in rw (stop, f) refl
      | no other ↦
          let further : (v == 0) ≡ false = ground arith in
          let sign : ltb v (word / 2) ≡ true = ground arith in
          let total = ones-suc n v in
          elim (ℕ_discrete (bit v 0) 0) [
            | yes even ↦
                let test : (bit_and v 1 == 0) ≡ true = odd_test v ∙ ground arith in
                let sum : cont + ones n (v / 2) ≡ cont + ones (suc n) v = omega arith in
                rw (further, test, sign) (rest cont (omega arith) half (omega arith) ∙ ap done sum)
            | no odd ↦
                let test : (bit_and v 1 == 0) ≡ false = odd_test v ∙ ground arith in
                let sum : cont + 1 + ones n (v / 2) ≡ cont + ones (suc n) v =
                  omega (arith, bit-le-one v 0) in
                rw (further, test, sign)
                  (rest (cont + 1) (omega arith) half (omega arith) ∙ ap done sum)
          ]
    ]

-- numberbitssettoone on a number that is not negative ends, after at most 32 rounds, with the
-- number of digits that are set.
numberbitssettoone-ones :
    (fuel v : ℕ) → 32 < fuel → v < 2147483648 → numberbitssettoone fuel v ≡ done (ones 32 v)
unfolding numberbitssettoone
numberbitssettoone-ones fuel v enough pos =
    count-ones fuel 32 v 0 enough (omega arith) pos ∙ ap done (zero-add (ones 32 v))

count_never : (fuel v cont : ℕ) → 2147483648 ≤ v → v < word → count fuel v cont ≡ no_fuel
unfolding count halve
count_never zero v cont neg fits = refl
count_never (suc fuel) v cont neg fits =
    let some_digit : (v == 0) ≡ false = ground arith in
    let sign : ltb v (word / 2) ≡ false = ground arith in
    rw (some_digit, sign) (count_never fuel ((v + word) / 2) _ (omega arith) (omega arith))

-- numberbitssettoone on a negative number does not end: no number of rounds is enough.
numberbitssettoone_never :
    (fuel v : ℕ) → 2147483648 ≤ v → v < word → numberbitssettoone fuel v ≡ no_fuel
unfolding numberbitssettoone
numberbitssettoone_never fuel v neg fits = count_never fuel v 0 neg fits

-- Among the digits below `n`, the highest that is set, or none.
abbrev pub IsHighest : ℕ → ℕ → Option ℕ → Type 0
IsHighest v n none = (j : ℕ) → j < n → bit v j ≡ 0
IsHighest v n (some i) = (i < n) × (bit v i ≡ 1) × ((j : ℕ) → i < j → j < n → bit v j ≡ 0)

below : (j n x : ℕ) → j < suc n → (j < n → x ≡ 0) → (j ≡ n → x ≡ 0) → x ≡ 0
below j n x lt less same = elim (ℕ_discrete j n) [ yes s ↦ same s | no f ↦ less (omega arith) ]

IsHighest-suc : (v n : ℕ) (o : Option ℕ) → bit v n ≡ 0 → IsHighest v n o → IsHighest v (suc n) o
IsHighest-suc v n none e h = λ j lt. below j n (bit v j) lt (h j) (λ s. ap (bit v) s ∙ e)
IsHighest-suc v n (some i) e h =
    (omega (arith, h.0), h.1, λ j l lt. below j n (bit v j) lt (h.2 j l) (λ s. ap (bit v) s ∙ e))

highest-IsHighest :
    (v left i : ℕ) (found : Option ℕ)
    → i + left ≡ 32
    → IsHighest v i found
    → IsHighest v 32 (highest v left i found)
unfolding highest isbitset
highest-IsHighest v zero i found e h =
    let end : i ≡ 32 = omega arith in subst (λ n. IsHighest v n found) end h
highest-IsHighest v (suc left) i found e h =
    let digit = isbitset-test v i (omega arith) in
    let up : suc i ≡ i + 1 = omega arith in
    let rest : (o : Option ℕ) → IsHighest v (suc i) o → IsHighest v 32 (highest v left (i + 1) o) =
      λ o g. highest-IsHighest v left (i + 1) o (omega arith) (subst (λ n. IsHighest v n o) up g) in
    elim (Bool-cases (isbitset v i == 0)) [
      | inl clear ↦
          let none_here : bit v i ≡ 0 = ground arith in
          rw clear (rest found (IsHighest-suc v i found none_here h))
      | inr set ↦
          let here : bit v i ≡ 1 = ground (arith, bit-le-one v i) in
          rw set (rest (some i) (omega arith, here, λ j l lt. absurd (omega arith)))
    ]

-- indexhighestbitset returns the index of the highest digit that is set, and -1 if there is none.
indexhighestbitset-IsHighest : (v : ℕ) → IsHighest v 32 (indexhighestbitset v)
unfolding indexhighestbitset
indexhighestbitset-IsHighest v = highest-IsHighest v 32 0 none refl (λ j lt. absurd (omega arith))

-- One more than the index of the lowest digit that is set, or 0.
abbrev pub IsAboveLowest : ℕ → ℕ → Type 0
IsAboveLowest v zero = (j : ℕ) → j < 32 → bit v j ≡ 0
IsAboveLowest v (suc i) = (i < 32) × (bit v i ≡ 1) × ((j : ℕ) → j < i → bit v j ≡ 0)

lowest-IsAboveLowest :
    (v left i : ℕ)
    → i + left ≡ 32
    → ((j : ℕ) → j < i → bit v j ≡ 0)
    → IsAboveLowest v (lowest v left i)
unfolding lowest isbitset
lowest-IsAboveLowest v zero i e h = λ j lt. h j (omega arith)
lowest-IsAboveLowest v (suc left) i e h =
    let digit = isbitset-test v i (omega arith) in
    let up : i + 1 ≡ suc i = omega arith in
    elim (Bool-cases (isbitset v i == 0)) [
      | inl clear ↦
          let none_here : bit v i ≡ 0 = ground arith in
          rw clear (
            lowest-IsAboveLowest v left (i + 1) (omega arith)
              λ j lt. below j i (bit v j) (omega arith) (h j) (λ s. ap (bit v) s ∙ none_here))
      | inr set ↦
          let here : bit v i ≡ 1 = ground (arith, bit-le-one v i) in
          rw set (subst (IsAboveLowest v) (sym up) (omega arith, here, h))
    ]

-- indexlowestbitset returns one more than the index of the lowest digit that is set, and 0 if there
-- is none.
indexlowestbitset-IsAboveLowest : (v : ℕ) → IsAboveLowest v (indexlowestbitset v)
unfolding indexlowestbitset
indexlowestbitset-IsAboveLowest v = lowest-IsAboveLowest v 32 0 refl (λ j lt. absurd (omega arith))

-- numberbitssettoone, with at least 33 rounds, ends on a number that is not negative with the number
-- of digits that are set; on a negative number it does not end, however many rounds there are.
numberbits_lem :
    (fuel v : ℕ)
    → 32 < fuel
    → v < word
    → numberbitssettoone fuel v ≡ (if ltb v 2147483648 then done (ones 32 v) else no_fuel)
numberbits_lem fuel v enough fits = elim (Bool-cases (ltb v 2147483648)) [
  | inl low ↦ rw low (numberbitssettoone-ones fuel v enough (ground arith))
  | inr high ↦ rw high (numberbitssettoone_never fuel v (ground arith) fits)
]

-- numberbitssettoone, with at least 33 rounds, ends on a number that is not negative with the number
-- of digits that are set; on a negative number it does not end, however many rounds there are.
-- indexhighestbitset returns the index of the highest digit that is set, and -1 if there is none;
-- indexlowestbitset returns one more than the index of the lowest digit that is set, and 0 if there
-- is none.
pub scan_lem :
    (fuel v : ℕ)
    → 32 < fuel
    → v < word
    → (numberbitssettoone fuel v ≡ (if ltb v 2147483648 then done (ones 32 v) else no_fuel))
      × IsHighest v 32 (indexhighestbitset v)
      × IsAboveLowest v (indexlowestbitset v)
scan_lem fuel v enough fits = (
  numberbits_lem fuel v enough fits,
  indexhighestbitset-IsHighest v,
  indexlowestbitset-IsAboveLowest v,
)
