-- ===== src/Bitwise/Fields.antt =====
-- The macros on the low and the high bits and on the bits between two, and merge_m_into_n.
use Prim.Native.Nat.{bit_and, bit_or}
use codingforfun.Run.{done, Returns, returns}
use codingforfun.Prelude.{
  true, refl, ap, ℕ, ◌+◌, ◌-◌, ◌≤◌, ◌<◌, ◌≡◌, ◌&&◌, ltb, leb, if◌then◌else◌, arith,
}
use codingforfun.Word.{
  bit, bit-le-one, eq_of_bit, bit-bit_and, bit-bit_or, word, shl, inverse, minus_one, minus_one-lt,
  bit-high, bit-shl, shl-lt, bit-inverse, bit-minus_one,
}
use codingforfun.Bitwise.{
  low_mask, get_lsbitstoi, get_msbitsfromi, clear_lsbitstoi, clear_msbitsfromi, set_lsbitstoi,
  set_msbitsfromi, mask_between, setbitsbetweenij, clearbitsbetweenij, merge_m_into_n,
}

-- The mask with the bits from 0 to `i`, and that with the bits from `j` to `i`.
abbrev pub low_ones : ℕ → ℕ
low_ones i = minus_one (shl 1 (i + 1))

abbrev pub field_ones : ℕ → ℕ → ℕ
field_ones i j = shl (low_ones (i - j)) j

low_mask-low_ones : (i : ℕ) → i < 30 → low_mask i ≡ done (low_ones i)
unfolding low_mask
low_mask-low_ones i lt = let small : ltb i 30 ≡ true = ground arith in rw small refl

mask_between-field_ones : (i j : ℕ) → i - j < 30 → mask_between i j ≡ done (field_ones i j)
unfolding mask_between
mask_between-field_ones i j width = rw (low_mask-low_ones (i - j) width) refl

bit-low_ones : (i j : ℕ) → i < 31 → bit (low_ones i) j ≡ (if ltb i j then 0 else 1)
bit-low_ones i j lt = ground (arith, bit-minus_one (i + 1) j (omega arith))

bit-high_mask :
    (i j : ℕ) → i < 31 → bit (inverse (low_ones i)) j ≡ (if ltb i j && ltb j 32 then 1 else 0)
bit-high_mask i j lt =
    ground (arith, bit-inverse (low_ones i) j (minus_one-lt (shl 1 (i + 1))), bit-low_ones i j lt)

-- For `i < 30`: what the macros on the low bits up to `i` and on the bits above `i` do to each
-- digit of a word.
pub part_digits :
    (v i j : ℕ)
    → v < word
    → i < 30
    → Returns (λ w. bit w j ≡ (if ltb i j then 0 else bit v j)) (get_lsbitstoi v i)
      × Returns (λ w. bit w j ≡ (if ltb i j then bit v j else 0)) (get_msbitsfromi v i)
      × Returns (λ w. bit w j ≡ (if ltb i j then bit v j else 0)) (clear_lsbitstoi v i)
      × Returns (λ w. bit w j ≡ (if ltb i j then 0 else bit v j)) (clear_msbitsfromi v i)
      × Returns (λ w. bit w j ≡ (if ltb i j then bit v j else 1)) (set_lsbitstoi v i)
      × Returns (λ w. bit w j ≡ (if ltb i j && ltb j 32 then 1 else bit v j)) (set_msbitsfromi v i)
unfolding get_lsbitstoi get_msbitsfromi clear_lsbitstoi clear_msbitsfromi set_lsbitstoi
    set_msbitsfromi
part_digits v i j fits small =
    let lt : i < 31 = omega arith in
    let one = bit-le-one v j in
    let high = bit-high v j fits in
    let keep_low : bit (bit_and v (low_ones i)) j ≡ (if ltb i j then 0 else bit v j) =
      rw (bit-bit_and v (low_ones i) j, bit-low_ones i j lt) (ground (arith, one)) in
    let keep_high : bit (bit_and v (inverse (low_ones i))) j ≡ (if ltb i j then bit v j else 0) =
      rw (bit-bit_and v (inverse (low_ones i)) j, bit-high_mask i j lt)
        (ground (arith, one, high)) in
    let set_low : bit (bit_or v (low_ones i)) j ≡ (if ltb i j then bit v j else 1) =
      rw (bit-bit_or v (low_ones i) j, bit-low_ones i j lt) (ground (arith, one)) in
    let set_high : bit (bit_or v (inverse (low_ones i))) j
        ≡ (if ltb i j && ltb j 32 then 1 else bit v j) =
      rw (bit-bit_or v (inverse (low_ones i)) j, bit-high_mask i j lt) (ground (arith, one)) in
    rw (low_mask-low_ones i small) (
      returns keep_low,
      returns keep_high,
      returns keep_high,
      returns keep_low,
      returns set_low,
      returns set_high,
    )

pub bit-field_ones :
    (i j k : ℕ)
    → j ≤ i
    → i < 32
    → i - j < 31
    → bit (field_ones i j) k ≡ (if leb j k && leb k i then 1 else 0)
bit-field_ones i j k le lt width =
    rw (bit-shl (low_ones (i - j)) j k, bit-low_ones (i - j) (k - j) width) (ground arith)

setbitsbetweenij-bit :
    (v i j k : ℕ)
    → j ≤ i
    → i < 32
    → i - j < 30
    → Returns (λ w. bit w k ≡ (if leb j k && leb k i then 1 else bit v k)) (setbitsbetweenij v i j)
unfolding setbitsbetweenij
setbitsbetweenij-bit v i j k le lt width =
    let digit = bit-field_ones i j k le lt (omega arith) in
    let set : bit (bit_or v (field_ones i j)) k ≡ (if leb j k && leb k i then 1 else bit v k) =
      rw (bit-bit_or v (field_ones i j) k, digit) (ground (arith, bit-le-one v k)) in
    rw (mask_between-field_ones i j width) (returns set)

clearbitsbetweenij-bit :
    (v i j k : ℕ)
    → v < word
    → j ≤ i
    → i < 32
    → i - j < 30
    → Returns
        (λ w. bit w k ≡ (if leb j k && leb k i then 0 else bit v k))
        (clearbitsbetweenij v i j)
unfolding clearbitsbetweenij
clearbitsbetweenij-bit v i j k fits le lt width =
    let digit = bit-field_ones i j k le lt (omega arith) in
    let others = bit-inverse (field_ones i j) k (shl-lt (low_ones (i - j)) j) in
    let cleared : bit (bit_and v (inverse (field_ones i j))) k
        ≡ (if leb j k && leb k i then 0 else bit v k) =
      rw (bit-bit_and v (inverse (field_ones i j)) k, others, digit)
        (ground (arith, bit-le-one v k, bit-high v k fits)) in
    rw (mask_between-field_ones i j width) (returns cleared)

-- For `j <= i < 32`, with at most 30 bits from `j` to `i`, merge_m_into_n sets these bits of
-- `n`, whatever `m` is.
merge_m_into_n-setbitsbetweenij :
    (m n i j : ℕ) → j ≤ i → i < 32 → i - j < 30 → merge_m_into_n m n i j ≡ setbitsbetweenij n i j
unfolding merge_m_into_n setbitsbetweenij
merge_m_into_n-setbitsbetweenij m n i j le lt width =
    let low = low_ones (i - j) in
    let moved = shl (bit_and m low) j in
    let same : bit_or moved (bit_or n (field_ones i j)) ≡ bit_or n (field_ones i j) =
      eq_of_bit (bit_or moved (bit_or n (field_ones i j))) (bit_or n (field_ones i j)) λ k.
        rw
          (
            bit-bit_or moved (bit_or n (field_ones i j)) k,
            bit-shl (bit_and m low) j k,
            bit-bit_and m low (k - j),
            bit-low_ones (i - j) (k - j) (omega arith),
            bit-bit_or n (field_ones i j) k,
            bit-field_ones i j k le lt (omega arith),
          )
          (ground (arith, bit-le-one n k, bit-le-one m (k - j))) in
    rw (mask_between-field_ones i j width, low_mask-low_ones (i - j) width) (ap done same)

-- For a word `n` and `j <= i < 32`, with at most 30 bits from `j` to `i`: setbitsbetweenij and
-- clearbitsbetweenij are defined, and set or clear the digits from `j` to `i` of `n` and keep the
-- others; merge_m_into_n sets these digits of `n`, whatever `m` is.
pub fields_lem :
    (m n i j k : ℕ)
    → n < word
    → j ≤ i
    → i < 32
    → i - j < 30
    → Returns (λ w. bit w k ≡ (if leb j k && leb k i then 1 else bit n k)) (setbitsbetweenij n i j)
      × Returns
          (λ w. bit w k ≡ (if leb j k && leb k i then 0 else bit n k))
          (clearbitsbetweenij n i j)
      × (merge_m_into_n m n i j ≡ setbitsbetweenij n i j)
fields_lem m n i j k fits le lt width = (
  setbitsbetweenij-bit n i j k le lt width,
  clearbitsbetweenij-bit n i j k fits le lt width,
  merge_m_into_n-setbitsbetweenij m n i j le lt width,
)
