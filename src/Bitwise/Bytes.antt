-- ===== src/Bitwise/Bytes.antt =====
-- changeendianessint and the macro changeendiannesuint32.
use Prim.Native.Nat.{bit_and, bit_or}
use codingforfun.Prelude.{
  ℕ, ◌+◌, ◌-◌, ◌/◌, ◌^◌, ◌≤◌, ◌<◌, ◌≡◌, ◌&&◌, ltb, leb, if◌then◌else◌, arith,
}
use codingforfun.Word.{
  bit, bit-le-one, eq_of_bit, bit-bit_and, bit-bit_or, bit-shr, word, shl, minus_one, bit-high,
  bit-shl,
}
use codingforfun.Bitwise.{changeendianessint, changeendiannesuint32}
use codingforfun.Bitwise.Fields.{bit-field_ones}

-- The masks of the four bytes.
bit-bytes :
    (k : ℕ)
    → (bit 255 k ≡ (if leb 0 k && leb k 7 then 1 else 0))
      × (bit 65280 k ≡ (if leb 8 k && leb k 15 then 1 else 0))
      × (bit 16711680 k ≡ (if leb 16 k && leb k 23 then 1 else 0))
      × (bit 4278190080 k ≡ (if leb 24 k && leb k 31 then 1 else 0))
unfolding shl minus_one
bit-bytes k = (
  bit-field_ones 7 0 k (omega arith) (omega arith) (omega arith),
  bit-field_ones 15 8 k (omega arith) (omega arith) (omega arith),
  bit-field_ones 23 16 k (omega arith) (omega arith) (omega arith),
  bit-field_ones 31 24 k (omega arith) (omega arith) (omega arith),
)

-- Where changeendianessint takes digit `k` of its result from: byte 3 is moved to byte 0, byte 2 to
-- byte 1, byte 1 to byte 2, and byte 0 to byte 3.
bit-changeendianessint :
    (a k : ℕ)
    → bit (changeendianessint a) k ≡ (
        if ltb k 8
        then bit a (k + 24)
        else if ltb k 16
        then bit a (k + 8)
        else if ltb k 24
        then bit a (k - 8)
        else if ltb k 32
        then bit a (k - 24)
        else 0)
unfolding changeendianessint
bit-changeendianessint a k =
    let (m0, m1, m2, m3) = bit-bytes k in
    rw
      (
        bit-bit_or
            (bit_or (bit_or (bit_and (a / 2 ^ 24) 255) (bit_and (a / 2 ^ 8) 65280))
              (bit_and (shl a 8) 16711680))
            (bit_and (shl a 24) 4278190080) k,
        bit-bit_or (bit_or (bit_and (a / 2 ^ 24) 255) (bit_and (a / 2 ^ 8) 65280))
            (bit_and (shl a 8) 16711680) k,
        bit-bit_or (bit_and (a / 2 ^ 24) 255) (bit_and (a / 2 ^ 8) 65280) k,
        bit-bit_and (a / 2 ^ 24) 255 k,
        bit-bit_and (a / 2 ^ 8) 65280 k,
        bit-bit_and (shl a 8) 16711680 k,
        bit-bit_and (shl a 24) 4278190080 k,
        bit-shr a 24 k,
        bit-shr a 8 k,
        bit-shl a 8 k,
        bit-shl a 24 k,
        m0,
        m1,
        m2,
        m3,
      )
      (ground (
        arith,
        bit-le-one a (k + 24),
        bit-le-one a (k + 8),
        bit-le-one a (k - 8),
        bit-le-one a (k - 24),
      ))

-- Exchanging the bytes twice gives the word back.
changeendianessint-changeendianessint :
    (a : ℕ) → a < word → changeendianessint (changeendianessint a) ≡ a
changeendianessint-changeendianessint a fits =
    eq_of_bit (changeendianessint (changeendianessint a)) a λ k.
      let b = changeendianessint a in
      let outer = bit-changeendianessint b k in
      let first : k < 8 → bit b (k + 24) ≡ bit a k = λ h.
        let e : k + 24 - 24 ≡ k = omega arith in
        rw (bit-changeendianessint a (k + 24), e) (ground arith) in
      let second : 8 ≤ k → k < 16 → bit b (k + 8) ≡ bit a k = λ l h.
        let e : k + 8 - 8 ≡ k = omega arith in
        rw (bit-changeendianessint a (k + 8), e) (ground arith) in
      let third : 16 ≤ k → k < 24 → bit b (k - 8) ≡ bit a k = λ l h.
        let e : k - 8 + 8 ≡ k = omega arith in
        rw (bit-changeendianessint a (k - 8), e) (ground arith) in
      let fourth : 24 ≤ k → k < 32 → bit b (k - 24) ≡ bit a k = λ l h.
        let e : k - 24 + 24 ≡ k = omega arith in
        rw (bit-changeendianessint a (k - 24), e) (ground arith) in
      ground (arith, outer, first, second, third, fourth, bit-high a k fits)

module _ (a k : ℕ) where
  piece_255 : bit (shl (bit_and a 255) 24) k ≡ (if leb 24 k && leb k 31 then bit a (k - 24) else 0)
  piece_255 =
      let (m, _, _, _) = bit-bytes (k - 24) in
      rw (bit-shl (bit_and a 255) 24 k, bit-bit_and a 255 (k - 24), m)
        (ground (arith, bit-le-one a (k - 24)))

  piece_65280 :
      bit (shl (bit_and a 65280) 8) k ≡ (if leb 16 k && leb k 23 then bit a (k - 8) else 0)
  piece_65280 =
      let (_, m, _, _) = bit-bytes (k - 8) in
      rw (bit-shl (bit_and a 65280) 8 k, bit-bit_and a 65280 (k - 8), m)
        (ground (arith, bit-le-one a (k - 8)))

  piece_16711680 :
      bit (bit_and a 16711680 / 2 ^ 8) k ≡ (if leb 8 k && leb k 15 then bit a (k + 8) else 0)
  piece_16711680 =
      let (_, _, m, _) = bit-bytes (k + 8) in
      rw (bit-shr (bit_and a 16711680) 8 k, bit-bit_and a 16711680 (k + 8), m)
        (ground (arith, bit-le-one a (k + 8)))

  piece_4278190080 : bit (bit_and a 4278190080 / 2 ^ 24) k ≡ (if leb k 7 then bit a (k + 24) else 0)
  piece_4278190080 =
      let (_, _, _, m) = bit-bytes (k + 24) in
      rw (bit-shr (bit_and a 4278190080) 24 k, bit-bit_and a 4278190080 (k + 24), m)
        (ground (arith, bit-le-one a (k + 24)))

-- The macro does what the function does.
changeendiannesuint32-changeendianessint : (a : ℕ) → changeendiannesuint32 a ≡ changeendianessint a
unfolding changeendiannesuint32
changeendiannesuint32-changeendianessint a =
    eq_of_bit (changeendiannesuint32 a) (changeendianessint a) λ k.
      rw
        (
          bit-bit_or
              (bit_or (bit_or (shl (bit_and a 255) 24) (shl (bit_and a 65280) 8))
                (bit_and a 16711680 / 2 ^ 8))
              (bit_and a 4278190080 / 2 ^ 24) k,
          bit-bit_or (bit_or (shl (bit_and a 255) 24) (shl (bit_and a 65280) 8))
              (bit_and a 16711680 / 2 ^ 8) k,
          bit-bit_or (shl (bit_and a 255) 24) (shl (bit_and a 65280) 8) k,
          piece_255 a k,
          piece_65280 a k,
          piece_16711680 a k,
          piece_4278190080 a k,
          bit-changeendianessint a k,
        )
        (ground (
          arith,
          bit-le-one a (k + 24),
          bit-le-one a (k + 8),
          bit-le-one a (k - 8),
          bit-le-one a (k - 24),
        ))

-- On a word, changeendianessint moves byte 3 to byte 0, byte 2 to byte 1, byte 1 to byte 2, and
-- byte 0 to byte 3; used twice it gives the word back; the macro does what the function does.
pub endianness_lem :
    (a : ℕ)
    → a < word
    → ((k : ℕ)
        → bit (changeendianessint a) k ≡ (
            if ltb k 8
            then bit a (k + 24)
            else if ltb k 16
            then bit a (k + 8)
            else if ltb k 24
            then bit a (k - 8)
            else if ltb k 32
            then bit a (k - 24)
            else 0))
      × (changeendianessint (changeendianessint a) ≡ a)
      × (changeendiannesuint32 a ≡ changeendianessint a)
endianness_lem a fits = (
  bit-changeendianessint a,
  changeendianessint-changeendianessint a fits,
  changeendiannesuint32-changeendianessint a,
)
