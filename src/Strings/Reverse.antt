-- ===== src/Strings/Reverse.antt =====
-- reversestring turns round a part of an array.
use native.Mathlib.Decide.{ℕ_discrete}
use codingforfun.Prelude.{
  ℕ, zero, suc, ◌+◌, ◌-◌, ◌≤◌, ◌<◌, ◌≡◌, ◌≢◌, refl, ap, ◌∙◌, List, ◌&&◌, false, ltb, leb,
  if◌then◌else◌, length, length-set, set, get_or-set, eq_of_get_or, arith, Bool-cases, inl, inr,
}
use Prim.Native.Nat.{bit_xor, differ}
use codingforfun.Word.{bit, bit-bit_xor, bit-le-one, eq_of_bit}
use codingforfun.Run.{done, Returns, returns, Returns-mono}
use codingforfun.Array.{load-done, store-done, at, exchange, at-exchange, length-exchange}
use codingforfun.Strings.{xor_into, swap_chars, reverse_between, reversestring}

differ_second : (u v : ℕ) → u ≤ 1 → v ≤ 1 → differ v (differ u v) ≡ u
differ_second zero zero p q = refl
differ_second zero (suc zero) p q = refl
differ_second (suc zero) zero p q = refl
differ_second (suc zero) (suc zero) p q = refl
differ_second (suc (suc u)) v p q = absurd (omega arith)
differ_second u (suc (suc v)) p q = absurd (omega arith)

differ_first : (u v : ℕ) → u ≤ 1 → v ≤ 1 → differ (differ u v) u ≡ v
differ_first zero zero p q = refl
differ_first zero (suc zero) p q = refl
differ_first (suc zero) zero p q = refl
differ_first (suc zero) (suc zero) p q = refl
differ_first (suc (suc u)) v p q = absurd (omega arith)
differ_first u (suc (suc v)) p q = absurd (omega arith)

xor-second : (x y : ℕ) → bit_xor y (bit_xor x y) ≡ x
xor-second x y = eq_of_bit _ _ λ i.
    rw (bit-bit_xor y (bit_xor x y) i, bit-bit_xor x y i)
      (differ_second (bit x i) (bit y i) (bit-le-one x i) (bit-le-one y i))

xor-first : (x y : ℕ) → bit_xor (bit_xor x y) x ≡ y
xor-first x y = eq_of_bit _ _ λ i.
    rw (bit-bit_xor (bit_xor x y) x i, bit-bit_xor x y i)
      (differ_first (bit x i) (bit y i) (bit-le-one x i) (bit-le-one y i))

xor_into-done :
    (str : List ℕ) (a b : ℕ)
    → a < length str
    → b < length str
    → xor_into str a b ≡ done (set str a (bit_xor (at str a) (at str b)))
unfolding xor_into
xor_into-done str a b ha hb =
    rw
      (
        load-done 0 str a ha,
        load-done 0 str b hb,
        store-done str a (bit_xor (at str a) (at str b)) ha,
      )
      refl

-- The three statements with ^= exchange two characters.
module _ (str : List ℕ) (a b : ℕ) (ha : a < length str) (hb : b < length str) (ne : a ≢ b) where
  abbrev str1 : List ℕ
  str1 = set str a (bit_xor (at str a) (at str b))

  abbrev str2 : List ℕ
  str2 = set str1 b (bit_xor (at str1 b) (at str1 a))

  abbrev str3 : List ℕ
  str3 = set str2 a (bit_xor (at str2 a) (at str2 b))

  str3-exchange : str3 ≡ exchange str a b
  str3-exchange =
      eq_of_get_or str3 (exchange str a b) 0
        (omega (
          arith,
          length-set str2 a (bit_xor (at str2 a) (at str2 b)),
          length-set str1 b (bit_xor (at str1 b) (at str1 a)),
          length-set str a (bit_xor (at str a) (at str b)),
          length-exchange str a b,
        ))
        λ i lt. ground (
          arith,
          get_or-set str2 a i (bit_xor (at str2 a) (at str2 b)) 0,
          get_or-set str1 b i (bit_xor (at str1 b) (at str1 a)) 0,
          get_or-set str1 b b (bit_xor (at str1 b) (at str1 a)) 0,
          get_or-set str1 b a (bit_xor (at str1 b) (at str1 a)) 0,
          get_or-set str a i (bit_xor (at str a) (at str b)) 0,
          get_or-set str a a (bit_xor (at str a) (at str b)) 0,
          get_or-set str a b (bit_xor (at str a) (at str b)) 0,
          at-exchange str a b ha hb i,
          xor-first (at str a) (at str b),
          xor-second (at str a) (at str b),
          length-set str a (bit_xor (at str a) (at str b)),
          length-set str1 b (bit_xor (at str1 b) (at str1 a)),
        )

  swap_chars-exchange : swap_chars str a b ≡ done (exchange str a b)
  unfolding swap_chars
  swap_chars-exchange =
      let size1 = length-set str a (bit_xor (at str a) (at str b)) in
      let size2 = length-set str1 b (bit_xor (at str1 b) (at str1 a)) in
      rw
        (
          xor_into-done str a b ha hb,
          xor_into-done str1 b a (omega arith) (omega arith),
          xor_into-done str2 a b (omega arith) (omega arith),
        )
        (ap done str3-exchange)

-- `r` is the array with the entries from `a` to `b` in reverse order.
abbrev pub Turned : ℕ → ℕ → List ℕ → List ℕ → Type 0
Turned a b str r =
    (length r ≡ length str)
    × ((i : ℕ) → at r i ≡ (if leb a i && leb i b then at str (a + b - i) else at str i))

Turned-stop :
    (str : List ℕ) (a b i : ℕ)
    → b ≤ a
    → a ≤ b + 1
    → at str i ≡ (if leb a i && leb i b then at str (a + b - i) else at str i)
Turned-stop str a b i stop le = elim (Bool-cases (leb a i && leb i b)) [
  | inl within ↦ let same : a + b - i ≡ i = ground arith in rw (within, same) refl
  | inr beyond ↦ rw beyond refl
]

Turned-round :
    (str r : List ℕ) (a b i : ℕ)
    → a < b
    → b < length str
    → Turned (a + 1) (b - 1) (exchange str a b) r
    → at r i ≡ (if leb a i && leb i b then at str (a + b - i) else at str i)
Turned-round str r a b i lt inside t =
    let j = a + b - i in
    let same : a + 1 + (b - 1) - i ≡ j = omega arith in
    let moved : at (exchange str a b) (a + 1 + (b - 1) - i) ≡ at (exchange str a b) j =
      ap (at (exchange str a b)) same in
    let here = at-exchange str a b (omega arith) inside i in
    let there = at-exchange str a b (omega arith) inside j in
    elim (ℕ_discrete i a) [
      | yes e ↦ let e' : j ≡ b = omega arith in let at_j = ap (at str) e' in ground (arith, t.1 i)
      | no n ↦ elim (ℕ_discrete i b) [
        | yes e ↦ let e' : j ≡ a = omega arith in let at_j = ap (at str) e' in ground (arith, t.1 i)
        | no m ↦ ground (arith, t.1 i)
      ]
    ]

reverse_between-Turned :
    (fuel : ℕ) (str : List ℕ) (a b : ℕ)
    → b + 1 < a + fuel
    → b < length str
    → a ≤ b + 1
    → Returns (Turned a b str) (reverse_between fuel str a b)
unfolding reverse_between
reverse_between-Turned zero str a b enough inside le = absurd (omega arith)
reverse_between-Turned (suc fuel) str a b enough inside le = elim (Bool-cases (ltb a b)) [
  | inr stop ↦ rw stop (returns (refl, λ i. Turned-stop str a b i (ground arith) le))
  | inl go ↦
      let lt : a < b = ground arith in
      let size = length-exchange str a b in
      rw (go, swap_chars-exchange str a b (omega arith) inside (omega arith))
        (Returns-mono
          (reverse_between-Turned fuel (exchange str a b) (a + 1) (b - 1) (omega arith)
            (omega arith) (omega arith))
          λ r t. (t.0 ∙ size, λ i. Turned-round str r a b i lt inside t))
]

pub reversestring-Turned :
    (str : List ℕ) (a b : ℕ)
    → a ≤ b
    → b < length str
    → Returns (Turned a b str) (reversestring str a b)
unfolding reversestring
reversestring-Turned str a b le inside =
    let ok : ltb b a ≡ false = ground arith in
    rw ok (reverse_between-Turned (b + 2) str a b (omega arith) inside (omega arith))
