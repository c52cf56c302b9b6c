-- ===== src/Strings.antt =====
-- stringproblems.c: the words of a string in reverse order, and the removal of characters. A string is an array of bytes up to the first 0.
mod Removal
mod Reverse
mod Part
mod Skip
mod Unique
mod Words
mod Tests
use codingforfun.Prelude.{
  ℕ, zero, suc, ◌+◌, ◌-◌, ltb, Bool, true, false, List, ◌==◌, if◌then◌else◌, not,
}
use Prim.Native.Nat.{bit_xor, bit_or, ◌^◌}
use codingforfun.Run.{Run, done, fault, no_fuel, ◌>>=◌}
use codingforfun.Array.{load, store}

-- hascharacter, from index `i` on, with `left` for `n - i`.
pub has_from : ℕ → ℕ → List ℕ → ℕ → Run Bool
has_from zero i str c = done false
has_from (suc left) i str c = do
  d ← load str i
  let further = has_from left (i + 1) str c
  if d == c then done true else further

pub hascharacter : List ℕ → ℕ → ℕ → Run Bool
hascharacter str n c = has_from n 0 str c

-- The loop of removechars1 and the write behind it.
pub remove_from : ℕ → ℕ → ℕ → List ℕ → List ℕ → ℕ → Run (List ℕ)
remove_from zero dest src str remove n = no_fuel
remove_from (suc fuel) dest src str remove n = do
  c ← load str src
  let round : Run (List ℕ) = do
    str' ← store str dest c
    listed ← hascharacter remove n c
    remove_from fuel (if not listed then dest + 1 else dest) (src + 1) str' remove n
  if c == 0 then store str dest 0 else round

pub removechars1 : ℕ → List ℕ → List ℕ → ℕ → Run (List ℕ)
removechars1 fuel str remove n = remove_from fuel 0 0 str remove n

-- `*ptra ^= *ptrb`
pub xor_into : List ℕ → ℕ → ℕ → Run (List ℕ)
xor_into str a b = do x ← load str a; y ← load str b; store str a (bit_xor x y)

-- The three statements with `^=` in the loop of reversestring.
pub swap_chars : List ℕ → ℕ → ℕ → Run (List ℕ)
swap_chars str a b = do str1 ← xor_into str a b; str2 ← xor_into str1 b a; xor_into str2 a b

-- The loop of reversestring.
pub reverse_between : ℕ → List ℕ → ℕ → ℕ → Run (List ℕ)
reverse_between zero str a b = no_fuel
reverse_between (suc fuel) str a b =
    let round : Run (List ℕ) = do
      str' ← swap_chars str a b
      reverse_between fuel str' (a + 1) (b - 1)
    in if ltb a b then round else done str

-- reversestring from index `a` to index `b`; `fault` if the assertion fails.
pub reversestring : List ℕ → ℕ → ℕ → Run (List ℕ)
reversestring str a b = if ltb b a then fault else reverse_between (b + 2) str a b

-- `while (*p != '\0' && *p == ' ') p++`
pub skip_spaces : ℕ → List ℕ → ℕ → Run ℕ
skip_spaces zero str p = no_fuel
skip_spaces (suc fuel) str p = do
  c ← load str p
  let further = skip_spaces fuel str (p + 1)
  if c == 0 then done p else if c == 32 then further else done p

-- `while (*p != '\0' && *p != ' ') p++`
pub skip_word : ℕ → List ℕ → ℕ → Run ℕ
skip_word zero str p = no_fuel
skip_word (suc fuel) str p = do
  c ← load str p
  let further = skip_word fuel str (p + 1)
  if c == 0 then done p else if c == 32 then done p else further

-- The loop of reversewords, where `ptra` and `ptrb` are equal; it returns the array and `ptrb`.
pub reverse_each : ℕ → List ℕ → ℕ → Run (List ℕ × ℕ)
reverse_each zero str ptra = no_fuel
reverse_each (suc fuel) str ptra = do
  c ← load str ptra
  let round : Run (List ℕ × ℕ) = do
    ptrb ← skip_word (suc fuel) str ptra
    str' ← if ptrb == 0 then fault else reversestring str ptra (ptrb - 1)
    next ← skip_spaces (suc fuel) str' ptrb
    reverse_each fuel str' next
  if c == 0 then done (str, ptra) else round

pub reversewords : ℕ → List ℕ → Run (List ℕ)
reversewords fuel str = do
  ptra ← skip_spaces fuel str 0
  (str', ptrb) ← reverse_each fuel str ptra
  if ptrb == 0 then fault else reversestring str' 0 (ptrb - 1)

-- The inner loop of uniqueCharac1; `true` for a repeated character.
pub repeats_from : ℕ → List ℕ → ℕ → ℕ → Run Bool
repeats_from zero str ptr1 ptr2 = no_fuel
repeats_from (suc fuel) str ptr1 ptr2 = do
  c ← load str ptr2
  let round : Run Bool = do
    x ← load str (ptr2 + 1)
    y ← load str ptr1
    let further = repeats_from fuel str ptr1 (ptr2 + 1)
    if x == y then done true else further
  if c == 0 then done false else round

-- The outer loop.
pub unique_from : ℕ → List ℕ → ℕ → Run Bool
unique_from zero str ptr1 = no_fuel
unique_from (suc fuel) str ptr1 = do
  c ← load str ptr1
  let round : Run Bool = do
    repeated ← repeats_from (suc fuel) str (ptr1 + 1) (ptr1 + 1)
    let further = unique_from fuel str (ptr1 + 1)
    if repeated then done false else further
  if c == 0 then done true else round

pub unique_charac1 : ℕ → List ℕ → Run Bool
unique_charac1 fuel str = unique_from fuel str 0

-- `1 << (c - 'a' + 1)`, which is undefined outside of 0 to 31, and for 31 no `int`.
pub letter_bit : ℕ → Run ℕ
letter_bit c = if ltb c 96 then fault else if ltb 126 c then fault else done (2 ^ (c - 96))

-- The loop of uniqueCharac2, whose test has && in place of &.
pub unique_bits : ℕ → List ℕ → ℕ → ℕ → Run Bool
unique_bits zero str ptr bit_field = no_fuel
unique_bits (suc fuel) str ptr bit_field = do
  c ← load str ptr
  let round : Run Bool = do
    d ← load str (ptr + 1)
    repeated ← if bit_field == 0 then done false else (do bit ← letter_bit d; done (not (bit == 0)))
    let set_bit : Run Bool = do
      bit ← letter_bit d
      unique_bits fuel str (ptr + 1) (bit_or bit_field bit)
    if repeated then done false else set_bit
  if c == 0 then done true else round

pub unique_charac2 : ℕ → List ℕ → Run Bool
unique_charac2 fuel str = unique_bits fuel str 0 0
