-- ===== src/Bitwise.antt =====
-- The macros and functions of bitwise_macros.c, on 32-bit words. An `int` stands for its bit
-- pattern, and `1<<31` for the one that GCC gives it. A macro that assigns to its variable returns the new value here.
pub mod Bytes
pub mod Exchange
pub mod Fields
pub mod Scan
mod Tests
pub mod Update
use Prim.Native.Nat.{bit_and, bit_or, bit_xor}
use codingforfun.Prelude.{
  ℕ, zero, suc, ◌+◌, ◌-◌, ◌*◌, ◌/◌, ◌%◌, ◌^◌, Bool, true, false, not, Option, none, some, ltb, leb,
  ◌==◌, if◌then◌else◌,
}
use codingforfun.Run.{Run, done, fault, no_fuel, ◌>>=◌}
use codingforfun.Word.{word, shl, inverse, minus_one}

pub setbit : ℕ → ℕ → ℕ
setbit v i = bit_or v (shl 1 i)

pub clearbit : ℕ → ℕ → ℕ
clearbit v i = bit_and v (inverse (shl 1 i))

pub togglebit : ℕ → ℕ → ℕ
togglebit v i = bit_xor v (shl 1 i)

pub isbitset : ℕ → ℕ → ℕ
isbitset v i = bit_and v (shl 1 i)

pub updatebit : ℕ → ℕ → ℕ → ℕ
updatebit v i new = if not (new == 0) then bit_or v (shl 1 i) else bit_and v (inverse (shl 1 i))

pub updatebit2 : ℕ → ℕ → ℕ → ℕ
updatebit2 v i new = bit_or (bit_and v (inverse (shl 1 i))) (shl new i)

-- `(1<<(i+1))-1`, on `int`: at 30 the subtraction leaves `int`, and above the shift is undefined.
pub low_mask : ℕ → Run ℕ
low_mask i = if ltb i 30 then done (minus_one (shl 1 (i + 1))) else fault

pub get_lsbitstoi : ℕ → ℕ → Run ℕ
get_lsbitstoi v i = do mask ← low_mask i; done (bit_and v mask)

pub get_msbitsfromi : ℕ → ℕ → Run ℕ
get_msbitsfromi v i = do mask ← low_mask i; done (bit_and v (inverse mask))

pub clear_lsbitstoi : ℕ → ℕ → Run ℕ
clear_lsbitstoi v i = do mask ← low_mask i; done (bit_and v (inverse mask))

pub clear_msbitsfromi : ℕ → ℕ → Run ℕ
clear_msbitsfromi v i = do mask ← low_mask i; done (bit_and v mask)

pub set_lsbitstoi : ℕ → ℕ → Run ℕ
set_lsbitstoi v i = do mask ← low_mask i; done (bit_or v mask)

pub set_msbitsfromi : ℕ → ℕ → Run ℕ
set_msbitsfromi v i = do mask ← low_mask i; done (bit_or v (inverse mask))

-- `((1<<(i-j+1))-1)<<j`, for `i >= j`. Bits that the shift moves into the sign or out at the top
-- are taken as GCC has them.
pub mask_between : ℕ → ℕ → Run ℕ
mask_between i j = do mask ← low_mask (i - j); done (shl mask j)

pub setbitsbetweenij : ℕ → ℕ → ℕ → Run ℕ
setbitsbetweenij v i j = do mask ← mask_between i j; done (bit_or v mask)

pub clearbitsbetweenij : ℕ → ℕ → ℕ → Run ℕ
clearbitsbetweenij v i j = do mask ← mask_between i j; done (bit_and v (inverse mask))

pub merge_m_into_n : ℕ → ℕ → ℕ → ℕ → Run ℕ
merge_m_into_n m n i j = do
  mask ← mask_between i j
  let n_clear = bit_or n mask
  low ← low_mask (i - j)
  let m' = bit_and m low
  done (bit_or (shl m' j) n_clear)

-- The function swapbits.
pub swapbits : ℕ → ℕ → ℕ → ℕ
swapbits a i j =
    let biti = bit_and a (shl 1 i) in
    let bitj = bit_and a (shl 1 j) in
    let a' = if not (biti == 0) then bit_or a (shl 1 j) else bit_and a (inverse (shl 1 j)) in
    if not (bitj == 0) then bit_or a' (shl 1 i) else bit_and a' (inverse (shl 1 i))

pub changeendianessint : ℕ → ℕ
changeendianessint a =
    bit_or
      (bit_or (bit_or (bit_and (a / 2 ^ 24) 255) (bit_and (a / 2 ^ 8) 65280))
        (bit_and (shl a 8) 16711680))
      (bit_and (shl a 24) 4278190080)

-- The macro.
pub changeendiannesuint32 : ℕ → ℕ
changeendiannesuint32 a =
    bit_or
      (bit_or (bit_or (shl (bit_and a 255) 24) (shl (bit_and a 65280) 8))
        (bit_and a 16711680 / 2 ^ 8))
      (bit_and a 4278190080 / 2 ^ 24)

-- The loop of swaporderbits, with `left` rounds left.
pub turn : ℕ → ℕ → ℕ → ℕ → ℕ
turn a zero i swapped = swapped
turn a (suc left) i swapped =
    turn a left (i + 1)
      (if not (bit_and a (shl 1 i) == 0) then bit_or swapped (shl 1 (32 - i - 1)) else swapped)

pub swaporderbits : ℕ → ℕ
unfolding turn
swaporderbits a = turn a 32 0 0

-- `a>>1` on an `int`, which keeps the sign.
pub halve : ℕ → ℕ
halve a = if ltb a (word / 2) then a / 2 else (a + word) / 2

-- The loop of numberbitssettoone. `cont` is an `int` that only a negative `a` could overflow.
pub count : ℕ → ℕ → ℕ → Run ℕ
unfolding halve
count zero a cont = no_fuel
count (suc fuel) a cont =
    let cont' = if not (bit_and a 1 == 0) then cont + 1 else cont in
    let round = count fuel (halve a) cont' in if not (a == 0) then round else done cont

pub numberbitssettoone : ℕ → ℕ → Run ℕ
unfolding count
numberbitssettoone fuel a = count fuel a 0

-- The loop of indexhighestbitset; `none` is -1.
pub highest : ℕ → ℕ → ℕ → Option ℕ → Option ℕ
highest a zero i found = found
highest a (suc left) i found =
    highest a left (i + 1) (if not (bit_and a (shl 1 i) == 0) then some i else found)

pub indexhighestbitset : ℕ → Option ℕ
unfolding highest
indexhighestbitset a = highest a 32 0 none

-- The loop of indexlowestbitset.
pub lowest : ℕ → ℕ → ℕ → ℕ
lowest a zero i = 0
lowest a (suc left) i =
    let rest = lowest a left (i + 1) in if not (bit_and a (shl 1 i) == 0) then i + 1 else rest

pub indexlowestbitset : ℕ → ℕ
unfolding lowest
indexlowestbitset a = lowest a 32 0
