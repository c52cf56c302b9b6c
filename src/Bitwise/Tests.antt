-- ===== src/Bitwise/Tests.antt =====
-- Runs on concrete words, and each theorem at one.
use codingforfun.Prelude.{
  ℕ, ◌+◌, ◌-◌, ◌≡◌, ◌≢◌, ◌↔◌, refl, ◌&&◌, ltb, leb, ◌==◌, if◌then◌else◌, some, arith,
}
use codingforfun.Run.{done, fault, no_fuel, Returns}
use codingforfun.Word.{bit, shl, minus_one}
use codingforfun.Bitwise.{
  setbit, clearbit, togglebit, isbitset, updatebit, updatebit2, low_mask, mask_between,
  setbitsbetweenij, clearbitsbetweenij, merge_m_into_n, swapbits, swaporderbits, changeendianessint,
  changeendiannesuint32, numberbitssettoone, indexhighestbitset, indexlowestbitset,
}
use codingforfun.Bitwise.Fields.{fields_lem}
use codingforfun.Bitwise.Exchange.{single_bits_lem}
use codingforfun.Bitwise.Bytes.{endianness_lem}
use codingforfun.Bitwise.Scan.{ones, IsHighest, IsAboveLowest, scan_lem}

abbrev eleven : ℕ
eleven = 11

-- 419, as in main.
abbrev sample : ℕ
sample = 419

updatebit-sample : updatebit sample 3 1 ≡ 427
unfolding updatebit shl
updatebit-sample = refl

setbitsbetweenij-sample : setbitsbetweenij 0 8 4 ≡ done 496
unfolding setbitsbetweenij mask_between low_mask shl minus_one
setbitsbetweenij-sample = refl

-- 31 bits: 1<<31 is the least `int`, from which 1 is subtracted.
setbitsbetweenij-fault : setbitsbetweenij 0 30 0 ≡ fault
unfolding setbitsbetweenij mask_between low_mask
setbitsbetweenij-fault = refl

changeendianessint-sample : changeendianessint sample ≡ 2734751744
unfolding changeendianessint shl
changeendianessint-sample = refl

numberbitssettoone-sample : numberbitssettoone 33 sample ≡ done 5
unfolding numberbitssettoone
numberbitssettoone-sample = refl

indexhighestbitset-sample : indexhighestbitset 88 ≡ some 6
unfolding indexhighestbitset shl
indexhighestbitset-sample = refl

indexlowestbitset-sample : indexlowestbitset 88 ≡ 4
unfolding indexlowestbitset shl
indexlowestbitset-sample = refl

fields_lem_example :
    Returns
      (λ w. bit w eleven ≡ (if leb 4 eleven && leb eleven 8 then 1 else bit sample eleven))
      (setbitsbetweenij sample 8 4)
    × Returns
        (λ w. bit w eleven ≡ (if leb 4 eleven && leb eleven 8 then 0 else bit sample eleven))
        (clearbitsbetweenij sample 8 4)
    × (merge_m_into_n 5 sample 8 4 ≡ setbitsbetweenij sample 8 4)
fields_lem_example =
    fields_lem 5 sample 8 4 eleven (omega arith) (omega arith) (omega arith) (omega arith)

endianness_lem_example :
    ((k : ℕ)
      → bit (changeendianessint sample) k ≡ (
          if ltb k 8
          then bit sample (k + 24)
          else if ltb k 16
          then bit sample (k + 8)
          else if ltb k 24
          then bit sample (k - 8)
          else if ltb k 32
          then bit sample (k - 24)
          else 0))
    × (changeendianessint (changeendianessint sample) ≡ sample)
    × (changeendiannesuint32 sample ≡ changeendianessint sample)
endianness_lem_example = endianness_lem sample (omega arith)

scan_lem_example :
    (numberbitssettoone 1000 4294967295
      ≡ (if ltb 4294967295 2147483648 then done (ones 32 4294967295) else no_fuel))
    × IsHighest 4294967295 32 (indexhighestbitset 4294967295)
    × IsAboveLowest 4294967295 (indexlowestbitset 4294967295)
scan_lem_example = scan_lem 1000 4294967295 (omega arith) (omega arith)

single_bits_lem_example :
    (bit (setbit sample 3) eleven ≡ (if eleven == 3 then 1 else bit sample eleven))
    × (bit (clearbit sample 3) eleven ≡ (if eleven == 3 then 0 else bit sample eleven))
    × (bit (togglebit sample 3) eleven
        ≡ (if eleven == 3 then 1 - bit sample eleven else bit sample eleven))
    × ((isbitset sample 3 ≢ 0) ↔ (bit sample 3 ≡ 1))
    × (updatebit2 sample 3 1 ≡ updatebit sample 3 1)
    × (bit (swapbits sample 3 5) eleven
        ≡ bit sample (if eleven == 3 then 5 else if eleven == 5 then 3 else eleven))
    × (bit (swaporderbits sample) eleven ≡ (if ltb eleven 32 then bit sample (31 - eleven) else 0))
single_bits_lem_example =
    single_bits_lem sample 3 5 eleven 1 (omega arith) (omega arith) (omega arith) (omega arith)
