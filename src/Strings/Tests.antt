-- ===== src/Strings/Tests.antt =====
-- Texts as in main, and the theorem at one.
use codingforfun.Prelude.{ℕ, ◌≡◌, refl, List, [], ◌∷◌, ◌++◌, length, set, arith}
use mathlib.Core.List.{reverse}
use codingforfun.Prelude.{true, false}
use codingforfun.Run.{done, fault, Returns}
use codingforfun.Array.{load, store}
use codingforfun.Strings.{
  unique_charac1, unique_charac2, unique_from, repeats_from, skip_spaces, skip_word, reverse_each,
  reversestring, reverse_between, swap_chars, xor_into, reversewords, has_from, hascharacter,
  remove_from, removechars1,
}
use codingforfun.Strings.Skip.{turn_words}
use codingforfun.Strings.Words.{reversewords-turn_words}
use codingforfun.Strings.Unique.{distinct, tail, outcome, unique_lem}
use codingforfun.Strings.Removal.{kept, Reads, removechars1-Reads}

-- "bad a", without 'a' and 'b'.
abbrev text : List ℕ
text = 98 ∷ 97 ∷ 100 ∷ 32 ∷ 97 ∷ []

abbrev letters : List ℕ
letters = 97 ∷ 98 ∷ []

removechars1-text :
    removechars1 6 (text ++ 0 ∷ []) letters 2 ≡ done (100 ∷ 32 ∷ 0 ∷ 32 ∷ 97 ∷ 0 ∷ [])
unfolding removechars1 remove_from hascharacter has_from load store set
removechars1-text = refl

removechars1-Reads_example :
    Returns (Reads (kept letters text)) (removechars1 6 (text ++ 0 ∷ []) letters (length letters))
removechars1-Reads_example =
    removechars1-Reads 6 text [] letters (omega arith)
      (omega arith, (omega arith, (omega arith, (omega arith, (omega arith, tt)))))

-- " ab c", with three spaces between the words.
abbrev words : List ℕ
words = 32 ∷ 97 ∷ 98 ∷ 32 ∷ 32 ∷ 32 ∷ 99 ∷ []

reversewords-words :
    reversewords 9 (words ++ 0 ∷ []) ≡ done (99 ∷ 32 ∷ 32 ∷ 32 ∷ 97 ∷ 98 ∷ 32 ∷ 0 ∷ [])
unfolding reversewords skip_spaces skip_word reverse_each reversestring reverse_between swap_chars
    xor_into load store set
reversewords-words = refl

-- On the empty string the pointer goes in front of the array.
reversewords-empty : reversewords 9 (0 ∷ []) ≡ fault
unfolding reversewords skip_spaces reverse_each load
reversewords-empty = refl

reversewords-turn_words_example :
    Returns (λ r. r ≡ reverse (turn_words [] words) ++ 0 ∷ []) (reversewords 9 (words ++ 0 ∷ []))
reversewords-turn_words_example = reversewords-turn_words 9 words [] (omega arith) (omega arith) (
  omega arith,
  (omega arith, (omega arith, (omega arith, (omega arith, (omega arith, (omega arith, tt)))))),
)

-- "abb": the two letters b are behind the first one.
unique_charac1-abb : unique_charac1 6 (97 ∷ 98 ∷ 98 ∷ 0 ∷ []) ≡ done false
unfolding unique_charac1 unique_from repeats_from load
unique_charac1-abb = refl

-- "aba": the repeated letter is the first one.
unique_charac1-aba : unique_charac1 6 (97 ∷ 98 ∷ 97 ∷ 0 ∷ []) ≡ done true
unfolding unique_charac1 unique_from repeats_from load
unique_charac1-aba = refl

unique_lem_example :
    (unique_charac1 6 ((97 ∷ 98 ∷ 99 ∷ []) ++ 0 ∷ []) ≡ done (distinct (tail (97 ∷ 98 ∷ 99 ∷ []))))
    × (unique_charac2 6 ((97 ∷ 98 ∷ 99 ∷ []) ++ 0 ∷ []) ≡ outcome (97 ∷ 98 ∷ 99 ∷ []))
unique_lem_example =
    unique_lem 6 (97 ∷ 98 ∷ 99 ∷ []) []
      (omega arith, omega arith, (omega arith, omega arith, (omega arith, omega arith, tt)))
      (omega arith)
