-- ===== src/Strings/Skip.antt =====
-- The words and the spaces of a text, and the loops of reversewords that pass over them.
use mathlib.Core.List.{reverse_aux, append_assoc, append-nil}
use codingforfun.Prelude.{
  ℕ, zero, suc, ◌+◌, ◌<◌, ◌≡◌, ◌≢◌, refl, sym, ap, List, [], ◌∷◌, ◌++◌, true, false, ◌==◌,
  if◌then◌else◌, length, length-append, arith, Bool-cases, inl, inr,
}
use codingforfun.Run.{done}
use codingforfun.Strings.{skip_spaces, skip_word}
use codingforfun.Strings.Removal.{IsText, load-append}

-- A text with each of its words turned round; `word` is the part of the current word read so far,
-- turned round.
abbrev pub turn_words : List ℕ → List ℕ → List ℕ
turn_words word [] = word
turn_words word (c ∷ text) =
    if c == 32 then word ++ c ∷ turn_words [] text else turn_words (c ∷ word) text

abbrev pub AreSpaces : List ℕ → Type 0
AreSpaces [] = Unit
AreSpaces (c ∷ text) = (c ≡ 32) × AreSpaces text

abbrev pub IsWord : List ℕ → Type 0
IsWord [] = Unit
IsWord (c ∷ text) = (c ≢ 0) × (c ≢ 32) × IsWord text

-- The text does not begin with a character of a word, or not with a space.
abbrev pub NoWord : List ℕ → Type 0
NoWord [] = Unit
NoWord (c ∷ text) = c ≡ 32

abbrev pub NoSpace : List ℕ → Type 0
NoSpace [] = Unit
NoSpace (c ∷ text) = c ≢ 32

-- The spaces, or the word, in front of a text.
pub split_spaces :
    (text : List ℕ)
    → IsText text
    → (s : List ℕ) × (t : List ℕ) × (text ≡ s ++ t) × AreSpaces s × NoSpace t × IsText t
split_spaces [] is = ([], [], refl, tt, tt, tt)
split_spaces (c ∷ text) is = elim (Bool-cases (c == 32)) [
  | inl e ↦
      let (s, t, same, a, b, i) = split_spaces text is.1 in
      (c ∷ s, t, ap (λ l. c ∷ l) same, (ground arith, a), b, i)
  | inr e ↦ ([], c ∷ text, refl, tt, ground arith, is)
]

pub split-IsWord :
    (text : List ℕ)
    → IsText text
    → (w : List ℕ) × (t : List ℕ) × (text ≡ w ++ t) × IsWord w × NoWord t × IsText t
split-IsWord [] is = ([], [], refl, tt, tt, tt)
split-IsWord (c ∷ text) is = elim (Bool-cases (c == 32)) [
  | inl e ↦ ([], c ∷ text, refl, tt, ground arith, is)
  | inr e ↦
      let (w, t, same, a, b, i) = split-IsWord text is.1 in
      (c ∷ w, t, ap (λ l. c ∷ l) same, (is.0, ground arith, a), b, i)
]

pub turn_words-spaces : (s t : List ℕ) → AreSpaces s → turn_words [] (s ++ t) ≡ s ++ turn_words [] t
turn_words-spaces [] t a = refl
turn_words-spaces (c ∷ s) t a =
    let e : (c == 32) ≡ true = ground (arith, a.0) in
    rw e (ap (λ l. c ∷ l) (turn_words-spaces s t a.1))

pub turn_words-word :
    (word w t : List ℕ)
    → IsWord w
    → NoWord t
    → turn_words word (w ++ t) ≡ reverse_aux w word ++ turn_words [] t
turn_words-word word [] [] a b = sym (append-nil word)
turn_words-word word [] (c ∷ t) a b = let e : (c == 32) ≡ true = ground (arith, b) in rw e refl
turn_words-word word (c ∷ w) t a b =
    let e : (c == 32) ≡ false = ground (arith, a.1) in rw e (turn_words-word (c ∷ word) w t a.2 b)

-- Moving the first entry of the part behind to the part in front.
regroup : (front : List ℕ) (c : ℕ) (back : List ℕ) → front ++ c ∷ back ≡ (front ++ c ∷ []) ++ back
regroup front c back = sym (append_assoc front (c ∷ []) back)

pub skip_spaces-done :
    (fuel : ℕ) (front s t rest : List ℕ)
    → length s < fuel
    → AreSpaces s
    → NoSpace t
    → IsText t
    → skip_spaces fuel (front ++ (s ++ (t ++ 0 ∷ rest))) (length front)
      ≡ done (length front + length s)
unfolding skip_spaces
skip_spaces-done zero front s t rest enough a b is = absurd (omega arith)
skip_spaces-done (suc fuel) front [] [] rest enough a b is =
    let e : length front + 0 ≡ length front = omega arith in
    rw (load-append front rest 0 (length front) refl, e) refl
skip_spaces-done (suc fuel) front [] (c ∷ t) rest enough a b is =
    let e : length front + 0 ≡ length front = omega arith in
    let not_end : (c == 0) ≡ false = ground (arith, is.0) in
    let no_space : (c == 32) ≡ false = ground (arith, b) in
    rw (load-append front (t ++ 0 ∷ rest) c (length front) refl, not_end, no_space, e) refl
skip_spaces-done (suc fuel) front (c ∷ s) t rest enough a b is =
    let not_end : (c == 0) ≡ false = ground (arith, a.0) in
    let space : (c == 32) ≡ true = ground (arith, a.0) in
    let e : length front + 1 ≡ length (front ++ c ∷ []) =
      omega (arith, length-append front (c ∷ [])) in
    let e' : length front + suc (length s) ≡ length (front ++ c ∷ []) + length s =
      omega (arith, length-append front (c ∷ [])) in
    rw
      (
        load-append front (s ++ (t ++ 0 ∷ rest)) c (length front) refl,
        not_end,
        space,
        e,
        e',
        regroup front c (s ++ (t ++ 0 ∷ rest)),
      )
      (skip_spaces-done fuel (front ++ c ∷ []) s t rest (omega arith) a.1 b is)

pub skip_word-done :
    (fuel : ℕ) (front w t rest : List ℕ)
    → length w < fuel
    → IsWord w
    → NoWord t
    → skip_word fuel (front ++ (w ++ (t ++ 0 ∷ rest))) (length front)
      ≡ done (length front + length w)
unfolding skip_word
skip_word-done zero front w t rest enough a b = absurd (omega arith)
skip_word-done (suc fuel) front [] [] rest enough a b =
    let e : length front + 0 ≡ length front = omega arith in
    rw (load-append front rest 0 (length front) refl, e) refl
skip_word-done (suc fuel) front [] (c ∷ t) rest enough a b =
    let e : length front + 0 ≡ length front = omega arith in
    let not_end : (c == 0) ≡ false = ground (arith, b) in
    let space : (c == 32) ≡ true = ground (arith, b) in
    rw (load-append front (t ++ 0 ∷ rest) c (length front) refl, not_end, space, e) refl
skip_word-done (suc fuel) front (c ∷ w) t rest enough a b =
    let not_end : (c == 0) ≡ false = ground (arith, a.0) in
    let no_space : (c == 32) ≡ false = ground (arith, a.1) in
    let e : length front + 1 ≡ length (front ++ c ∷ []) =
      omega (arith, length-append front (c ∷ [])) in
    let e' : length front + suc (length w) ≡ length (front ++ c ∷ []) + length w =
      omega (arith, length-append front (c ∷ [])) in
    rw
      (
        load-append front (w ++ (t ++ 0 ∷ rest)) c (length front) refl,
        not_end,
        no_space,
        e,
        e',
        regroup front c (w ++ (t ++ 0 ∷ rest)),
      )
      (skip_word-done fuel (front ++ c ∷ []) w t rest (omega arith) a.2 b)
