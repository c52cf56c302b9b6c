-- ===== src/Strings/Words.antt =====
-- reversewords puts the words of a string in reverse order.
use mathlib.Core.Path.{subst}
use mathlib.Core.List.{cons≢nil, head-eq_of_cons-eq, reverse, append_assoc}
use codingforfun.Prelude.{
  ℕ, zero, suc, ◌+◌, ◌-◌, ◌<◌, ◌≡◌, ◌≢◌, refl, sym, ap, ◌∙◌, List, [], ◌∷◌, ◌++◌, false, ◌==◌,
  if◌then◌else◌, length, length-append, arith, Bool-cases, inl, inr,
}
use codingforfun.Run.{fault, Returns, returns, Returns-mono, Returns-bind, ◌>>=◌}
use codingforfun.Strings.{skip_spaces, skip_word, reversestring, reverse_each, reversewords}
use codingforfun.Strings.Removal.{IsText, load-append}
use codingforfun.Strings.Skip.{
  turn_words, AreSpaces, IsWord, NoWord, NoSpace, split_spaces, split-IsWord, turn_words-spaces,
  turn_words-word, skip_spaces-done, skip_word-done,
}
use codingforfun.Strings.Part.{reversestring-reverse, length-reverse}

-- The words of `text`, behind `front`, are turned round, and the pointer is behind them.
abbrev Each : List ℕ → List ℕ → List ℕ → List ℕ × ℕ → Type 0
Each front text rest (r, q) =
    (r ≡ front ++ (turn_words [] text ++ 0 ∷ rest)) × (q ≡ length front + length text)

-- A round on a word, the spaces behind it, and the text behind them.
module _ (fuel : ℕ) (front w s t rest : List ℕ) where
  abbrev passed : List ℕ
  passed = (front ++ reverse w) ++ s

  length-passed : length passed ≡ length front + length w + length s
  length-passed = omega (
    arith,
    length-append (front ++ reverse w) s,
    length-append front (reverse w),
    length-reverse w,
  )

  Each-passed :
      IsWord w
      → AreSpaces s
      → NoWord (s ++ t)
      → (x : List ℕ × ℕ) → Each passed t rest x
      → Each front (w ++ (s ++ t)) rest x
  Each-passed a b n (r, q) h = (
    h.0 ∙ regrouped,
    omega (arith, h.1, length-passed, length-append w (s ++ t), length-append s t),
  )
    where
      turned : turn_words [] (w ++ (s ++ t)) ≡ reverse w ++ (s ++ turn_words [] t)
      turned =
          turn_words-word [] w (s ++ t) a n ∙ ap (λ l. reverse w ++ l) (turn_words-spaces s t b)

      regrouped :
          passed ++ (turn_words [] t ++ 0 ∷ rest)
          ≡ front ++ (turn_words [] (w ++ (s ++ t)) ++ 0 ∷ rest)
      regrouped = rw turned (simp append_assoc)

  Each-round :
      0 < length w
      → length w < suc fuel
      → length s < suc fuel
      → IsWord w
      → AreSpaces s
      → NoWord (s ++ t)
      → NoSpace t
      → IsText t
      → Returns (Each passed t rest) (reverse_each fuel (passed ++ (t ++ 0 ∷ rest)) (length passed))
      → Returns (Each front (w ++ (s ++ t)) rest) (do
        ptrb ← skip_word (suc fuel) (front ++ (w ++ ((s ++ t) ++ 0 ∷ rest))) (length front)
        str' ←
            if ptrb == 0
            then fault
            else reversestring (front ++ (w ++ ((s ++ t) ++ 0 ∷ rest))) (length front) (ptrb - 1)
        next ← skip_spaces (suc fuel) str' ptrb
        reverse_each fuel str' next)
  Each-round pos lw ls a b n m is ih =
      let some_char : (length front + length w == 0) ≡ false = ground arith in
      rw (skip_word-done (suc fuel) front w (s ++ t) rest lw a n, some_char)
        (Returns-bind (reversestring-reverse front w ((s ++ t) ++ 0 ∷ rest) pos) λ r e.
          let tail = t ++ 0 ∷ rest in
          let behind : r ≡ (front ++ reverse w) ++ (s ++ tail) = e ∙ simp append_assoc in
          let len : length front + length w ≡ length (front ++ reverse w) =
            omega (arith, length-append front (reverse w), length-reverse w) in
          let next : length (front ++ reverse w) + length s ≡ length passed =
            omega (arith, length-append (front ++ reverse w) s) in
          let group : (front ++ reverse w) ++ (s ++ tail) ≡ passed ++ tail =
            sym (append_assoc (front ++ reverse w) s tail) in
          rw
            (
              behind,
              len,
              skip_spaces-done (suc fuel) (front ++ reverse w) s t rest ls b m is,
              next,
              group,
            )
            (Returns-mono ih (Each-passed a b n)))

word_begins : (c : ℕ) (text w u : List ℕ) → c ≢ 32 → NoWord u → c ∷ text ≡ w ++ u → 0 < length w
word_begins c text [] [] ne n e = absurd (cons≢nil e)
word_begins c text [] (d ∷ u) ne n e = absurd (ne (head-eq_of_cons-eq e ∙ n))
word_begins c text (d ∷ w) u ne n e = omega arith

reverse_each-Each :
    (fuel : ℕ) (front text rest : List ℕ)
    → length text < fuel
    → IsText text
    → NoSpace text
    → Returns
        (Each front text rest)
        (reverse_each fuel (front ++ (text ++ 0 ∷ rest)) (length front))
unfolding reverse_each
reverse_each-Each zero front text rest enough is no_space = absurd (omega arith)
reverse_each-Each (suc fuel) front [] rest enough is no_space =
    rw (load-append front rest 0 (length front) refl) (returns (refl, omega arith))
reverse_each-Each (suc fuel) front (c ∷ text) rest enough is no_space =
    let (w, u, same, aw, nw, iu) = split-IsWord (c ∷ text) is in
    let (s, t, same', sp, ns, it) = split_spaces u iu in
    let not_end : (c == 0) ≡ false = ground (arith, is.0) in
    let nonempty : 0 < length w = word_begins c text w u no_space nw same in
    let whole : c ∷ text ≡ w ++ (s ++ t) = same ∙ ap (λ l. w ++ l) same' in
    let size : length (c ∷ text) ≡ length w + length s + length t =
      ap length whole ∙ omega (arith, length-append w (s ++ t), length-append s t) in
    let str : c ∷ (text ++ 0 ∷ rest) ≡ w ++ ((s ++ t) ++ 0 ∷ rest) =
      ap (λ l. l ++ 0 ∷ rest) whole ∙ append_assoc w (s ++ t) (0 ∷ rest) in
    let ih = reverse_each-Each fuel (passed fuel front w s t rest) t rest (omega arith) it ns in
    rw (load-append front (text ++ 0 ∷ rest) c (length front) refl, not_end, str, whole)
      (Each-round fuel front w s t rest nonempty (omega arith) (omega arith) aw sp
        (subst NoWord same' nw) ns it ih)

length-turn_words : (word text : List ℕ) → length (turn_words word text) ≡ length word + length text
length-turn_words word [] = omega arith
length-turn_words word (c ∷ text) = elim (Bool-cases (c == 32)) [
  | inl e ↦
      rw e (omega (arith, length-append word (c ∷ turn_words [] text), length-turn_words [] text))
  | inr e ↦ rw e (omega (arith, length-turn_words (c ∷ word) text))
]

reversewords_split :
    (fuel : ℕ) (s t rest : List ℕ)
    → 0 < length (s ++ t)
    → length (s ++ t) < fuel
    → AreSpaces s
    → NoSpace t
    → IsText t
    → Returns
        (λ r. r ≡ reverse (turn_words [] (s ++ t)) ++ 0 ∷ rest)
        (reversewords fuel ((s ++ t) ++ 0 ∷ rest))
unfolding reversewords
reversewords_split fuel s t rest pos enough sp ns it =
    let size = length-append s t in
    let zero_plus : 0 + length s ≡ length s = omega arith in
    let turned = turn_words-spaces s t sp in
    rw
      (
        append_assoc s t (0 ∷ rest),
        skip_spaces-done fuel [] s t rest (omega arith) sp ns it,
        zero_plus,
      )
      (Returns-bind (reverse_each-Each fuel s t rest (omega arith) it ns) λ x h.
        let some_char : (x.1 == 0) ≡ false = ground (arith, h.1) in
        let words : x.0 ≡ turn_words [] (s ++ t) ++ 0 ∷ rest =
          h.0
          ∙ sym (append_assoc s (turn_words [] t) (0 ∷ rest))
          ∙ ap (λ l. l ++ 0 ∷ rest) (sym turned) in
        let last : x.1 - 1 ≡ 0 + length (turn_words [] (s ++ t)) - 1 =
          omega (arith, h.1, length-turn_words [] (s ++ t)) in
        rw (some_char, words, last)
          (reversestring-reverse [] (turn_words [] (s ++ t)) (0 ∷ rest)
            (omega (arith, length-turn_words [] (s ++ t)))))

-- reversewords on an array with a string that ends in 0 and is not empty, given more rounds than the
-- string has characters, never accesses memory outside of the array, ends, and leaves the text turned
-- round, but for each of its words, which still reads forward.
pub reversewords-turn_words :
    (fuel : ℕ) (text rest : List ℕ)
    → 0 < length text
    → length text < fuel
    → IsText text
    → Returns
        (λ r. r ≡ reverse (turn_words [] text) ++ 0 ∷ rest)
        (reversewords fuel (text ++ 0 ∷ rest))
unfolding reversewords
reversewords-turn_words fuel text rest pos enough is =
    let (s, t, same, sp, ns, it) = split_spaces text is in
    subst
      (λ l.
        Returns (λ r. r ≡ reverse (turn_words [] l) ++ 0 ∷ rest)
          (reversewords fuel (l ++ 0 ∷ rest)))
      (sym same)
      (reversewords_split fuel s t rest (omega (arith, ap length same))
        (omega (arith, ap length same)) sp ns it)
