-- ===== src/Strings/Part.antt =====
-- reversestring on a part of an array, as lists.
use mathlib.Core.List.{reverse, reverse-cons}
use native.Mathlib.Decide.{dec_lt}
use codingforfun.Prelude.{
  ℕ, zero, suc, ◌+◌, ◌-◌, ◌≤◌, ◌<◌, ◌≡◌, refl, sym, ap, ◌∙◌, List, [], ◌∷◌, ◌++◌, ◌&&◌, true, false,
  leb, length, length-append, get_or, get_or-append, eq_of_get_or, arith,
}
use codingforfun.Run.{Returns, Returns-mono}
use codingforfun.Strings.{reversestring}
use codingforfun.Strings.Reverse.{Turned, reversestring-Turned}

module _ {ℓ} {A : Type ℓ} where
  get_or-append_behind :
      (xs ys : List A) (i : ℕ) (d : A)
      → length xs ≤ i
      → get_or (xs ++ ys) i d ≡ get_or ys (i - length xs) d
  unfolding get_or
  get_or-append_behind [] ys i d le = let e : i ≡ i - 0 = omega arith in ap (λ k. get_or ys k d) e
  get_or-append_behind (x ∷ xs) ys zero d le = absurd (omega arith)
  get_or-append_behind (x ∷ xs) ys (suc i) d le =
      let e : i - length xs ≡ suc i - suc (length xs) = omega arith in
      get_or-append_behind xs ys i d (omega arith) ∙ ap (λ k. get_or ys k d) e

  pub length-reverse : (xs : List A) → length (reverse xs) ≡ length xs
  length-reverse [] = refl
  length-reverse (x ∷ xs) =
      ap length (reverse-cons x xs)
      ∙ omega (arith, length-append (reverse xs) (x ∷ []), length-reverse xs)

  get_or-last :
      (xs : List A) (x : A) (i : ℕ) (d : A) → length xs ≡ i → get_or (xs ++ x ∷ []) i d ≡ x
  unfolding get_or
  get_or-last [] x zero d e = refl
  get_or-last [] x (suc i) d e = absurd (omega arith)
  get_or-last (y ∷ xs) x zero d e = absurd (omega arith)
  get_or-last (y ∷ xs) x (suc i) d e = get_or-last xs x i d (omega arith)

  get_or-cons : (x : A) (xs : List A) (i : ℕ) (d : A) → get_or (x ∷ xs) (suc i) d ≡ get_or xs i d
  unfolding get_or
  get_or-cons x xs i d = refl

  get_or-cons_zero : (x : A) (xs : List A) (d : A) → get_or (x ∷ xs) 0 d ≡ x
  unfolding get_or
  get_or-cons_zero x xs d = refl

  get_or-reverse :
      (xs : List A) (i : ℕ) (d : A)
      → i < length xs
      → get_or (reverse xs) i d ≡ get_or xs (length xs - 1 - i) d
  get_or-reverse [] i d lt = absurd (omega arith)
  get_or-reverse (x ∷ xs) i d lt = elim (dec_lt i (length xs)) [
    | yes inner ↦
        let e : suc (length xs) - 1 - i ≡ suc (length xs - 1 - i) = omega arith in
        rw (reverse-cons x xs, e, get_or-cons x xs (length xs - 1 - i) d)
          (get_or-append (reverse xs) (x ∷ []) i d (omega (arith, length-reverse xs))
            ∙ get_or-reverse xs i d inner)
    | no last ↦
        let e : suc (length xs) - 1 - i ≡ 0 = omega arith in
        rw (reverse-cons x xs, e, get_or-cons_zero x xs d)
          (get_or-last (reverse xs) x i d (omega (arith, length-reverse xs)))
  ]

module _ (front mid back : List ℕ) (some_entry : 0 < length mid) where
  abbrev a : ℕ
  a = length front

  abbrev b : ℕ
  b = length front + length mid - 1

  abbrev str : List ℕ
  str = front ++ (mid ++ back)

  Turned-reverse : (r : List ℕ) → Turned a b str r → r ≡ front ++ (reverse mid ++ back)
  Turned-reverse r t =
      eq_of_get_or r (front ++ (reverse mid ++ back)) 0
        (omega (
          arith,
          t.0,
          length-append front (mid ++ back),
          length-append mid back,
          length-append front (reverse mid ++ back),
          length-append (reverse mid) back,
          length-reverse mid,
        ))
        λ i lt. entry i
    where
      entry : (i : ℕ) → get_or r i 0 ≡ get_or (front ++ (reverse mid ++ back)) i 0
      entry i = elim (dec_lt i (length front)) [
        | yes before ↦
            let out : (leb a i && leb i b) ≡ false = ground arith in
            rw
              (
                t.1 i,
                out,
                get_or-append front (mid ++ back) i 0 before,
                get_or-append front (reverse mid ++ back) i 0 before,
              )
              refl
        | no from ↦ elim (dec_lt i (length front + length mid)) [
          | yes within ↦
              let j = a + b - i in
              let k = i - length front in
              let inside : (leb a i && leb i b) ≡ true = ground arith in
              let e : j - length front ≡ length mid - 1 - k = omega arith in
              rw (t.1 i, inside)
                (get_or-append_behind front (mid ++ back) j 0 (omega arith)
                  ∙ get_or-append mid back (j - length front) 0 (omega arith)
                  ∙ ap (λ x. get_or mid x 0) e
                  ∙ sym (get_or-reverse mid k 0 (omega arith))
                  ∙ sym (get_or-append (reverse mid) back k 0 (omega (arith, length-reverse mid)))
                  ∙ sym (get_or-append_behind front (reverse mid ++ back) i 0 (omega arith)))
          | no behind ↦
              let k = i - length front in
              let out : (leb a i && leb i b) ≡ false = ground arith in
              let e : k - length mid ≡ k - length (reverse mid) =
                omega (arith, length-reverse mid) in
              rw (t.1 i, out)
                (get_or-append_behind front (mid ++ back) i 0 (omega arith)
                  ∙ get_or-append_behind mid back k 0 (omega arith)
                  ∙ ap (λ x. get_or back x 0) e
                  ∙ sym (
                      get_or-append_behind (reverse mid) back k 0
                        (omega (arith, length-reverse mid)))
                  ∙ sym (get_or-append_behind front (reverse mid ++ back) i 0 (omega arith)))
        ]
      ]

  -- reversestring from the first to the last entry of `mid`.
  pub reversestring-reverse :
      Returns (λ r. r ≡ front ++ (reverse mid ++ back)) (reversestring str a b)
  reversestring-reverse =
      Returns-mono
        (reversestring-Turned str a b (omega arith)
          (omega (arith, length-append front (mid ++ back), length-append mid back)))
        Turned-reverse
