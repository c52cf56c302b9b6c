-- ===== src/Diamond/Shape.antt =====
-- The first two functions print the same, and the third does so for few sizes only.
use mathlib.Core.Path.{subst}
use codingforfun.Prelude.{
  ℕ, zero, suc, ◌+◌, ◌-◌, ◌*◌, ◌/◌, ◌≤◌, ◌≡◌, ◌↔◌, ◌⊎◌, inl, inr, refl, sym, ap, ◌∙◌, List, [], ◌∷◌,
  ◌++◌, ◌==◌, if◌then◌else◌, arith,
}
use codingforfun.Diamond.{
  star, newline, times, odd_lines, widen, narrow, diamond_easier, upper_part, bottom_part, diamond1,
  diamond2,
}

upper_part-widen :
    (k rounds l : ℕ)
    → 1 ≤ l
    → l + rounds ≤ k + 2
    → upper_part (2 * k + 1) rounds l ≡ widen rounds (k + 1 - l) (2 * l - 1)
unfolding upper_part widen
upper_part-widen k zero l pos fits = refl
upper_part-widen k (suc rounds) l pos fits =
    let left : (2 * k + 1 + 1 - 2 * l) / 2 ≡ k + 1 - l = omega arith in
    let next : 2 * (l + 1) - 1 ≡ 2 * l - 1 + 2 = omega arith in
    let fewer : k + 1 - (l + 1) ≡ k + 1 - l - 1 = omega arith in
    rw (left, upper_part-widen k rounds (l + 1) (omega arith) (omega arith), next, fewer) refl

bottom_part-narrow :
    (k rounds l : ℕ)
    → k + 1 ≤ l
    → l + rounds ≤ 2 * k + 2
    → bottom_part (2 * k + 1) rounds l ≡ narrow rounds (l - (k + 1)) (2 * (2 * k + 1 - l) + 1)
unfolding bottom_part narrow
bottom_part-narrow k zero l pos fits = refl
bottom_part-narrow k (suc zero) l pos fits =
    let left : (2 * l - (2 * k + 1) - 1) / 2 ≡ l - (k + 1) = omega arith in rw left refl
bottom_part-narrow k (suc (suc rounds)) l pos fits =
    let left : (2 * l - (2 * k + 1) - 1) / 2 ≡ l - (k + 1) = omega arith in
    let next : 2 * (2 * k + 1 - (l + 1)) + 1 ≡ 2 * (2 * k + 1 - l) + 1 - 2 = omega arith in
    let more : l + 1 - (k + 1) ≡ l - (k + 1) + 1 = omega arith in
    let rest = bottom_part-narrow k (suc rounds) (l + 1) (omega arith) (omega arith) in
    rw (left, rest, next, more) refl

bottom_part-whole : (k : ℕ) → bottom_part (2 * k + 1) k (k + 1 + 1) ≡ narrow k 1 (2 * k + 1 - 2)
unfolding bottom_part narrow
bottom_part-whole zero = refl
bottom_part-whole (suc k) =
    let spaces : suc k + 1 + 1 - (suc k + 1) ≡ 1 = omega arith in
    let stars : 2 * (2 * suc k + 1 - (suc k + 1 + 1)) + 1 ≡ 2 * suc k + 1 - 2 = omega arith in
    let e = bottom_part-narrow (suc k) (suc k) (suc k + 1 + 1) (omega arith) (omega arith) in
    subst (λ s. bottom_part (2 * suc k + 1) (suc k) (suc k + 1 + 1) ≡ narrow (suc k) 1 s) stars
      (subst
        (λ b.
          bottom_part (2 * suc k + 1) (suc k) (suc k + 1 + 1)
          ≡ narrow (suc k) b (2 * (2 * suc k + 1 - (suc k + 1 + 1)) + 1))
        spaces e)

odd_lines-odd : (lines : ℕ) → (k : ℕ) × (odd_lines lines ≡ 2 * k + 1)
unfolding odd_lines
odd_lines-odd lines = (lines / 2, ground arith)

-- diamond_easier and diamond1 print the same for every number of lines that is not negative.
diamond_easier-diamond1 : (lines : ℕ) → diamond_easier lines ≡ diamond1 lines
unfolding diamond_easier diamond1
diamond_easier-diamond1 lines =
    let (k, odd) = odd_lines-odd lines in
    let half : (2 * k + 1 + 1) / 2 ≡ k + 1 = omega arith in
    let rest : (2 * k + 1 - 1) / 2 ≡ k = omega arith in
    let bottom : 2 * k + 1 - (k + 1) ≡ k = omega arith in
    let first : k + 1 - 1 ≡ k = omega arith in
    let one : 2 * 1 - 1 ≡ 1 = omega arith in
    rw (odd, half, rest, bottom, bottom_part-whole k)
      (rw (upper_part-widen k (k + 1) 1 (omega arith) (omega arith), first) refl)

-- The stars at the start of a text.
abbrev stars_first : List ℕ → ℕ
stars_first [] = 0
stars_first (c ∷ text) = if c == star then suc (stars_first text) else 0

stars_first-times : (n : ℕ) (text : List ℕ) → stars_first (times n star ++ (newline ∷ text)) ≡ n
unfolding times
stars_first-times zero text = refl
stars_first-times (suc n) text = ap suc (stars_first-times n text)

abbrev rest_of : List ℕ → List ℕ
rest_of [] = []
rest_of (c ∷ text) = text

append_cancel : (xs ys zs : List ℕ) → xs ++ ys ≡ xs ++ zs → ys ≡ zs
append_cancel [] ys zs e = e
append_cancel (x ∷ xs) ys zs e = append_cancel xs ys zs (ap rest_of e)

-- The first row of the second loop shows with how many stars it began.
narrow_stars : (rounds a b : ℕ) → narrow (suc rounds) 1 a ≡ narrow (suc rounds) 1 b → a ≡ b
unfolding narrow times
narrow_stars rounds a b e =
    sym (stars_first-times a (narrow rounds (1 + 1) (a - 2)))
    ∙ ap (λ text. stars_first (rest_of text)) e
    ∙ stars_first-times b (narrow rounds (1 + 1) (b - 2))

narrow_iff : (k : ℕ) → (narrow k 1 (k + 1 + 1) ≡ narrow k 1 (2 * k + 1 - 2)) ↔ ((k ≡ 0) ⊎ (k ≡ 3))
unfolding narrow
narrow_iff zero = (λ e. inl refl, λ e. refl)
narrow_iff (suc k) = (
  λ e. let same = narrow_stars k (suc k + 1 + 1) (2 * suc k + 1 - 2) e in inr (omega arith),
  λ small.
      let same : suc k + 1 + 1 ≡ 2 * suc k + 1 - 2 = ground arith in ap (narrow (suc k) 1) same,
)

-- For a number of lines that is not negative, diamond2 prints what the others print only for one line
-- and for seven lines, the size that main asks for.
diamond2-diamond1 :
    (lines : ℕ)
    → (diamond2 lines ≡ diamond1 lines) ↔ ((odd_lines lines ≡ 1) ⊎ (odd_lines lines ≡ 7))
unfolding diamond2 diamond_easier
diamond2-diamond1 lines =
    let (k, odd) = odd_lines-odd lines in
    let half : (2 * k + 1 + 1) / 2 ≡ k + 1 = omega arith in
    let rest : (2 * k + 1 - 1) / 2 ≡ k = omega arith in
    let bottom : 2 * k + 1 - (k + 1) ≡ k = omega arith in
    let upper = widen (k + 1) k 1 in
    let key = narrow_iff k in
    rw (← (diamond_easier-diamond1 lines)) (
      rw (odd, half, rest, bottom)
        (
          λ e. ground (arith, key.0 (append_cancel upper _ _ e)),
          λ small. ap (λ text. upper ++ text) (key.1 (ground arith)),
        ))

-- For a number of lines that is not negative: diamond_easier and diamond1 print the same; diamond2
-- prints that exactly where the number of lines, made odd, is one or seven, the size that main asks
-- for.
pub diamonds_lem :
    (lines : ℕ)
    → (diamond_easier lines ≡ diamond1 lines)
      × ((diamond2 lines ≡ diamond1 lines) ↔ ((odd_lines lines ≡ 1) ⊎ (odd_lines lines ≡ 7)))
diamonds_lem lines = (diamond_easier-diamond1 lines, diamond2-diamond1 lines)
