-- ===== src/Diamond/Tests.antt =====
-- A small diamond, and each theorem at a size.
use codingforfun.Prelude.{◌≡◌, ◌↔◌, ◌⊎◌, refl, [], ◌∷◌}
use codingforfun.Diamond.{blank, star, newline, odd_lines, diamond_easier, diamond1, diamond2}
use codingforfun.Diamond.Shape.{diamonds_lem}

three_lines :
    diamond1 2 ≡ blank ∷ star ∷ newline ∷ star ∷ star ∷ star ∷ newline ∷ blank ∷ star ∷ newline ∷ []
unfolding diamond1
three_lines = refl

diamonds_lem_example :
    (diamond_easier 5 ≡ diamond1 5)
    × ((diamond2 5 ≡ diamond1 5) ↔ ((odd_lines 5 ≡ 1) ⊎ (odd_lines 5 ≡ 7)))
diamonds_lem_example = diamonds_lem 5
