-- ===== src/Diamond.antt =====
-- printdiamond.c: what its three functions print, as a list of bytes. `lines` is not negative here, and
-- below 2^30, where no sum leaves `int`; for a negative number the functions print nothing.
pub mod Shape
mod Tests
use codingforfun.Prelude.{
  ℕ, zero, suc, ◌+◌, ◌-◌, ◌*◌, ◌/◌, ◌%◌, List, [], ◌∷◌, ◌++◌, ◌==◌, if◌then◌else◌,
}

abbrev pub blank : ℕ
blank = b' '

abbrev pub star : ℕ
star = b'*'

abbrev pub newline : ℕ
newline = 10

-- A loop that prints one character `n` times.
pub times : ℕ → ℕ → List ℕ
times zero c = []
times (suc n) c = c ∷ times n c

-- `if (lines % 2 == 0) lines++;`
pub odd_lines : ℕ → ℕ
odd_lines lines = if lines % 2 == 0 then lines + 1 else lines

-- The first loop of diamond_easier and of diamond2, with the rounds that are left. The last round
-- leaves -1 in `spaces`, which is not read again.
pub widen : ℕ → ℕ → ℕ → List ℕ
unfolding times
widen zero spaces stars = []
widen (suc rounds) spaces stars =
    times spaces blank ++ (times stars star ++ (newline ∷ widen rounds (spaces - 1) (stars + 2)))

-- The second loop. Where `stars` gets negative, a round prints none, as for 0.
pub narrow : ℕ → ℕ → ℕ → List ℕ
unfolding times
narrow zero spaces stars = []
narrow (suc rounds) spaces stars =
    times spaces blank ++ (times stars star ++ (newline ∷ narrow rounds (spaces + 1) (stars - 2)))

pub diamond_easier : ℕ → List ℕ
unfolding widen narrow odd_lines
diamond_easier lines =
    let n = odd_lines lines in widen ((n + 1) / 2) ((n - 1) / 2) 1 ++ narrow ((n - 1) / 2) 1 (n - 2)

-- The loops of diamond1, from line `l` on.
pub upper_part : ℕ → ℕ → ℕ → List ℕ
unfolding times
upper_part lines zero l = []
upper_part lines (suc rounds) l =
    times ((lines + 1 - 2 * l) / 2) blank
    ++ (times (2 * l - 1) star ++ (newline ∷ upper_part lines rounds (l + 1)))

pub bottom_part : ℕ → ℕ → ℕ → List ℕ
unfolding times
bottom_part lines zero l = []
bottom_part lines (suc rounds) l =
    times ((2 * l - lines - 1) / 2) blank
    ++ (times (2 * (lines - l) + 1) star ++ (newline ∷ bottom_part lines rounds (l + 1)))

pub diamond1 : ℕ → List ℕ
unfolding upper_part bottom_part odd_lines
diamond1 lines =
    let n = odd_lines lines in
    upper_part n ((n + 1) / 2) 1 ++ bottom_part n (n - (n + 1) / 2) ((n + 1) / 2 + 1)

pub diamond2 : ℕ → List ℕ
unfolding widen narrow odd_lines
diamond2 lines =
    let n = odd_lines lines in
    widen ((n + 1) / 2) ((n - 1) / 2) 1 ++ narrow (n - (n + 1) / 2) 1 ((n + 1) / 2 + 1)
