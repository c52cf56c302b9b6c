-- ===== src/Sorting/Quick.antt =====
-- quicksort and quicksortroutine of sorting.c.
pub mod Partition
pub mod Sort
use codingforfun.Prelude.{
  ℕ, zero, suc, ◌+◌, ◌-◌, List, Bool, true, false, not, ◌&&◌, ltb, leb, ◌==◌, if◌then◌else◌,
}
use codingforfun.Run.{Run, done, no_fuel, ◌>>=◌}
use codingforfun.Array.{load, store}

-- The first inner `while`, which moves `right` down.
scan_down : ℕ → ℕ → List ℕ → ℕ → Run ℕ
scan_down pivot left a zero = do v ← load a 0; done 0
scan_down pivot left a (suc r) = do
  v ← load a (suc r)
  let rest = scan_down pivot left a r
  if leb pivot v && ltb left (suc r) then rest else done (suc r)

-- The second inner `while`, which moves `left` up, on fuel.
scan_up : ℕ → ℕ → ℕ → List ℕ → ℕ → Run ℕ
scan_up zero pivot right a left = no_fuel
scan_up (suc fuel) pivot right a left = do
  v ← load a left
  let rest = scan_up fuel pivot right a (left + 1)
  if leb v pivot && ltb left right then rest else done left

-- The first `if (left != right)`, which copies to the left and moves `left`.
fill_left : ℕ → ℕ → List ℕ → Run (List ℕ × ℕ)
fill_left left right a =
    let copy : Run (List ℕ × ℕ) = (do v ← load a right; b ← store a left v; done (b, left + 1)) in
    if not (left == right) then copy else done (a, left)

-- The second `if (left != right)`, which copies to the right and moves `right`.
fill_right : ℕ → ℕ → List ℕ → Run (List ℕ × ℕ)
fill_right left right a =
    let copy : Run (List ℕ × ℕ) = (do v ← load a left; b ← store a right v; done (b, right - 1)) in
    if not (left == right) then copy else done (a, right)

-- The outer `while`. It returns the array and the last `left`, where the pivot belongs. Each round
-- brings `left` and `right` closer.
pub partition : ℕ → ℕ → ℕ → ℕ → List ℕ → Run (List ℕ × ℕ)
partition zero pivot left right a = no_fuel
partition (suc fuel) pivot left right a =
    let round : Run (List ℕ × ℕ) = do
      right' ← scan_down pivot left a right
      (b, left') ← fill_left left right' a
      left'' ← scan_up (right' - left' + 1) pivot right' b left'
      (c, right'') ← fill_right left'' right' b
      partition fuel pivot left'' right'' c
    in if ltb left right then round else done (a, left)

-- quicksortroutine with `left <= right`; the fuel bounds the depth of the calls.
routine : ℕ → ℕ → ℕ → List ℕ → Run (List ℕ)
routine zero left right a = no_fuel
routine (suc fuel) left right a = do
  pivot ← load a left
  (b, p) ← partition (right - left + 1) pivot left right a
  c ← store b p pivot
  let lower = routine fuel left (p - 1) c
  d ← if ltb left p then lower else done c
  let upper = routine fuel (p + 1) right d
  if ltb p right then upper else done d

-- With no entries `right` is -1: neither the loop nor a call is entered, and what is left of
-- quicksortroutine reads and writes back the entry at `left`.
unfoldable pub quicksort : List ℕ → ℕ → Run (List ℕ)
unfolding routine partition fill_right fill_left scan_up scan_down
quicksort a zero = do pivot ← load a 0; store a 0 pivot
quicksort a (suc n) = routine (suc n) 0 n a
