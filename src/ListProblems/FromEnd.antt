-- ===== src/ListProblems/FromEnd.antt =====
-- nodefromend finds its node by two pointers at a distance.
use codingforfun.Prelude.{
  ℕ, zero, suc, ◌-◌, ◌≤◌, ◌<◌, ◌≡◌, refl, ◌∙◌, [], ◌∷◌, true, false, ltb, ◌==◌, if◌then◌else◌,
  arith, length,
}
use codingforfun.Run.{done}
use codingforfun.Memory.{null, Heap, read-done}
use codingforfun.SingleList.{Node, node}
use codingforfun.SingleList.Segment.{Cells, start, Segment}
use codingforfun.ListProblems.{advance, follow, nodefromend}

-- The cells behind the first `n`.
abbrev pub behind : ℕ → Cells → Cells
behind zero xs = xs
behind (suc n) [] = []
behind (suc n) (x ∷ xs) = behind n xs

module _ (h : Heap Node) where
  Segment-behind : (n : ℕ) (xs : Cells) → Segment h xs null → Segment h (behind n xs) null
  Segment-behind zero xs s = s
  Segment-behind (suc n) [] s = tt
  Segment-behind (suc n) ((a, v) ∷ xs) s = Segment-behind n xs s.3

  advance-behind :
      (k : ℕ) (xs : Cells)
      → Segment h xs null
      → advance k h (start xs null) ≡ done (start (behind k xs) null)
  unfolding advance
  advance-behind zero xs s = refl
  advance-behind (suc k) [] s = refl
  advance-behind (suc k) ((a, v) ∷ xs) s =
      let go : (a == null) ≡ false = ground (arith, s.0) in
      rw (go, read-done h a (node (start xs null) v) s.0 s.1) (advance-behind k xs s.3)

  follow-behind :
      (fuel : ℕ) (xs ys : Cells)
      → length xs < fuel
      → length xs ≤ length ys
      → Segment h xs null
      → Segment h ys null
      → follow fuel h (start xs null) (start ys null) ≡ done (start (behind (length xs) ys) null)
  unfolding follow
  follow-behind zero xs ys enough le s t = absurd (omega arith)
  follow-behind (suc fuel) [] ys enough le s t = refl
  follow-behind (suc fuel) ((a, v) ∷ xs) [] enough le s t = absurd (omega arith)
  follow-behind (suc fuel) ((a, v) ∷ xs) ((b, u) ∷ ys) enough le s t =
      let go : (a == null) ≡ false = ground (arith, s.0) in
      rw
        (
          go,
          read-done h a (node (start xs null) v) s.0 s.1,
          read-done h b (node (start ys null) u) t.0 t.1,
        )
        (follow-behind fuel xs ys (omega arith) (omega arith) s.3 t.3)

length-behind : (n : ℕ) (xs : Cells) → length (behind n xs) ≡ length xs - n
length-behind zero xs = omega arith
length-behind (suc n) [] = omega arith
length-behind (suc n) (x ∷ xs) = omega (arith, length-behind n xs)

found :
    (fuel : ℕ) (h : Heap Node) (ys xs : Cells)
    → length ys < fuel
    → length ys ≤ length xs
    → Segment h ys null
    → Segment h xs null
    → (if start ys null == null then done null else follow fuel h (start ys null) (start xs null))
      ≡ done (if ltb 0 (length ys) then start (behind (length ys) xs) null else null)
found fuel h [] xs enough le s t = refl
found fuel h ((a, v) ∷ ys) xs enough le s t =
    let go : (a == null) ≡ false = ground (arith, s.0) in
    let some_cell : ltb 0 (suc (length ys)) ≡ true = ground arith in
    rw (go, some_cell) (follow-behind h fuel ((a, v) ∷ ys) xs enough le s t)

-- nodefromend on a list that ends in NULL ends without an access to anything but its nodes, and
-- returns the node with exactly `k` nodes from it to the end, for `0 < k` below the length of the
-- list, and otherwise NULL.
pub nodefromend-behind :
    (fuel k : ℕ) (xs : Cells) (h : Heap Node)
    → length xs < fuel
    → Segment h xs null
    → nodefromend fuel h (start xs null) k
      ≡ done (if ltb k (length xs) then start (behind (length xs - k) xs) null else null)
unfolding nodefromend
nodefromend-behind fuel k xs h enough s =
    let size = length-behind k xs in
    let test : ltb 0 (length xs - k) ≡ ltb k (length xs) = ground arith in
    rw (advance-behind h k xs s) (
      found fuel h (behind k xs) xs (omega arith) (omega arith) (Segment-behind h k xs s) s
      ∙ rw (size, test) refl)
