-- ===== src/ListProblems/Loop.antt =====
-- detectloop finds exactly the lists that lead back into themselves.
use codingforfun.Prelude.{
  ℕ, zero, suc, ◌+◌, ◌-◌, ◌*◌, ◌≤◌, ◌<◌, ◌≡◌, ◌≢◌, refl, sym, ap, ◌∙◌, ◌∷◌, ◌++◌, true, false, ◌==◌,
  if◌then◌else◌, arith, length, Bool, Bool-cases, inl, inr, length-append,
}
use mathlib.Core.Path.{subst}
use native.Mathlib.Decide.{dec_lt}
use codingforfun.Run.{done}
use codingforfun.Memory.{Ptr, null, Heap, read-done}
use codingforfun.SingleList.{Node}
use codingforfun.SingleList.Segment.{Cells, start, Segment}
use codingforfun.ListProblems.Hops.{
  hops, hops-add, Leads, hops-Leads, hops-length, hops-append, hops-differ,
}
use codingforfun.ListProblems.{detect_from, detectloop}

-- Some multiple of a number lies in each stretch of its length.
multiple : (m c : ℕ) → 0 < c → (q : ℕ) × (m ≤ q * c) × (q * c ≤ m + c)
multiple zero c h = (0, omega arith, omega arith)
multiple (suc m) c h =
    let (q, low, high) = multiple m c h in
    elim (dec_lt m (q * c)) [
      | yes lt ↦ (q, omega arith, omega arith)
      | no ge ↦ (suc q, grind arith, grind arith)
    ]

module _ (h : Heap Node) (list : Ptr) where
  abbrev p : ℕ → Ptr
  p i = hops h i list

  -- The list leads back after `m + c` steps to where it is after `m` steps.
  module _ (m c : ℕ) (around : p (m + c) ≡ p m) where
    round : (j : ℕ) → p (m + c + j) ≡ p (m + j)
    round j = hops-add h (m + c) j list ∙ ap (hops h j) around ∙ sym (hops-add h m j list)

    rounds : (q k : ℕ) → m ≤ k → p (k + q * c) ≡ p k
    rounds zero k le = ap p (omega arith)
    rounds (suc q) k le =
        let j : ℕ = k - m + q * c in
        let e : k + suc q * c ≡ m + c + j = grind arith in
        let e' : m + j ≡ k + q * c = omega arith in ap p e ∙ round j ∙ ap p e' ∙ rounds q k le

    all-Leads :
        ((i : ℕ) → i < m + c → Leads h (p i) (p (suc i)))
        → 0 < c
        → (n i : ℕ) → i < n
        → Leads h (p i) (p (suc i))
    all-Leads few pos zero i lt = absurd (omega arith)
    all-Leads few pos (suc n) i lt = elim (dec_lt i (m + c)) [
      | yes below ↦ few i below
      | no above ↦
          let j : ℕ = i - (m + c) in
          let e : m + c + j ≡ i = omega arith in
          let e' : m + c + (j + 1) ≡ suc i = omega arith in
          let e2 : m + (j + 1) ≡ suc (m + j) = omega arith in
          let here : p i ≡ p (m + j) = ap p (sym e) ∙ round j in
          let next : p (suc i) ≡ p (suc (m + j)) = ap p (sym e') ∙ round (j + 1) ∙ ap p e2 in
          rw (here, next) (all-Leads few pos n (m + j) (omega arith))
    ]

  detect_null :
      (fuel k : ℕ) → p (k + k) ≡ null → detect_from (suc fuel) h (p k) (p (k + k)) ≡ done false
  unfolding detect_from
  detect_null fuel k e = let stop : (p (k + k) == null) ≡ true = ground (arith, e) in rw stop refl

  module _ (fuel k : ℕ) (first : Leads h (p (k + k)) (p (suc (k + k)))) where
    detect_end : p (suc (k + k)) ≡ null → detect_from (suc fuel) h (p k) (p (k + k)) ≡ done false
    unfolding detect_from
    detect_end e =
        let (v, live, holds) = first in
        let go : (p (k + k) == null) ≡ false = ground arith in
        let stop : (p (suc (k + k)) == null) ≡ true = ground (arith, e) in
        rw (go, read-done h (p (k + k)) _ live holds, stop) refl

    module _ (second : Leads h (p (suc (k + k))) (p (suc (suc (k + k))))) where
      detect_end_behind :
          p (suc (suc (k + k))) ≡ null → detect_from (suc fuel) h (p k) (p (k + k)) ≡ done false
      unfolding detect_from
      detect_end_behind e =
          let (v, live, holds) = first in
          let (w, live', holds') = second in
          let go : (p (k + k) == null) ≡ false = ground arith in
          let go' : (p (suc (k + k)) == null) ≡ false = ground arith in
          let stop : (p (suc (suc (k + k))) == null) ≡ true = ground (arith, e) in
          rw
            (
              go,
              read-done h (p (k + k)) _ live holds,
              go',
              read-done h (p (suc (k + k))) _ live' holds',
              stop,
            )
            refl

      -- While two pointers, one at double the pace of the other, stand on nodes, the loop compares
      -- where they stand next.
      detect_round :
          Leads h (p k) (p (suc k))
          → p (suc (suc (k + k))) ≢ null
          → detect_from (suc fuel) h (p k) (p (k + k)) ≡ (
              if p (suc k + suc k) == p (suc k)
              then done true
              else detect_from fuel h (p (suc k)) (p (suc k + suc k)))
      unfolding detect_from
      detect_round (u, live0, holds0) more =
          let (v, live, holds) = first in
          let (w, live', holds') = second in
          let go : (p (k + k) == null) ≡ false = ground arith in
          let go' : (p (suc (k + k)) == null) ≡ false = ground arith in
          let go2 : (p (suc (suc (k + k))) == null) ≡ false = ground arith in
          let e : suc k + suc k ≡ suc (suc (k + k)) = omega arith in
          rw
            (
              e,
              go,
              read-done h (p (k + k)) _ live holds,
              go',
              read-done h (p (suc (k + k))) _ live' holds',
              go2,
              read-done h (p k) _ live0 holds0,
            )
            refl

  -- A list that ends: the pointers never meet.
  detect-ends :
      (fuel n k : ℕ)
      → ((i : ℕ) → i < n → Leads h (p i) (p (suc i)))
      → ((i j : ℕ) → i < j → j < n → p i ≢ p j)
      → p n ≡ null
      → k + k ≤ n
      → n < k + fuel
      → detect_from fuel h (p k) (p (k + k)) ≡ done false
  detect-ends zero n k leads differ stop le enough = absurd (omega arith)
  detect-ends (suc fuel) n k leads differ stop le enough = elim (dec_lt (suc (suc (k + k))) n) [
    | yes more ↦
        let (w, live, holds) = leads (suc (suc (k + k))) more in
        let apart = differ (suc k) (suc k + suc k) (omega arith) (omega arith) in
        let go_on : (p (suc k + suc k) == p (suc k)) ≡ false = ground arith in
        let rest = detect-ends fuel n (suc k) leads differ stop (omega arith) (omega arith) in
        detect_round fuel k (leads (k + k) (omega arith)) (leads (suc (k + k)) (omega arith))
          (leads k (omega arith)) live
        ∙ rw go_on rest
    | no last ↦ elim (dec_lt (suc (k + k)) n) [
      | yes two ↦
          let e : suc (suc (k + k)) ≡ n = omega arith in
          detect_end_behind fuel k (leads (k + k) (omega arith)) (leads (suc (k + k)) two)
            (ap p e ∙ stop)
      | no one ↦ elim (dec_lt (k + k) n) [
        | yes here ↦
            let e : suc (k + k) ≡ n = omega arith in
            detect_end fuel k (leads (k + k) here) (ap p e ∙ stop)
        | no none_left ↦ let e : k + k ≡ n = omega arith in detect_null fuel k (ap p e ∙ stop)
      ]
    ]
  ]

  -- A list that leads back: the pointers meet after `m` steps at the latest, if they would be at
  -- one place there.
  detect-meets :
      (fuel m k : ℕ)
      → ((i : ℕ) → Leads h (p i) (p (suc i)))
      → p (m + m) ≡ p m
      → k < m
      → m ≤ k + fuel
      → detect_from fuel h (p k) (p (k + k)) ≡ done true
  detect-meets zero m k leads meet lt enough = absurd (omega arith)
  detect-meets (suc fuel) m k leads meet lt enough =
      let (w, live, holds) = leads (suc (suc (k + k))) in
      detect_round fuel k (leads (k + k)) (leads (suc (k + k))) (leads k) live
      ∙ elim (Bool-cases (p (suc k + suc k) == p (suc k))) [
        | inl same ↦ rw same refl
        | inr other ↦
            rw other (detect-meets fuel m (suc k) leads meet (not_yet other) (omega arith))
      ]
    where
      not_yet : (p (suc k + suc k) == p (suc k)) ≡ false → suc k < m
      not_yet other = elim (dec_lt (suc k) m) [
        | yes before ↦ before
        | no here ↦
            let e : m ≡ suc k = omega arith in
            absurd (ground (arith, subst (λ x. p (x + x) ≡ p x) e meet))
      ]

-- How a list goes on from its first pointer: over `n` nodes to NULL, or over `n` nodes, the last of
-- which leads back to one of them.
pub data Course (h : Heap Node) : ℕ → Ptr → Bool → Type 0 where
  ends : (xs : Cells) → Segment h xs null → Course h (length xs) (start xs null) false
  loops :
      (xs : Cells) (a : Ptr) (v : ℕ) (ys : Cells)
      → Segment h (xs ++ (a, v) ∷ ys) a
      → Course h (length xs + suc (length ys)) (start (xs ++ (a, v) ∷ ys) a) true

ends-done :
    (fuel : ℕ) (xs : Cells) (h : Heap Node)
    → Segment h xs null
    → length xs < fuel
    → detect_from fuel h (start xs null) (start xs null) ≡ done false
unfolding hops
ends-done fuel xs h s enough =
    detect-ends h (start xs null) fuel (length xs) 0 (λ i lt. hops-Leads h xs null i s lt)
      (λ i j lt hj. hops-differ h xs i j s lt hj) (hops-length h xs null s) (omega arith)
      (omega arith)

module _ (h : Heap Node) (xs : Cells) (a : Ptr) (v : ℕ) (ys : Cells)
    (s : Segment h (xs ++ (a, v) ∷ ys) a) where
  abbrev circle : Cells
  circle = xs ++ (a, v) ∷ ys

  abbrev first : Ptr
  first = start circle a

  size : length circle ≡ length xs + suc (length ys)
  size = length-append xs ((a, v) ∷ ys)

  around : hops h (length xs + suc (length ys)) first ≡ hops h (length xs) first
  around =
      ap (λ n. hops h n first) (sym size)
      ∙ hops-length h circle a s
      ∙ sym (hops-append h xs ((a, v) ∷ ys) a s)

  leads : (i : ℕ) → Leads h (hops h i first) (hops h (suc i) first)
  leads i =
      all-Leads h first (length xs) (suc (length ys)) around
        (λ j lt. hops-Leads h circle a j s (omega (arith, size))) (omega arith) (suc i) i
        (omega arith)

  loops-done :
      (fuel : ℕ)
      → length xs + suc (length ys) + 1 < fuel
      → (first ≢ null) × (detect_from fuel h first first ≡ done true)
  unfolding hops
  loops-done fuel enough =
      let (q, low, high) = multiple (suc (length xs)) (suc (length ys)) (omega arith) in
      let (w, live, holds) = leads 0 in
      let back =
        rounds h first (length xs) (suc (length ys)) around q (q * suc (length ys)) (omega arith) in
      (
        live,
        detect-meets h first fuel (q * suc (length ys)) 0 leads back (omega arith) (omega arith),
      )

-- detectloop on a list that ends in NULL, or that leads back into itself, given two rounds more than
-- the list has nodes, ends without an access to anything but its nodes, and tells which of the two
-- the list does.
pub detectloop_lem :
    (fuel n : ℕ) (h : Heap Node) (list : Ptr) (looped : Bool)
    → Course h n list looped
    → n + 1 < fuel
    → detectloop fuel h list ≡ done looped
unfolding detectloop
detectloop_lem fuel n h list looped (ends xs s) enough = elim (Bool-cases (start xs null == null)) [
  | inl nothing ↦ rw nothing refl
  | inr some_node ↦ rw some_node (ends-done fuel xs h s (omega arith))
]
detectloop_lem fuel n h list looped (loops xs a v ys s) enough =
    let (live, meets) = loops-done h xs a v ys s fuel enough in
    let go : (start (xs ++ (a, v) ∷ ys) a == null) ≡ false = ground arith in rw go meets
