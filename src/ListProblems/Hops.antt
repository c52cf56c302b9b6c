-- ===== src/ListProblems/Hops.antt =====
-- Where the `next` pointers lead after a number of steps.
use codingforfun.Prelude.{
  ℕ, zero, suc, ◌+◌, ◌<◌, ◌≡◌, ◌≢◌, refl, sym, ap, ◌∙◌, [], ◌∷◌, ◌++◌, arith, length, Option, none,
  some,
}
use codingforfun.Memory.{Ptr, null, Heap}
use codingforfun.SingleList.{Node, node}
use codingforfun.SingleList.Segment.{Cells, start, Segment, Apart}

abbrev pub after : Option Node → Ptr
after (some n) = n.next
after none = null

module _ (h : Heap Node) where
  -- The pointer that `n` steps along `next` lead to.
  unfoldable pub hops : ℕ → Ptr → Ptr
  hops zero a = a
  hops (suc n) a = hops n (after (h a))

  pub hops-add : (n m : ℕ) (a : Ptr) → hops (n + m) a ≡ hops m (hops n a)
  unfolding hops
  hops-add zero m a = let e : 0 + m ≡ m = omega arith in ap (λ k. hops k a) e
  hops-add (suc n) m a =
      let e : suc n + m ≡ suc (n + m) = omega arith in rw e (hops-add n m (after (h a)))

  -- A node lies at the pointer, and leads to `next`.
  abbrev pub Leads : Ptr → Ptr → Type 0
  Leads a next = (v : ℕ) × (a ≢ null) × (h a ≡ some (node next v))

  pub hops-Leads :
      (xs : Cells) (stop : Ptr) (i : ℕ)
      → Segment h xs stop
      → i < length xs
      → Leads (hops i (start xs stop)) (hops (suc i) (start xs stop))
  unfolding hops
  hops-Leads [] stop i s lt = absurd (omega arith)
  hops-Leads ((a, v) ∷ xs) stop zero s lt =
      (v, s.0, s.1 ∙ ap (λ q. some (node q v)) (sym (ap after s.1)))
  hops-Leads ((a, v) ∷ xs) stop (suc i) s lt = rw (s.1) (hops-Leads xs stop i s.3 (omega arith))

  pub hops-length :
      (xs : Cells) (stop : Ptr) → Segment h xs stop → hops (length xs) (start xs stop) ≡ stop
  unfolding hops
  hops-length [] stop s = refl
  hops-length ((a, v) ∷ xs) stop s = rw (hops, s.1) (hops-length xs stop s.3)

  pub hops-append :
      (xs ys : Cells) (stop : Ptr)
      → Segment h (xs ++ ys) stop
      → hops (length xs) (start (xs ++ ys) stop) ≡ start ys stop
  unfolding hops
  hops-append [] ys stop s = refl
  hops-append ((a, v) ∷ xs) ys stop s = rw (hops, s.1) (hops-append xs ys stop s.3)

  -- Different steps along a list that ends lead to different nodes.
  pub hops-Apart :
      (xs : Cells) (a : Ptr) (i : ℕ)
      → Segment h xs null
      → Apart a xs
      → i < length xs
      → a ≢ hops i (start xs null)
  unfolding hops
  hops-Apart [] a i s out lt = absurd (omega arith)
  hops-Apart ((b, v) ∷ xs) a zero s out lt = out.0
  hops-Apart ((b, v) ∷ xs) a (suc i) s out lt = rw s.1 (hops-Apart xs a i s.3 out.1 (omega arith))

  pub hops-differ :
      (xs : Cells) (i j : ℕ)
      → Segment h xs null
      → i < j
      → j < length xs
      → hops i (start xs null) ≢ hops j (start xs null)
  unfolding hops
  hops-differ [] i j s lt hj = absurd (omega arith)
  hops-differ ((a, v) ∷ xs) i zero s lt hj = absurd (omega arith)
  hops-differ ((a, v) ∷ xs) zero (suc j) s lt hj = rw s.1 (hops-Apart xs a j s.3 s.2 (omega arith))
  hops-differ ((a, v) ∷ xs) (suc i) (suc j) s lt hj =
      rw s.1 (hops-differ xs i j s.3 (omega arith) (omega arith))
