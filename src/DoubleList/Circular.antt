-- ===== src/DoubleList/Circular.antt =====
-- insert_double_circular puts the value at its place on the circle.
use mathlib.Core.Path.{subst}
use mathlib.Core.List.{append-nil}
use codingforfun.Prelude.{
  ℕ, zero, suc, ◌<◌, ◌≡◌, ◌≢◌, inl, inr, refl, sym, ap, ◌∙◌, [], ◌∷◌, ◌++◌, false, some, ltb, ◌==◌,
  ==_refl, arith, length, Bool-cases,
}
use codingforfun.Run.{Returns, returns, Returns-mono, Returns-bind}
use codingforfun.Memory.{Ptr, null, Heap, put, put_self, put_other, read-done, allocate-done}
use codingforfun.SingleList.Segment.{Cells, start, Apart, Disjoint-nil, Disjoint-cons}
use codingforfun.SingleList.Insert.{insert_behind, insert_sorted}
use codingforfun.DoubleList.{Node, node, find_from, link_before, link_front, insert_double_circular}
use codingforfun.DoubleList.Segment.{Segment, Segment-put, set_next-done, set_prev-done}
use codingforfun.DoubleList.Reverse.{final, IsCircle}
use codingforfun.DoubleList.Insert.{AgreeBut}
use codingforfun.DoubleList.Relink.{
  Apart-final, Apart-append, final-append, Disjoint-first, Disjoint-final, Segment-append,
  Segment-split, Segment-final, relink,
}
use codingforfun.DoubleList.Splice.{
  Spliced, Spliced-other, link_before-Spliced, link_front-Spliced, link_before-alone,
  link_front-alone,
}

module _ (new : Ptr) (value : ℕ) (live : new ≢ null) where
  -- Where the loop ends.
  abbrev Stopped : Cells → Ptr → Ptr → Type 0
  Stopped xs stop ptr =
      (ys : Cells) × (zs : Cells) × (xs ≡ ys ++ zs)
      × (ptr ≡ start zs stop)
      × (insert_behind new value xs ≡ ys ++ (new, value) ∷ zs)

  find_from-Stopped :
      (fuel : ℕ) (xs : Cells) (b stop : Ptr) (h : Heap Node)
      → length xs < fuel
      → Apart stop xs
      → Segment h b xs stop
      → Returns (Stopped xs stop) (find_from fuel stop value h (start xs stop))
  unfolding find_from
  find_from-Stopped zero xs b stop h enough out s = absurd (omega arith)
  find_from-Stopped (suc fuel) [] b stop h enough out s =
      rw (==_refl stop) (returns ([], [], refl, refl, refl))
  find_from-Stopped (suc fuel) ((a, v) ∷ xs) b stop h enough out s =
      let going : (a == stop) ≡ false = ground (arith, out.0) in
      rw (going, read-done h a (node (start xs stop) b v) s.0 s.1)
        (elim (Bool-cases (ltb v value)) [
          | inl low ↦ rw low (
              Returns-mono (find_from-Stopped fuel xs a stop h (omega arith) out.1 s.3)
                λ ptr (ys, zs, e, at, whole).
                  ((a, v) ∷ ys, zs, ap (λ l. (a, v) ∷ l) e, at, rw (low, whole) refl))
          | inr high ↦ rw high (returns ([], (a, v) ∷ xs, refl, refl, rw high refl))
        ])

  -- The circle of the cells, seen from its first one.
  abbrev Round : Ptr → ℕ → Cells → Heap Node → Type 0
  Round a v xs h = Segment h (final a xs) ((a, v) ∷ xs) a

  module _ (a : Ptr) (v : ℕ) (h : Heap Node) (nn np : Ptr)
      (holds : h new ≡ some (node nn np value)) where
    -- A splice between the last node and the first.
    module _ (xs : Cells) (round : Round a v xs h) (out : Apart new ((a, v) ∷ xs)) where
      opened :
          (g : Heap Node) → Spliced new (final a xs) a value h g → Segment g new ((a, v) ∷ xs) new
      opened g s =
          relink new (final a xs) a value h g (final a xs) a v xs a new new s round out round.2
            (inl (refl, refl)) (inl (refl, refl))

      at_end :
          (g : Heap Node)
          → Spliced new (final a xs) a value h g
          → Round a v (xs ++ (new, value) ∷ []) g
      at_end g s = rw (final-append a new value xs []) (
          Segment-append g new ((a, v) ∷ xs) ((new, value) ∷ []) a (opened g s)
            (live, s.mine, tt, tt)
            (Disjoint-cons new value [] ((a, v) ∷ xs) out (Disjoint-nil ((a, v) ∷ xs))))

      kept : (g : Heap Node) → Spliced new (final a xs) a value h g → AgreeBut new ((a, v) ∷ xs) h g
      kept g s x ne far =
          Spliced-other new (final a xs) a value h g s x ne (Apart-final x a v xs far) far.0

    pub link_front-Spliced_circle :
        (xs : Cells)
        → Round a v xs h
        → Apart new ((a, v) ∷ xs)
        → Returns (Spliced new (final a xs) a value h) (link_front h new a)
    link_front-Spliced_circle [] r out =
        link_front-alone new value h nn np live holds a v r.0 r.1 out.0
    link_front-Spliced_circle ((c, u) ∷ zs) r out =
        let (q, w, at, alive) = Segment-final h (final c zs) a v ((c, u) ∷ zs) a r in
        link_front-Spliced new value h nn np live holds (final c zs) a q w c v alive at
          (Apart-final new a v ((c, u) ∷ zs) out) r.0 r.1 out.0
          (λ e. Apart-final a c u zs r.2 (sym e))

    link_before-Spliced_circle :
        (xs : Cells)
        → Round a v xs h
        → Apart new ((a, v) ∷ xs)
        → Returns (Spliced new (final a xs) a value h) (link_before h new a)
    link_before-Spliced_circle [] r out =
        link_before-alone new value h nn np live holds a v r.0 r.1 out.0
    link_before-Spliced_circle ((c, u) ∷ zs) r out =
        let (q, w, at, alive) = Segment-final h (final c zs) a v ((c, u) ∷ zs) a r in
        link_before-Spliced new value h nn np live holds (final c zs) a q w c v alive at
          (Apart-final new a v ((c, u) ∷ zs) out) r.0 r.1 out.0
          (λ e. Apart-final a c u zs r.2 (sym e))

    -- What linking in front of a node of the circle, or of its first node, leaves.
    link_before-Round :
        (ys zs : Cells)
        → Round a v (ys ++ zs) h
        → Apart new ((a, v) ∷ (ys ++ zs))
        → Returns
            (λ g. Round a v (ys ++ (new, value) ∷ zs) g × AgreeBut new ((a, v) ∷ (ys ++ zs)) h g)
            (link_before h new (start zs a))
    link_before-Round ys [] r out =
        let r' = subst (λ l. Round a v l h) (append-nil ys) r in
        let out' = subst (λ l. Apart new ((a, v) ∷ l)) (append-nil ys) out in
        rw (append-nil ys) (
          Returns-mono (link_before-Spliced_circle ys r' out')
            λ g s. (at_end ys r' out' g s, kept ys r' out' g s))
    link_before-Round ys ((q, u) ∷ zs) r out =
        let p = final a ys in
        let l = final q zs in
        let whole : Segment h l (((a, v) ∷ ys) ++ ((q, u) ∷ zs)) a =
          subst (λ b. Segment h b (((a, v) ∷ ys) ++ ((q, u) ∷ zs)) a) (final-append a q u ys zs)
            r in
        let (front, back, d) = Segment-split h l ((a, v) ∷ ys) ((q, u) ∷ zs) a whole in
        let (out_front, out_back) = Apart-append new ((a, v) ∷ ys) ((q, u) ∷ zs) out in
        let (w, x, at, alive) = Segment-final h l a v ys q front in
        let far = Disjoint-final a v ys ((q, u) ∷ zs) d in
        Returns-mono
          (link_before-Spliced new value h nn np live holds p q w x (start zs a) u alive at
            (Apart-final new a v ys out_front) back.0 back.1 out_back.0 far.0)
          λ g s.
            let front' =
              relink new p q value h g l a v ys q l new s front out_front
                (Disjoint-first q u zs ys d.1) (inl (refl, refl)) (inr (d.0.0, refl)) in
            let back' =
              relink new p q value h g p q u zs a new a s back out_back back.2 (inr (far, refl))
                (inl (refl, refl)) in
            (
              rw (final-append a new value ys ((q, u) ∷ zs)) (
                  Segment-append g l ((a, v) ∷ ys) ((new, value) ∷ (q, u) ∷ zs) a front'
                    (live, s.mine, out_back, back')
                    (Disjoint-cons new value ((q, u) ∷ zs) ((a, v) ∷ ys) out_front d)),
              λ y ne apart.
                  let (y_front, y_back) = Apart-append y ((a, v) ∷ ys) ((q, u) ∷ zs) apart in
                  Spliced-other new p q value h g s y ne (Apart-final y a v ys y_front) y_back.0,
            )

-- The list pointer and the heap hold the circle, and no other address has changed.
abbrev pub HoldsCircle : Ptr → Cells → Cells → Heap Node → Ptr × Heap Node → Type 0
HoldsCircle new old xs h (list, g) = IsCircle g list xs × AgreeBut new old h g

-- insert_double_circular on a circle, with a new node that is none of its cells, ends without an
-- access to anything but its nodes, and leaves the circle, linked in both directions, with the value
-- inserted: in front if it is below the first value, and otherwise in front of the first value
-- behind the first that is not below it, or at the end.
pub insert_double_circular-HoldsCircle :
    (fuel : ℕ) (new list : Ptr) (xs : Cells) (value : ℕ) (h : Heap Node)
    → length xs < fuel
    → new ≢ null
    → Apart new xs
    → IsCircle h list xs
    → Returns
        (HoldsCircle new xs (insert_sorted new value xs) h)
        (insert_double_circular fuel new list value h)
unfolding insert_double_circular
insert_double_circular-HoldsCircle fuel new list [] value h enough live out (here, s) =
    let n = node null null value in
    let g = put h new n in
    let g1 = put g new (node null new value) in
    rw here (
      rw
        (
          allocate-done h new n live,
          set_prev-done g new null null new value live (put_self h new n),
          set_next-done g1 new null new new value live (put_self g new (node null new value)),
        )
        (returns (
          (refl, (live, put_self g1 new (node new new value), tt, tt)),
          λ x ne far.
              put_other g1 new x (node new new value) ne
              ∙ put_other g new x (node null new value) ne
              ∙ put_other h new x n ne,
        )))
insert_double_circular-HoldsCircle fuel new list ((a, v) ∷ xs) value h enough live out (here, s) =
    let n = node null null value in
    let g = put h new n in
    let some_node : (a == null) ≡ false = ground (arith, s.0) in
    let round : Round new value live a v xs g =
      Segment-put h (final a xs) ((a, v) ∷ xs) a new n out s in
    let mine : g new ≡ some n = put_self h new n in
    rw here (
      rw
        (
          allocate-done h new n live,
          some_node,
          read-done g a (node (start xs a) (final a xs) v) s.0 round.1,
        )
        (elim (Bool-cases (ltb value v)) [
          | inl front ↦ rw front (
              Returns-bind
                (link_front-Spliced_circle new value live a v g null null mine xs round out)
                λ g' sp. returns (
                  (
                    refl,
                    (
                      live,
                      sp.mine,
                      out,
                      opened new value live a v g null null mine xs round out g' sp,
                    ),
                  ),
                  λ x ne far.
                      kept new value live a v g null null mine xs round out g' sp x ne far
                      ∙ put_other h new x n ne,
                ))
          | inr behind ↦ rw behind (
              Returns-bind
                (find_from-Stopped new value live fuel xs a a g (omega arith) s.2 round.3)
                λ ptr (ys, zs, e, at, whole).
                  let round' = subst (λ l. Round new value live a v l g) e round in
                  let out' = subst (λ l. Apart new ((a, v) ∷ l)) e out in
                  rw (at, whole)
                    (Returns-bind
                      (link_before-Round new value live a v g null null mine ys zs round' out')
                      λ g' (r, same). returns (
                        (refl, r),
                        λ x ne far.
                            same x ne (subst (λ l. Apart x ((a, v) ∷ l)) e far)
                            ∙ put_other h new x n ne,
                      )))
        ]))
