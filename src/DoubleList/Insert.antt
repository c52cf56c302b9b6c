-- ===== src/DoubleList/Insert.antt =====
-- insert_double puts the value at its place among the cells.
use codingforfun.Prelude.{
  ℕ, zero, suc, ◌<◌, ◌≡◌, ◌≢◌, refl, sym, ◌∙◌, [], ◌∷◌, false, some, ltb, ◌==◌, arith, length,
  Bool-cases, inl, inr,
}
use codingforfun.Run.{◌>>=◌, Returns, returns, Returns-mono, Returns-bind_two}
use codingforfun.Memory.{Ptr, null, Heap, put, put_self, put_other, read-done, allocate-done}
use codingforfun.SingleList.Segment.{Cells, start, Apart}
use codingforfun.SingleList.Insert.{insert_behind, insert_sorted}
use codingforfun.DoubleList.{Node, node, look_ahead, link_behind, insert_double}
use codingforfun.DoubleList.Segment.{
  Segment, Segment-put, set_next-done, set_prev-done, Segment-change,
}
use codingforfun.DoubleList.Reverse.{IsList}

-- The heaps agree at every address but `new` and those of the cells.
abbrev pub AgreeBut : Ptr → Cells → Heap Node → Heap Node → Type 0
AgreeBut new xs h g = (a : Ptr) → a ≢ new → Apart a xs → g a ≡ h a

-- The list pointer and the heap hold the cells, and no other address has changed.
abbrev pub Holds : Ptr → Cells → Cells → Heap Node → Ptr × Heap Node → Type 0
Holds new old xs h (list, g) = IsList g list xs × AgreeBut new old h g

module _ (new : Ptr) (value : ℕ) (live : new ≢ null) where
  -- Linking behind the last cell.
  link_behind-last :
      (before p : Ptr) (w : ℕ) (h : Heap Node) (q r : Ptr)
      → h new ≡ some (node q r value)
      → new ≢ p
      → Segment h before ((p, w) ∷ []) null
      → Returns
          (λ g. Segment g before ((p, w) ∷ (new, value) ∷ []) null × AgreeBut new ((p, w) ∷ []) h g)
          (link_behind h new p)
  unfolding link_behind
  link_behind-last before p w h q r holds out s =
      let other : p ≢ new = λ e. out (sym e) in
      let h1 = put h new (node q p value) in
      let at_p : h1 p ≡ some (node null before w) =
        put_other h new p (node q p value) other ∙ s.1 in
      let h2 = put h1 new (node null p value) in
      let still : h2 p ≡ some (node null before w) =
        put_other h1 new p (node null p value) other ∙ at_p in
      let h3 = put h2 p (node new before w) in
      let mine : h3 new ≡ some (node null p value) =
        put_other h2 p new (node new before w) out ∙ put_self h1 new (node null p value) in
      rw
        (
          set_prev-done h new q r p value live holds,
          read-done h1 p (node null before w) s.0 at_p,
          set_next-done h1 new q p null value live (put_self h new (node q p value)),
          set_next-done h2 p null before new w s.0 still,
          read-done h3 new (node null p value) live mine,
        )
        (returns (
          (s.0, put_self h2 p (node new before w), (other, tt), (live, mine, tt, tt)),
          λ a ne far.
              put_other h2 p a (node new before w) far.0
              ∙ put_other h1 new a (node null p value) ne
              ∙ put_other h new a (node q p value) ne,
        ))

  -- Linking between two cells.
  link_behind-between :
      (before p : Ptr) (w : ℕ) (c : Ptr) (u : ℕ) (xs : Cells) (h : Heap Node) (q r : Ptr)
      → h new ≡ some (node q r value)
      → Apart new ((p, w) ∷ (c, u) ∷ xs)
      → Segment h before ((p, w) ∷ (c, u) ∷ xs) null
      → Returns
          (λ g.
            Segment g before ((p, w) ∷ (new, value) ∷ (c, u) ∷ xs) null
            × AgreeBut new ((p, w) ∷ (c, u) ∷ xs) h g)
          (link_behind h new p)
  unfolding link_behind
  link_behind-between before p w c u xs h q r holds out s =
      let other : p ≢ new = λ e. out.0 (sym e) in
      let h1 = put h new (node q p value) in
      let at_p : h1 p ≡ some (node c before w) = put_other h new p (node q p value) other ∙ s.1 in
      let h2 = put h1 new (node c p value) in
      let still : h2 p ≡ some (node c before w) =
        put_other h1 new p (node c p value) other ∙ at_p in
      let h3 = put h2 p (node new before w) in
      let mine : h3 new ≡ some (node c p value) =
        put_other h2 p new (node new before w) out.0 ∙ put_self h1 new (node c p value) in
      let more : (c == null) ≡ false = ground (arith, s.3.0) in
      let rest = Segment-put h2 p ((c, u) ∷ xs) null p (node new before w) s.2 (
        Segment-put h1 p ((c, u) ∷ xs) null new (node c p value) out.1
          (Segment-put h p ((c, u) ∷ xs) null new (node q p value) out.1 s.3)) in
      let n = node (start xs null) new u in
      rw
        (
          set_prev-done h new q r p value live holds,
          read-done h1 p (node c before w) s.0 at_p,
          set_next-done h1 new q p c value live (put_self h new (node q p value)),
          set_next-done h2 p c before new w s.0 still,
          read-done h3 new (node c p value) live mine,
          more,
          set_prev-done h3 c (start xs null) p new u s.3.0 rest.1,
        )
        (returns (
          (
            s.0,
            put_other h3 c p n s.2.0 ∙ put_self h2 p (node new before w),
            (other, s.2),
            (
              live,
              put_other h3 c new n out.1.0 ∙ mine,
              out.1,
              Segment-change h3 new c u xs null s.3.0 s.3.2 rest.3,
            ),
          ),
          λ a ne far.
              put_other h3 c a n far.1.0
              ∙ put_other h2 p a (node new before w) far.0
              ∙ put_other h1 new a (node c p value) ne
              ∙ put_other h new a (node q p value) ne,
        ))

  Apart-insert_behind :
      (p : Ptr) (xs : Cells) → p ≢ new → Apart p xs → Apart p (insert_behind new value xs)
  Apart-insert_behind p [] ne out = (ne, tt)
  Apart-insert_behind p ((a, v) ∷ xs) ne out = elim (Bool-cases (ltb v value)) [
    | inl low ↦ rw low (out.0, Apart-insert_behind p xs ne out.1)
    | inr high ↦ rw high (ne, out)
  ]

  -- What the heap holds once the cell is linked in behind the cell `(p, w)`.
  abbrev Linked : Ptr → Ptr → ℕ → Cells → Heap Node → Heap Node → Type 0
  Linked before p w xs h g =
      Segment g before ((p, w) ∷ insert_behind new value xs) null × AgreeBut new ((p, w) ∷ xs) h g

  -- The search and the linking, from the cell `(p, w)` on.
  look_ahead-Linked :
      (fuel : ℕ) (xs : Cells) (before p : Ptr) (w : ℕ) (h : Heap Node) (q r : Ptr)
      → length xs < fuel
      → h new ≡ some (node q r value)
      → Apart new ((p, w) ∷ xs)
      → Segment h before ((p, w) ∷ xs) null
      → Returns (Linked before p w xs h) (look_ahead fuel value h p >>= link_behind h new)
  unfolding look_ahead
  look_ahead-Linked zero xs before p w h q r enough holds out s = absurd (omega arith)
  look_ahead-Linked (suc fuel) [] before p w h q r enough holds out s =
      rw (read-done h p (node null before w) s.0 s.1)
        (link_behind-last before p w h q r holds out.0 s)
  look_ahead-Linked (suc fuel) ((a, v) ∷ xs) before p w h q r enough holds out s =
      let going : (a == null) ≡ false = ground (arith, s.3.0) in
      rw
        (
          read-done h p (node a before w) s.0 s.1,
          going,
          read-done h a (node (start xs null) p v) s.3.0 s.3.1,
        )
        (elim (Bool-cases (ltb v value)) [
          | inl low ↦ rw low (
              Returns-mono (look_ahead-Linked fuel xs p a v h q r (omega arith) holds out.1 s.3)
                λ g l.
                  let apart : p ≢ new = λ e. out.0 (sym e) in
                  rw low (
                    (
                      s.0,
                      l.1 p apart s.2 ∙ s.1,
                      (s.2.0, Apart-insert_behind p xs apart s.2.1),
                      l.0,
                    ),
                    λ b ne far. l.1 b ne far.1,
                  ))
          | inr high ↦ rw high (
              Returns-mono (link_behind-between before p w a v xs h q r holds out s)
                λ g l. rw high l)
        ])

-- insert_double on a list that starts and ends in NULL, with a new node that is none of its cells,
-- ends without an access to anything but its nodes, and leaves the list, linked in both directions,
-- with the value inserted in front of the first value that is not below it (but behind the first
-- value if that is equal to it).
pub insert_double-Holds :
    (fuel : ℕ) (new : Ptr) (xs : Cells) (value : ℕ) (h : Heap Node)
    → length xs < fuel
    → new ≢ null
    → Apart new xs
    → Segment h null xs null
    → Returns
        (Holds new xs (insert_sorted new value xs) h)
        (insert_double fuel new (start xs null) value h)
unfolding insert_double
insert_double-Holds fuel new [] value h enough live out s =
    rw (allocate-done h new (node null null value) live) (
      returns (
        (refl, (live, put_self h new (node null null value), tt, tt)),
        λ a ne apart. put_other h new a (node null null value) ne,
      ))
insert_double-Holds fuel new ((a, v) ∷ xs) value h enough live out s =
    let n = node null null value in
    let g = put h new n in
    let some_node : (a == null) ≡ false = ground (arith, s.0) in
    let old = Segment-put h null ((a, v) ∷ xs) null new n out s in
    let mine : g new ≡ some n = put_self h new n in
    let g1 = put g new (node a null value) in
    let old1 = Segment-put g null ((a, v) ∷ xs) null new (node a null value) out old in
    rw
      (allocate-done h new n live, some_node, read-done g a (node (start xs null) null v) s.0 old.1)
      (elim (Bool-cases (ltb value v)) [
        | inl front ↦
            rw
              (
                front,
                set_next-done g new null null a value live mine,
                set_prev-done g1 a (start xs null) null new v s.0 old1.1,
              )
              (returns (
                (
                  refl,
                  (
                    live,
                    put_other g1 a new (node (start xs null) new v) out.0
                        ∙ put_self g new (node a null value),
                    out,
                    Segment-change g1 new a v xs null s.0 s.2 old1.3,
                  ),
                ),
                λ b ne far.
                    put_other g1 a b (node (start xs null) new v) far.0
                    ∙ put_other g new b (node a null value) ne
                    ∙ put_other h new b n ne,
              ))
        | inr behind ↦ rw behind (
            Returns-bind_two (look_ahead fuel value g a) (link_behind g new)
              (look_ahead-Linked new value live fuel xs null a v g null null (omega arith) mine out
                old)
              λ g' l. returns ((refl, l.0), λ b ne far. l.1 b ne far ∙ put_other h new b n ne))
      ])
