-- ===== src/SingleList/Lossy.antt =====
-- insert_single2 loses a node.
use codingforfun.Prelude.{
  ℕ, zero, suc, ◌≤◌, ◌<◌, ◌≡◌, ◌≢◌, refl, sym, ◌∙◌, [], ◌∷◌, false, some, ltb, ◌==◌, if◌then◌else◌,
  arith, length, Bool-cases, inl, inr,
}
use codingforfun.Run.{◌>>=◌, Returns, returns, Returns-mono, Returns-bind_two}
use codingforfun.Memory.{Ptr, null, Heap, put, put_self, put_other, read-done, allocate-done}
use codingforfun.SingleList.{Node, node, look_ahead, link2, insert_single2}
use codingforfun.SingleList.Segment.{Cells, start, Apart, Segment, AgreeBut, Segment-put}
use codingforfun.SingleList.Insert.{IsList, set_next-done}

-- The cells behind the first, with the new one in place of the first cell that is not below it.
abbrev pub replace_behind : Ptr → ℕ → Cells → Cells
replace_behind new value [] = (new, value) ∷ []
replace_behind new value ((a, v) ∷ xs) =
    if ltb v value then (a, v) ∷ replace_behind new value xs else (new, value) ∷ xs

module _ (new : Ptr) (value : ℕ) (live : new ≢ null) where
  Apart-replace_behind :
      (p : Ptr) (xs : Cells) → p ≢ new → Apart p xs → Apart p (replace_behind new value xs)
  Apart-replace_behind p [] ne out = (ne, tt)
  Apart-replace_behind p ((a, v) ∷ xs) ne out = elim (Bool-cases (ltb v value)) [
    | inl low ↦ rw low (out.0, Apart-replace_behind p xs ne out.1)
    | inr high ↦ rw high (ne, out.1)
  ]

  look_ahead-replace :
      (fuel : ℕ) (xs : Cells) (p : Ptr) (w : ℕ) (h : Heap Node)
      → length xs < fuel
      → h new ≡ some (node null value)
      → Apart new ((p, w) ∷ xs)
      → Segment h ((p, w) ∷ xs) null
      → Returns
          (λ g.
            Segment g ((p, w) ∷ replace_behind new value xs) null × AgreeBut new ((p, w) ∷ xs) h g)
          (look_ahead fuel value h p >>= link2 h new)
  unfolding look_ahead link2
  look_ahead-replace zero xs p w h enough holds out s = absurd (omega arith)
  look_ahead-replace (suc fuel) [] p w h enough holds out s =
      let apart : p ≢ new = λ e. out.0 (sym e) in
      rw
        (
          read-done h p (node null w) s.0 s.1,
          read-done h p (node null w) s.0 s.1,
          set_next-done h p null new w s.0 s.1,
        )
        (returns (
          (
            s.0,
            put_self h p (node new w),
            (apart, tt),
            (live, put_other h p new (node new w) out.0 ∙ holds, tt, tt),
          ),
          λ a ne far. put_other h p a (node new w) far.0,
        ))
  look_ahead-replace (suc fuel) ((a, v) ∷ xs) p w h enough holds out s =
      let apart : p ≢ new = λ e. out.0 (sym e) in
      let more : (a == null) ≡ false = ground (arith, s.3.0) in
      rw
        (read-done h p (node a w) s.0 s.1, more, read-done h a (node (start xs null) v) s.3.0 s.3.1)
        (elim (Bool-cases (ltb v value)) [
          | inl low ↦ rw low (
              Returns-mono (look_ahead-replace fuel xs a v h (omega arith) holds out.1 s.3) λ g l. (
                (s.0, l.1 p apart s.2 ∙ s.1, (s.2.0, Apart-replace_behind p xs apart s.2.1), l.0),
                λ b ne far. l.1 b ne far.1,
              ))
          | inr high ↦
              let q = start xs null in
              let g = put h new (node q value) in
              let held : g p ≡ some (node a w) = put_other h new p (node q value) apart ∙ s.1 in
              rw
                (
                  high,
                  read-done h p (node a w) s.0 s.1,
                  more,
                  read-done h a (node q v) s.3.0 s.3.1,
                  set_next-done h new null q value live holds,
                  set_next-done g p a new w s.0 held,
                )
                (returns (
                  (
                    (
                      s.0,
                      put_self g p (node new w),
                      (apart, s.2.1),
                      (
                        live,
                        put_other g p new (node new w) out.0 ∙ put_self h new (node q value),
                        out.1.1,
                        Segment-put g xs null p (node new w) s.2.1
                            (Segment-put h xs null new (node q value) out.1.1 s.3.3),
                      ),
                    ),
                    λ b ne far.
                        put_other g p b (node new w) far.0 ∙ put_other h new b (node q value) ne,
                  )))
        ])

-- The list pointer and the heap hold the cells; no other address has changed.
abbrev pub HoldsAs : Ptr → Cells → Cells → Heap Node → Ptr × Heap Node → Type 0
HoldsAs new old xs h (list, g) = IsList g list xs × AgreeBut new old h g

-- insert_single2, where the first value is not above the new one, leaves the list with the new
-- node in place of the first node behind the first whose value is not below the new one: that node
-- is lost. Only at the end is the new node added.
pub insert_single2-HoldsAs :
    (fuel : ℕ) (new a : Ptr) (v : ℕ) (xs : Cells) (value : ℕ) (h : Heap Node)
    → length xs < fuel
    → new ≢ null
    → Apart new ((a, v) ∷ xs)
    → Segment h ((a, v) ∷ xs) null
    → v ≤ value
    → Returns
        (HoldsAs new ((a, v) ∷ xs) ((a, v) ∷ replace_behind new value xs) h)
        (insert_single2 fuel new a value h)
unfolding insert_single2
insert_single2-HoldsAs fuel new a v xs value h enough live out s le =
    let g = put h new (node null value) in
    let some_node : (a == null) ≡ false = ground (arith, s.0) in
    let old = Segment-put h ((a, v) ∷ xs) null new (node null value) out s in
    let behind : ltb value v ≡ false = ground arith in
    rw
      (
        allocate-done h new (node null value) live,
        some_node,
        read-done g a (node (start xs null) v) s.0 old.1,
        behind,
      )
      (Returns-bind_two (look_ahead fuel value g a) (link2 g new)
        (look_ahead-replace new value live fuel xs a v g enough (put_self h new (node null value))
          out old)
        λ g' l.
          returns
            ((refl, l.0), λ b ne apart. l.1 b ne apart ∙ put_other h new b (node null value) ne))
