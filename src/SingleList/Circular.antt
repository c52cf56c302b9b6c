-- ===== src/SingleList/Circular.antt =====
-- insert_singlecircular puts the value at its place on the circle.
use codingforfun.Prelude.{
  ℕ, ◌<◌, ◌≡◌, ◌≢◌, refl, sym, ◌∙◌, [], ◌∷◌, true, false, some, ltb, ◌==◌, if◌then◌else◌, arith,
  length, Bool-cases, inl, inr,
}
use codingforfun.Run.{done, ◌>>=◌, Returns, returns, Returns-bind_two}
use codingforfun.Memory.{
  Ptr, null, Heap, put, put_self, put_other, read, write, read-done, write-done, allocate-done,
}
use codingforfun.SingleList.{Node, node, set_next, find_place, link, insert_singlecircular}
use codingforfun.SingleList.Segment.{Cells, start, Apart, Segment, AgreeBut, Segment-put}
use codingforfun.SingleList.Insert.{insert_behind, find_place-Linked, set_next-done}

-- The cells on the circle from the list pointer on, back to it. No cells is the NULL pointer.
abbrev pub IsCircle : Heap Node → Ptr → Cells → Type 0
IsCircle h list [] = list ≡ null
IsCircle h list ((a, v) ∷ xs) = (list ≡ a) × Segment h ((a, v) ∷ xs) a

-- In front, the new cell takes over the first value and the first cell the new one, so that the
-- list pointer need not change.
abbrev pub insert_circle : Ptr → ℕ → Cells → Cells
insert_circle new value [] = (new, value) ∷ []
insert_circle new value ((a, v) ∷ xs) =
    if ltb value v then (a, value) ∷ (new, v) ∷ xs else (a, v) ∷ insert_behind new value xs

abbrev pub HoldsCircle : Ptr → Cells → Cells → Heap Node → Ptr × Heap Node → Type 0
HoldsCircle new old xs h (list, g) = IsCircle g list xs × AgreeBut new old h g

-- insert_singlecircular on a circle, with a new node that is none of its cells, ends without an
-- access to anything but its nodes, and leaves the circle with the value inserted.
pub insert_singlecircular-HoldsCircle :
    (fuel : ℕ) (new list : Ptr) (xs : Cells) (value : ℕ) (h : Heap Node)
    → length xs < fuel
    → new ≢ null
    → Apart new xs
    → IsCircle h list xs
    → Returns
        (HoldsCircle new xs (insert_circle new value xs) h)
        (insert_singlecircular fuel new list value h)
unfolding insert_singlecircular
insert_singlecircular-HoldsCircle fuel new list [] value h enough live out s =
    let g = put h new (node null value) in
    let empty : (list == null) ≡ true = ground arith in
    rw
      (
        allocate-done h new (node null value) live,
        empty,
        set_next-done g new null new value live (put_self h new (node null value)),
      )
      (returns (
        (refl, (live, put_self g new (node new value), tt, tt)),
        λ a ne apart.
            put_other g new a (node new value) ne ∙ put_other h new a (node null value) ne,
      ))
insert_singlecircular-HoldsCircle fuel new list ((a, v) ∷ xs) value h enough live out (here, s) =
    let g = put h new (node null value) in
    let some_node : (a == null) ≡ false = ground (arith, s.0) in
    let old = Segment-put h ((a, v) ∷ xs) a new (node null value) out s in
    let mine : g new ≡ some (node null value) = put_self h new (node null value) in
    rw
      (
        here,
        allocate-done h new (node null value) live,
        some_node,
        read-done g a (node (start xs a) v) s.0 old.1,
      )
      (elim (Bool-cases (ltb value v)) [
        | inl front ↦ rw front (in_front old)
        | inr behind ↦ rw behind (
            Returns-bind_two (find_place fuel a value g a (start xs a)) (link g new)
              (find_place-Linked new a value live fuel xs a v g null (omega arith) mine out s.2 old)
              λ g' l. returns (
                (refl, l.0),
                λ b ne apart. l.1 b ne apart ∙ put_other h new b (node null value) ne,
              ))
      ])
  where
    in_front :
        Segment (put h new (node null value)) ((a, v) ∷ xs) a
        → Returns (HoldsCircle new ((a, v) ∷ xs) ((a, value) ∷ (new, v) ∷ xs) h) (
            write (put h new (node null value)) new (node (start xs a) v) >>= λ g'.
            read g' a >>= λ old. write g' a (record old { value = value }) >>= λ g''.
            set_next g'' a new >>= λ g'''. done (a, g'''))
    in_front old =
        let q = start xs a in
        let g = put h new (node null value) in
        let g' = put g new (node q v) in
        let g'' = put g' a (node q value) in
        let apart : a ≢ new = λ e. out.0 (sym e) in
        let first : g' a ≡ some (node q v) = put_other g new a (node q v) apart ∙ old.1 in
        rw
          (
            write-done g new (node null value) live (put_self h new (node null value)) (node q v),
            read-done g' a (node q v) old.0 first,
            write-done g' a (node q v) old.0 first (node q value),
            set_next-done g'' a q new value old.0 (put_self g' a (node q value)),
          )
          (returns (
            (
              refl,
              (
                old.0,
                put_self g'' a (node new value),
                (apart, old.2),
                (
                  live,
                  put_other g'' a new (node new value) out.0
                      ∙ put_other g' a new (node q value) out.0
                      ∙ put_self g new (node q v),
                  out.1,
                  Segment-put g'' xs a a (node new value) old.2 (
                      Segment-put g' xs a a (node q value) old.2
                        (Segment-put g xs a new (node q v) out.1 old.3)),
                ),
              ),
            ),
            λ b ne far.
                put_other g'' a b (node new value) far.0
                ∙ put_other g' a b (node q value) far.0
                ∙ put_other g new b (node q v) ne
                ∙ put_other h new b (node null value) ne,
          ))
