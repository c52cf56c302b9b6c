-- ===== src/SingleList/Insert.antt =====
-- insert_single and insert_singlecircular put the value at its place among the cells.
use codingforfun.Prelude.{
  ℕ, zero, suc, ◌<◌, ◌≡◌, ◌≢◌, refl, sym, ◌∙◌, ==_refl, [], ◌∷◌, false, some, ltb, ◌==◌,
  if◌then◌else◌, arith, length, Bool-cases, inl, inr,
}
use codingforfun.Run.{done, ◌>>=◌, Returns, returns, Returns-mono, Returns-bind_two}
use codingforfun.Memory.{
  Ptr, null, Heap, put, put_self, put_other, read-done, write-done, allocate-done,
}
use codingforfun.SingleList.{Node, node, set_next, find_place, link, insert_single}
use codingforfun.SingleList.Segment.{Cells, start, Apart, Segment, AgreeBut, Segment-put}

-- The cells behind the first, with the new one before the first value that is not below it.
abbrev pub insert_behind : Ptr → ℕ → Cells → Cells
insert_behind new value [] = (new, value) ∷ []
insert_behind new value ((a, v) ∷ xs) =
    if ltb v value then (a, v) ∷ insert_behind new value xs else (new, value) ∷ (a, v) ∷ xs

pub set_next-done :
    (h : Heap Node) (p q r : Ptr) (v : ℕ)
    → p ≢ null
    → h p ≡ some (node q v)
    → set_next h p r ≡ done (put h p (node r v))
unfolding set_next
set_next-done h p q r v live holds =
    rw (read-done h p (node q v) live holds, write-done h p (node q v) live holds (node r v))

module _ (new stop : Ptr) (value : ℕ) (live : new ≢ null) where
  -- What the heap holds once the cell is linked in behind the cell `(p, w)`.
  abbrev pub Linked : Ptr → ℕ → Cells → Heap Node → Heap Node → Type 0
  Linked p w xs h g =
      Segment g ((p, w) ∷ insert_behind new value xs) stop × AgreeBut new ((p, w) ∷ xs) h g

  -- Linking at once, behind `(p, w)`.
  link-Linked :
      (p : Ptr) (w : ℕ) (xs : Cells) (h : Heap Node) (q : Ptr)
      → h new ≡ some (node q value)
      → Apart new ((p, w) ∷ xs)
      → Segment h ((p, w) ∷ xs) stop
      → Returns
          (λ g. Segment g ((p, w) ∷ (new, value) ∷ xs) stop × AgreeBut new ((p, w) ∷ xs) h g)
          (link h new (p, start xs stop))
  unfolding link
  link-Linked p w xs h q holds out s =
      let g = put h p (node new w) in
      let other : p ≢ new = λ e. out.0 (sym e) in
      let kept : g new ≡ some (node q value) =
        ground (arith, put_other h p new (node new w) out.0) in
      rw
        (
          set_next-done h p (start xs stop) new w s.0 s.1,
          set_next-done g new q (start xs stop) value live kept,
        )
        (returns (
          (
            s.0,
            ground (
              arith,
              put_other g new p (node (start xs stop) value) other,
              put_self h p (node new w),
            ),
            (other, s.2),
            (
              live,
              put_self g new (node (start xs stop) value),
              out.1,
              Segment-put g xs stop new (node (start xs stop) value) out.1
                  (Segment-put h xs stop p (node new w) s.2 s.3),
            ),
          ),
          λ a ne apart. ground (
            arith,
            put_other g new a (node (start xs stop) value) ne,
            put_other h p a (node new w) apart.0,
          ),
        ))

  Apart-insert_behind :
      (p : Ptr) (xs : Cells) → p ≢ new → Apart p xs → Apart p (insert_behind new value xs)
  Apart-insert_behind p [] ne out = (ne, tt)
  Apart-insert_behind p ((a, v) ∷ xs) ne out = elim (Bool-cases (ltb v value)) [
    | inl low ↦ rw low (out.0, Apart-insert_behind p xs ne out.1)
    | inr high ↦ rw high (ne, out)
  ]

  start-insert_behind :
      (p : Ptr) (w : ℕ) (xs : Cells) (q : Ptr) → start ((p, w) ∷ insert_behind new value xs) q ≡ p
  start-insert_behind p w xs q = refl

  -- The search and the linking, from the cell `(p, w)` on.
  pub find_place-Linked :
      (fuel : ℕ) (xs : Cells) (p : Ptr) (w : ℕ) (h : Heap Node) (q : Ptr)
      → length xs < fuel
      → h new ≡ some (node q value)
      → Apart new ((p, w) ∷ xs)
      → Apart stop xs
      → Segment h ((p, w) ∷ xs) stop
      → Returns (Linked p w xs h) (find_place fuel stop value h p (start xs stop) >>= link h new)
  unfolding find_place
  find_place-Linked zero xs p w h q enough holds out past s = absurd (omega arith)
  find_place-Linked (suc fuel) [] p w h q enough holds out past s =
      rw (==_refl stop) (link-Linked p w [] h q holds out s)
  find_place-Linked (suc fuel) ((a, v) ∷ xs) p w h q enough holds out past s =
      let going : (a == stop) ≡ false = ground (arith, past.0) in
      rw (going, read-done h a (node (start xs stop) v) s.3.0 s.3.1)
        (elim (Bool-cases (ltb v value)) [
          | inl low ↦ rw low (
              Returns-mono (find_place-Linked fuel xs a v h q (omega arith) holds out.1 past.1 s.3)
                λ g l.
                  let apart : p ≢ new = λ e. out.0 (sym e) in
                  rw low (
                    (
                      s.0,
                      l.1 p apart s.2 ∙ s.1,
                      (s.2.0, Apart-insert_behind p xs apart s.2.1),
                      l.0,
                    ),
                    λ b ne far. l.1 b ne far.1,
                  ))
          | inr high ↦
              rw high
                (Returns-mono (link-Linked p w ((a, v) ∷ xs) h q holds out s) λ g l. rw high l)
        ])

-- Where insert_single puts the value: in front if it is below the first.
abbrev pub insert_sorted : Ptr → ℕ → Cells → Cells
insert_sorted new value [] = (new, value) ∷ []
insert_sorted new value ((a, v) ∷ xs) =
    if ltb value v then (new, value) ∷ (a, v) ∷ xs else (a, v) ∷ insert_behind new value xs

-- A list that ends in NULL.
abbrev pub IsList : Heap Node → Ptr → Cells → Type 0
IsList h list xs = (list ≡ start xs null) × Segment h xs null

-- The result of an insertion: the list pointer and the heap hold the cells, and no other address
-- has changed.
abbrev pub Holds : Ptr → Cells → Cells → Heap Node → Ptr × Heap Node → Type 0
Holds new old xs h (list, g) = IsList g list xs × AgreeBut new old h g

Apart-null : (h : Heap Node) (xs : Cells) (stop : Ptr) → Segment h xs stop → Apart null xs
Apart-null h [] stop s = tt
Apart-null h ((a, v) ∷ xs) stop s = ((λ e. s.0 (sym e)), Apart-null h xs stop s.3)

-- insert_single on a list that ends in NULL, with a new node that is none of its cells, ends
-- without an access to anything but its nodes, and leaves the list with the value inserted.
pub insert_single-Holds :
    (fuel : ℕ) (new : Ptr) (xs : Cells) (value : ℕ) (h : Heap Node)
    → length xs < fuel
    → new ≢ null
    → Apart new xs
    → Segment h xs null
    → Returns
        (Holds new xs (insert_sorted new value xs) h)
        (insert_single fuel new (start xs null) value h)
unfolding insert_single
insert_single-Holds fuel new [] value h enough live out s =
    rw (allocate-done h new (node null value) live) (
      returns (
        (refl, (live, put_self h new (node null value), tt, tt)),
        λ a ne apart. put_other h new a (node null value) ne,
      ))
insert_single-Holds fuel new ((a, v) ∷ xs) value h enough live out s =
    let g = put h new (node null value) in
    let some_node : (a == null) ≡ false = ground (arith, s.0) in
    let old = Segment-put h ((a, v) ∷ xs) null new (node null value) out s in
    let mine : g new ≡ some (node null value) = put_self h new (node null value) in
    rw
      (
        allocate-done h new (node null value) live,
        some_node,
        read-done g a (node (start xs null) v) s.0 old.1,
      )
      (elim (Bool-cases (ltb value v)) [
        | inl front ↦
            rw (front, set_next-done g new null a value live mine)
              (returns (
                (
                  refl,
                  (
                    live,
                    put_self g new (node a value),
                    out,
                    Segment-put g ((a, v) ∷ xs) null new (node a value) out old,
                  ),
                ),
                λ b ne apart.
                    put_other g new b (node a value) ne ∙ put_other h new b (node null value) ne,
              ))
        | inr behind ↦ rw behind (
            Returns-bind_two (find_place fuel null value g a (start xs null)) (link g new)
              (find_place-Linked new null value live fuel xs a v g null (omega arith) mine out
                (Apart-null h xs null s.3) old)
              λ g' l. returns (
                (refl, l.0),
                λ b ne apart. l.1 b ne apart ∙ put_other h new b (node null value) ne,
              ))
      ])
