-- ===== src/SingleList/Reverse.antt =====
-- reverse_single links the same nodes in reverse order.
use mathlib.Core.Path.{subst}
use mathlib.Core.List.{reverse_aux, reverse}
use codingforfun.Prelude.{
  ℕ, zero, suc, ◌<◌, ◌≡◌, ◌≢◌, refl, ◌∙◌, [], ◌∷◌, false, some, ◌==◌, arith, length,
}
use codingforfun.Run.{Returns, returns, Returns-mono, Returns-bind}
use codingforfun.Memory.{Ptr, null, Heap, put, put_other, read-done}
use codingforfun.SingleList.{Node, node, reverse_loop, reverse_single}
use codingforfun.SingleList.Segment.{
  Cells, start, Apart, Segment, Segment-put, Segment-turn, Disjoint, Disjoint-nil, Disjoint-cons,
}
use codingforfun.SingleList.Insert.{IsList, set_next-done}

-- The heaps agree but at the cells.
abbrev pub Agree : Cells → Heap Node → Heap Node → Type 0
Agree xs h g = (a : Ptr) → Apart a xs → g a ≡ h a

-- What the loop leaves: all cells but the last are turned round, in front of `ys`.
record Turned (h : Heap Node) (c : Ptr) (v : ℕ) (zs ys : Cells) (current prev : Ptr) (g : Heap Node)
    : Type 0 where
  last : ℕ
  rest : Cells
  whole : (current, last) ∷ rest ≡ reverse_aux zs ((c, v) ∷ ys)
  before : prev ≡ start rest null
  live : current ≢ null
  holds : g current ≡ some (node null last)
  out : Apart current rest
  turned : Segment g rest null
  among : (a : Ptr) → Apart a ((c, v) ∷ zs) → a ≢ current
  same : Agree ((c, v) ∷ zs) h g

reverse_loop-Turned :
    (fuel : ℕ) (h : Heap Node) (c : Ptr) (v : ℕ) (zs ys : Cells)
    → length zs < fuel
    → Segment h ((c, v) ∷ zs) null
    → Segment h ys null
    → Disjoint ys ((c, v) ∷ zs)
    → Returns
        (λ (current, prev, g). Turned h c v zs ys current prev g)
        (reverse_loop fuel h (start ys null) c (start zs null))
unfolding reverse_loop
reverse_loop-Turned zero h c v zs ys enough s t d = absurd (omega arith)
reverse_loop-Turned (suc fuel) h c v [] ys enough s t d = returns (record {
  last = v;
  rest = ys;
  whole = refl;
  before = refl;
  live = s.0;
  holds = s.1;
  out = d.0;
  turned = t;
  among = λ a apart. apart.0;
  same = λ a apart. refl;
})
reverse_loop-Turned (suc fuel) h c v ((e, u) ∷ zs) ys enough s t d =
    let g = put h c (node (start ys null) v) in
    let go : (e == null) ≡ false = ground (arith, s.3.0) in
    let ahead = Segment-put h ((e, u) ∷ zs) null c (node (start ys null) v) s.2 s.3 in
    rw
      (
        go,
        set_next-done h c e (start ys null) v s.0 s.1,
        read-done g e (node (start zs null) u) ahead.0 ahead.1,
      )
      (Returns-mono
        (reverse_loop-Turned fuel g e u zs ((c, v) ∷ ys) (omega arith) ahead
          (Segment-turn h c v ys null s.0 d.0 t) (Disjoint-cons c v ys ((e, u) ∷ zs) s.2 d.1))
        λ (current, prev, f) r. record {
          last = r.last;
          rest = r.rest;
          whole = r.whole;
          before = r.before;
          live = r.live;
          holds = r.holds;
          out = r.out;
          turned = r.turned;
          among = λ a apart. r.among a apart.1;
          same = λ a apart. r.same a apart.1 ∙ put_other h c a (node (start ys null) v) apart.0;
        })

-- The list pointer and the heap hold the cells, and the other addresses have not changed.
abbrev pub Rearranged : Cells → Cells → Heap Node → Ptr × Heap Node → Type 0
Rearranged old xs h (list, g) = IsList g list xs × Agree old h g

-- reverse_single on a list that ends in NULL ends without an access to anything but its nodes, and
-- leaves the same nodes in reverse order.
pub reverse_single-Rearranged :
    (fuel : ℕ) (xs : Cells) (h : Heap Node)
    → length xs < fuel
    → Segment h xs null
    → Returns (Rearranged xs (reverse xs) h) (reverse_single fuel (start xs null) h)
unfolding reverse_single
reverse_single-Rearranged fuel [] h enough s = returns ((refl, tt), λ a apart. refl)
reverse_single-Rearranged fuel ((c, v) ∷ []) h enough s =
    let some_node : (c == null) ≡ false = ground (arith, s.0) in
    rw (some_node, read-done h c (node null v) s.0 s.1) (returns ((refl, s), λ a apart. refl))
reverse_single-Rearranged fuel ((c, v) ∷ (e, u) ∷ zs) h enough s =
    let some_node : (c == null) ≡ false = ground (arith, s.0) in
    let two : (e == null) ≡ false = ground (arith, s.3.0) in
    rw (some_node, read-done h c (node e v) s.0 s.1, two)
      (Returns-bind
        (reverse_loop-Turned fuel h c v ((e, u) ∷ zs) [] (omega arith) s tt
          (tt, Disjoint-nil ((e, u) ∷ zs)))
        λ (current, prev, g) r.
          let q = start r.rest null in
          let f = put g current (node q r.last) in
          let cells : IsList f current ((current, r.last) ∷ r.rest) =
            (refl, Segment-turn g current r.last r.rest null r.live r.out r.turned) in
          rw (r.before, set_next-done g current null q r.last r.live r.holds)
            (returns (
              subst (λ ws. IsList f current ws) r.whole cells,
              λ a apart. put_other g current a (node q r.last) (r.among a apart) ∙ r.same a apart,
            )))
