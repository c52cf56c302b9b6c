-- ===== src/SingleList/ReverseCircular.antt =====
-- reverse_singlecircular links the nodes of a circle in reverse order.
use mathlib.Core.List.{reverse_aux, reverse}
use codingforfun.Prelude.{
  ℕ, zero, suc, ◌<◌, ◌≡◌, ◌≢◌, refl, sym, ◌∙◌, [], ◌∷◌, ◌++◌, true, false, some, ◌==◌, arith,
  length,
}
use codingforfun.Run.{done, Returns, returns, Returns-mono, Returns-bind}
use codingforfun.Memory.{Ptr, null, Heap, put, put_self, put_other, read, read-done}
use codingforfun.SingleList.{
  Node, node, reverse_circular_loop, reverse_singlecircular, reverse_single,
}
use codingforfun.SingleList.Segment.{
  Cells, start, Apart, Segment, Segment-put, Segment-turn, Disjoint, Disjoint-nil, Disjoint-cons,
}
use codingforfun.SingleList.Insert.{set_next-done}
use codingforfun.SingleList.Circular.{IsCircle}
use codingforfun.SingleList.Reverse.{Agree, Rearranged, reverse_single-Rearranged}

-- `next` leads on from the first cell.
abbrev Onward : Cells → Ptr → Ptr → Type 0
Onward [] list next = Unit
Onward ((c, u) ∷ zs) list next = next ≡ start zs list

-- What the loop leaves: the cells `ws` in front of the first node, which is as it was.
record Turned (list q : Ptr) (v : ℕ) (h : Heap Node) (zs ws : Cells) (prev current : Ptr)
    (g : Heap Node) : Type 0 where
  back : current ≡ list
  before : prev ≡ start ws list
  turned : Segment g ws list
  first : g list ≡ some (node q v)
  out : Apart list ws
  same : Agree zs h g

module _ (list q : Ptr) (v : ℕ) (live : list ≢ null) where
  peek :
      (g : Heap Node) (zs : Cells) (next : Ptr)
      → next ≡ start zs list
      → g list ≡ some (node q v)
      → Segment g zs list
      → (n : Node) × (read g next ≡ done n) × Onward zs list n.next
  peek g [] next e f s = (node q v, rw (e, read-done g list (node q v) live f) refl, tt)
  peek g ((c, u) ∷ zs) next e f s =
      (node (start zs list) u, rw (e, read-done g c (node (start zs list) u) s.0 s.1) refl, refl)

  reverse_circular_loop-Turned :
      (fuel : ℕ) (h : Heap Node) (zs ys : Cells) (next : Ptr)
      → length zs < fuel
      → h list ≡ some (node q v)
      → Segment h zs list
      → Segment h ys list
      → Disjoint ys zs
      → Apart list zs
      → Apart list ys
      → Onward zs list next
      → Returns
          (λ (prev, current, g). Turned list q v h zs (reverse_aux zs ys) prev current g)
          (reverse_circular_loop fuel list h (start ys list) (start zs list) next)
  unfolding reverse_circular_loop
  reverse_circular_loop-Turned zero h zs ys next enough f s t d out_z out_y on =
      absurd (omega arith)
  reverse_circular_loop-Turned (suc fuel) h [] ys next enough f s t d out_z out_y on =
      let stop : (list == list) ≡ true = ground arith in
      rw stop (
        returns (record {
          back = refl;
          before = refl;
          turned = t;
          first = f;
          out = out_y;
          same = λ a apart. refl;
        }))
  reverse_circular_loop-Turned (suc fuel) h ((c, u) ∷ zs) ys next enough f s t d out_z out_y on =
      let further : (c == list) ≡ false = ground (arith, out_z.0) in
      let prev = start ys list in
      let g = put h c (node prev u) in
      let ahead = Segment-put h zs list c (node prev u) s.2 s.3 in
      let f' : g list ≡ some (node q v) = put_other h c list (node prev u) out_z.0 ∙ f in
      let (n, reads, on') = peek g zs next on f' ahead in
      rw (further, set_next-done h c (start zs list) prev u s.0 s.1, reads)
        (let e : next ≡ start zs list = on in
          rw e (
            Returns-mono
              (reverse_circular_loop-Turned fuel g zs ((c, u) ∷ ys) n.next (omega arith) f' ahead
                (Segment-turn h c u ys list s.0 d.0 t) (Disjoint-cons c u ys zs s.2 d.1) out_z.1
                (out_z.0, out_y) on')
              λ (prev', current, k) r. record {
                back = r.back;
                before = r.before;
                turned = r.turned;
                first = r.first;
                out = r.out;
                same = λ a apart. r.same a apart.1 ∙ put_other h c a (node prev u) apart.0;
              }))

Apart-last : (b a : Ptr) (v : ℕ) (ws : Cells) → b ≢ a → Apart b ws → Apart b (ws ++ (a, v) ∷ [])
Apart-last b a v [] ne out = (ne, tt)
Apart-last b a v ((c, u) ∷ ws) ne out = (out.0, Apart-last b a v ws ne out.1)

start-last : (a p : Ptr) (v : ℕ) (ws : Cells) → start (ws ++ (a, v) ∷ []) p ≡ start ws a
start-last a p v [] = refl
start-last a p v ((c, u) ∷ ws) = refl

-- The node that a segment leads to, as its last cell.
Segment-last :
    (h : Heap Node) (ws : Cells) (a p : Ptr) (v : ℕ)
    → a ≢ null
    → h a ≡ some (node p v)
    → Apart a ws
    → Segment h ws a
    → Segment h (ws ++ (a, v) ∷ []) p
Segment-last h [] a p v live holds out s = (live, holds, tt, tt)
Segment-last h ((c, u) ∷ ws) a p v live holds out s = (
  s.0,
  rw (start-last a p v ws) s.1,
  Apart-last c a v ws (λ e. out.0 (sym e)) s.2,
  Segment-last h ws a p v live holds out.1 s.3,
)

start-IsCircle :
    (h : Heap Node) (ws : Cells) (a : Ptr) (v : ℕ)
    → Segment h (ws ++ (a, v) ∷ []) (start ws a)
    → IsCircle h (start ws a) (ws ++ (a, v) ∷ [])
start-IsCircle h [] a v s = (refl, s)
start-IsCircle h ((c, u) ∷ ws) a v s = (refl, s)

reverse_aux-last :
    (zs ys : Cells) (c : Ptr × ℕ) → reverse_aux zs ys ++ c ∷ [] ≡ reverse_aux zs (ys ++ c ∷ [])
reverse_aux-last [] ys c = refl
reverse_aux-last (z ∷ zs) ys c = reverse_aux-last zs (z ∷ ys) c

-- The end: the first node becomes the last.
Turned-IsCircle :
    (a : Ptr) (v : ℕ) (g : Heap Node) (ws : Cells)
    → a ≢ null
    → Segment g ws a
    → Apart a ws
    → IsCircle (put g a (node (start ws a) v)) (start ws a) (ws ++ (a, v) ∷ [])
Turned-IsCircle a v g ws live s out =
    let f = put g a (node (start ws a) v) in
    start-IsCircle f ws a v (
      Segment-last f ws a (start ws a) v live (put_self g a (node (start ws a) v)) out
        (Segment-put g ws a a (node (start ws a) v) out s))

-- The list pointer and the heap hold the circle, and the other addresses have not changed.
abbrev pub RearrangedCircle : Cells → Cells → Heap Node → Ptr × Heap Node → Type 0
RearrangedCircle old xs h (list, g) = IsCircle g list xs × Agree old h g

-- reverse_singlecircular on a circle ends without an access to anything but its nodes, and leaves
-- the same nodes in reverse order.
reverse_singlecircular-RearrangedCircle :
    (fuel : ℕ) (list : Ptr) (xs : Cells) (h : Heap Node)
    → length xs < fuel
    → IsCircle h list xs
    → Returns (RearrangedCircle xs (reverse xs) h) (reverse_singlecircular fuel list h)
unfolding reverse_singlecircular
reverse_singlecircular-RearrangedCircle fuel list [] h enough s =
    let empty : (list == null) ≡ true = ground arith in rw empty (returns (s, λ b apart. refl))
reverse_singlecircular-RearrangedCircle fuel list ((a, v) ∷ []) h enough (here, s) =
    let some_node : (a == null) ≡ false = ground (arith, s.0) in
    let alone : (a == a) ≡ true = ground arith in
    rw here (
      rw (some_node, read-done h a (node a v) s.0 s.1, alone)
        (returns ((refl, s), λ b apart. refl)))
reverse_singlecircular-RearrangedCircle fuel list ((a, v) ∷ (e, u) ∷ zs) h enough (here, s) =
    let some_node : (a == null) ≡ false = ground (arith, s.0) in
    let more : (e == a) ≡ false = ground (arith, s.2.0) in
    rw here (
      rw
        (
          some_node,
          read-done h a (node e v) s.0 s.1,
          more,
          read-done h e (node (start zs a) u) s.3.0 s.3.1,
        )
        (Returns-bind
          (reverse_circular_loop-Turned a e v s.0 fuel h ((e, u) ∷ zs) [] (start zs a) (omega arith)
            s.1 s.3 tt (Disjoint-nil ((e, u) ∷ zs)) s.2 tt refl)
          λ (prev, current, g) r.
            let ws = reverse_aux ((e, u) ∷ zs) [] in
            let f = put g a (node (start ws a) v) in
            let circle = Turned-IsCircle a v g ws s.0 r.turned r.out in
            rw (r.back, r.before, set_next-done g a e (start ws a) v s.0 r.first)
              (returns (
                rw (sym (reverse_aux-last ((e, u) ∷ zs) [] (a, v))) circle,
                λ b apart. put_other g a b (node (start ws a) v) apart.0 ∙ r.same b apart.1,
              ))))

-- reverse_single on a list that ends in NULL, and reverse_singlecircular on a circle, end without an
-- access to anything but its nodes, and leave the list, or the circle, of the same nodes in reverse
-- order.
pub single_reversals_lem :
    (fuel : ℕ) (xs ys : Cells) (list : Ptr) (h k : Heap Node)
    → length xs < fuel
    → length ys < fuel
    → Segment h xs null
    → IsCircle k list ys
    → Returns (Rearranged xs (reverse xs) h) (reverse_single fuel (start xs null) h)
      × Returns (RearrangedCircle ys (reverse ys) k) (reverse_singlecircular fuel list k)
single_reversals_lem fuel xs ys list h k enough enough' s c = (
  reverse_single-Rearranged fuel xs h enough s,
  reverse_singlecircular-RearrangedCircle fuel list ys k enough' c,
)
