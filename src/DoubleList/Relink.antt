-- ===== src/DoubleList/Relink.antt =====
-- Segments in a row, and what linking in a node does to a segment.
use codingforfun.Prelude.{
  ℕ, ◌≡◌, ◌≢◌, ◌⊎◌, inl, inr, refl, sym, ap, ◌∙◌, [], ◌∷◌, ◌++◌, some, ◌==◌, if◌then◌else◌, arith,
}
use codingforfun.Memory.{Ptr, null, Heap}
use codingforfun.SingleList.Segment.{Cells, start, Apart, Disjoint}
use codingforfun.DoubleList.{Node, node}
use codingforfun.DoubleList.Segment.{Segment}
use codingforfun.DoubleList.Reverse.{final}
use codingforfun.DoubleList.Splice.{adjusted, Spliced}

pub Apart-final : (x c : Ptr) (u : ℕ) (zs : Cells) → Apart x ((c, u) ∷ zs) → x ≢ final c zs
Apart-final x c u [] out = out.0
Apart-final x c u ((e, w) ∷ zs) out = Apart-final x e w zs out.1

pub Apart-append : (x : Ptr) (xs ys : Cells) → Apart x (xs ++ ys) → Apart x xs × Apart x ys
Apart-append x [] ys out = (tt, out)
Apart-append x ((a, v) ∷ xs) ys out =
    let (front, back) = Apart-append x xs ys out.1 in ((out.0, front), back)

pub Apart-both : (x : Ptr) (xs ys : Cells) → Apart x xs → Apart x ys → Apart x (xs ++ ys)
Apart-both x [] ys out out' = out'
Apart-both x ((a, v) ∷ xs) ys out out' = (out.0, Apart-both x xs ys out.1 out')

pub final-append : (b c : Ptr) (u : ℕ) (xs zs : Cells) → final b (xs ++ (c, u) ∷ zs) ≡ final c zs
final-append b c u [] zs = refl
final-append b c u ((a, v) ∷ xs) zs = final-append a c u xs zs

pub Disjoint-first : (q : Ptr) (u : ℕ) (zs xs : Cells) → Disjoint ((q, u) ∷ zs) xs → Apart q xs
Disjoint-first q u zs [] d = tt
Disjoint-first q u zs ((a, v) ∷ xs) d = ((λ e. d.0.0 (sym e)), Disjoint-first q u zs xs d.1)

pub Disjoint-final :
    (a : Ptr) (v : ℕ) (ys zs : Cells) → Disjoint zs ((a, v) ∷ ys) → Apart (final a ys) zs
Disjoint-final a v [] zs d = d.0
Disjoint-final a v ((c, u) ∷ ys) zs d = Disjoint-final c u ys zs d.1

-- Two segments in a row, and a segment in two.
pub Segment-append :
    (h : Heap Node) (b : Ptr) (xs ys : Cells) (stop : Ptr)
    → Segment h b xs (start ys stop)
    → Segment h (final b xs) ys stop
    → Disjoint ys xs
    → Segment h b (xs ++ ys) stop
Segment-append h b [] ys stop s t d = t
Segment-append h b ((a, v) ∷ []) ys stop s t d = (s.0, s.1, d.0, t)
Segment-append h b ((a, v) ∷ (c, u) ∷ xs) ys stop s t d = (
  s.0,
  s.1,
  Apart-both a ((c, u) ∷ xs) ys s.2 d.0,
  Segment-append h a ((c, u) ∷ xs) ys stop s.3 t d.1,
)

pub Segment-split :
    (h : Heap Node) (b : Ptr) (xs ys : Cells) (stop : Ptr)
    → Segment h b (xs ++ ys) stop
    → Segment h b xs (start ys stop) × Segment h (final b xs) ys stop × Disjoint ys xs
Segment-split h b [] ys stop s = (tt, s, tt)
Segment-split h b ((a, v) ∷ []) ys stop s = ((s.0, s.1, tt, tt), s.3, (s.2, tt))
Segment-split h b ((a, v) ∷ (c, u) ∷ xs) ys stop s =
    let (front, back, d) = Segment-split h a ((c, u) ∷ xs) ys stop s.3 in
    let (out, out') = Apart-append a ((c, u) ∷ xs) ys s.2 in
    ((s.0, s.1, out, front), back, (out', d))

-- The last node of a segment.
pub Segment-final :
    (h : Heap Node) (b a : Ptr) (v : ℕ) (xs : Cells) (stop : Ptr)
    → Segment h b ((a, v) ∷ xs) stop
    → (q : Ptr) × (w : ℕ) × (h (final a xs) ≡ some (node stop q w)) × (final a xs ≢ null)
Segment-final h b a v [] stop s = (b, v, s.1, s.0)
Segment-final h b a v ((c, u) ∷ xs) stop s = Segment-final h a c u xs stop s.3

-- A segment after a node has been linked in between `p` and `q`, of which `p` can only be its last
-- and `q` only its first node.
pub relink :
    (new p q : Ptr) (value : ℕ) (h g : Heap Node) (b a : Ptr) (v : ℕ) (xs : Cells)
    (stop b' stop' : Ptr)
    → Spliced new p q value h g
    → Segment h b ((a, v) ∷ xs) stop
    → Apart new ((a, v) ∷ xs)
    → Apart q xs
    → ((final a xs ≡ p) × (stop' ≡ new)) ⊎ (Apart p ((a, v) ∷ xs) × (stop' ≡ stop))
    → ((a ≡ q) × (b' ≡ new)) ⊎ ((a ≢ q) × (b' ≡ b))
    → Segment g b' ((a, v) ∷ xs) stop'
relink new p q value h g b a v [] stop b' stop' s t out out_q at_p at_q =
    let next : (if a == p then new else stop) ≡ stop' = ground arith in
    let prev : (if a == q then new else b) ≡ b' = ground arith in
    (
      t.0,
      s.others a (λ e. out.0 (sym e)) ∙ ap (adjusted new p q a) t.1 ∙ rw (next, prev) refl,
      tt,
      tt,
    )
relink new p q value h g b a v ((c, u) ∷ xs) stop b' stop' s t out out_q at_p at_q =
    let not_p : a ≢ p = elim at_p [
      | inl (e, same) ↦ λ f. Apart-final a c u xs t.2 (f ∙ sym e)
      | inr (far, same) ↦ λ f. far.0 (sym f)
    ] in
    let behind : ((final c xs ≡ p) × (stop' ≡ new)) ⊎ (Apart p ((c, u) ∷ xs) × (stop' ≡ stop)) =
      elim at_p [ inl (e, same) ↦ inl (e, same) | inr (far, same) ↦ inr (far.1, same) ] in
    let next : (if a == p then new else c) ≡ c = ground arith in
    let prev : (if a == q then new else b) ≡ b' = ground arith in
    (
      t.0,
      s.others a (λ e. out.0 (sym e)) ∙ ap (adjusted new p q a) t.1 ∙ rw (next, prev) refl,
      t.2,
      relink new p q value h g a c u xs stop a stop' s t.3 out.1 out_q.1 behind
          (inr ((λ e. out_q.0 (sym e)), refl)),
    )
