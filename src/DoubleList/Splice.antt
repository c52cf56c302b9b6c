-- ===== src/DoubleList/Splice.antt =====
-- A node linked in between two nodes that follow each other.
use native.Mathlib.Decide.{ℕ_discrete}
use codingforfun.Prelude.{
  ℕ, ◌≡◌, ◌≢◌, refl, sym, ◌∙◌, false, some, ◌==◌, if◌then◌else◌, arith, ==_refl, Option, none,
}
use codingforfun.Run.{Returns, returns}
use codingforfun.Memory.{Ptr, null, Heap, put, put_self, put_other, read-done}
use codingforfun.DoubleList.{Node, node, link_before, link_front}
use codingforfun.DoubleList.Segment.{set_next-done, set_prev-done}

-- A node at `x` with `new` behind `p` and in front of `q`.
abbrev pub adjusted : Ptr → Ptr → Ptr → Ptr → Option Node → Option Node
adjusted new p q x none = none
adjusted new p q x (some n) =
    some (node (if x == p then new else n.next) (if x == q then new else n.prev) n.value)

-- `new` stands between `p` and `q`, whose other pointers are as they were, and no other address has
-- changed.
pub record Spliced (new p q : Ptr) (value : ℕ) (h g : Heap Node) : Type 0 where
  pub mine : g new ≡ some (node q p value)
  pub others : (x : Ptr) → x ≢ new → g x ≡ adjusted new p q x (h x)

adjusted_same : (new p q x : Ptr) (o : Option Node) → x ≢ p → x ≢ q → adjusted new p q x o ≡ o
adjusted_same new p q x none np nq = refl
adjusted_same new p q x (some n) np nq =
    let a : (x == p) ≡ false = ground arith in
    let b : (x == q) ≡ false = ground arith in rw (a, b) refl

pub Spliced-other :
    (new p q : Ptr) (value : ℕ) (h g : Heap Node)
    → Spliced new p q value h g
    → (x : Ptr) → x ≢ new
    → x ≢ p
    → x ≢ q
    → g x ≡ h x
Spliced-other new p q value h g s x nx np nq = s.others x nx ∙ adjusted_same new p q x (h x) np nq

-- It is enough to look at the three addresses.
three-Spliced :
    (new p q : Ptr) (value : ℕ) (h g : Heap Node)
    → g new ≡ some (node q p value)
    → g p ≡ adjusted new p q p (h p)
    → g q ≡ adjusted new p q q (h q)
    → ((x : Ptr) → x ≢ new → x ≢ p → x ≢ q → g x ≡ h x)
    → Spliced new p q value h g
three-Spliced new p q value h g n at_p at_q same = record {
  mine = n;
  others = λ x nx. elim (ℕ_discrete x p) [
    | yes e ↦ rw e at_p
    | no np ↦ elim (ℕ_discrete x q) [
      | yes e ↦ rw e at_q
      | no nq ↦ same x nx np nq ∙ sym (adjusted_same new p q x (h x) np nq)
    ]
  ];
}

module _ (new : Ptr) (value : ℕ) (h : Heap Node) (nn np : Ptr) (live : new ≢ null)
    (holds : h new ≡ some (node nn np value)) where
  module _ (p q : Ptr) (pp : Ptr) (vp : ℕ) (nq : Ptr) (vq : ℕ) (live_p : p ≢ null)
      (at_p : h p ≡ some (node q pp vp)) (ne_p : new ≢ p) (live_q : q ≢ null)
      (at_q : h q ≡ some (node nq p vq)) (ne_q : new ≢ q) (apart : p ≢ q) where
    pq : (p == q) ≡ false
    pq = ground arith

    qp : (q == p) ≡ false
    qp = ground arith

    adjusted_p : adjusted new p q p (h p) ≡ some (node new pp vp)
    adjusted_p = rw (at_p, ==_refl p, pq) refl

    adjusted_q : adjusted new p q q (h q) ≡ some (node nq new vq)
    adjusted_q = rw (at_q, ==_refl q, qp) refl

    pub link_before-Spliced : Returns (Spliced new p q value h) (link_before h new q)
    unfolding link_before put
    link_before-Spliced =
        let h1 = put h p (node new pp vp) in
        let q1 : h1 q ≡ some (node nq p vq) =
          put_other h p q (node new pp vp) (λ e. apart (sym e)) ∙ at_q in
        let h2 = put h1 q (node nq new vq) in
        let new2 : h2 new ≡ some (node nn np value) = ground (arith, holds) in
        let h3 = put h2 new (node q np value) in
        let h4 = put h3 new (node q p value) in
        let p4 : h4 p ≡ some (node new pp vp) = ground arith in
        let q4 : h4 q ≡ some (node nq new vq) = ground arith in
        rw
          (
            read-done h q (node nq p vq) live_q at_q,
            set_next-done h p q pp new vp live_p at_p,
            set_prev-done h1 q nq p new vq live_q q1,
            set_next-done h2 new nn np q value live new2,
            set_prev-done h3 new q np p value live (put_self h2 new (node q np value)),
          )
          (returns (
            three-Spliced new p q value h h4 (put_self h3 new (node q p value))
              (p4 ∙ sym adjusted_p) (q4 ∙ sym adjusted_q) (λ x nx np' nq'. ground arith)))

    pub link_front-Spliced : Returns (Spliced new p q value h) (link_front h new q)
    unfolding link_front put
    link_front-Spliced =
        let h1 = put h new (node q np value) in
        let q1 : h1 q ≡ some (node nq p vq) =
          put_other h new q (node q np value) (λ e. ne_q (sym e)) ∙ at_q in
        let h2 = put h1 new (node q p value) in
        let q2 : h2 q ≡ some (node nq p vq) =
          put_other h1 new q (node q p value) (λ e. ne_q (sym e)) ∙ q1 in
        let h3 = put h2 q (node nq new vq) in
        let p3 : h3 p ≡ some (node q pp vp) = ground (arith, at_p) in
        let h4 = put h3 p (node new pp vp) in
        let new4 : h4 new ≡ some (node q p value) = ground arith in
        let q4 : h4 q ≡ some (node nq new vq) = ground arith in
        rw
          (
            read-done h q (node nq p vq) live_q at_q,
            set_next-done h new nn np q value live holds,
            read-done h1 q (node nq p vq) live_q q1,
            set_prev-done h1 new q np p value live (put_self h new (node q np value)),
            set_prev-done h2 q nq p new vq live_q q2,
            set_next-done h3 p q pp new vp live_p p3,
          )
          (returns (
            three-Spliced new p q value h h4 new4 (put_self h3 p (node new pp vp) ∙ sym adjusted_p)
              (q4 ∙ sym adjusted_q) (λ x nx np' nq'. ground arith)))

  -- On a circle of one node.
  module _ (p : Ptr) (v : ℕ) (live_p : p ≢ null) (at_p : h p ≡ some (node p p v))
      (ne_p : new ≢ p) where
    adjusted_alone : adjusted new p p p (h p) ≡ some (node new new v)
    adjusted_alone = rw (at_p, ==_refl p) refl

    pub link_before-alone : Returns (Spliced new p p value h) (link_before h new p)
    unfolding link_before put
    link_before-alone =
        let h1 = put h p (node new p v) in
        let h2 = put h1 p (node new new v) in
        let new2 : h2 new ≡ some (node nn np value) = ground (arith, holds) in
        let h3 = put h2 new (node p np value) in
        let h4 = put h3 new (node p p value) in
        let p4 : h4 p ≡ some (node new new v) = ground arith in
        rw
          (
            read-done h p (node p p v) live_p at_p,
            set_next-done h p p p new v live_p at_p,
            set_prev-done h1 p new p new v live_p (put_self h p (node new p v)),
            set_next-done h2 new nn np p value live new2,
            set_prev-done h3 new p np p value live (put_self h2 new (node p np value)),
          )
          (returns (
            three-Spliced new p p value h h4 (put_self h3 new (node p p value))
              (p4 ∙ sym adjusted_alone) (p4 ∙ sym adjusted_alone) (λ x nx np' nq'. ground arith)))

    pub link_front-alone : Returns (Spliced new p p value h) (link_front h new p)
    unfolding link_front put
    link_front-alone =
        let h1 = put h new (node p np value) in
        let p1 : h1 p ≡ some (node p p v) = ground (arith, at_p) in
        let h2 = put h1 new (node p p value) in
        let p2 : h2 p ≡ some (node p p v) = ground (arith, at_p) in
        let h3 = put h2 p (node p new v) in
        let h4 = put h3 p (node new new v) in
        let new4 : h4 new ≡ some (node p p value) = ground arith in
        rw
          (
            read-done h p (node p p v) live_p at_p,
            set_next-done h new nn np p value live holds,
            read-done h1 p (node p p v) live_p p1,
            set_prev-done h1 new p np p value live (put_self h new (node p np value)),
            set_prev-done h2 p p p new v live_p p2,
            set_next-done h3 p p new new v live_p (put_self h2 p (node p new v)),
          )
          (returns (
            three-Spliced new p p value h h4 new4
              (put_self h3 p (node new new v) ∙ sym adjusted_alone)
              (put_self h3 p (node new new v) ∙ sym adjusted_alone) (λ x nx np' nq'. ground arith)))
