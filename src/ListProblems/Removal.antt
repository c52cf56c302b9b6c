-- ===== src/ListProblems/Removal.antt =====
-- remove_node, which has a pointer to the node only, and what the two functions print that go
-- through a whole list.
use mathlib.Core.List.{reverse, reverse-cons}
use codingforfun.Prelude.{
  ℕ, zero, suc, ◌<◌, ◌≡◌, ◌≢◌, refl, sym, ap, ◌∙◌, List, [], ◌∷◌, ◌++◌, none, some, false, ◌==◌,
  if◌then◌else◌, length, arith,
}
use codingforfun.Run.{Run, done, fault, Returns, returns}
use codingforfun.Memory.{
  Ptr, null, Heap, put, read, read-done, write-done, read-null, free-done, put_self, put_other,
}
use codingforfun.SingleList.{Node, node}
use codingforfun.SingleList.Segment.{Cells, start, Segment, Apart}
use codingforfun.ListProblems.{remove_node, print_list, readbackwards}

-- The heap with `m` at `a`, and nothing at `b`.
abbrev replaced : Heap Node → Ptr → Node → Ptr → Heap Node
replaced h a m b x = if x == b then none else put h a m x

replaced_other :
    (h : Heap Node) (a : Ptr) (m : Node) (b x : Ptr) → x ≢ a → x ≢ b → replaced h a m b x ≡ h x
replaced_other h a m b x na nb = ground (arith, put_other h a x m na)

Segment-replaced :
    (h : Heap Node) (a : Ptr) (m : Node) (b : Ptr) (xs : Cells) (stop : Ptr)
    → Apart a xs
    → Apart b xs
    → Segment h xs stop
    → Segment (replaced h a m b) xs stop
Segment-replaced h a m b [] stop oa ob s = tt
Segment-replaced h a m b ((c, v) ∷ xs) stop oa ob s = (
  s.0,
  replaced_other h a m b c (λ e. oa.0 (sym e)) (λ e. ob.0 (sym e)) ∙ s.1,
  s.2,
  Segment-replaced h a m b xs stop oa.1 ob.1 s.3,
)

Apart-shorter :
    (c a b : Ptr) (v w : ℕ) (xs ys : Cells)
    → Apart c (xs ++ (a, v) ∷ (b, w) ∷ ys)
    → Apart c (xs ++ (a, w) ∷ ys) × (c ≢ a) × (c ≢ b)
Apart-shorter c a b v w [] ys o = ((o.0, o.1.1), o.0, o.1.0)
Apart-shorter c a b v w ((x, u) ∷ xs) ys o =
    let (rest, na, nb) = Apart-shorter c a b v w xs ys o.1 in ((o.0, rest), na, nb)

start-shorter :
    (a b : Ptr) (v w : ℕ) (xs ys : Cells) (stop : Ptr)
    → start (xs ++ (a, v) ∷ (b, w) ∷ ys) stop ≡ start (xs ++ (a, w) ∷ ys) stop
start-shorter a b v w [] ys stop = refl
start-shorter a b v w ((x, u) ∷ xs) ys stop = refl

-- The cells without the one at `b`, whose value goes to the one at `a`.
Segment-shorter :
    (h : Heap Node) (xs : Cells) (a : Ptr) (v : ℕ) (b : Ptr) (w : ℕ) (ys : Cells)
    → Segment h (xs ++ (a, v) ∷ (b, w) ∷ ys) null
    → Segment (replaced h a (node (start ys null) w) b) (xs ++ (a, w) ∷ ys) null
Segment-shorter h [] a v b w ys s = (
  s.0,
  (let apart : (a == b) ≡ false = ground (arith, s.2.0) in
      rw apart (put_self h a (node (start ys null) w))),
  s.2.1,
  Segment-replaced h a (node (start ys null) w) b ys null s.2.1 s.3.2 s.3.3,
)
Segment-shorter h ((x, u) ∷ xs) a v b w ys s =
    let (out, na, nb) = Apart-shorter x a b v w xs ys s.2 in
    (
      s.0,
      replaced_other h a (node (start ys null) w) b x na nb
          ∙ s.1
          ∙ ap (λ q. some (node q u)) (start-shorter a b v w xs ys null),
      out,
      Segment-shorter h xs a v b w ys s.3,
    )

Segment-cell :
    (h : Heap Node) (xs : Cells) (a : Ptr) (v : ℕ) (ys : Cells)
    → Segment h (xs ++ (a, v) ∷ ys) null
    → Segment h ((a, v) ∷ ys) null
Segment-cell h [] a v ys s = s
Segment-cell h (x ∷ xs) a v ys s = Segment-cell h xs a v ys s.3

-- The node at `a` gives way to the next one, which is no longer in the heap. At the last node the
-- code reads through NULL.
abbrev pub Removed : Cells → Ptr → Cells → Run (Heap Node) → Type 0
Removed xs a [] r = r ≡ fault
Removed xs a ((b, w) ∷ ys) r = Returns (λ g. Segment g (xs ++ (a, w) ∷ ys) null × (g b ≡ none)) r

-- remove_node on a node of a list that ends in NULL ends without an access to anything but nodes,
-- and leaves the list without the value at that node, if another node is behind it; that node is
-- freed. On the last node it reads through NULL.
pub remove_node-Removed :
    (xs : Cells) (a : Ptr) (v : ℕ) (ys : Cells) (h : Heap Node)
    → Segment h (xs ++ (a, v) ∷ ys) null
    → Removed xs a ys (remove_node h a)
unfolding remove_node
remove_node-Removed xs a v [] h s =
    let c = Segment-cell h xs a v [] s in
    let stop : read h null ≡ fault = read-null h in
    rw (read-done h a (node null v) c.0 c.1, stop) refl
remove_node-Removed xs a v ((b, w) ∷ ys) h s =
    let c = Segment-cell h xs a v ((b, w) ∷ ys) s in
    let m = node (start ys null) w in
    let lasts : put h a m b ≡ some m = put_other h a b m (λ e. c.2.0 (sym e)) ∙ c.3.1 in
    rw
      (
        read-done h a (node b v) c.0 c.1,
        read-done h b m c.3.0 c.3.1,
        write-done h a (node b v) c.0 c.1 m,
        free-done (put h a m) b m c.3.0 lasts,
      )
      (returns (Segment-shorter h xs a v b w ys s, ground arith))

abbrev pub values : Cells → List ℕ
values [] = []
values ((a, v) ∷ xs) = v ∷ values xs

print_list-values :
    (fuel : ℕ) (xs : Cells) (h : Heap Node)
    → Segment h xs null
    → length xs < fuel
    → print_list fuel h (start xs null) ≡ done (values xs)
unfolding print_list
print_list-values zero xs h s enough = absurd (omega arith)
print_list-values (suc fuel) [] h s enough = refl
print_list-values (suc fuel) ((a, v) ∷ xs) h s enough =
    let go : (a == null) ≡ false = ground (arith, s.0) in
    rw
      (
        go,
        read-done h a (node (start xs null) v) s.0 s.1,
        print_list-values fuel xs h s.3 (omega arith),
      )
      refl

readbackwards-reverse :
    (fuel : ℕ) (xs : Cells) (h : Heap Node)
    → Segment h xs null
    → length xs < fuel
    → readbackwards fuel h (start xs null) ≡ done (reverse (values xs))
unfolding readbackwards
readbackwards-reverse zero xs h s enough = absurd (omega arith)
readbackwards-reverse (suc fuel) [] h s enough = refl
readbackwards-reverse (suc fuel) ((a, v) ∷ xs) h s enough =
    let go : (a == null) ≡ false = ground (arith, s.0) in
    rw
      (
        go,
        read-done h a (node (start xs null) v) s.0 s.1,
        readbackwards-reverse fuel xs h s.3 (omega arith),
      )
      (ap done (sym (reverse-cons v (values xs))))
