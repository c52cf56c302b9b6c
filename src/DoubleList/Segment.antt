-- ===== src/DoubleList/Segment.antt =====
-- List segments with pointers in both directions, over the cells of SingleList.
use codingforfun.Prelude.{ℕ, ◌≡◌, ◌≢◌, sym, [], ◌∷◌, some, arith}
use codingforfun.Run.{done}
use codingforfun.Memory.{Ptr, null, Heap, put, put_self, put_other, read-done, write-done}
use codingforfun.SingleList.Segment.{Cells, start, Apart}
use codingforfun.DoubleList.{Node, node, set_next, set_prev}

-- The nodes of the cells are in the heap at different addresses; each leads to the next one and
-- back to the one before it, the last one to `stop`, and the first one back to `before`.
abbrev pub Segment : Heap Node → Ptr → Cells → Ptr → Type 0
Segment h before [] stop = Unit
Segment h before ((a, v) ∷ xs) stop =
    (a ≢ null) × (h a ≡ some (node (start xs stop) before v)) × Apart a xs × Segment h a xs stop

-- A segment survives a write elsewhere.
pub Segment-put :
    (h : Heap Node) (before : Ptr) (xs : Cells) (stop p : Ptr) (n : Node)
    → Apart p xs
    → Segment h before xs stop
    → Segment (put h p n) before xs stop
Segment-put h before [] stop p n out s = tt
Segment-put h before ((a, v) ∷ xs) stop p n out s =
    (s.0, ground (arith, put_other h p a n), s.2, Segment-put h a xs stop p n out.1 s.3)

module _ (h : Heap Node) (p q r s : Ptr) (v : ℕ) (live : p ≢ null)
    (holds : h p ≡ some (node q r v)) where
  pub set_next-done : set_next h p s ≡ done (put h p (node s r v))
  unfolding set_next
  set_next-done =
      rw
        (read-done h p (node q r v) live holds, write-done h p (node q r v) live holds (node s r v))

  pub set_prev-done : set_prev h p s ≡ done (put h p (node q s v))
  unfolding set_prev
  set_prev-done =
      rw
        (read-done h p (node q r v) live holds, write-done h p (node q r v) live holds (node q s v))

-- The first cell of a segment, with its pointers changed.
pub Segment-change :
    (h : Heap Node) (before c : Ptr) (v : ℕ) (xs : Cells) (stop : Ptr)
    → c ≢ null
    → Apart c xs
    → Segment h c xs stop
    → Segment (put h c (node (start xs stop) before v)) before ((c, v) ∷ xs) stop
Segment-change h before c v xs stop live out s =
    let n = node (start xs stop) before v in
    (live, put_self h c n, out, Segment-put h c xs stop c n out s)

pub Apart-null :
    (h : Heap Node) (before : Ptr) (xs : Cells) (stop : Ptr)
    → Segment h before xs stop
    → Apart null xs
Apart-null h before [] stop s = tt
Apart-null h before ((a, v) ∷ xs) stop s = ((λ e. s.0 (sym e)), Apart-null h a xs stop s.3)
