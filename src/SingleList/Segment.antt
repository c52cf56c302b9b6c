-- ===== src/SingleList/Segment.antt =====
-- List segments: which cells the `next` pointers lead through.
use codingforfun.Prelude.{ℕ, ◌≡◌, ◌≢◌, sym, List, [], ◌∷◌, some, arith}
use codingforfun.Memory.{Ptr, null, Heap, put, put_self, put_other}
use codingforfun.SingleList.{Node, node}

-- Address and value of each node, in order.
abbrev pub Cells : Type 0
Cells = List (Ptr × ℕ)

-- The address of the first cell, or `stop` if there is none.
abbrev pub start : Cells → Ptr → Ptr
start [] stop = stop
start ((a, v) ∷ xs) stop = a

-- No cell has the address.
abbrev pub Apart : Ptr → Cells → Type 0
Apart a [] = Unit
Apart a ((b, v) ∷ xs) = (a ≢ b) × Apart a xs

-- The nodes of the cells are in the heap at different addresses, each leads to the next, and the
-- last one to `stop`.
abbrev pub Segment : Heap Node → Cells → Ptr → Type 0
Segment h [] stop = Unit
Segment h ((a, v) ∷ xs) stop =
    (a ≢ null) × (h a ≡ some (node (start xs stop) v)) × Apart a xs × Segment h xs stop

-- The heaps agree at every address but `new` and those of the cells.
abbrev pub AgreeBut : Ptr → Cells → Heap Node → Heap Node → Type 0
AgreeBut new xs h g = (a : Ptr) → a ≢ new → Apart a xs → g a ≡ h a

-- A segment survives a write elsewhere.
pub Segment-put :
    (h : Heap Node) (xs : Cells) (stop p : Ptr) (n : Node)
    → Apart p xs
    → Segment h xs stop
    → Segment (put h p n) xs stop
Segment-put h [] stop p n out s = tt
Segment-put h ((a, v) ∷ xs) stop p n out s =
    (s.0, ground (arith, put_other h p a n), s.2, Segment-put h xs stop p n out.1 s.3)

-- No cell of the second list has an address of the first.
abbrev pub Disjoint : Cells → Cells → Type 0
Disjoint ys [] = Unit
Disjoint ys ((a, v) ∷ zs) = Apart a ys × Disjoint ys zs

pub Disjoint-nil : (zs : Cells) → Disjoint [] zs
Disjoint-nil [] = tt
Disjoint-nil ((a, v) ∷ zs) = (tt, Disjoint-nil zs)

pub Disjoint-cons :
    (c : Ptr) (v : ℕ) (ys zs : Cells) → Apart c zs → Disjoint ys zs → Disjoint ((c, v) ∷ ys) zs
Disjoint-cons c v ys [] out d = tt
Disjoint-cons c v ys ((a, w) ∷ zs) out d =
    (((λ e. out.0 (sym e)), d.0), Disjoint-cons c v ys zs out.1 d.1)

-- The cell at `c`, with its pointer turned round, in front of the cells `ys`.
pub Segment-turn :
    (h : Heap Node) (c : Ptr) (v : ℕ) (ys : Cells) (stop : Ptr)
    → c ≢ null
    → Apart c ys
    → Segment h ys stop
    → Segment (put h c (node (start ys stop) v)) ((c, v) ∷ ys) stop
Segment-turn h c v ys stop live out s = (
  live,
  put_self h c (node (start ys stop) v),
  out,
  Segment-put h ys stop c (node (start ys stop) v) out s,
)
