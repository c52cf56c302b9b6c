-- ===== src/SingleList/Order.antt =====
-- insert_single keeps an ascending list ascending.
use mathlib.Core.List.Perm
use codingforfun.Prelude.{
  ℕ, ◌<◌, ◌≤◌, ◌≢◌, List, [], ◌∷◌, Perm, ltb, arith, length, Bool-cases, inl, inr,
}
use codingforfun.Run.{Returns, Returns-mono}
use codingforfun.Memory.{Ptr, null, Heap}
use codingforfun.SingleList.{Node, insert_single}
use codingforfun.SingleList.Segment.{Cells, start, Apart, Segment, AgreeBut}
use codingforfun.SingleList.Insert.{IsList, insert_behind, insert_sorted, insert_single-Holds}

abbrev pub values : Cells → List ℕ
values [] = []
values ((a, v) ∷ xs) = v ∷ values xs

-- Each value is at most those behind it.
abbrev pub From : ℕ → Cells → Type 0
From m [] = Unit
From m ((a, v) ∷ xs) = (m ≤ v) × From v xs

abbrev pub Ascends : Cells → Type 0
Ascends [] = Unit
Ascends ((a, v) ∷ xs) = From v xs

insert_behind-From :
    (new : Ptr) (value m : ℕ) (xs : Cells)
    → m ≤ value
    → From m xs
    → From m (insert_behind new value xs)
insert_behind-From new value m [] h f = (h, tt)
insert_behind-From new value m ((a, v) ∷ xs) h f = elim (Bool-cases (ltb v value)) [
  | inl low ↦ rw low (f.0, insert_behind-From new value v xs (ground arith) f.1)
  | inr high ↦ rw high (h, (ground arith, f.1))
]

insert_sorted-Ascends :
    (new : Ptr) (value : ℕ) (xs : Cells) → Ascends xs → Ascends (insert_sorted new value xs)
insert_sorted-Ascends new value [] f = tt
insert_sorted-Ascends new value ((a, v) ∷ xs) f = elim (Bool-cases (ltb value v)) [
  | inl front ↦ rw front (ground arith, f)
  | inr behind ↦ rw behind (insert_behind-From new value v xs (ground arith) f)
]

insert_behind-perm :
    (new : Ptr) (value : ℕ) (xs : Cells)
    → Perm (values (insert_behind new value xs)) (value ∷ values xs)
insert_behind-perm new value [] = Perm.refl _
insert_behind-perm new value ((a, v) ∷ xs) = elim (Bool-cases (ltb v value)) [
  | inl low ↦
      rw low
        (Perm.trans (Perm.cons v (insert_behind-perm new value xs)) (Perm.swap value v (values xs)))
  | inr high ↦ rw high (Perm.refl _)
]

insert_sorted-perm :
    (new : Ptr) (value : ℕ) (xs : Cells)
    → Perm (values (insert_sorted new value xs)) (value ∷ values xs)
insert_sorted-perm new value [] = Perm.refl _
insert_sorted-perm new value ((a, v) ∷ xs) = elim (Bool-cases (ltb value v)) [
  | inl front ↦ rw front (Perm.refl _)
  | inr behind ↦
      rw behind
        (Perm.trans (Perm.cons v (insert_behind-perm new value xs)) (Perm.swap value v (values xs)))
]

-- An ascending list of the old values and the new one, in a heap that has changed nowhere else.
abbrev pub Inserted : Ptr → ℕ → Cells → Heap Node → Ptr × Heap Node → Type 0
Inserted new value old h (list, g) =
    (ys : Cells) × IsList g list ys
    × Ascends ys
    × Perm (values ys) (value ∷ values old)
    × AgreeBut new old h g

-- insert_single on an ascending list that ends in NULL, with a new node that is none of its cells,
-- ends without an access to anything but its nodes, and leaves an ascending list of the old values
-- and the new one; no address but those of its nodes has changed.
pub insert_single-Inserted :
    (fuel : ℕ) (new : Ptr) (xs : Cells) (value : ℕ) (h : Heap Node)
    → length xs < fuel
    → new ≢ null
    → Apart new xs
    → Segment h xs null
    → Ascends xs
    → Returns (Inserted new value xs h) (insert_single fuel new (start xs null) value h)
insert_single-Inserted fuel new xs value h enough live out s up =
    Returns-mono (insert_single-Holds fuel new xs value h enough live out s) λ (list, g) r. (
      insert_sorted new value xs,
      r.0,
      insert_sorted-Ascends new value xs up,
      insert_sorted-perm new value xs,
      r.1,
    )
