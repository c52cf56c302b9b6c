-- ===== src/BTree/Node.antt =====
-- What insertHelper does at one node with a key and a pointer that come up from a child.
use mathlib.Core.Path.{subst}
use mathlib.Core.List.{append_assoc}
use codingforfun.Prelude.{
  ℕ, zero, suc, ◌+◌, ◌-◌, ◌≤◌, ◌<◌, ◌≡◌, refl, ap, ◌∙◌, true, List, ◌∷◌, ◌++◌, ltb, ◌==◌, arith,
  Bool-cases, inl, inr,
}
use codingforfun.Run.{done, ◌>>=◌, Returns, returns, Returns-bind}
use codingforfun.BTree.{
  order, Tree, branch, Outcome, stays, success, insert_it, change, entry, assign, add_key,
  make_room, fill_right, Fresh, split,
}
use codingforfun.BTree.Flat.{flat, fill, flat-ext, flat-wider, wider}
use codingforfun.BTree.Order.{Between}
use codingforfun.BTree.Contents.{
  contents, IsTree, search_pos-Place, Place-Between, Shifted, shift_up-Shifted, children,
  contents-children, kids-children,
}

-- The first three entries of an array.
first_three :
    (P : Tree → Type 0) (p : ℕ → Tree) → P (p 0) → P (p 1) → P (p 2) → (i : ℕ) → i ≤ 2 → P (p i)
first_three P p a b c zero h = a
first_three P p a b c (suc zero) h = b
first_three P p a b c (suc (suc zero)) h = c
first_three P p a b c (suc (suc (suc i))) h = absurd (omega arith)

regroup : (x y z w : List ℕ) (a b : ℕ) → (x ++ a ∷ (y ++ b ∷ z)) ++ w ≡ x ++ a ∷ (y ++ b ∷ (z ++ w))
regroup x y z w a b =
    append_assoc x (a ∷ (y ++ b ∷ z)) w ∙ ap (λ l. x ++ a ∷ l) (append_assoc y (b ∷ z) w)

module _ (least d n pos : ℕ) (keys : ℕ → ℕ) (p : ℕ → Tree) (child : Tree) (k : ℕ) (right : Tree)
    (le : pos ≤ n) (between : Between n pos 0 keys k) (kids : (i : ℕ) → i ≤ n → IsTree 2 d (p i))
    (first : IsTree 2 d child) (second : IsTree 2 d right) where
  -- The list with the keys of the two halves and the one between them in place of the child.
  abbrev pub grown : List ℕ
  grown = fill n pos 0 keys (λ i. contents (p i)) (contents child ++ k ∷ contents right)

  -- Arrays with the new key and the new pointer have its keys.
  flat-grown :
      (keys' : ℕ → ℕ) (p' : ℕ → Tree)
      → ((j : ℕ) → j ≤ n → keys' j ≡ wider keys pos k j)
      → ((j : ℕ) → j ≤ n + 1 → p' j ≡ children n pos p child right le j)
      → flat (suc n) 0 keys' (λ i. contents (p' i)) ≡ grown
  flat-grown keys' p' k_ok p_ok =
      let c : ℕ → List ℕ = λ i. contents (p i) in
      let e : 0 + pos ≡ pos = omega arith in
      flat-ext (suc n) 0 keys' (wider keys pos k) (λ i. contents (p' i))
        (wider (change c pos (contents child)) (pos + 1) (contents right))
        (λ j l h. k_ok j (omega arith))
        (λ j l h. ap contents (p_ok j (omega arith)) ∙ contents-children n pos p child right le j)
      ∙ subst
          (λ q.
            flat (suc n) 0 (wider keys q k)
              (wider (change c q (contents child)) (q + 1) (contents right))
            ≡ grown)
          e (flat-wider n pos 0 keys c k (contents child) (contents right) le)

  abbrev pub Added : Outcome → Type 0
  Added (stays value t) = (value ≡ success) × (contents t ≡ grown) × IsTree least (suc d) t
  Added (insert_it l up r) =
      (contents l ++ up ∷ contents r ≡ grown) × IsTree 2 (suc d) l × IsTree 2 (suc d) r

  write_key-Added :
      (keys1 : ℕ → ℕ) (p1 : ℕ → Tree)
      → least ≤ n
      → n < order - 1
      → Shifted pos n keys (change p pos child) (keys1, p1)
      → Returns Added (
          assign (order - 1) keys1 pos k >>= λ keys2.
          assign order p1 (pos + 1) right >>= λ p2. done (stays success (branch (n + 1) keys2 p2)))
  unfolding assign wider change
  write_key-Added keys1 p1 enough fits s =
      let ok1 : ltb pos (order - 1) ≡ true = ground arith in
      let ok2 : ltb (pos + 1) order ≡ true = ground arith in
      let more : n + 1 ≡ suc n = omega arith in
      let p2 = change p1 (pos + 1) right in
      let key_at : (j : ℕ) → j ≤ n → change keys1 pos k j ≡ wider keys pos k j =
        λ j h. ground (arith, s.0 j) in
      let child_at : (j : ℕ) → j ≤ n + 1 → p2 j ≡ children n pos p child right le j =
        λ j h. ground (arith, s.1 j) in
      rw (ok1, ok2, more)
        (returns (
          refl,
          flat-grown (change keys1 pos k) p2 key_at child_at,
          (
            omega arith,
            omega arith,
            λ i h. rw (child_at i (omega arith)) (
                kids-children n pos p child right le (IsTree 2 d) kids first second i
                  (omega arith)),
          ),
        ))

  pub add_key-Added :
      least ≤ n → n < order - 1 → Returns Added (add_key n keys (change p pos child) k right)
  unfolding add_key
  add_key-Added enough fits = Returns-bind (search_pos-Place k n keys (omega arith)) λ pos' place.
      let same = Place-Between k n pos pos' keys le between place in
      rw same (
        Returns-bind (shift_up-Shifted (n - pos) pos n keys (change p pos child) (omega arith) fits)
          λ (keys1, p1) s. write_key-Added keys1 p1 enough fits s)

  -- What make_room leaves: the first four keys and five pointers, and the last ones beside them.
  abbrev Roomy : ℕ × Tree × (ℕ → ℕ) × (ℕ → Tree) → Type 0
  Roomy (last_key, last_ptr, keys1, p1) =
      ((j : ℕ) → j ≤ 4 → change keys1 4 last_key j ≡ wider keys pos k j)
      × ((j : ℕ) → j ≤ 5 → change p1 5 last_ptr j ≡ children n pos p child right le j)

  at_end-Roomy : pos ≡ 4 → Roomy (k, right, keys, change p pos child)
  unfolding wider change
  at_end-Roomy last = ((λ j h. ground arith), λ j h. ground arith)

  write_room-Roomy :
      (keys1 : ℕ → ℕ) (p1 : ℕ → Tree)
      → pos < 4
      → Shifted pos 3 keys (change p pos child) (keys1, p1)
      → Returns Roomy (
          assign (order - 1) keys1 pos k >>= λ keys2.
          assign order p1 (pos + 1) right >>= λ p2. done (keys 3, change p pos child 4, keys2, p2))
  unfolding assign wider change
  write_room-Roomy keys1 p1 before s =
      let ok1 : ltb pos (order - 1) ≡ true = ground arith in
      let ok2 : ltb (pos + 1) order ≡ true = ground arith in
      rw (ok1, ok2) (returns ((λ j h. ground (arith, s.0 j)), λ j h. ground (arith, s.1 j)))

  make_room-Roomy : n ≡ 4 → Returns Roomy (make_room pos keys (change p pos child) k right)
  unfolding make_room entry
  make_room-Roomy full = elim (Bool-cases (pos == order - 1)) [
    | inl last ↦ rw last (returns (at_end-Roomy (ground arith)))
    | inr before ↦ rw before (
        Returns-bind
          (shift_up-Shifted (3 - pos) pos 3 keys (change p pos child) (ground arith) (omega arith))
          λ (keys1, p1) s. write_room-Roomy keys1 p1 (ground arith) s)
  ]

  -- The keys of the two halves of a full node.
  halves :
      (last_key : ℕ) (last_ptr : Tree) (keys1 keys2 : ℕ → ℕ) (p1 p2 : ℕ → Tree)
      → n ≡ 4
      → Roomy (last_key, last_ptr, keys1, p1)
      → (keys2 0 ≡ keys1 3) × (keys2 1 ≡ last_key)
      → (p2 0 ≡ p1 3) × (p2 1 ≡ p1 4) × (p2 2 ≡ last_ptr)
      → Added (insert_it (branch 2 keys1 p1) (keys1 2) (branch 2 keys2 p2))
  unfolding change
  halves last_key last_ptr keys1 keys2 p1 p2 full r ks ps =
      let kid : (j : ℕ) → j ≤ 5 → IsTree 2 d (change p1 5 last_ptr j) = λ j h.
        rw (r.1 j h)
          (kids-children n pos p child right le (IsTree 2 d) kids first second j (omega arith)) in
      let whole =
        flat-grown (change keys1 4 last_key) (change p1 5 last_ptr) (λ j h. r.0 j (omega arith))
          (λ j h. r.1 j (omega arith)) in
      let five : suc n ≡ 5 = omega arith in
      let listed =
        subst
          (λ m. flat m 0 (change keys1 4 last_key) (λ i. contents (change p1 5 last_ptr i)) ≡ grown)
          five whole in
      let right_part =
        contents (p1 3) ++ keys1 3 ∷ (contents (p1 4) ++ last_key ∷ contents last_ptr) in
      (
        rw (ks.0, ks.1, ps.0, ps.1, ps.2)
            (regroup (contents (p1 0)) (contents (p1 1)) (contents (p1 2)) (keys1 2 ∷ right_part)
                (keys1 0) (keys1 1)
              ∙ listed),
        (
          omega arith,
          omega arith,
          first_three (IsTree 2 d) p1 (kid 0 (omega arith)) (kid 1 (omega arith))
              (kid 2 (omega arith)),
        ),
        (
          omega arith,
          omega arith,
          first_three (IsTree 2 d) p2 (rw ps.0 (kid 3 (omega arith)))
              (rw ps.1 (kid 4 (omega arith))) (rw ps.2 (kid 5 (omega arith))),
        ),
      )

  pub split-Added :
      (fresh : Fresh) → n ≡ 4 → Returns Added (split fresh pos keys (change p pos child) k right)
  unfolding split fill_right entry assign change
  split-Added fresh full = Returns-bind (make_room-Roomy full) λ (last_key, last_ptr, keys1, p1) r.
      returns (
        halves last_key last_ptr keys1 (change (change fresh.keys 0 (keys1 3)) 1 last_key) p1
          (change (change (change fresh.p 0 (p1 3)) 1 (p1 4)) 2 last_ptr) full r (refl, refl)
          (refl, refl, refl))
