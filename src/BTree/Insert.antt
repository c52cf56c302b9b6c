-- ===== src/BTree/Insert.antt =====
-- insert keeps a B-tree a B-tree and adds the key at its place, unless the tree has it.
use mathlib.Core.Path.{subst}
use codingforfun.Prelude.{
  ℕ, zero, suc, ◌+◌, ◌-◌, ◌≤◌, ◌<◌, ◌≡◌, ◌⊎◌, refl, sym, ap, ◌∙◌, true, List, [], ◌∷◌, ◌++◌, ltb,
  ◌==◌, if◌then◌else◌, arith, Bool-cases, inl, inr,
}
use codingforfun.Run.{fault, ◌>>=◌, Returns, returns, Returns-mono, Returns-bind, Returns-if}
use codingforfun.Ascending.{Ascends}
use codingforfun.BTree.{
  order, Tree, empty, branch, duplicate, search_failure, success, less_keys, Outcome, stays,
  insert_it, change, entry, Fresh, go_back, insert_helper, new_root, insert,
}
use codingforfun.BTree.Flat.{flat, fill, fill_same, flat-ext, flat-change}
use codingforfun.BTree.Order.{
  Inserted, Has, Between, fill-Inserted, fill-Between, Inserted-Ascends, Ascends-child, fill-Has,
  flat-Has,
}
use codingforfun.BTree.Contents.{contents, IsTree, search_pos-Place, kids-change}
use codingforfun.BTree.Node.{Added, add_key-Added, split-Added}

-- What insertHelper has done to a tree of a height with some keys.
abbrev Post : ℕ → ℕ → ℕ → List ℕ → Outcome → Type 0
Post key least d old (stays duplicate t) = (contents t ≡ old) × Has key old × IsTree least d t
Post key least d old (stays success t) = Inserted key old (contents t) × IsTree least d t
Post key least d old (stays search_failure t) = ⊥
Post key least d old (stays less_keys t) = ⊥
Post key least d old (insert_it l up r) =
    Inserted key old (contents l ++ up ∷ contents r) × IsTree 2 d l × IsTree 2 d r

module _ (least d n pos key : ℕ) (keys : ℕ → ℕ) (p : ℕ → Tree) (le : pos ≤ n) (enough : least ≤ n)
    (fits : n < order) (kids : (i : ℕ) → i ≤ n → IsTree 2 d (p i))
    (ascends : Ascends (flat n 0 keys (λ i. contents (p i))))
    (between : Between n pos 0 keys key) where
  -- The keys of the node once those of the child are `mid`.
  abbrev filled : List ℕ → List ℕ
  filled mid = fill n pos 0 keys (λ i. contents (p i)) mid

  start : 0 + pos ≡ pos
  start = omega arith

  contents-change :
      (child : Tree) → contents (branch n keys (change p pos child)) ≡ filled (contents child)
  unfolding change
  contents-change child =
      let c : ℕ → List ℕ = λ i. contents (p i) in
      flat-ext n 0 keys keys (λ i. contents (change p pos child i)) (change c pos (contents child))
        (λ j l h. refl)
        (λ j l h. elim (Bool-cases (j == pos)) [
          | inl same ↦ rw same refl
          | inr other ↦ rw other refl
        ])
      ∙ subst (λ q. flat n 0 keys (change c q (contents child)) ≡ filled (contents child)) start
          (flat-change n pos 0 keys c (contents child) le)

  filled-Inserted :
      (mid : List ℕ)
      → Inserted key (contents (p pos)) mid
      → Inserted key (flat n 0 keys (λ i. contents (p i))) (filled mid)
  filled-Inserted mid ins =
      fill-Inserted n pos 0 keys (λ i. contents (p i)) mid key le ascends between
        (subst (λ q. Inserted key (contents (p q)) mid) (sym start) ins)

  filled_same : filled (contents (p pos)) ≡ flat n 0 keys (λ i. contents (p i))
  filled_same =
      subst (λ q. filled (contents (p q)) ≡ flat n 0 keys (λ i. contents (p i))) start
        (fill_same n pos 0 keys (λ i. contents (p i)) le)

  Added-Post :
      (child right : Tree) (k : ℕ) (around : Between n pos 0 keys k) (first : IsTree 2 d child)
      (second : IsTree 2 d right) (out : Outcome)
      → Inserted key
          (flat n 0 keys (λ i. contents (p i)))
          (filled (contents child ++ k ∷ contents right))
      → Added least d n pos keys p child k right le around kids first second out
      → Post key least (suc d) (flat n 0 keys (λ i. contents (p i))) out
  Added-Post child right k around first second (stays value t) ins (e, same, is) =
      rw e (subst (Inserted key (flat n 0 keys (λ i. contents (p i)))) (sym same) ins, is)
  Added-Post child right k around first second (insert_it l up r) ins (same, one, two) =
      (subst (Inserted key (flat n 0 keys (λ i. contents (p i)))) (sym same) ins, one, two)

  go_back-Post :
      (fresh : Fresh) (out : Outcome)
      → Post key 2 d (contents (p pos)) out
      → Returns
          (Post key least (suc d) (flat n 0 keys (λ i. contents (p i))))
          (go_back fresh n pos keys p out)
  unfolding go_back
  go_back-Post fresh (stays duplicate child) (e, has, is) =
      let same = ap filled e ∙ filled_same in
      returns (
        contents-change child ∙ same,
        subst (Has key) filled_same
            (fill-Has n pos 0 keys (λ i. contents (p i)) (contents (p pos)) key has),
        (enough, fits, kids-change n pos p child child le (IsTree 2 d) kids is),
      )
  go_back-Post fresh (stays success child) (ins, is) = returns (
    subst (Inserted key (flat n 0 keys (λ i. contents (p i)))) (sym (contents-change child))
        (filled-Inserted (contents child) ins),
    (enough, fits, kids-change n pos p child child le (IsTree 2 d) kids is),
  )
  go_back-Post fresh (stays search_failure child) post = absurd post
  go_back-Post fresh (stays less_keys child) post = absurd post
  go_back-Post fresh (insert_it child new_key new_ptr) (ins, first, second) =
      let mid = contents child ++ new_key ∷ contents new_ptr in
      let here = filled-Inserted mid ins in
      let up : Ascends (filled mid) =
        Inserted-Ascends key (flat n 0 keys (λ i. contents (p i))) (filled mid) here ascends in
      let around =
        fill-Between n pos 0 keys (λ i. contents (p i)) new_key (contents child) (contents new_ptr)
          le up in
      let weaken = Added-Post child new_ptr new_key around first second in
      Returns-if (ltb n (order - 1))
        (λ room.
          Returns-mono
            (add_key-Added least d n pos keys p child new_key new_ptr le around kids first second
              enough (ground arith))
            λ out a. weaken out here a)
        (λ full.
          Returns-mono
            (split-Added least d n pos keys p child new_key new_ptr le around kids first second
              fresh (ground arith))
            λ out a. weaken out here a)

-- insertHelper does so on every tree that has its shape and order.
insert_helper-Post :
    (fresh : Fresh) (key least d : ℕ) (t : Tree)
    → IsTree least d t
    → Ascends (contents t)
    → Returns (Post key least d (contents t)) (insert_helper fresh key t)
unfolding insert_helper entry
insert_helper-Post fresh key least zero empty is a = returns (([], [], refl, refl, tt, tt), tt, tt)
insert_helper-Post fresh key least (suc d) empty is a = absurd is
insert_helper-Post fresh key least zero (branch n keys p) is a = absurd is
insert_helper-Post fresh key least (suc d) (branch n keys p) (enough, fits, kids) a =
    Returns-bind (search_pos-Place key n keys fits) λ pos place.
      let le : pos ≤ n = place.0 in
      let c : ℕ → List ℕ = λ i. contents (p i) in
      let start : 0 + pos ≡ pos = omega arith in
      let in_child =
        insert_helper-Post fresh key 2 d (p pos) (kids pos le)
          (subst (λ q. Ascends (c q)) start (Ascends-child n pos 0 keys c le a)) in
      let in_range : ltb pos order ≡ true = ground arith in
      let descend : (pos < n → key < keys pos)
          → Returns (Post key least (suc d) (flat n 0 keys c)) (
              (if ltb pos order then insert_helper fresh key (p pos) else fault)
              >>= go_back fresh n pos keys p) =
        λ above.
          let between : Between n pos 0 keys key = (
            (λ j l h. place.1 j (omega arith)),
            λ h. subst (λ q. key < keys q) (sym start) (above h),
          ) in
          rw in_range (
            Returns-bind in_child
              (go_back-Post least d n pos key keys p le enough fits kids a between fresh)) in
      elim (Bool-cases (ltb pos n)) [
        | inl inside ↦
            let ok : ltb pos (order - 1) ≡ true = ground arith in
            rw (inside, ok)
              (elim (Bool-cases (key == keys pos)) [
                | inl same ↦
                    let e : keys (0 + pos) ≡ key = ap keys start ∙ ground arith in
                    rw same (
                      returns (
                        refl,
                        subst (λ k. Has k (flat n 0 keys c)) e
                            (flat-Has n pos 0 keys c (ground arith)),
                        (enough, fits, kids),
                      ))
                | inr other ↦ rw other (descend λ h. let at_most = place.2 h in ground arith)
              ])
        | inr end ↦ rw end (descend λ h. absurd (ground arith))
      ]

first_two : (P : Tree → Type 0) (p : ℕ → Tree) → P (p 0) → P (p 1) → (i : ℕ) → i ≤ 1 → P (p i)
first_two P p a b zero h = a
first_two P p a b (suc zero) h = b
first_two P p a b (suc (suc i)) h = absurd (omega arith)

-- A B-tree of a height, whose root has a key at least and whose keys ascend.
abbrev pub IsBTree : ℕ → Tree → Type 0
IsBTree d t = IsTree 1 d t × Ascends (contents t)

-- What insert leaves of a tree with some keys: a B-tree, at most one level higher, with the key
-- added at its place, or with the old keys if it was there.
abbrev pub GrownTree : ℕ → ℕ → List ℕ → Tree → Type 0
GrownTree key d old t =
    (IsBTree d t ⊎ IsBTree (suc d) t)
    × ((Has key old × (contents t ≡ old)) ⊎ Inserted key old (contents t))

-- insert on a B-tree ends without an access outside a node, and leaves a B-tree, at most one level
-- higher, with the key added at its place, or with the old keys if it was there.
pub insert-GrownTree :
    (fresh : Fresh) (key d : ℕ) (t : Tree)
    → IsBTree d t
    → Returns (GrownTree key d (contents t)) (insert fresh key t)
unfolding insert new_root change
insert-GrownTree fresh key d t (is, a) =
    Returns-bind (insert_helper-Post fresh key 1 d t is a) λ out post. returns (above out post)
  where
    above :
        (out : Outcome)
        → Post key 1 d (contents t) out
        → GrownTree key d (contents t) (new_root fresh out)
    above (stays duplicate t') (e, has, is') = (inl (is', subst Ascends (sym e) a), inl (has, e))
    above (stays success t') (ins, is') =
        (inl (is', Inserted-Ascends key (contents t) (contents t') ins a), inr ins)
    above (stays search_failure t') post = absurd post
    above (stays less_keys t') post = absurd post
    above (insert_it l up r) (ins, one, two) =
        let root = new_root fresh (insert_it l up r) in
        let two_children = first_two (IsTree 2 d) (change (change fresh.p 0 l) 1 r) one two in
        (
          inr (
            (omega arith, omega arith, two_children),
            Inserted-Ascends key (contents t) (contents root) ins a,
          ),
          inr ins,
        )
