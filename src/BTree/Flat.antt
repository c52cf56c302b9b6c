-- ===== src/BTree/Flat.antt =====
-- The keys of a node and of its children in order, and what becomes of them when one child or the
-- arrays change.
use mathlib.Core.List.{append-nil, append_assoc}
use codingforfun.BTree.{change}
use codingforfun.Prelude.{
  true, false, ==_refl, ℕ, zero, suc, ◌+◌, ◌-◌, ◌≤◌, ◌<◌, ◌≡◌, refl, sym, List, [], ◌∷◌, ◌++◌, ltb,
  ◌==◌, if◌then◌else◌, arith,
}

-- `r` keys from index `i` on, and the children `c` around them.
abbrev pub flat : ℕ → ℕ → (ℕ → ℕ) → (ℕ → List ℕ) → List ℕ
flat zero i keys c = c i
flat (suc r) i keys c = c i ++ keys i ∷ flat r (i + 1) keys c

-- What stands behind child `i`.
abbrev pub tail : ℕ → ℕ → (ℕ → ℕ) → (ℕ → List ℕ) → List ℕ
tail zero i keys c = []
tail (suc r) i keys c = keys i ∷ flat r (i + 1) keys c

-- The list with `mid` in place of child `q` from `i` on.
abbrev pub fill : ℕ → ℕ → ℕ → (ℕ → ℕ) → (ℕ → List ℕ) → List ℕ → List ℕ
fill r zero i keys c mid = mid ++ tail r i keys c
fill zero (suc q) i keys c mid = mid
fill (suc r) (suc q) i keys c mid = c i ++ keys i ∷ fill r q (i + 1) keys c mid

pub flat-ext :
    (r i : ℕ) (keys keys' : ℕ → ℕ) (c c' : ℕ → List ℕ)
    → ((j : ℕ) → i ≤ j → j < i + r → keys j ≡ keys' j)
    → ((j : ℕ) → i ≤ j → j ≤ i + r → c j ≡ c' j)
    → flat r i keys c ≡ flat r i keys' c'
flat-ext zero i keys keys' c c' k e = e i (omega arith) (omega arith)
flat-ext (suc r) i keys keys' c c' k e =
    rw
      (
        e i (omega arith) (omega arith),
        k i (omega arith) (omega arith),
        flat-ext r (i + 1) keys keys' c c' (λ j l h. k j (omega arith) (omega arith))
            (λ j l h. e j (omega arith) (omega arith)),
      )
      refl

-- The list with what stands at a child anyway.
pub fill_same :
    (r q i : ℕ) (keys : ℕ → ℕ) (c : ℕ → List ℕ)
    → q ≤ r
    → fill r q i keys c (c (i + q)) ≡ flat r i keys c
fill_same zero zero i keys c le = let e : i + 0 ≡ i = omega arith in rw e (append-nil (c i))
fill_same (suc r) zero i keys c le = let e : i + 0 ≡ i = omega arith in rw e refl
fill_same zero (suc q) i keys c le = absurd (omega arith)
fill_same (suc r) (suc q) i keys c le =
    let e : i + suc q ≡ i + 1 + q = omega arith in
    rw (e, fill_same r q (i + 1) keys c (omega arith)) refl

-- The list of a node with one child changed.
pub flat-change :
    (r q i : ℕ) (keys : ℕ → ℕ) (c : ℕ → List ℕ) (mid : List ℕ)
    → q ≤ r
    → flat r i keys (change c (i + q) mid) ≡ fill r q i keys c mid
unfolding change
flat-change zero zero i keys c mid le =
    let e : i + 0 ≡ i = omega arith in rw (e, ==_refl i) (sym (append-nil mid))
flat-change (suc r) zero i keys c mid le =
    let e : i + 0 ≡ i = omega arith in
    rw
      (
        e,
        ==_refl i,
        flat-ext r (i + 1) keys keys (change c i mid) c (λ j l h. refl) (λ j l h. ground arith),
      )
      refl
flat-change zero (suc q) i keys c mid le = absurd (omega arith)
flat-change (suc r) (suc q) i keys c mid le =
    let e : i + suc q ≡ i + 1 + q = omega arith in
    let other : (i == i + 1 + q) ≡ false = ground arith in
    rw (e, other, flat-change r q (i + 1) keys c mid (omega arith)) refl

-- An array with a new entry at `pos` and those from there on moved up.
unfoldable pub wider {ℓ} : {A : Type ℓ} → (ℕ → A) → ℕ → A → ℕ → A
wider a pos v j = if ltb j pos then a j else if j == pos then v else a (j - 1)

flat-shifted :
    (r i : ℕ) (keys keys' : ℕ → ℕ) (c c' : ℕ → List ℕ)
    → ((j : ℕ) → i ≤ j → keys' (j + 1) ≡ keys j)
    → ((j : ℕ) → i ≤ j → c' (j + 1) ≡ c j)
    → flat r (i + 1) keys' c' ≡ flat r i keys c
flat-shifted zero i keys keys' c c' k e = e i (omega arith)
flat-shifted (suc r) i keys keys' c c' k e =
    rw
      (
        e i (omega arith),
        k i (omega arith),
        flat-shifted r (i + 1) keys keys' c c' (λ j l. k j (omega arith))
            (λ j l. e j (omega arith)),
      )
      refl

-- The list of a node with child `q` split in two around a new key.
pub flat-wider :
    (r q i : ℕ) (keys : ℕ → ℕ) (c : ℕ → List ℕ) (k : ℕ) (xs ys : List ℕ)
    → q ≤ r
    → flat (suc r) i (wider keys (i + q) k) (wider (change c (i + q) xs) (i + q + 1) ys)
      ≡ fill r q i keys c (xs ++ k ∷ ys)
unfolding wider change
flat-wider zero zero i keys c k xs ys le =
    let e : i + 0 ≡ i = omega arith in
    let first : wider (change c i xs) (i + 1) ys i ≡ xs = ground arith in
    let mine : wider keys i k i ≡ k = ground arith in
    let second : wider (change c i xs) (i + 1) ys (i + 1) ≡ ys = ground arith in
    rw (e, first, mine, second, append-nil (xs ++ k ∷ ys)) refl
flat-wider (suc r) zero i keys c k xs ys le =
    let e : i + 0 ≡ i = omega arith in
    let first : wider (change c i xs) (i + 1) ys i ≡ xs = ground arith in
    let mine : wider keys i k i ≡ k = ground arith in
    let second : wider (change c i xs) (i + 1) ys (i + 1) ≡ ys = ground arith in
    let next : wider keys i k (i + 1) ≡ keys i = ground arith in
    let rest =
      flat-shifted r (i + 1) keys (wider keys i k) c (wider (change c i xs) (i + 1) ys)
        (λ j l. ground arith) (λ j l. ground arith) in
    rw
      (
        e,
        first,
        mine,
        second,
        next,
        rest,
        append_assoc xs (k ∷ ys) (keys i ∷ flat r (i + 1) keys c),
      )
      refl
flat-wider zero (suc q) i keys c k xs ys le = absurd (omega arith)
flat-wider (suc r) (suc q) i keys c k xs ys le =
    let e : i + suc q ≡ i + 1 + q = omega arith in
    let below : ltb i (i + 1 + q + 1) ≡ true = ground arith in
    let below_key : ltb i (i + 1 + q) ≡ true = ground arith in
    let other : (i == i + 1 + q) ≡ false = ground arith in
    rw (e, below, below_key, other, flat-wider r q (i + 1) keys c k xs ys (omega arith)) refl
