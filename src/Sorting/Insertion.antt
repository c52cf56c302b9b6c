-- ===== src/Sorting/Insertion.antt =====
-- insertionsort of sorting.c. The body names the array `seq` where the parameter is called
-- `sequence`; it is read as the parameter.
use mathlib.Core.List.Perm
use codingforfun.Prelude.{
  ℕ, zero, suc, ◌+◌, ◌-◌, ◌≤◌, ◌<◌, ◌≡◌, ◌≢◌, List, arith, ltb, if◌then◌else◌, length, set,
  length-set, get_or-set, tally, tally-set,
}
use native.Mathlib.Decide.{dec_lt}
use native.Mathlib.Numerals.{add-one}
use codingforfun.Run.{
  Run, ◌>>=◌, Returns, returns, Returns-mono, Returns-if, for_up, for_up-Returns,
}
use codingforfun.Array.{load, store, load-done, store-done, at}
use codingforfun.Sorting.{Sorts, Rearranges, Rearranges-refl, Rearranges-perm}

-- The `while` and the write that follows it. The last argument is `k + 1`, the free place.
unfoldable pub shift : ℕ → ℕ → List ℕ → Run (List ℕ)
shift element zero a = store a 0 element
shift element (suc k) a = do
  v ← load a k
  if ltb element v then store a (k + 1) v >>= shift element k else store a (k + 1) element

unfoldable pub insertionsort : List ℕ → ℕ → Run (List ℕ)
unfolding shift for_up
insertionsort a size = for_up (size - 1) 1 (λ i b. do element ← load b i; shift element i b) a

-- The first `n` entries ascend.
abbrev SortedBelow : ℕ → List ℕ → Type 0
SortedBelow n a = (i j : ℕ) → i ≤ j → j < n → at a i ≤ at a j

-- Among the first `n` entries the one at `hole` is free: the others ascend, and those behind it
-- are above `element`.
record Gap (element hole n : ℕ) (a : List ℕ) : Type 0 where
  inside : hole < n
  size : n ≤ length a
  ascends : (i j : ℕ) → i ≤ j → j < n → i ≢ hole → j ≢ hole → at a i ≤ at a j
  above : (j : ℕ) → hole < j → j < n → element ≤ at a j

-- What `shift` returns: an array with `element` in place of the free entry.
record Filled (element hole n : ℕ) (a b : List ℕ) : Type 0 where
  size : length b ≡ length a
  items : (w : ℕ → ℕ) → tally w b + w (at a hole) ≡ tally w a + w element
  ascends : SortedBelow n b

store-Filled :
    (element hole n : ℕ) (a : List ℕ)
    → Gap element hole n a
    → ((i : ℕ) → i < hole → at a i ≤ element)
    → Filled element hole n a (set a hole element)
store-Filled element hole n a g below =
    let inside = g.inside in
    let size = g.size in
    record {
      size = length-set a hole element;
      items = λ w. tally-set w a hole element 0 (omega arith);
      ascends = λ i j p q. ground (
        arith,
        get_or-set a hole i element 0,
        get_or-set a hole j element 0,
        g.ascends i j,
        g.above j,
        below i,
      );
    }

shift-Filled :
    (element hole n : ℕ) (a : List ℕ)
    → Gap element hole n a
    → Returns (Filled element hole n a) (shift element hole a)
unfolding shift
shift-Filled element zero n a g =
    let inside = g.inside in
    let size = g.size in
    rw (store-done a 0 element (omega arith))
      (returns (store-Filled element 0 n a g (λ i h. absurd (omega arith))))
shift-Filled element (suc k) n a g =
    let inside = g.inside in
    let size = g.size in
    rw (load-done 0 a k (omega arith)) (
      Returns-if (ltb element (at a k))
        (λ more. rw (store-done a (k + 1) (at a k) (omega arith)) (
          Returns-mono (shift-Filled element k n (set a (k + 1) (at a k)) (moved (ground arith)))
            λ b f. record {
              size = omega (arith, f.size, length-set a (k + 1) (at a k));
              items = λ w. ground (
                arith,
                f.items w,
                tally-set w a (k + 1) (at a k) 0,
                get_or-set a (k + 1) k (at a k) 0,
              );
              ascends = f.ascends;
            }))
        (λ less.
          rw (store-done a (k + 1) element (omega arith), add-one k)
            (returns (store-Filled element (suc k) n a g λ i h. ground (arith, g.ascends i k)))))
  where
    moved : element < at a k → Gap element k n (set a (k + 1) (at a k))
    moved less = record {
      inside = omega arith;
      size = omega (arith, length-set a (k + 1) (at a k), g.size);
      ascends = λ i j p q r s. ground (
        arith,
        get_or-set a (k + 1) i (at a k) 0,
        get_or-set a (k + 1) j (at a k) 0,
        g.ascends i j,
        g.ascends i k,
        g.ascends k j,
        g.size,
      );
      above = λ j p q. ground (arith, get_or-set a (k + 1) j (at a k) 0, g.above j, g.size);
    }

module _ (a : List ℕ) where
  -- Before round `n` the first `n` entries ascend.
  record Prefix (n : ℕ) (b : List ℕ) : Type 0 where
    kept : Rearranges a b
    ascends : SortedBelow n b

  Filled-Prefix :
      (i : ℕ) (b c : List ℕ) → Rearranges a b → Filled (at b i) i (i + 1) b c → Prefix (i + 1) c
  Filled-Prefix i b c kept f = record {
    kept = record {
      size = omega (arith, kept.size, f.size);
      items = λ w. omega (arith, kept.items w, f.items w);
    };
    ascends = f.ascends;
  }

  round-Prefix :
      (i : ℕ) (b : List ℕ)
      → i < length a
      → Prefix i b
      → Returns (Prefix (i + 1)) (load b i >>= λ element. shift element i b)
  round-Prefix i b h v =
      let size = v.kept.size in
      rw (load-done 0 b i (omega arith)) (
        Returns-mono
          (shift-Filled (at b i) i (i + 1) b (record {
            inside = omega arith;
            size = omega arith;
            ascends = λ j k p q r s. v.ascends j k p (omega arith);
            above = λ j p q. absurd (omega arith);
          }))
          (λ c f. Filled-Prefix i b c v.kept f))

  -- insertionsort never reads or writes outside the array, ends, and leaves the entries of the
  -- array in ascending order.
  pub insertionsort-Sorts : Returns (Sorts a) (insertionsort a (length a))
  unfolding insertionsort
  insertionsort-Sorts = elim (dec_lt 0 (length a)) [
    | yes some_entry ↦
        Returns-mono
          (for_up-Returns Prefix (λ i b. load b i >>= λ element. shift element i b) (length a - 1) 1
            (length a) a (omega arith) (λ i b lo hi v. round-Prefix i b hi v)
            (record { kept = Rearranges-refl a; ascends = λ i j p q. ground arith }))
          (λ b v. (Rearranges-perm v.kept, λ i j p q. v.ascends i j p (omega (arith, v.kept.size))))
    | no empty ↦
        let none_left : length a - 1 ≡ 0 = omega arith in
        rw none_left (returns (Perm.refl a, λ i j p q. absurd (omega arith)))
  ]
