-- ===== src/Sorting.antt =====
-- sorting.c: seven sorting routines over `int` arrays. This file has the two notions that their
-- theorems share and `swap`; each routine is a child module.
--
-- The routines only compare and copy the values, so an `int` v is the number v + 2^31. A routine
-- takes the array and the size that the caller passes, and returns the array that it leaves.
pub mod Bubble
pub mod Heap
pub mod Insertion
pub mod Merge
pub mod Quick
pub mod Selection
pub mod Shell
mod Simple
mod Tests
use native.Mathlib.Decide.{ℕ_discrete}
use codingforfun.Prelude.{
  Perm, SameItems-perm, ℕ, ◌+◌, ◌≤◌, ◌<◌, ◌≡◌, refl, List, arith, length, length-set, get_or-set,
  set, SameItems, get_or,
}
use codingforfun.Run.{Run, done, ◌>>=◌}
use codingforfun.Array
use codingforfun.Array.{load, store, load-done, store-done, at, exchange}

-- Every earlier entry is at most every later one.
abbrev pub IsSorted : List ℕ → Type 0
IsSorted a = (i j : ℕ) → i ≤ j → j < length a → at a i ≤ at a j

-- `b` has the length and the entries of `a`.
pub record Rearranges (a b : List ℕ) : Type 0 where
  pub size : length b ≡ length a
  pub items : SameItems b a

-- What a sorting routine owes: a rearrangement of the entries, in ascending order.
abbrev pub Sorts : List ℕ → List ℕ → Type 0
Sorts a b = Perm b a × IsSorted b

unfoldable pub swap : List ℕ → ℕ → ℕ → Run (List ℕ)
swap a i j = do temp ← load a i; v ← load a j; b ← store a i v; store b j temp

pub Rearranges-refl : (a : List ℕ) → Rearranges a a
Rearranges-refl a = record { size = refl; items = λ w. refl }

pub Rearranges-perm : {a b : List ℕ} → Rearranges a b → Perm b a
Rearranges-perm {a} {b} r = SameItems-perm ℕ_discrete b a r.items

pub Rearranges-trans : {a b c : List ℕ} → Rearranges a b → Rearranges b c → Rearranges a c
Rearranges-trans p q = record {
  size = omega (arith, p.size, q.size);
  items = λ w. omega (arith, p.items w, q.items w);
}

module _ (a : List ℕ) (i j : ℕ) (hi : i < length a) (hj : j < length a) where
  pub swap-done : swap a i j ≡ done (exchange a i j)
  unfolding swap exchange
  swap-done = rw (
    load-done 0 a i hi,
    load-done 0 a j hj,
    store-done a i (at a j) hi,
    store-done (set a i (at a j)) j (at a i) (omega (arith, length-set a i (at a j))),
  )

  pub exchange-Rearranges : Rearranges a (exchange a i j)
  exchange-Rearranges = record {
    size = Array.length-exchange a i j;
    items = Array.exchange-SameItems a i j hi hj;
  }
