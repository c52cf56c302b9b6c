-- ===== src/Array.antt =====
-- C arrays as lists: reads and writes that fault outside the array, the exchange of two entries,
-- and what they do to each entry and to the sums over the array.
use codingforfun.Prelude.{
  ℕ, ◌<◌, ◌≡◌, List, arith, ◌==◌, if◌then◌else◌, length, get_elem?, get_or, set, length-set,
  get_elem?-get_or, get_or-set, SameItems, tally-set, ltb,
}
use codingforfun.Run.{Run, done, fault, or_fault}

module _ {ℓ} {A : Type ℓ} where
  -- `a[i]`
  unfoldable pub load : List A → ℕ → Run A
  load a i = or_fault (get_elem? a i)

  -- `a[i] = v`
  unfoldable pub store : List A → ℕ → A → Run (List A)
  store a i v = if ltb i (length a) then done (set a i v) else fault

  pub load-done : (d : A) (a : List A) (i : ℕ) → i < length a → load a i ≡ done (get_or a i d)
  unfolding load
  load-done d a i h = rw (get_elem?-get_or a i d h)

  pub store-done : (a : List A) (i : ℕ) (v : A) → i < length a → store a i v ≡ done (set a i v)
  unfolding store
  store-done a i v h = ground arith

abbrev pub at : List ℕ → ℕ → ℕ
at a i = get_or a i 0

-- The array with the entries at `i` and `j` exchanged.
unfoldable pub exchange : List ℕ → ℕ → ℕ → List ℕ
exchange a i j = set (set a i (at a j)) j (at a i)

pub length-exchange : (a : List ℕ) (i j : ℕ) → length (exchange a i j) ≡ length a
unfolding exchange
length-exchange a i j =
    omega (arith, length-set (set a i (at a j)) j (at a i), length-set a i (at a j))

module _ (a : List ℕ) (i j : ℕ) (hi : i < length a) (hj : j < length a) where
  pub at-exchange :
      (k : ℕ)
      → at (exchange a i j) k ≡ (if j == k then at a i else if i == k then at a j else at a k)
  unfolding exchange
  at-exchange k = ground (
    arith,
    get_or-set (set a i (at a j)) j k (at a i) 0,
    get_or-set a i k (at a j) 0,
    length-set a i (at a j),
  )

  pub exchange-SameItems : SameItems (exchange a i j) a
  unfolding exchange
  exchange-SameItems w = ground (
    arith,
    tally-set w (set a i (at a j)) j (at a i) 0,
    tally-set w a i (at a j) 0,
    get_or-set a i j (at a j) 0,
    length-set a i (at a j),
  )
