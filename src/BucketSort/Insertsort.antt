-- ===== src/BucketSort/Insertsort.antt =====
-- When insertsort reads in front of the array.
use native.Mathlib.Decide.{ℕ_discrete, dec_lt}
use codingforfun.Prelude.{
  ℕ, zero, suc, ◌+◌, ◌-◌, ◌≤◌, ◌<◌, ◌≡◌, refl, sym, ap, ◌≢◌, ◌∙◌, List, Bool, true, ◌&&◌, ltb, leb,
  if◌then◌else◌, length, set, length-set, get_or-set, arith, Bool-cases, inl, inr,
}
use codingforfun.Run.{Run, fault, ◌>>=◌, Returns, returns, Returns-mono, for_up}
use codingforfun.Array.{load, load-done, store-done, at}
use codingforfun.Sorting.Insertion.{shift, insertionsort}
use codingforfun.BucketSort.{slide, insertsort}

-- `n` entries from index `i` on are at least `m`.
abbrev pub least_from : ℕ → ℕ → ℕ → List ℕ → Bool
least_from m zero i a = true
least_from m (suc n) i a = leb m (at a i) && least_from m n (i + 1) a

-- The first entry is the least.
abbrev pub first_least : List ℕ → Bool
first_least a = least_from (at a 0) (length a - 1) 1 a

-- Below everything in front of it, the element is moved beyond the start.
slide-fault :
    (element k : ℕ) (b : List ℕ)
    → k < length b
    → ((j : ℕ) → j < k → element < at b j)
    → slide element k b ≡ fault
unfolding slide
slide-fault element zero b h low = refl
slide-fault element (suc k) b h low =
    let move : ltb element (at b k) ≡ true = ground (arith, low k) in
    rw (load-done 0 b k (omega arith), move, store-done b (k + 1) (at b k) (omega arith))
      (slide-fault element k (set b (k + 1) (at b k)) (omega (arith, length-set b (k + 1) (at b k)))
        λ j lt. ground (arith, get_or-set b (k + 1) j (at b k) 0, low j))

-- Otherwise the loop ends as that of insertionsort does, and does not touch the first entry.
module _ (m element : ℕ) (above : m ≤ element) where
  -- The first entry is `m`, those below `n` are at least `m`, and the others as in `b`.
  record Kept (n : ℕ) (b c : List ℕ) : Type 0 where
    size : length c ≡ length b
    first : at c 0 ≡ m
    low : (j : ℕ) → j < n → m ≤ at c j
    same : (j : ℕ) → n ≤ j → at c j ≡ at b j

  set-Kept :
      (k n v : ℕ) (b : List ℕ)
      → k + 1 < n
      → n ≤ length b
      → at b 0 ≡ m
      → m ≤ v
      → ((j : ℕ) → j < n → j ≢ k + 1 → m ≤ at b j)
      → Kept n b (set b (k + 1) v)
  set-Kept k n v b lt h first big low = record {
    size = length-set b (k + 1) v;
    first = ground (arith, get_or-set b (k + 1) 0 v 0);
    low = λ j l. ground (arith, get_or-set b (k + 1) j v 0, low j);
    same = λ j l. ground (arith, get_or-set b (k + 1) j v 0);
  }

  slide-shift :
      (k n : ℕ) (b : List ℕ)
      → 0 < k
      → k < n
      → n ≤ length b
      → at b 0 ≡ m
      → ((j : ℕ) → j < n → j ≢ k → m ≤ at b j)
      → (slide element k b ≡ shift element k b) × Returns (Kept n b) (shift element k b)
  unfolding slide shift
  slide-shift zero n b pos lt h first low = absurd (omega arith)
  slide-shift (suc k) n b pos lt h first low =
      let read = load-done 0 b k (omega arith) in
      let low' : (j : ℕ) → j < n → j ≢ k + 1 → m ≤ at b j = λ j l ne. low j l (omega arith) in
      elim (Bool-cases (ltb element (at b k))) [
        | inr stop ↦
            let write = store-done b (k + 1) element (omega arith) in
            (
              rw (read, stop) refl,
              rw (read, stop, write)
                  (returns (set-Kept k n element b (omega arith) h first above low')),
            )
        | inl move ↦
            let b' = set b (k + 1) (at b k) in
            let write = store-done b (k + 1) (at b k) (omega arith) in
            let big : m ≤ at b k = low k (omega arith) (omega arith) in
            let kept = set-Kept k n (at b k) b (omega arith) h first big low' in
            let behind : 0 < k = elim (ℕ_discrete k 0) [
              | yes e ↦ absurd (let e' = ap (at b) e in ground arith)
              | no ne ↦ omega arith
            ] in
            let rest =
              slide-shift k n b' behind (omega arith) (omega (arith, kept.size)) kept.first
                (λ j l ne. kept.low j l) in
            (
              rw (read, move, write) rest.0,
              rw (read, move, write)
                  (Returns-mono rest.1 λ c r. record {
                    size = omega (arith, r.size, kept.size);
                    first = r.first;
                    low = r.low;
                    same = λ j l. r.same j l ∙ kept.same j l;
                  }),
            )
      ]

-- A run that returns, and what follows it, under a test.
under_test :
    {S T : Type 0} {Mid : S → Type 0} {run : Run S} (f g : S → Run T) (test : Bool)
    → Returns Mid run
    → ((s : S) → Mid s → f s ≡ (if test then g s else fault))
    → (run >>= f) ≡ (if test then run >>= g else fault)
under_test f g test (returns {s} mid) same = same s mid

-- The rounds from `i` on.
rounds :
    (n i m : ℕ) (a b : List ℕ)
    → i + n ≡ length b
    → 0 < i
    → at b 0 ≡ m
    → ((j : ℕ) → j < i → m ≤ at b j)
    → ((j : ℕ) → i ≤ j → at a j ≡ at b j)
    → for_up n i (λ i c. load c i >>= λ element. slide element i c) b ≡ (
        if least_from m n i a
        then for_up n i (λ i c. load c i >>= λ element. shift element i c) b
        else fault)
unfolding for_up
rounds zero i m a b e pos first low same = refl
rounds (suc n) i m a b e pos first low same =
    let read = load-done 0 b i (omega arith) in
    let here = same i (omega arith) in
    elim (Bool-cases (leb m (at a i))) [
      | inr less ↦
          rw (read, less)
            (ap (λ r. r >>= for_up n (i + 1) (λ i c. load c i >>= λ element. slide element i c))
              (slide-fault (at b i) i b (omega arith) λ j l. let lj = low j l in ground arith))
      | inl more ↦
          let above : m ≤ at b i = ground arith in
          let (equal, kept) =
            slide-shift m (at b i) above i (i + 1) b pos (omega arith) (omega arith) first
              (λ j l ne. low j (omega arith)) in
          rw (read, more, equal)
            (under_test (for_up n (i + 1) (λ i c. load c i >>= λ element. slide element i c))
              (for_up n (i + 1) (λ i c. load c i >>= λ element. shift element i c))
              (least_from m n (i + 1) a) kept
              λ c r.
                rounds n (i + 1) m a c (omega (arith, r.size)) (omega arith) r.first r.low
                  (λ j l. same j (omega arith) ∙ sym (r.same j l)))
    ]

-- insertsort on a whole array does what insertionsort of sorting.c does if the first entry is the
-- least, and otherwise reads in front of the array.
pub insertsort-insertionsort :
    (a : List ℕ)
    → insertsort a 0 (length a) ≡ (if first_least a then insertionsort a (length a) else fault)
unfolding insertsort insertionsort for_up
insertsort-insertionsort a = elim (dec_lt 0 (length a)) [
  | yes some_entry ↦
      rounds (length a - 1) 1 (at a 0) a a (omega arith) (omega arith) refl
        (λ j l. let e : j ≡ 0 = omega arith in rw e (omega arith)) (λ j l. refl)
  | no empty ↦ let none_left : length a - 1 ≡ 0 = omega arith in rw none_left refl
]
