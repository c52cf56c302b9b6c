-- ===== src/Sorting/Shell.antt =====
-- shellsort of sorting.c. Of the passes with a gap above 1 only what the last pass needs is shown:
-- they keep the entries. The pass with gap 1 is an insertion sort by exchanges.
use native.Mathlib.Decide.{dec_lt, ℕ_discrete}
use mathlib.Core.List.Perm
use codingforfun.Prelude.{
  ℕ, zero, suc, ◌+◌, ◌-◌, ◌/◌, ◌≤◌, ◌<◌, ◌≡◌, ◌≢◌, List, arith, ltb, leb, ltb_of_lt, if◌then◌else◌,
  length, true,
}
use codingforfun.Run.{
  Run, done, no_fuel, ◌>>=◌, Returns, returns, Returns-mono, Returns-bind, Returns-if, for_up,
  for_up-Returns,
}
use codingforfun.Array
use codingforfun.Array.{load, load-done, at, exchange}
use codingforfun.Sorting.{
  Sorts, Rearranges, Rearranges-refl, Rearranges-trans, Rearranges-perm, exchange-Rearranges, swap,
  swap-done,
}

-- The innermost loop. `p` is `i + m`, the place of the entry that moves down, so `i >= 0` reads
-- `m <= p`. Each round moves it by `m`, so `p + 1` rounds are enough for `m > 0`.
sink : ℕ → ℕ → ℕ → List ℕ → Run (List ℕ)
sink zero m p a = no_fuel
sink (suc fuel) m p a =
    let move = swap a (p - m) p >>= sink fuel m (p - m) in
    let round : Run (List ℕ) = do x ← load a p; y ← load a (p - m); if leb y x then done a else move
    in if leb m p then round else done a

-- The loop on `j`.
gap_pass : ℕ → ℕ → List ℕ → Run (List ℕ)
gap_pass n m a = for_up (n - m) m (λ j b. sink (j + 1) m j b) a

-- The loop on `m`, which is halved, so that `n / 2 + 1` rounds are enough.
gap_loop : ℕ → ℕ → ℕ → List ℕ → Run (List ℕ)
gap_loop zero n m a = no_fuel
gap_loop (suc fuel) n m a =
    let pass = gap_pass n m a >>= gap_loop fuel n (m / 2) in if ltb 0 m then pass else done a

unfoldable pub shellsort : List ℕ → ℕ → Run (List ℕ)
unfolding gap_loop gap_pass sink for_up
shellsort a n = gap_loop (n / 2 + 1) n (n / 2) a

sink-Rearranges :
    (fuel m p : ℕ) (a : List ℕ)
    → 0 < m
    → p < fuel
    → p < length a
    → Returns (Rearranges a) (sink fuel m p a)
unfolding sink
sink-Rearranges zero m p a pos enough h = absurd (omega arith)
sink-Rearranges (suc fuel) m p a pos enough h =
    Returns-if (leb m p)
      (λ room.
        let hi : p - m < length a = omega arith in
        rw (load-done 0 a p h, load-done 0 a (p - m) hi, swap-done a (p - m) p hi h)
          (Returns-if (leb (at a (p - m)) (at a p)) (λ stop. returns (Rearranges-refl a))
            (λ less.
              let same = exchange-Rearranges a (p - m) p hi h in
              Returns-mono
                (sink-Rearranges fuel m (p - m) (exchange a (p - m) p) pos (ground arith)
                  (omega (arith, same.size)))
                (λ b r. Rearranges-trans same r))))
      (λ stop. returns (Rearranges-refl a))

-- Of the first `n` entries all ascend, but the one at `p` may be below those before it.
record Rising (p n : ℕ) (a : List ℕ) : Type 0 where
  inside : p < n
  size : n ≤ length a
  ascends : (i j : ℕ) → i ≤ j → j < n → j ≢ p → at a i ≤ at a j

exchange-Rising :
    (p n : ℕ) (a : List ℕ)
    → Rising (suc p) n a
    → at a (suc p) < at a p
    → Rising p n (exchange a p (suc p))
exchange-Rising p n a r less =
    let inside = r.inside in
    let size = r.size in
    let moved = Array.at-exchange a p (suc p) (omega arith) (omega arith) in
    record {
      inside = omega arith;
      size = omega (arith, Array.length-exchange a p (suc p));
      ascends = λ i j q s t. ground (
        arith,
        moved i,
        moved j,
        r.ascends i j,
        r.ascends i p,
        r.ascends p j,
        r.ascends (suc p) j,
      );
    }

-- With gap 1 the entry sinks to its place.
sink_one-IsSorted :
    (fuel p n : ℕ) (a : List ℕ)
    → p < fuel
    → Rising p n a
    → Returns
        (λ b. Rearranges a b × ((i j : ℕ) → i ≤ j → j < n → at b i ≤ at b j))
        (sink fuel 1 p a)
unfolding sink
sink_one-IsSorted zero p n a enough r = absurd (omega arith)
sink_one-IsSorted (suc fuel) zero n a enough r =
    returns (Rearranges-refl a, λ i j q s. ground (arith, r.ascends i j))
sink_one-IsSorted (suc fuel) (suc p) n a enough r =
    let inside = r.inside in
    let size = r.size in
    let one : suc p - 1 ≡ p = omega arith in
    let room : leb 1 (suc p) ≡ true = ground arith in
    rw
      (
        room,
        one,
        load-done 0 a (suc p) (omega arith),
        load-done 0 a p (omega arith),
        swap-done a p (suc p) (omega arith) (omega arith),
      )
      (Returns-if (leb (at a p) (at a (suc p)))
        (λ stop.
          returns (Rearranges-refl a, λ i j q s. ground (arith, r.ascends i j, r.ascends i p)))
        (λ less.
          let same = exchange-Rearranges a p (suc p) (omega arith) (omega arith) in
          Returns-mono
            (sink_one-IsSorted fuel p n (exchange a p (suc p)) (omega arith)
              (exchange-Rising p n a r (ground arith)))
            (λ b s. (Rearranges-trans same s.0, s.1))))

module _ (a : List ℕ) where
  gap_pass-Rearranges :
      (m : ℕ) (b : List ℕ)
      → 0 < m
      → Rearranges a b
      → Returns (Rearranges a) (gap_pass (length a) m b)
  unfolding gap_pass for_up
  gap_pass-Rearranges m b pos kept = elim (dec_lt m (length a)) [
    | yes some_round ↦
        for_up-Returns (λ j. Rearranges a) (λ j c. sink (j + 1) m j c) (length a - m) m (length a) b
          (omega arith)
          (λ j c lo hi r.
            Returns-mono (sink-Rearranges (j + 1) m j c pos (omega arith) (omega (arith, r.size)))
              (λ d s. Rearranges-trans r s))
          kept
    | no none ↦ let none_left : length a - m ≡ 0 = omega arith in rw none_left (returns kept)
  ]

  gap_pass_one-Sorts :
      (b : List ℕ) → 0 < length a → Rearranges a b → Returns (Sorts a) (gap_pass (length a) 1 b)
  unfolding gap_pass for_up
  gap_pass_one-Sorts b pos kept =
      Returns-mono
        (for_up-Returns (λ n c. Rearranges a c × ((i j : ℕ) → i ≤ j → j < n → at c i ≤ at c j))
          (λ j c. sink (j + 1) 1 j c) (length a - 1) 1 (length a) b (omega arith)
          (λ n c lo hi (r, up).
            Returns-mono
              (sink_one-IsSorted (n + 1) n (n + 1) c (omega arith) (record {
                inside = omega arith;
                size = omega (arith, r.size);
                ascends = λ i j p q s. up i j p (omega arith);
              }))
              (λ d s. (Rearranges-trans r s.0, s.1)))
          (kept, λ i j p q. ground arith))
        (λ c (r, up). (Rearranges-perm r, λ i j p q. up i j p (omega (arith, r.size))))

  gap_loop-Sorts :
      (fuel m : ℕ) (b : List ℕ)
      → 0 < m
      → m < fuel
      → 0 < length a
      → Rearranges a b
      → Returns (Sorts a) (gap_loop fuel (length a) m b)
  unfolding gap_loop
  gap_loop-Sorts zero m b pos enough full kept = absurd (omega arith)
  gap_loop-Sorts (suc fuel) m b pos enough full kept =
      rw (ltb_of_lt 0 m pos) (elim (ℕ_discrete m 1) [
        | yes last ↦ rw last (
            Returns-bind (gap_pass_one-Sorts b full kept)
              (λ c s. gap_loop_zero fuel c (omega arith) s))
        | no more ↦
            Returns-bind (gap_pass-Rearranges m b pos kept)
              (λ c r. gap_loop-Sorts fuel (m / 2) c (omega arith) (omega arith) full r)
      ])
    where
      gap_loop_zero :
          (k : ℕ) (c : List ℕ)
          → 0 < k
          → Sorts a c
          → Returns (Sorts a) (gap_loop k (length a) (1 / 2) c)
      gap_loop_zero zero c p s = absurd (omega arith)
      gap_loop_zero (suc k) c p s = returns s

  -- shellsort never reads or writes outside the array, ends, and leaves the entries of the array
  -- in ascending order.
  pub shellsort-Sorts : Returns (Sorts a) (shellsort a (length a))
  unfolding shellsort
  shellsort-Sorts = elim (dec_lt 1 (length a)) [
    | yes long ↦
        gap_loop-Sorts (length a / 2 + 1) (length a / 2) a (omega arith) (omega arith) (omega arith)
          (Rearranges-refl a)
    | no short ↦
        let half : length a / 2 ≡ 0 = omega arith in
        rw half (returns (Perm.refl a, λ i j p q. ground arith))
  ]
