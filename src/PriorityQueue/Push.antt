-- ===== src/PriorityQueue/Push.antt =====
-- pq_push: the free entry that moves up, and the reallocation.
use codingforfun.Prelude.{
  ℕ, zero, suc, ◌+◌, ◌≤◌, ◌<◌, ◌≡◌, ◌≢◌, refl, false, ap, inl, inr, Bool-cases, List, ◌∷◌, ◌++◌,
  ltb, leb, ◌==◌, if◌then◌else◌, arith, length, set, length-set, length-append, get_or-set,
  get_or-append, tally, sum_to, sum_to-set, sum_to-congr, sum_to-add_one, SameItems-perm, Perm,
  tally-take,
}
use codingforfun.Run.{Returns, returns, Returns-mono, Returns-bind, Returns-if}
use codingforfun.Array.{load-done, store-done}
use codingforfun.PriorityQueue.{Element, Pq, parent, fresh, grow, place, pq_push}
use codingforfun.PriorityQueue.Order.{
  blank, elem, prio, IsHeap, IsValid, elements, Element-discrete,
}

-- The sum of a weight over the first `n` entries.
abbrev pub sum : (Element → ℕ) → ℕ → List Element → ℕ
sum w n a = sum_to blank w n a

-- Among the first `n` entries, that at `s` is free for an element of priority `key`.
record Free (key n s : ℕ) (a : List Element) : Type 0 where
  inside : s < n
  size : n ≤ length a
  edges : (c : ℕ) → 0 < c → c < n → c ≢ s → parent c ≢ s → prio a (parent c) ≤ prio a c
  bound : (c : ℕ) → 0 < c → c < n → parent c ≡ s → key ≤ prio a c
  bridged : (c : ℕ) → 0 < c → c < n → parent c ≡ s → 0 < s → prio a (parent s) ≤ prio a c

-- The entries from `n` on are the same, and `e` has come to the first `n` for the entry at `s`.
pub record Placed (n s : ℕ) (e : Element) (a b : List Element) : Type 0 where
  pub size : length b ≡ length a
  pub heap : IsHeap n b
  pub beyond : (i : ℕ) → n ≤ i → elem b i ≡ elem a i
  pub items : (w : Element → ℕ) → sum w n b + w (elem a s) ≡ sum w n a + w e

store-Placed :
    (n s : ℕ) (e : Element) (a : List Element)
    → Free e.priority n s a
    → (0 < s → prio a (parent s) ≤ e.priority)
    → Placed n s e a (set a s e)
store-Placed n s e a v above =
    let inside = v.inside in
    let size = v.size in
    let now : (i : ℕ) → elem (set a s e) i ≡ (if s == i then e else elem a i) =
      λ i. get_or-set a s i e blank (omega arith) in
    record {
      size = length-set a s e;
      heap = λ c p q. ground (arith, now c, now (parent c), v.edges c, v.bound c, above);
      beyond = λ i p. ground (arith, now i);
      items = λ w. sum_to-set blank w n a s e inside size;
    }

shift-Free :
    (n s key : ℕ) (a : List Element)
    → Free key n s a
    → 0 < s
    → key < prio a (parent s)
    → Free key n (parent s) (set a s (elem a (parent s)))
shift-Free n s key a v pos less =
    let inside = v.inside in
    let size = v.size in
    let f = elem a (parent s) in
    let now : (i : ℕ) → elem (set a s f) i ≡ (if s == i then f else elem a i) =
      λ i. get_or-set a s i f blank (omega arith) in
    record {
      inside = omega arith;
      size = omega (arith, length-set a s f);
      edges = λ c p q r t. ground (arith, now c, now (parent c), v.edges c, v.bridged c);
      bound = λ c p q r. ground (arith, now c, v.edges c);
      bridged = λ c p q r t.
          ground (arith, now c, now (parent (parent s)), v.edges c, v.edges (parent s));
    }

place-Placed :
    (fuel n s : ℕ) (e : Element) (a : List Element)
    → s < fuel
    → Free e.priority n s a
    → Returns (Placed n s e a) (place fuel a s e)
unfolding place
place-Placed zero n s e a enough v = absurd (omega arith)
place-Placed (suc fuel) n s e a enough v =
    let inside = v.inside in
    let size = v.size in
    let f = elem a (parent s) in
    let hs : s < length a = omega arith in
    Returns-if (ltb 0 s)
      (λ pos.
        rw (load-done blank a (parent s) (omega arith), store-done a s f hs, store-done a s e hs)
          (Returns-if (ltb e.priority (prio a (parent s)))
            (λ less.
              let now : elem (set a s f) (parent s) ≡ f =
                ground (arith, get_or-set a s (parent s) f blank) in
              Returns-mono
                (place-Placed fuel n (parent s) e (set a s f) (ground arith)
                  (shift-Free n s e.priority a v (ground arith) (ground arith)))
                λ b r. record {
                  size = omega (arith, r.size, length-set a s f);
                  heap = r.heap;
                  beyond = λ i p. ground (arith, r.beyond i, get_or-set a s i f blank);
                  items = λ w.
                      omega (arith, r.items w, sum_to-set blank w n a s f inside size, ap w now);
                })
            (λ stay. returns (store-Placed n s e a v (λ _. ground arith)))))
      (λ root.
        rw (store-done a s e hs) (returns (store-Placed n s e a v (λ p. absurd (ground arith)))))

-- pq_push without the reallocation: the entry behind the heap is free.
pub push-Placed :
    (n : ℕ) (e : Element) (a : List Element)
    → n < length a
    → IsHeap n a
    → Returns (Placed (n + 1) n e a) (place (n + 1) a n e)
push-Placed n e a h heap = place-Placed (n + 1) (n + 1) n e a (omega arith) (record {
  inside = omega arith;
  size = omega arith;
  edges = λ c p q r t. heap c p (omega arith);
  bound = λ c p q r. absurd (omega arith);
  bridged = λ c p q r t. absurd (omega arith);
})

module _ (junk : ℕ → Element) where
  pub length-fresh : (i count : ℕ) → length (fresh junk i count) ≡ count
  unfolding fresh
  length-fresh i zero = refl
  length-fresh i (suc count) = ap suc (length-fresh (i + 1) count)

  -- The reallocation makes room and keeps the entries.
  record Grown (q q' : Pq) : Type 0 where
    valid : IsValid q'
    room : q'.n < q'.alloc
    n : q'.n ≡ q.n
    same : (i : ℕ) → i < q.n → elem q'.pq_array i ≡ elem q.pq_array i

  grow-Grown : (q : Pq) → IsValid q → Grown q (grow junk q)
  unfolding grow
  grow-Grown q v = elim (Bool-cases (leb q.alloc q.n)) [
    | inl full ↦ rw full (
        let a = q.pq_array ++ fresh junk q.alloc q.alloc in
        let kept : (i : ℕ) → i < q.n → elem a i ≡ elem q.pq_array i =
          λ i p. get_or-append q.pq_array (fresh junk q.alloc q.alloc) i blank (omega arith) in
        record {
          valid = record {
            size = omega (
              arith,
              v.size,
              length-append q.pq_array (fresh junk q.alloc q.alloc),
              length-fresh q.alloc q.alloc,
            );
            room = omega (arith, v.room);
            fits = omega (arith, v.fits);
            heap = λ c p r. ground (arith, kept c, kept (parent c), v.heap c);
          };
          room = ground (arith, v.fits, v.room);
          n = refl;
          same = kept;
        })
    | inr fine ↦ rw fine (record { valid = v; room = ground arith; n = refl; same = λ i p. refl })
  ]

  -- The elements of `q'` are those of `q` and `e`, and `q'` is a queue.
  abbrev pub Pushed : Element → Pq → Pq → Type 0
  Pushed e q q' = IsValid q' × (q'.n ≡ q.n + 1) × Perm (elements q') (e ∷ elements q)

  -- pq_push on a queue, full or not, ends without an access outside the array, and leaves a queue
  -- of the same elements and the new one.
  pub pq_push-Pushed :
      (q : Pq) (value priority : ℕ)
      → IsValid q
      → Returns
          (Pushed (record { value = value; priority = priority }) q)
          (pq_push junk q value priority)
  unfolding pq_push elements tally sum_to
  pq_push-Pushed q value priority v =
      let e : Element = record { value = value; priority = priority } in
      let g = grow-Grown q v in
      let q' = grow junk q in
      let a = q'.pq_array in
      let size = g.valid.size in
      let room = g.room in
      let old = v.size in
      let fits = v.fits in
      Returns-bind (push-Placed q'.n e a (omega arith) g.valid.heap) λ b r. returns (
        record {
          size = omega (arith, r.size);
          room = g.valid.room;
          fits = omega arith;
          heap = r.heap;
        },
        omega (arith, g.n),
        SameItems-perm Element-discrete _ _ λ w. omega (
          arith,
          tally-take blank w (q'.n + 1) b (omega (arith, r.size)),
          tally-take blank w q.n q.pq_array (omega arith),
          r.items w,
          sum_to-add_one blank w q'.n a,
          ap (λ k. sum w k a) g.n,
          sum_to-congr blank w q.n a q.pq_array g.same,
        ),
      )

  -- pq_push on a queue that is not full: the array alone changes.
  pub record PushedInPlace (e : Element) (q q' : Pq) : Type 0 where
    pub n : q'.n ≡ q.n + 1
    pub alloc : q'.alloc ≡ q.alloc
    pub array : Placed (q.n + 1) q.n e q.pq_array q'.pq_array

  pub pq_push-PushedInPlace :
      (q : Pq) (value priority : ℕ)
      → q.n < q.alloc
      → q.n < length q.pq_array
      → IsHeap q.n q.pq_array
      → Returns
          (PushedInPlace (record { value = value; priority = priority }) q)
          (pq_push junk q value priority)
  unfolding pq_push grow
  pq_push-PushedInPlace q value priority room h heap =
      let e : Element = record { value = value; priority = priority } in
      let fine : leb q.alloc q.n ≡ false = ground arith in
      rw fine (
        Returns-bind (push-Placed q.n e q.pq_array h heap)
          λ b r. returns (record { n = refl; alloc = refl; array = r }))
