-- ===== src/PriorityQueue/Change.antt =====
-- pq_new, pq_haskey and pq_changepriority.
use codingforfun.Prelude.{
  ℕ, zero, suc, ◌+◌, ◌≤◌, ◌<◌, ◌≡◌, ◌≢◌, ◌↔◌, refl, true, false, Bool, List, ltb, Option, none,
  some, ◌==◌, if◌then◌else◌, arith, length, set, get_or-set, length-set,
}
use codingforfun.Run.{done, ◌>>=◌, Returns, returns, Returns-mono, Returns-bind, Returns-if}
use codingforfun.Array.{load, load-done, store, store-done}
use codingforfun.PriorityQueue.{Element, Pq, parent, pq_new, find, pq_haskey, pq_changepriority}
use codingforfun.PriorityQueue.Order.{blank, elem, prio, IsValid}
use codingforfun.PriorityQueue.Push.{length-fresh}

-- A new queue is empty and has room for four elements or more, as many as asked for.
pq_new-IsValid :
    (junk : ℕ → Element) (size : ℕ)
    → IsValid (pq_new junk size) × ((pq_new junk size).n ≡ 0) × (size ≤ (pq_new junk size).alloc)
unfolding pq_new
pq_new-IsValid junk size = (
  record {
    size = length-fresh junk 0 (if ltb size 4 then 4 else size);
    room = ground arith;
    fits = omega arith;
    heap = λ c h m. absurd (omega arith);
  },
  refl,
  ground arith,
)

-- What a search from `i` over `left` entries finds: the first of them with the value.
abbrev Found : List Element → ℕ → ℕ → ℕ → Option ℕ → Type 0
Found a value i left none = (k : ℕ) → i ≤ k → k < i + left → (elem a k).value ≢ value
Found a value i left (some k) =
    (i ≤ k)
    × (k < i + left)
    × ((elem a k).value ≡ value)
    × ((m : ℕ) → i ≤ m → m < k → (elem a m).value ≢ value)

find-Found :
    (left i : ℕ) (a : List Element) (value : ℕ)
    → i + left ≤ length a
    → Returns (Found a value i left) (find left i a value)
unfolding find
find-Found zero i a value h = returns (λ k p q. absurd (omega arith))
find-Found (suc left) i a value h = rw (load-done blank a i (omega arith)) (
    Returns-if ((elem a i).value == value)
      (λ hit. returns (omega arith, omega arith, ground arith, λ m p q. absurd (omega arith)))
      (λ miss. Returns-mono (find-Found left (i + 1) a value (omega arith)) (next (ground arith))))
  where
    next :
        (elem a i).value ≢ value
        → (o : Option ℕ) → Found a value (i + 1) left o
        → Found a value i (suc left) o
    next miss none f = λ k p q. ground (arith, f k)
    next miss (some k) f = (omega arith, omega arith, f.2, λ m p q. ground (arith, f.3 m))

-- Whether the queue holds an element with the value.
abbrev pub HasKey : Pq → ℕ → Bool → Type 0
HasKey q value true = (k : ℕ) × (k < q.n) × ((elem q.pq_array k).value ≡ value)
HasKey q value false = (k : ℕ) → k < q.n → (elem q.pq_array k).value ≢ value

-- pq_haskey tells exactly whether an element of the queue has the value.
pq_haskey-HasKey : (q : Pq) (value : ℕ) → IsValid q → Returns (HasKey q value) (pq_haskey q value)
unfolding pq_haskey
pq_haskey-HasKey q value v =
    let size = v.size in
    let fits = v.fits in Returns-bind (find-Found q.n 0 q.pq_array value (omega arith)) answer
  where
    answer :
        (o : Option ℕ)
        → Found q.pq_array value 0 q.n o
        → Returns (HasKey q value) (elim o [ none ↦ done false | some _ ↦ done true ])
    answer none f = returns (λ k h. f k (omega arith) (omega arith))
    answer (some k) f = returns (k, omega arith, f.2)

-- A priority that may stand at index `k` without breaking the heap order.
abbrev pub Fits : Pq → ℕ → ℕ → Type 0
Fits q k priority =
    (0 < k → prio q.pq_array (parent k) ≤ priority)
    × ((c : ℕ) → 0 < c → c < q.n → parent c ≡ k → priority ≤ prio q.pq_array c)

-- What pq_changepriority returns: nothing if no element has the value; otherwise the first such
-- element has the new priority, and the queue is one exactly if the priority fits at its place.
abbrev pub Changed : Pq → ℕ → ℕ → Option Pq → Type 0
Changed q value priority none = (k : ℕ) → k < q.n → (elem q.pq_array k).value ≢ value
Changed q value priority (some q') =
    (k : ℕ) × (k < q.n)
    × ((elem q.pq_array k).value ≡ value)
    × ((m : ℕ) → m < k → (elem q.pq_array m).value ≢ value)
    × (q' ≡ record q {
      pq_array = set q.pq_array k (record (elem q.pq_array k) { priority = priority });
    })
    × (IsValid q' ↔ Fits q k priority)

module _ (q : Pq) (k priority : ℕ) (v : IsValid q) (h : k < q.n) where
  abbrev changed : Pq
  changed = record q {
    pq_array = set q.pq_array k (record (elem q.pq_array k) { priority = priority });
  }

  changed_at : (i : ℕ) → prio changed.pq_array i ≡ (if k == i then priority else prio q.pq_array i)
  changed_at i = ground (
    arith,
    v.size,
    v.fits,
    get_or-set q.pq_array k i (record (elem q.pq_array k) { priority = priority }) blank,
  )

  changed-IsValid : IsValid changed ↔ Fits q k priority
  changed-IsValid = (
    λ w. (
      λ pos. ground (arith, w.heap k, changed_at k, changed_at (parent k)),
      λ c p l e. ground (arith, w.heap c, changed_at c, changed_at (parent c)),
    ),
    λ f. record {
      size = omega (
        arith,
        v.size,
        length-set q.pq_array k (record (elem q.pq_array k) { priority = priority }),
      );
      room = v.room;
      fits = v.fits;
      heap = λ c p l. ground (arith, f.0, f.1 c, v.heap c, changed_at c, changed_at (parent c));
    },
  )

-- pq_changepriority changes the first element with the value and does not move it: the queue keeps
-- its order exactly if the priority is between those of the parent and of the children.
pq_changepriority-Changed :
    (q : Pq) (value priority : ℕ)
    → IsValid q
    → Returns (Changed q value priority) (pq_changepriority q value priority)
unfolding pq_changepriority
pq_changepriority-Changed q value priority v =
    let size = v.size in
    let fits = v.fits in Returns-bind (find-Found q.n 0 q.pq_array value (omega arith)) answer
  where
    answer :
        (o : Option ℕ)
        → Found q.pq_array value 0 q.n o
        → Returns (Changed q value priority) (elim o [
          | none ↦ done none
          | some i ↦ load q.pq_array i >>= λ x.
              store q.pq_array i (record x { priority = priority }) >>= λ b.
              done (some (record q { pq_array = b }))
        ])
    answer none f = returns (λ k h. f k (omega arith) (omega arith))
    answer (some k) f =
        let at : k < q.n = omega arith in
        rw
          (
            load-done blank q.pq_array k (omega (arith, v.size, v.fits)),
            store-done q.pq_array k (record (elem q.pq_array k) { priority = priority })
                (omega (arith, v.size, v.fits)),
          )
          (returns
            (k, at, f.2, (λ m h. f.3 m (omega arith) h), refl, changed-IsValid q k priority v at))

-- pq_haskey on a queue tells exactly whether an element of it has the value. pq_changepriority
-- returns nothing if no element has the value; otherwise it gives the first such element the new
-- priority and changes nothing else, and the heap order is kept exactly if the priority is between
-- those of the parent and of the children.
pub search_lem :
    (q : Pq) (value priority : ℕ)
    → IsValid q
    → Returns (HasKey q value) (pq_haskey q value)
      × Returns (Changed q value priority) (pq_changepriority q value priority)
search_lem q value priority v =
    (pq_haskey-HasKey q value v, pq_changepriority-Changed q value priority v)
