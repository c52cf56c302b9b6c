-- ===== src/PriorityQueue/Order.antt =====
-- The heap order of a queue, its invariant, and the elements that it holds.
use native.Mathlib.Decide.{ℕ_discrete}
use codingforfun.Prelude.{ℕ, zero, suc, ◌≤◌, ◌<◌, ◌≡◌, List, arith, length, get_or, take}
use codingforfun.PriorityQueue.{Element, Pq, parent}

-- What stands for an entry that is out of range, which no theorem reads.
abbrev pub blank : Element
blank = record { value = 0; priority = 0 }

abbrev pub elem : List Element → ℕ → Element
elem a i = get_or a i blank

abbrev pub prio : List Element → ℕ → ℕ
prio a i = (get_or a i blank).priority

-- Among the first `n` entries none has a lower priority than its parent.
abbrev pub IsHeap : ℕ → List Element → Type 0
IsHeap n a = (c : ℕ) → 0 < c → c < n → prio a (parent c) ≤ prio a c

pub record IsValid (q : Pq) : Type 0 where
  pub size : length q.pq_array ≡ q.alloc
  pub room : 4 ≤ q.alloc
  pub fits : q.n ≤ q.alloc
  pub heap : IsHeap q.n q.pq_array

pub Element-discrete : Discrete Element
Element-discrete = hlevel ℕ_discrete

-- The elements in the queue.
unfoldable pub elements : Pq → List Element
elements q = take q.n q.pq_array

root_least_below :
    (fuel n i : ℕ) (a : List Element) → IsHeap n a → i < fuel → i < n → prio a 0 ≤ prio a i
root_least_below zero n i a heap enough h = absurd (omega arith)
root_least_below (suc fuel) n i a heap enough h =
    ground (arith, heap i, root_least_below fuel n (parent i) a heap)

-- The root has the lowest priority.
pub root_least : (n i : ℕ) (a : List Element) → IsHeap n a → i < n → prio a 0 ≤ prio a i
root_least n i a heap h = root_least_below (suc i) n i a heap (omega arith) h
