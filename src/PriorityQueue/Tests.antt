-- ===== src/PriorityQueue/Tests.antt =====
-- The queue that the theorems are applied to, and each theorem at it.
use codingforfun.Prelude.{
  ℕ, zero, suc, ◌<◌, ◌≤◌, ◌≡◌, refl, [], ◌∷◌, arith, get_or, set, take, ◌-◌, ◌/◌,
}
use codingforfun.Run.{done, ◌>>=◌, Returns, for_up}
use codingforfun.Array.{load, store}
use codingforfun.PriorityQueue.{
  Element, Pq, fresh, pq_new, pq_push, pq_pop, pq_haskey, pq_changepriority,
}
use codingforfun.PriorityQueue.Order.{prio, IsValid}
use codingforfun.PriorityQueue.Push.{Pushed, pq_push-Pushed}
use codingforfun.PriorityQueue.Pop.{Popped, pq_pop-Popped}
use codingforfun.PriorityQueue.Change.{HasKey, Changed, search_lem}

abbrev item : ℕ → ℕ → Element
item v p = record { value = v; priority = p }

abbrev junk : ℕ → Element
junk i = item 99 i

-- Four elements, so that a further one needs a reallocation.
abbrev full : Pq
full = record { pq_array = item 7 2 ∷ item 8 5 ∷ item 9 3 ∷ item 10 5 ∷ []; n = 4; alloc = 4 }

full-IsValid : IsValid full
unfolding get_or
full-IsValid = record { size = refl; room = omega arith; fits = omega arith; heap = order }
  where
    order : (c : ℕ) → 0 < c → c < 4 → prio full.pq_array ((c - 1) / 2) ≤ prio full.pq_array c
    order zero p l = absurd (omega arith)
    order (suc zero) p l = omega arith
    order (suc (suc zero)) p l = omega arith
    order (suc (suc (suc zero))) p l = omega arith
    order (suc (suc (suc (suc c)))) p l = absurd (omega arith)

-- Two pushes and two pops, with the values in the order of their priorities.
push_pop :
    (do
      q ← pq_push junk (pq_new junk 1) 5 9
      q ← pq_push junk q 6 4
      (a, q) ← pq_pop junk q
      (b, q) ← pq_pop junk q
      done (a ∷ b ∷ []))
    ≡ done (6 ∷ 5 ∷ [])
unfolding pq_new pq_push pq_pop load store set take for_up fresh
push_pop = refl

pq_push-Pushed_example : Returns (Pushed junk (item 11 1) full) (pq_push junk full 11 1)
pq_push-Pushed_example = pq_push-Pushed junk full 11 1 full-IsValid

pq_pop-Popped_example : Returns (Popped full) (pq_pop junk full)
pq_pop-Popped_example = pq_pop-Popped junk full full-IsValid (omega arith)

search_lem_example :
    Returns (HasKey full 10) (pq_haskey full 10)
    × Returns (Changed full 10 1) (pq_changepriority full 10 1)
search_lem_example = search_lem full 10 1 full-IsValid
