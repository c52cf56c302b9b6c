-- ===== src/ListProblems/Palindrome.antt =====
-- ispalindrome never finds a palindrome.
use codingforfun.Prelude.{
  ℕ, zero, suc, ◌+◌, ◌-◌, ◌<◌, ◌≡◌, ◌≢◌, refl, ap, ◌∙◌, [], ◌∷◌, true, false, ltb, ◌==◌,
  if◌then◌else◌, arith, length, Bool, some, Bool-cases, inl, inr, Option-cases, get_elem?, ◌⊎◌,
  List, set,
}
use native.Mathlib.Decide.{dec_lt}
use codingforfun.Run.{Run, done, fault, ◌>>=◌}
use codingforfun.Array.{load, store}
use codingforfun.Memory.{Ptr, null, Heap, read, read-done}
use codingforfun.SingleList.{Node, node}
use codingforfun.SingleList.Segment.{Cells, start, Segment}
use codingforfun.ListProblems.Hops.{hops, Leads, hops-Leads, hops-length}
use codingforfun.ListProblems.{fill_queue, compare_queue, ispalindrome}

abbrev pub FalseOrFault : Run Bool → Type 0
FalseOrFault r = (r ≡ done false) ⊎ (r ≡ fault)

load-cases : (a : List ℕ) (i : ℕ) → (load a i ≡ fault) ⊎ ((v : ℕ) × (load a i ≡ done v))
unfolding load
load-cases a i = elim (Option-cases (get_elem? a i)) [
  | inl e ↦ inl (rw e refl)
  | inr (v, e) ↦ inr (v, rw e refl)
]

store-cases :
    (a : List ℕ) (i v : ℕ) → (store a i v ≡ fault) ⊎ ((b : List ℕ) × (store a i v ≡ done b))
unfolding store
store-cases a i v = elim (Bool-cases (ltb i (length a))) [
  | inl e ↦ inr (set a i v, rw e refl)
  | inr e ↦ inl (rw e refl)
]

matches :
    (v k : ℕ) (queue : List ℕ) (rest : Run Bool)
    → FalseOrFault rest
    → FalseOrFault (load queue k >>= λ w. if v == w then rest else done false)
matches v k queue rest f = elim (load-cases queue k) [
  | inl e ↦ rw e (inr refl)
  | inr (w, e) ↦ elim (Bool-cases (v == w)) [
    | inl same ↦ rw (e, same) f
    | inr other ↦ rw (e, other) (inl refl)
  ]
]

compare_round :
    (fuel k : ℕ) (h : Heap Node) (slow next : Ptr) (v : ℕ) (queue : List ℕ)
    → slow ≢ null
    → h slow ≡ some (node next v)
    → compare_queue (suc fuel) h slow queue (suc k)
      ≡ (load queue k >>= λ w. if v == w then compare_queue fuel h next queue k else done false)
unfolding compare_queue
compare_round fuel k h slow next v queue live holds =
    let go : (slow == null) ≡ false = ground arith in
    let some_left : (suc k == 0) ≡ false = ground arith in
    let e : suc k - 1 ≡ k = omega arith in
    rw (go, read-done h slow (node next v) live holds, some_left, e) refl

-- A round of the first loop, where `fast` leads over two nodes and `slow` over one.
fill_round :
    (fuel k : ℕ) (h : Heap Node) (fast f1 f2 slow next : Ptr) (a b v : ℕ) (queue : List ℕ)
    → fast ≢ null
    → h fast ≡ some (node f1 a)
    → f1 ≢ null
    → h f1 ≡ some (node f2 b)
    → f2 ≢ null
    → slow ≢ null
    → h slow ≡ some (node next v)
    → fill_queue (suc fuel) h fast slow queue k
      ≡ (store queue k v >>= λ queue'. fill_queue fuel h f2 next queue' (suc k))
unfolding fill_queue
fill_round fuel k h fast f1 f2 slow next a b v queue l0 h0 l1 h1 l2 ls hs =
    let go : (fast == null) ≡ false = ground arith in
    let go1 : (f1 == null) ≡ false = ground arith in
    let go2 : (f2 == null) ≡ false = ground arith in
    let e : k + 1 ≡ suc k = omega arith in
    rw
      (
        go,
        read-done h fast (node f1 a) l0 h0,
        go1,
        read-done h f1 (node f2 b) l1 h1,
        go2,
        read-done h slow (node next v) ls hs,
        e,
      )
      refl

module _ (h : Heap Node) (list : Ptr) (n : ℕ) where
  abbrev p : ℕ → Ptr
  p i = hops h i list

  module _ (leads : (i : ℕ) → i < n → Leads h (p i) (p (suc i))) (stop : p n ≡ null) where
    -- More nodes are left than values in the queue.
    compare_queue-FalseOrFault :
        (fuel j k : ℕ) (queue : List ℕ)
        → j + k < n
        → k < fuel
        → FalseOrFault (compare_queue fuel h (p j) queue k)
    unfolding compare_queue
    compare_queue-FalseOrFault zero j k queue more enough = absurd (omega arith)
    compare_queue-FalseOrFault (suc fuel) j zero queue more enough =
        let (v, live, holds) = leads j (omega arith) in
        let go : (p j == null) ≡ false = ground arith in
        inr (rw (go, read-done h (p j) _ live holds) refl)
    compare_queue-FalseOrFault (suc fuel) j (suc k) queue more enough =
        let (v, live, holds) = leads j (omega arith) in
        let rest = compare_queue-FalseOrFault fuel (suc j) k queue (omega arith) (omega arith) in
        rw (compare_round fuel k h (p j) (p (suc j)) v queue live holds)
          (matches v k queue (compare_queue fuel h (p (suc j)) queue k) rest)

    -- The first loop ends outside the queue, or with as many values in it as steps made by `slow`,
    -- at the last node or the last but one.
    abbrev Filled : Run (Ptr × Ptr × List ℕ × ℕ) → Type 0
    Filled r =
        (r ≡ fault)
        ⊎ ((k : ℕ) × (queue : List ℕ) × (r ≡ done (p (k + k), p k, queue, k))
            × ((suc (k + k) ≡ n) ⊎ (suc (suc (k + k)) ≡ n)))

    fill_queue-Filled :
        (fuel k : ℕ) (queue : List ℕ)
        → k + k < n
        → n < k + fuel
        → Filled (fill_queue fuel h (p (k + k)) (p k) queue k)
    unfolding fill_queue
    fill_queue-Filled zero k queue some_left enough = absurd (omega arith)
    fill_queue-Filled (suc fuel) k queue some_left enough =
        let (v, live, holds) = leads (k + k) some_left in
        let go : (p (k + k) == null) ≡ false = ground arith in
        elim (dec_lt (suc (k + k)) n) [
          | no last ↦
              let e : suc (k + k) ≡ n = omega arith in
              let over : (p (suc (k + k)) == null) ≡ true = ground (arith, ap p e ∙ stop) in
              inr (k, queue, rw (go, read-done h (p (k + k)) _ live holds, over) refl, inl e)
          | yes second ↦
              let (w, live', holds') = leads (suc (k + k)) second in
              let go' : (p (suc (k + k)) == null) ≡ false = ground arith in
              elim (dec_lt (suc (suc (k + k))) n) [
                | no last ↦
                    let e : suc (suc (k + k)) ≡ n = omega arith in
                    let over : (p (suc (suc (k + k))) == null) ≡ true =
                      ground (arith, ap p e ∙ stop) in
                    inr (
                      k,
                      queue,
                      rw
                          (
                            go,
                            read-done h (p (k + k)) _ live holds,
                            go',
                            read-done h (p (suc (k + k))) _ live' holds',
                            over,
                          )
                          refl,
                      inr e,
                    )
                | yes third ↦
                    let (u, slow_live, slow_holds) = leads k (omega arith) in
                    let (x, live2, holds2) = leads (suc (suc (k + k))) third in
                    let e : suc k + suc k ≡ suc (suc (k + k)) = omega arith in
                    rw
                      (fill_round fuel k h (p (k + k)) (p (suc (k + k))) (p (suc (suc (k + k))))
                        (p k) (p (suc k)) v w u queue live holds live' holds' live2 slow_live
                        slow_holds)
                      (elim (store-cases queue k u) [
                        | inl bad ↦ inl (rw bad refl)
                        | inr (queue', ok) ↦
                            rw (ok, ← e)
                              (fill_queue-Filled fuel (suc k) queue' (omega arith) (omega arith))
                      ])
              ]
        ]

    -- What follows the first loop.
    second_half :
        (fuel k : ℕ) (queue : List ℕ)
        → n < fuel
        → ((suc (k + k) ≡ n) ⊎ (suc (suc (k + k)) ≡ n))
        → FalseOrFault (
            read h (p (k + k)) >>= λ f.
            if f.next == null
            then compare_queue fuel h (p k) queue k
            else (read h (p k) >>= λ s. compare_queue fuel h s.next queue k))
    second_half fuel k queue enough (inl odd) =
        let (v, live, holds) = leads (k + k) (omega arith) in
        let over : (p (suc (k + k)) == null) ≡ true = ground (arith, ap p odd ∙ stop) in
        rw (read-done h (p (k + k)) _ live holds, over)
          (compare_queue-FalseOrFault fuel k k queue (omega arith) (omega arith))
    second_half fuel k queue enough (inr even) =
        let (v, live, holds) = leads (k + k) (omega arith) in
        let (w, live', holds') = leads (suc (k + k)) (omega arith) in
        let (u, slow_live, slow_holds) = leads k (omega arith) in
        let more : (p (suc (k + k)) == null) ≡ false = ground arith in
        rw (read-done h (p (k + k)) _ live holds, more, read-done h (p k) _ slow_live slow_holds)
          (compare_queue-FalseOrFault fuel (suc k) k queue (omega arith) (omega arith))

    search-FalseOrFault :
        (fuel : ℕ) (queue : List ℕ)
        → 1 < n
        → n < fuel
        → FalseOrFault (ispalindrome fuel h (p 0) queue)
    unfolding ispalindrome
    search-FalseOrFault fuel queue two enough =
        let (v, live, holds) = leads 0 (omega arith) in
        let (w, live', holds') = leads 1 two in
        let go : (p 0 == null) ≡ false = ground arith in
        let go' : (p 1 == null) ≡ false = ground arith in
        rw (go, read-done h (p 0) _ live holds, go')
          (elim (fill_queue-Filled fuel 0 queue (omega arith) (omega arith)) [
            | inl e ↦ inr (rw e refl)
            | inr (k, queue', e, where_it_ends) ↦
                rw e (second_half fuel k queue' (omega arith) where_it_ends)
          ])

-- ispalindrome on a list that ends in NULL, given more rounds than the list has nodes, never returns
-- TRUE, whatever the values: it ends with FALSE or in undefined behaviour.
pub ispalindrome-FalseOrFault :
    (fuel : ℕ) (xs : Cells) (h : Heap Node) (queue : List ℕ)
    → Segment h xs null
    → length xs < fuel
    → FalseOrFault (ispalindrome fuel h (start xs null) queue)
unfolding ispalindrome hops
ispalindrome-FalseOrFault fuel [] h queue s enough = inl refl
ispalindrome-FalseOrFault fuel ((a, v) ∷ []) h queue s enough =
    let go : (a == null) ≡ false = ground (arith, s.0) in
    inl (rw (go, read-done h a (node null v) s.0 s.1) refl)
ispalindrome-FalseOrFault fuel ((a, v) ∷ (b, w) ∷ xs) h queue s enough =
    search-FalseOrFault h a (suc (suc (length xs)))
      (λ i lt. hops-Leads h ((a, v) ∷ (b, w) ∷ xs) null i s lt)
      (hops-length h ((a, v) ∷ (b, w) ∷ xs) null s) fuel queue (omega arith) (omega arith)
