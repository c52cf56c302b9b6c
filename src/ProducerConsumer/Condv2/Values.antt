-- ===== src/ProducerConsumer/Condv2/Values.antt =====
-- The lines that producerconsumer_condv2.c prints account for every value.
use codingforfun.Prelude.{
  ℕ, suc, List, ◌+◌, ◌-◌, ◌≡◌, refl, arith, inl, inr, ◌∷◌, tally, sum_to, set, get_or, leb, ltb,
  length, Bool-cases, sum_to-set_beyond, get_or-set,
}
use codingforfun.Run.{done}
use codingforfun.ProducerConsumer.Points.{
  size, Line, queueing, dequeing, Shared, Role, producer, consumer, Point,
}
use codingforfun.ProducerConsumer.Condv2.{
  queue, dequeue, work, Move, act, System, moves, signals, wakes_up, Reach, start, later, woke,
}

abbrev pub queued : (ℕ → ℕ) → Line → ℕ
queued w (queueing v) = w v
queued w _ = 0

abbrev pub dequeued : (ℕ → ℕ) → Line → ℕ
dequeued w (dequeing v) = w v
dequeued w _ = 0

-- The values printed as queued are those printed as dequeued and those below the index.
abbrev pub Accounts : Shared → Type 0
Accounts m =
    (w : ℕ → ℕ) → tally (queued w) m.out ≡ tally (dequeued w) m.out + sum_to 0 w m.index1 m.buffer

tally-cons : (w : Line → ℕ) (l : Line) (ls : List Line) → tally w (l ∷ ls) ≡ w l + tally w ls
unfolding tally
tally-cons w l ls = refl

sum_to-suc :
    (w : ℕ → ℕ) (n : ℕ) (xs : List ℕ) → sum_to 0 w (suc n) xs ≡ sum_to 0 w n xs + w (get_or xs n 0)
unfolding sum_to
sum_to-suc w n xs = refl

work-Accounts : (r : Role) (v : ℕ) (m m' : Shared) → work r v m ≡ done m' → Accounts m → Accounts m'
unfolding work queue dequeue
work-Accounts producer v m m' e acc w = elim (Bool-cases (leb m.index1 size)) [
  | inl a ↦ elim (Bool-cases (ltb m.index1 (length m.buffer))) [
    | inl b ↦ ground (
      arith,
      acc w,
      tally-cons (queued w) (queueing v) m.out,
      tally-cons (dequeued w) (queueing v) m.out,
      sum_to-suc w m.index1 (set m.buffer m.index1 v),
      sum_to-set_beyond 0 w m.index1 m.buffer m.index1 v,
      get_or-set m.buffer m.index1 m.index1 v 0,
    )
    | inr b ↦ absurd (ground arith)
  ]
  | inr a ↦ absurd (ground arith)
]
work-Accounts consumer v m m' e acc w =
    let j = m.index1 - 1 in
    let v = get_or m.buffer j 0 in
    ground (
      arith,
      acc w,
      tally-cons (queued w) (dequeing v) m.out,
      tally-cons (dequeued w) (dequeing v) m.out,
      sum_to-suc w j m.buffer,
    )

Move-Accounts :
    {r : Role} {m m' : Shared} {p p' : Point} → Move r m p m' p' → Accounts m → Accounts m'
Move-Accounts {r} {m} {m'} (act {i} e) acc = work-Accounts r (suc i) m m' e acc
Move-Accounts mv acc = acc

-- Nothing is lost, doubled or invented: in every state that the program can come to, the values
-- printed as queued are, as a collection, those printed as dequeued and those in the buffer below
-- the index.
pub condv2-Accounts :
    {n : ℕ} {s : System}
    → Reach n s
    → (w : ℕ → ℕ)
    → tally (queued w) s.shared.out
      ≡ tally (dequeued w) s.shared.out + sum_to 0 w s.shared.index1 s.shared.buffer
unfolding tally sum_to
condv2-Accounts (start buffer len) w = refl
condv2-Accounts (later r (moves _ _ _ mv)) w = Move-Accounts mv (condv2-Accounts r) w
condv2-Accounts (later r (signals _ _ _ _ _)) w = condv2-Accounts r w
condv2-Accounts (woke r (wakes_up _ _ _ _)) w = condv2-Accounts r w
