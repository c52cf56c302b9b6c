-- ===== src/ProducerConsumer/Condv2/Tests.antt =====
-- Runs of producerconsumer_condv2.c with one producer and one consumer.
use codingforfun.Prelude.{
  ℕ, suc, set, ◌+◌, ◌≤◌, ◌*◌, ◌≡◌, refl, false, List, [], ◌∷◌, ◌⊎◌, arith, tally, sum_to,
}
use codingforfun.ProducerConsumer.Points.{
  Role, producer, Point, move_to, blocked, isfull, isempty, consumer, inside, Shared, size,
}
use codingforfun.ProducerConsumer.Condv2.{
  queue, work, Move, enter, lock, wait, pass, act, System, Step, moves, init, Reach, start, IsOver,
  Runs, here, then,
}
use codingforfun.ProducerConsumer.Condv2.Safety.{owns, Allowed, condv2_safe}
use codingforfun.ProducerConsumer.Condv2.Values.{condv2-Accounts, queued, dequeued}
use codingforfun.ProducerConsumer.Condv2.Finish.{condv2_finishes, Runs-Reach}

abbrev zeros : List ℕ
zeros = 0 ∷ 0 ∷ 0 ∷ 0 ∷ 0 ∷ 0 ∷ 0 ∷ 0 ∷ 0 ∷ 0 ∷ []

record Ran : Type 0 where
  last : System
  steps : ℕ
  run : Runs 1 (init zeros) steps last

next :
    (x : Ran) (r : Role) {m : Shared} {p : Point}
    → Move r x.last.shared (x.last.threads r 0) m p
    → Ran
next x r {m} {p} mv = record {
  last = record { shared = m; threads = move_to x.last.threads r 0 p };
  steps = suc x.steps;
  run = then x.run (moves r 0 (omega arith) mv);
}

abbrev first : Ran
first = record { last = init zeros; steps = 0; run = here }

-- The consumer finds the buffer empty and sleeps; the producer comes to its `queue`.
abbrev about_to_queue : Ran
unfolding next blocked isfull isempty
about_to_queue =
    let a = next first consumer (enter (omega arith)) in
    let b = next a consumer (lock refl) in
    let c = next b consumer (wait refl) in
    let d = next c producer (enter (omega arith)) in
    let e = next d producer (lock refl) in next e producer (pass refl)

abbrev queued_one : Ran
unfolding next work queue set about_to_queue
queued_one = next about_to_queue producer (act refl)

Ran-Reach : (x : Ran) → Reach 1 x.last
Ran-Reach x = Runs-Reach (start zeros refl) x.run

condv2_safe_example :
    ((owns (about_to_queue.last.threads consumer 0) ≡ false)
      ⊎ ((producer ≡ consumer) × (◌≡◌ {A = ℕ} 0 0)))
    × (about_to_queue.last.shared.index1 ≤ size)
    × Allowed producer (inside 0) about_to_queue.last.shared
unfolding about_to_queue next
condv2_safe_example =
    condv2_safe (Ran-Reach about_to_queue) producer consumer 0 0 (omega arith) (omega arith) refl

condv2-Accounts_example :
    tally (queued (λ v. v)) queued_one.last.shared.out
    ≡ tally (dequeued (λ v. v)) queued_one.last.shared.out
      + sum_to 0 (λ v. v) queued_one.last.shared.index1 queued_one.last.shared.buffer
condv2-Accounts_example = condv2-Accounts (Ran-Reach queued_one) (λ v. v)

queued_one_total : tally (queued (λ v. v)) queued_one.last.shared.out ≡ 1
unfolding queued_one about_to_queue next tally
queued_one_total = refl

condv2_finishes_example :
    (queued_one.steps ≤ 402 * 1)
    × (((u : System) × Step 1 queued_one.last u) ⊎ IsOver 1 queued_one.last)
condv2_finishes_example = condv2_finishes (start zeros refl) queued_one.run
