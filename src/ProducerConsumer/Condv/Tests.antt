-- ===== src/ProducerConsumer/Condv/Tests.antt =====
-- Runs of producerconsumer_condv.c, among them one that leaves a consumer asleep for good.
use codingforfun.Prelude.{
  ℕ, set, suc, zero, ◌≤◌, ◌<◌, ◌≡◌, refl, true, List, [], ◌∷◌, ◌++◌, ◌⊎◌, arith, tally,
}
use codingforfun.ProducerConsumer.Points.{
  Role, producer, consumer, asleep, finished, size, blocked, isfull, isempty, other,
}
use codingforfun.ProducerConsumer.Condv.{
  System, Step, init, start, work, insertbuffer, dequeuebuffer,
}
use codingforfun.ProducerConsumer.Condv.Balance.{owns, complains}
use codingforfun.ProducerConsumer.Condv.Safety.{condv_safe}
use codingforfun.ProducerConsumer.Condv.Schedule.{Turn, go, wake, Ran, run, idle, idle-stops}

abbrev zeros : List ℕ
zeros = 0 ∷ 0 ∷ 0 ∷ 0 ∷ 0 ∷ 0 ∷ 0 ∷ 0 ∷ 0 ∷ 0 ∷ []

abbrev times : ℕ → Turn → List Turn
times zero t = []
times (suc k) t = t ∷ times k t

-- The five producers and five consumers of `main`. The consumers find the buffer empty and sleep; a
-- producer inserts a value and wakes one of them; before that one has the mutex, the producers
-- insert more values, without a signal.
abbrev schedule : List Turn
schedule =
    times 3 (go consumer 0)
    ++ times 3 (go consumer 1)
    ++ times 3 (go consumer 2)
    ++ times 3 (go consumer 3)
    ++ times 3 (go consumer 4)
    ++ times 4 (go producer 0)
    ++ wake producer 0 0 ∷ times 7 (go producer 0)
    ++ times 11 (go producer 1)
    ++ times 11 (go producer 2)
    ++ times 11 (go producer 3)
    ++ times 5 (go producer 4)
    ++ times 4 (go consumer 0)
    ++ times 6 (go producer 4)
    ++ times 6 (go consumer 0)

abbrev beginning : Ran 5
beginning = record { last = init zeros; reach = start zeros refl }

lost : Ran 5
unfolding run
lost = run beginning schedule

-- One consumer has finished, the others sleep, and eight values are left.
lost_state :
    (lost.last.threads consumer 0 ≡ finished)
    × (lost.last.threads consumer 1 ≡ asleep 0)
    × (lost.last.shared.index1 ≡ 8)
unfolding lost run work insertbuffer dequeuebuffer blocked isfull isempty other set
lost_state = (refl, refl, refl)

below_five : (P : ℕ → Type 0) (i : ℕ) → i < 5 → P 0 → P 1 → P 2 → P 3 → P 4 → P i
below_five P zero lt a b c d e = a
below_five P (suc zero) lt a b c d e = b
below_five P (suc (suc zero)) lt a b c d e = c
below_five P (suc (suc (suc zero))) lt a b c d e = d
below_five P (suc (suc (suc (suc zero)))) lt a b c d e = e
below_five P (suc (suc (suc (suc (suc i))))) lt a b c d e = absurd (omega arith)

lost_idle : (r : Role) (i : ℕ) → i < 5 → idle (lost.last.threads r i) ≡ true
unfolding lost run work insertbuffer dequeuebuffer blocked isfull isempty other set
lost_idle producer i lt =
    below_five (λ i. idle (lost.last.threads producer i) ≡ true) i lt refl refl refl refl refl
lost_idle consumer i lt =
    below_five (λ i. idle (lost.last.threads consumer i) ≡ true) i lt refl refl refl refl refl

-- `main` can hang: no thread can take a step, but for a wake-up that no signal sent.
lost_wakeup : (t : System) → ¬ Step 5 lost.last t
lost_wakeup t = idle-stops lost_idle

condv_safe_example :
    ((owns (lost.last.threads producer 0) ≡ 0)
      ⊎ (owns (lost.last.threads consumer 1) ≡ 0)
      ⊎ ((producer ≡ consumer) × (◌≡◌ {A = ℕ} 0 1)))
    × (lost.last.shared.index1 ≤ size)
    × (tally complains lost.last.shared.out ≡ 0)
condv_safe_example = condv_safe lost.reach producer consumer 0 1 (omega arith) (omega arith)
