-- ===== src/ProducerConsumer/Condv2/Progress.antt =====
-- producerconsumer_condv2.c does not deadlock: while a thread has not finished, some thread can
-- take a step.
use codingforfun.Prelude.{ℕ, ◌<◌, ◌≡◌, false, arith, Bool-cases, inl, inr, ◌⊎◌}
use mathlib.Core.Path.{subst}
use native.Mathlib.Decide.{dec_lt}
use codingforfun.ProducerConsumer.Census.{census, le-census, census-member}
use codingforfun.ProducerConsumer.Points.{Role, producer, consumer, other, finished}
use codingforfun.ProducerConsumer.Condv2.{System, Step, moves, signals, IsOver}
use codingforfun.ProducerConsumer.Condv2.Balance.{counts, Balance, sleeps, works}
use codingforfun.ProducerConsumer.Condv2.Invariant.{Inv}
use codingforfun.ProducerConsumer.Condv2.Moving.{
  mobile, CanWork, queue-done, dequeue-done, Move-exists, Signalled-exists, StillCounts,
  StillCounts_lem, nobody_sleeps, none_owns, finished_of,
}

module _ {n : ℕ} {s : System} (inv : Inv n s) where
  open inv use {len, balance}
  open balance use {full, room, stock}

  pub works-CanWork : (r : Role) (i : ℕ) → i < n → 0 < works (s.threads r i) → CanWork r s.shared
  works-CanWork producer i lt h =
      queue-done s.shared (omega (arith, le-census works n (s.threads producer) i lt)) len
  works-CanWork consumer i lt h =
      dequeue-done s.shared (omega (arith, le-census works n (s.threads consumer) i lt)) full len

  Step-exists :
      (r : Role) (i : ℕ)
      → i < n
      → 0 < mobile s.shared.held (s.threads r i)
      → (t : System) × Step n s t
  Step-exists r i lt h = elim (Move-exists r s.shared (s.threads r i) h (works-CanWork r i lt)) [
    | inl (m', p', mv) ↦ (_, moves r i lt mv)
    | inr (k, e) ↦ let (f, sg) = Signalled-exists n s.threads (other r) in (_, signals r i lt e sg)
  ]

  -- Nobody can move: the mutex is free, and everyone sleeps or has finished.
  abbrev Stuck : Type 0
  Stuck =
      (census (mobile s.shared.held) n (s.threads producer) ≡ 0)
      × (census (mobile s.shared.held) n (s.threads consumer) ≡ 0)

  Step-or-Stuck : ((t : System) × Step n s t) ⊎ Stuck
  Step-or-Stuck = elim (dec_lt 0 (census (mobile s.shared.held) n (s.threads producer))) [
    | yes p ↦
        let (i, lt, h) = census-member (mobile s.shared.held) n (s.threads producer) p in
        inl (Step-exists producer i lt h)
    | no p ↦ elim (dec_lt 0 (census (mobile s.shared.held) n (s.threads consumer))) [
      | yes c ↦
          let (i, lt, h) = census-member (mobile s.shared.held) n (s.threads consumer) c in
          inl (Step-exists consumer i lt h)
      | no c ↦ inr (omega arith, omega arith)
    ]
  ]

  Stuck-free : Stuck → s.shared.held ≡ false
  Stuck-free (p, c) = elim (Bool-cases s.shared.held) [
    | inl e ↦ absurd (
        ground (
          arith,
          balance.owner,
          e,
          none_owns s.shared.held n (s.threads producer) p,
          none_owns s.shared.held n (s.threads consumer) c,
        ))
    | inr e ↦ e
  ]

  Stuck-IsOver : Stuck → IsOver n s
  Stuck-IsOver (p, c) = (over, zero_left)
    where
      free : s.shared.held ≡ false
      free = Stuck-free (p, c)

      still : (r : Role) → census (mobile false) n (s.threads r) ≡ 0
      still producer = subst (λ b. census (mobile b) n (s.threads producer) ≡ 0) free p
      still consumer = subst (λ b. census (mobile b) n (s.threads consumer) ≡ 0) free c

      still_counts : (r : Role) → StillCounts n (counts n (s.threads r))
      still_counts r = StillCounts_lem n (s.threads r) (still r) (inv.range r)

      awake :
          (census sleeps n (s.threads producer) ≡ 0)
          × (census sleeps n (s.threads consumer) ≡ 0)
          × (s.shared.index1 ≡ 0)
      awake =
          nobody_sleeps n
            (subst
              (λ b.
                Balance b s.shared.index1 (counts n (s.threads producer))
                  (counts n (s.threads consumer)))
              free balance)
            (still_counts producer) (still_counts consumer)

      zero_left : s.shared.index1 ≡ 0
      zero_left = let (a, b, e) = awake in e

      all_awake : (r : Role) → census sleeps n (s.threads r) ≡ 0
      all_awake producer = let (a, b, e) = awake in a
      all_awake consumer = let (a, b, e) = awake in b

      over : (r : Role) (i : ℕ) → i < n → s.threads r i ≡ finished
      over r i lt =
          finished_of (s.threads r i)
            (omega (arith, le-census (mobile false) n (s.threads r) i lt, still r))
            (omega (arith, le-census sleeps n (s.threads r) i lt, all_awake r))

  -- Some thread can take a step, or all is done.
  pub progress : ((t : System) × Step n s t) ⊎ IsOver n s
  progress = elim Step-or-Stuck [ inl st ↦ inl st | inr still ↦ inr (Stuck-IsOver still) ]
