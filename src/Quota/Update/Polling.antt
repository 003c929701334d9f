-- ===== src/Quota/Update/Polling.antt =====
-- The loop of `waitForWorkerCapacity` ends, and what its end says.
use quotascale_controller.Prelude.{
  ℕ, zero, suc, ◌+◌, ◌≡◌, refl, true, false, arith, ◌⊎◌, inl, inr, Bool-cases,
}
use quotascale_controller.Prelude.Int.{ℤ, pos, pos_part, ◌+ℤ◌, ◌≤ℤ◌, ltb_ℤ, +ℤ_parts, int_laws}
use quotascale_controller.Effects.{Result, ok, err, Result-cases}
use quotascale_controller.Cluster.{Quantities}
use quotascale_controller.Resources.{Resources}
use quotascale_controller.Quota.Failure.{QuotaError}
use quotascale_controller.Quota.Capacity.{ensure_pod_demand_fits_cluster}
use quotascale_controller.Quota.Update.{
  Running, Surroundings, poll, poll_interval, poll_timeout, wait_for_worker_capacity,
}

-- A sleep takes its time at least, as `time.Sleep` promises.
abbrev pub Sleeps : {Q W : Type 0} → Surroundings Q W → Type 0
Sleeps {Q} {W} around =
    (d : ℤ) (s : Running Q W) → around.now s.world +ℤ d ≤ℤ around.now (around.sleep d s).world

module _ {Q W : Type 0} (q : Quantities Q) (around : Surroundings Q W) (demand : Resources) where
  abbrev fits_at : Running Q W → Result QuotaError (Unit {0})
  fits_at s = ensure_pod_demand_fits_cluster q around.client demand s.world

  -- The loop has ended because the demand fits, or at the deadline with the reason why it does not.
  abbrev pub Ended : ℤ → Result QuotaError (Unit {0}) × Running Q W → Type 0
  Ended deadline (r, s) =
      ((r ≡ ok tt) × (fits_at s ≡ ok tt))
      ⊎ ((e : QuotaError) × (r ≡ err e) × (fits_at s ≡ err e) × (deadline ≤ℤ around.now s.world))

  later :
      (t d t' deadline : ℤ) (fuel : ℕ)
      → pos 1 ≤ℤ d
      → t +ℤ d ≤ℤ t'
      → deadline ≤ℤ t +ℤ pos (suc fuel)
      → deadline ≤ℤ t' +ℤ pos fuel
  later t d t' deadline fuel h k l = omega int_laws

  due : (t deadline : ℤ) → ltb_ℤ t deadline ≡ false → deadline ≤ℤ t
  due t deadline h = ground arith

  not_due : (t deadline : ℤ) → ltb_ℤ t deadline ≡ true → deadline ≤ℤ t +ℤ pos 0 → ⊥
  not_due t deadline h k = ground (arith, +ℤ_parts t (pos 0))

  module _ (interval deadline : ℤ) (fuel : ℕ) (s : Running Q W) where
    poll_fits : fits_at s ≡ ok tt → poll q around (suc fuel) interval deadline demand s ≡ (ok tt, s)
    unfolding poll
    poll_fits h = rw (h, poll) refl

    poll_due :
        (e : QuotaError)
        → fits_at s ≡ err e
        → ltb_ℤ (around.now s.world) deadline ≡ false
        → poll q around (suc fuel) interval deadline demand s ≡ (err e, s)
    unfolding poll
    poll_due e h k = rw (h, poll) (rw k refl)

    poll_again :
        (e : QuotaError)
        → fits_at s ≡ err e
        → ltb_ℤ (around.now s.world) deadline ≡ true
        → poll q around (suc fuel) interval deadline demand s
          ≡ poll q around fuel interval deadline demand (around.sleep interval s)
    unfolding poll
    poll_again e h k = rw (h, poll) (rw k refl)

  -- One poll, with what the rest of the loop comes to.
  poll_step-Ended :
      (interval deadline : ℤ) (fuel : ℕ) (s : Running Q W)
      → (ltb_ℤ (around.now s.world) deadline ≡ true
          → Ended deadline (poll q around fuel interval deadline demand (around.sleep interval s)))
      → Ended deadline (poll q around (suc fuel) interval deadline demand s)
  poll_step-Ended interval deadline fuel s rest = elim (Result-cases (fits_at s)) [
    | inl (_, e) ↦ rw (poll_fits interval deadline fuel s e) (inl (refl, e))
    | inr (e, k) ↦ elim (Bool-cases (ltb_ℤ (around.now s.world) deadline)) [
      | inr l ↦
          rw (poll_due interval deadline fuel s e k l)
            (inr (e, refl, k, due (around.now s.world) deadline l))
      | inl l ↦ rw (poll_again interval deadline fuel s e k l) (rest l)
    ]
  ]

  poll-Ended :
      (interval deadline : ℤ) (fuel : ℕ) (s : Running Q W)
      → Sleeps around
      → pos 1 ≤ℤ interval
      → deadline ≤ℤ around.now s.world +ℤ pos fuel
      → Ended deadline (poll q around (suc fuel) interval deadline demand s)
  poll-Ended interval deadline zero s sleeps positive h =
      poll_step-Ended interval deadline zero s
        (λ l. absurd (not_due (around.now s.world) deadline l h))
  poll-Ended interval deadline (suc fuel) s sleeps positive h =
      poll_step-Ended interval deadline (suc fuel) s (λ l.
        poll-Ended interval deadline fuel (around.sleep interval s) sleeps positive (
          later (around.now s.world) interval (around.now (around.sleep interval s).world) deadline
            fuel positive (sleeps interval s) h))

  enough_time : (now timeout : ℤ) → now +ℤ timeout ≤ℤ now +ℤ pos (suc (pos_part timeout))
  enough_time now timeout = omega int_laws

  interval_positive : pos 1 ≤ℤ poll_interval around
  unfolding poll_interval
  interval_positive = ground arith

  two_more : (n : ℕ) → n + 2 ≡ suc (suc n)
  two_more n = omega arith

  -- Where a sleep takes its time at least, the wait for worker capacity ends, and not for want of
  -- polls: either the demand fits when it ends, or the timeout has passed and the demand does not fit,
  -- for the reason it gives.
  pub wait_for_worker_capacity-Ended :
      (s : Running Q W)
      → Sleeps around
      → Ended
          (around.now s.world +ℤ poll_timeout around)
          (wait_for_worker_capacity q around demand s)
  unfolding wait_for_worker_capacity
  wait_for_worker_capacity-Ended s sleeps = rw (two_more (pos_part (poll_timeout around))) (
      poll-Ended (poll_interval around) (around.now s.world +ℤ poll_timeout around)
        (suc (pos_part (poll_timeout around))) s sleeps interval_positive
        (enough_time (around.now s.world) (poll_timeout around)))
