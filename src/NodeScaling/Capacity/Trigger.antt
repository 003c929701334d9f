-- ===== src/NodeScaling/Capacity/Trigger.antt =====
-- The timer of `EvaluateAutomaticScaleIn`.
use quotascale_controller.Prelude.{
  none, some, true, false, ◌≡◌, refl, ap, ◌∙◌, Bool-cases, Option-cases, List, [], ◌∷◌, ◌++◌, ltb,
  length, ◌⊎◌, inl, inr,
}
use quotascale_controller.Prelude.Int.{ℤ, ◌-ℤ◌, ltb_ℤ}
use quotascale_controller.Effects.{ok, err}
use quotascale_controller.Failure.{scale_in_queue_full}
use quotascale_controller.NodeScaling.{
  State, ScaleInRequest, handle_scale_in_request, reset_scale_in_trigger, queue_capacity,
}
use quotascale_controller.NodeScaling.Capacity.{ScaleInCapacityEvaluation, advance_trigger}

-- All evaluations found nodes to remove, at times at which the delay had not passed since `since`.
pub data AllEligible (since delay : ℤ) : List (ℤ × ScaleInCapacityEvaluation) → Type 0 where
  none_yet : AllEligible since delay []
  one_more :
      {now : ℤ} {evaluation : ScaleInCapacityEvaluation}
      {rest : List (ℤ × ScaleInCapacityEvaluation)}
      → evaluation.eligible ≡ true
      → ltb_ℤ (now -ℤ since) delay ≡ true
      → AllEligible since delay rest
      → AllEligible since delay ((now, evaluation) ∷ rest)

-- The request that the timer makes.
abbrev automatic : ScaleInRequest
automatic = record { namespace = ""; reason = "worker available resources still stay non-negative" }

module _ {W : Type 0} where
  -- The evaluations of one run, each with the time it took place, as the loop makes them; errors are
  -- only logged there.
  pub run_trigger : List (ℤ × ScaleInCapacityEvaluation) → State W → State W
  run_trigger [] s = s
  run_trigger ((now, evaluation) ∷ rest) s = run_trigger rest (advance_trigger now evaluation s).1

  module _ (now : ℤ) (evaluation : ScaleInCapacityEvaluation) (s : State W) where
    not_eligible :
        evaluation.eligible ≡ false
        → advance_trigger now evaluation s ≡ (ok tt, record s { scale_in_eligible_since = none })
    unfolding advance_trigger reset_scale_in_trigger
    not_eligible e = simp e

    starts :
        evaluation.eligible ≡ true
        → s.scale_in_eligible_since ≡ none
        → advance_trigger now evaluation s
          ≡ (ok tt, record s { scale_in_eligible_since = some now })
    unfolding advance_trigger
    starts e h = simp (e, h)

    waits :
        (since : ℤ)
        → evaluation.eligible ≡ true
        → s.scale_in_eligible_since ≡ some since
        → ltb_ℤ (now -ℤ since) s.settings.scale_in_trigger_delay ≡ true
        → advance_trigger now evaluation s ≡ (ok tt, s)
    unfolding advance_trigger
    waits since e h early = simp (e, h, early)

    fires :
        (since : ℤ)
        → evaluation.eligible ≡ true
        → s.scale_in_eligible_since ≡ some since
        → ltb_ℤ (now -ℤ since) s.settings.scale_in_trigger_delay ≡ false
        → advance_trigger now evaluation s
          ≡ handle_scale_in_request automatic (record s { scale_in_eligible_since = none })
    unfolding advance_trigger reset_scale_in_trigger
    fires since e h late = simp (e, h, late)

  queued :
      (s : State W)
      → ltb (length s.scale_in_requests) queue_capacity ≡ true
      → handle_scale_in_request automatic s
        ≡ (ok tt, record s { scale_in_requests = s.scale_in_requests ++ automatic ∷ [] })
  unfolding handle_scale_in_request
  queued s room = simp room

  refused :
      (s : State W)
      → ltb (length s.scale_in_requests) queue_capacity ≡ false
      → handle_scale_in_request automatic s ≡ (err scale_in_queue_full, s)
  unfolding handle_scale_in_request
  refused s full = simp full

  waiting :
      (evaluations : List (ℤ × ScaleInCapacityEvaluation)) (since : ℤ) (s : State W)
      → s.scale_in_eligible_since ≡ some since
      → AllEligible since s.settings.scale_in_trigger_delay evaluations
      → run_trigger evaluations s ≡ s
  unfolding run_trigger
  waiting [] since s e none_yet = refl
  waiting ((now, evaluation) ∷ rest) since s e (one_more el early more) =
      ap (λ r. run_trigger rest r.1) (waits now evaluation s since el e early)
      ∙ waiting rest since s e more

  run_trigger-append :
      (a b : List (ℤ × ScaleInCapacityEvaluation)) (s : State W)
      → run_trigger (a ++ b) s ≡ run_trigger b (run_trigger a s)
  unfolding run_trigger
  run_trigger-append [] b s = refl
  run_trigger-append ((now, evaluation) ∷ a) b s = run_trigger-append a b _

  -- An evaluation without nodes to remove leaves the queue alone and turns the timer off. One with
  -- nodes to remove leaves the queue alone too, or queues one request; that only if the timer has been
  -- on for the delay, and the timer is off then. Waiters, settings and the requests to scale out stay.
  pub advance_trigger_lem :
      (now : ℤ) (evaluation : ScaleInCapacityEvaluation) (s : State W)
      → (((evaluation.eligible ≡ false)
            × ((advance_trigger now evaluation s).1.scale_in_requests ≡ s.scale_in_requests)
            × ((advance_trigger now evaluation s).1.scale_in_eligible_since ≡ none))
          ⊎ ((((evaluation.eligible ≡ true)
                × ((advance_trigger now evaluation s).1.scale_in_requests ≡ s.scale_in_requests)))
              ⊎ ((since : ℤ) × (request : ScaleInRequest) × (evaluation.eligible ≡ true)
                  × (s.scale_in_eligible_since ≡ some since)
                  × (ltb_ℤ (now -ℤ since) s.settings.scale_in_trigger_delay ≡ false)
                  × ((advance_trigger now evaluation s).1.scale_in_requests
                      ≡ s.scale_in_requests ++ request ∷ [])
                  × ((advance_trigger now evaluation s).1.scale_in_eligible_since ≡ none))))
        × ((advance_trigger now evaluation s).1.scale_in_waiters ≡ s.scale_in_waiters)
        × ((advance_trigger now evaluation s).1.settings ≡ s.settings)
        × ((advance_trigger now evaluation s).1.scale_out_requests ≡ s.scale_out_requests)
  advance_trigger_lem now evaluation s = elim (Bool-cases evaluation.eligible) [
    | inr e ↦ rw (not_eligible now evaluation s e) (inl (e, refl, refl), refl, refl, refl)
    | inl e ↦ elim (Option-cases s.scale_in_eligible_since) [
      | inl h ↦ rw (starts now evaluation s e h) (inr (inl (e, refl)), refl, refl, refl)
      | inr (since, h) ↦
          elim (Bool-cases (ltb_ℤ (now -ℤ since) s.settings.scale_in_trigger_delay)) [
            | inl early ↦
                rw (waits now evaluation s since e h early) (inr (inl (e, refl)), refl, refl, refl)
            | inr late ↦
                rw (fires now evaluation s since e h late)
                  (elim (Bool-cases (ltb (length s.scale_in_requests) queue_capacity)) [
                    | inl room ↦
                        rw (queued (record s { scale_in_eligible_since = none }) room)
                          (inr (inr (since, automatic, e, h, late, refl, refl)), refl, refl, refl)
                    | inr full ↦
                        rw (refused (record s { scale_in_eligible_since = none }) full)
                          (inr (inl (e, refl)), refl, refl, refl)
                  ])
          ]
    ]
  ]

  -- From a controller whose timer is off: evaluations that all find nodes to remove, before the delay
  -- has passed since the first of them, leave the queue alone; the first one after that queues one
  -- request, if there is room, and turns the timer off.
  pub run_trigger_lem :
      (start now : ℤ) (first last : ScaleInCapacityEvaluation)
      (between : List (ℤ × ScaleInCapacityEvaluation)) (s : State W)
      → s.scale_in_eligible_since ≡ none
      → first.eligible ≡ true
      → AllEligible start s.settings.scale_in_trigger_delay between
      → last.eligible ≡ true
      → ltb_ℤ (now -ℤ start) s.settings.scale_in_trigger_delay ≡ false
      → ltb (length s.scale_in_requests) queue_capacity ≡ true
      → ((run_trigger ((start, first) ∷ between) s).scale_in_requests ≡ s.scale_in_requests)
        × ((request : ScaleInRequest) × ((run_trigger
                ((start, first) ∷ between ++ (now, last) ∷ [])
                s).scale_in_requests
              ≡ s.scale_in_requests ++ request ∷ []))
        × ((run_trigger ((start, first) ∷ between ++ (now, last) ∷ []) s).scale_in_eligible_since
            ≡ none)
  unfolding run_trigger
  run_trigger_lem start now first last between s off e all e' late room = (
    ap (λ x. x.scale_in_requests) quiet,
    (automatic, ap (λ x. x.scale_in_requests) after),
    ap (λ x. x.scale_in_eligible_since) after,
  )
    where
      started : State W
      started = record s { scale_in_eligible_since = some start }

      quiet : run_trigger ((start, first) ∷ between) s ≡ started
      quiet =
          ap (λ r. run_trigger between r.1) (starts start first s e off)
          ∙ waiting between start (record s { scale_in_eligible_since = some start }) refl all

      fired : advance_trigger now last started ≡ (
        ok tt,
        record s {
          scale_in_eligible_since = none;
          scale_in_requests = s.scale_in_requests ++ automatic ∷ [];
        },
      )
      fired =
          fires now last (record s { scale_in_eligible_since = some start }) start e' refl late
          ∙ queued (record s { scale_in_eligible_since = none }) room

      after : run_trigger ((start, first) ∷ between ++ (now, last) ∷ []) s ≡ record s {
        scale_in_eligible_since = none;
        scale_in_requests = s.scale_in_requests ++ automatic ∷ [];
      }
      after =
          run_trigger-append ((start, first) ∷ between) ((now, last) ∷ []) s
          ∙ ap (run_trigger ((now, last) ∷ [])) quiet
          ∙ ap (λ r. r.1) fired
