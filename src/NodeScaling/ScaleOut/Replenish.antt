-- ===== src/NodeScaling/ScaleOut/Replenish.antt =====
-- What the replenishment of `ReconcileScaleOut` does to the manifest, whatever fails.
use quotascale_controller.Prelude.{
  ℕ, ◌+◌, ◌^◌, ◌<◌, ◌≤◌, ◌≡◌, refl, ap, sym, ◌∙◌, arith, ◌⊎◌, inl, inr, Bool-cases, String, true,
}
use quotascale_controller.Prelude.Int.{ℤ, pos, ◌==ℤ◌}
use quotascale_controller.Prelude.Text.{str_eq}
use quotascale_controller.Effects.{Result, ok, err, ok_inj, ◌>>◌, bind_pair}
use quotascale_controller.Failure.{Error, push_failed_reset_failed}
use quotascale_controller.Inventory.Store.{NodeScalingInventoryStore}
use quotascale_controller.NodeScaling.{State, NodeScalingRuntime, CommitMessage, scale_up, on_world}
use quotascale_controller.NodeScaling.Nodes.{sync_repo_if_configured}
use quotascale_controller.NodeScaling.ScaleOut.{
  replenish_spares, after_sync, after_read, write_replicas, commit_if_configured, scale_out_target,
}
use quotascale_controller.NodeScaling.ScaleOut.Target.{
  scale_out_target_lem, scale_out_target_capped,
}

-- What a commit with its push leaves of the replicas that are read, `before` being those read before it
-- and `committed` those of the commit where the clone stood: a push that fails takes the clone back
-- there, and leaves nothing known if that fails too.
pub data CommitEnds {W : Type 0} (read : W → Result Error ℤ) (before committed : Result Error ℤ)
    (x : Result Error (Unit {0}) × W) : Type 0 where
  done : x.0 ≡ ok tt → read x.1 ≡ before → CommitEnds read before committed x
  kept : (e : Error) → x.0 ≡ err e → read x.1 ≡ before → CommitEnds read before committed x
  restored : (e : Error) → x.0 ≡ err e → read x.1 ≡ committed → CommitEnds read before committed x
  lost :
      (previous : String) (e e' : Error)
      → x.0 ≡ err (push_failed_reset_failed previous e e')
      → CommitEnds read before committed x

-- The manifest of the clone's working copy. A write that succeeds to a well-formed manifest is read
-- back and leaves the commits; an update of the inventory leaves the manifest.
pub record KeepsManifest {W : Type 0} (runtime : NodeScalingRuntime W)
    (store : NodeScalingInventoryStore W) (committed : W → Result Error ℤ) (is_plain : W → Type 0)
    : Type 0 where
  pub write-read :
      (n : ℕ) (w : W)
      → n < 2 ^ 31
      → is_plain w
      → (runtime.write_machine_deployment_replicas (pos n) w).0 ≡ ok tt
      → runtime.read_machine_deployment_replicas
          (runtime.write_machine_deployment_replicas (pos n) w).1
        ≡ ok (pos n)
  pub write-committed :
      (n : ℕ) (w : W)
      → committed (runtime.write_machine_deployment_replicas (pos n) w).1 ≡ committed w
  pub commits :
      (m : CommitMessage) (w : W)
      → CommitEnds runtime.read_machine_deployment_replicas
          (runtime.read_machine_deployment_replicas w)
          (committed w)
          (runtime.commit_and_push m w)
  pub updates :
      (n : ℤ) (w : W)
      → runtime.read_machine_deployment_replicas (store.update_machine_deployment_replicas n w).1
        ≡ runtime.read_machine_deployment_replicas w

module _ {W : Type 0} (runtime : NodeScalingRuntime W) (store : NodeScalingInventoryStore W)
    (committed : W → Result Error ℤ) (is_plain : W → Type 0)
    (laws : KeepsManifest runtime store committed is_plain) where
  abbrev read : W → Result Error ℤ
  read = runtime.read_machine_deployment_replicas

  -- How the replicas end that stood at `m`, are to be `target`, and are written from `w`.
  data Ends (m target : ℕ) (w : W) (x : Result Error (Unit {0}) × State W) : Type 0 where
    unwritten :
        (e : Error)
        → x.0 ≡ err e
        → (runtime.write_machine_deployment_replicas (pos target) w).0 ≡ err e
        → Ends m target w x
    lost :
        (previous : String) (e e' : Error)
        → x.0 ≡ err (push_failed_reset_failed previous e e')
        → Ends m target w x
    restored : (e : Error) → x.0 ≡ err e → read x.1.world ≡ ok (pos m) → Ends m target w x
    written : read x.1.world ≡ ok (pos target) → Ends m target w x

  module _ (m target : ℕ) (w : W) where
    update-Ends :
        (x : Result Error (Unit {0}) × State W)
        → Ends m target w x
        → Ends m target w
            (bind_pair x (λ _. on_world (store.update_machine_deployment_replicas (pos target))))
    update-Ends (err e, s) h = h
    update-Ends (ok _, s) (unwritten e h k) = absurd (cc h)
    update-Ends (ok _, s) (lost previous e e' h) = absurd (cc h)
    update-Ends (ok _, s) (restored e h k) = absurd (cc h)
    update-Ends (ok _, s) (written h) = written (laws.updates (pos target) s.world ∙ h)

    pushed-Ends :
        (s : State W) (x : Result Error (Unit {0}) × W)
        → read s.world ≡ ok (pos target)
        → committed s.world ≡ ok (pos m)
        → CommitEnds read (read s.world) (committed s.world) x
        → Ends m target w (x.0, record s { world = x.1 })
    pushed-Ends s x h c (CommitEnds.done e k) = written (k ∙ h)
    pushed-Ends s x h c (CommitEnds.kept e k l) = written (l ∙ h)
    pushed-Ends s x h c (CommitEnds.restored e k l) = restored e k (l ∙ c)
    pushed-Ends s x h c (CommitEnds.lost previous e e' k) = lost previous e e' k

    commit-Ends :
        (s : State W)
        → read s.world ≡ ok (pos target)
        → committed s.world ≡ ok (pos m)
        → Ends m target w (commit_if_configured store runtime (pos target) s)
    unfolding commit_if_configured
    commit-Ends s h c = elim (Bool-cases (str_eq runtime.repo_url "")) [
      | inl e ↦ rw e (written h)
      | inr e ↦ rw e (pushed-Ends s _ h c (laws.commits (scale_up (pos target)) s.world))
    ]

    run-Ends :
        (s : State W) (r : Result Error (Unit {0})) (v : W)
        → runtime.write_machine_deployment_replicas (pos target) w ≡ (r, v)
        → target < 2 ^ 31
        → is_plain w
        → committed w ≡ ok (pos m)
        → Ends m target w (
            bind_pair
              (r, record s { world = v })
              (λ _. (do
                commit_if_configured store runtime (pos target)
                on_world (store.update_machine_deployment_replicas (pos target)))))
    run-Ends s (err e) v h t p c = unwritten e refl (ap (λ x. x.0) h)
    run-Ends s (ok _) v h t p c =
        update-Ends (commit_if_configured store runtime (pos target) (record s { world = v })) (
          commit-Ends (record s { world = v })
            (ap read (sym (ap (λ x. x.1) h)) ∙ laws.write-read target w t p (ap (λ x. x.0) h))
            (ap committed (sym (ap (λ x. x.1) h)) ∙ laws.write-committed target w ∙ c))

  same_target : (m target : ℕ) → (pos target ==ℤ pos m) ≡ true → m ≡ target
  same_target m target h = ground (arith, h)

  -- What holds of the clone: its manifest has `m` replicas, is well-formed, and is as committed.
  abbrev pub IsClean : ℕ → W → Type 0
  IsClean m w =
      (runtime.read_machine_deployment_replicas w ≡ ok (pos m))
      × (committed w ≡ ok (pos m))
      × is_plain w

  write_replicas-Ends :
      (m target : ℕ) (s : State W)
      → target < 2 ^ 31
      → IsClean m s.world
      → Ends m target s.world (write_replicas store runtime (pos m) (pos target) s)
  unfolding write_replicas
  write_replicas-Ends m target s t (h, c, p) = elim (Bool-cases (pos target ==ℤ pos m)) [
    | inl e ↦ rw e (written (h ∙ ap (λ n. ok (pos n)) (same_target m target e)))
    | inr e ↦ rw e (run-Ends m target s.world s _ _ refl t p c)
  ]

  -- The state after the sync.
  unfoldable pub synced : State W → State W
  synced s = (on_world (sync_repo_if_configured runtime) s).1

  read-Ends :
      (max_node_count : ℤ) (m target replenish : ℕ) (s : State W) (r : Result Error ℤ)
      → read s.world ≡ r
      → scale_out_target max_node_count (pos m) (pos replenish) ≡ pos target
      → target < 2 ^ 31
      → IsClean m s.world
      → Ends m target s.world (after_read store runtime max_node_count (pos replenish) r s)
  unfolding after_read
  read-Ends max_node_count m target replenish s (err e) h k t clean = absurd (cc (h, clean.0))
  read-Ends max_node_count m target replenish s (ok n) h k t clean =
      let same : n ≡ pos m = ok_inj (sym h ∙ clean.0) in
      rw (same, k) (write_replicas-Ends m target s t clean)

  -- What a replenishment comes to: the sync has failed and nothing is written, or as above.
  replenish-Ends :
      (s : State W) (m target replenish : ℕ)
      → scale_out_target s.settings.max_node_count (pos m) (pos replenish) ≡ pos target
      → target < 2 ^ 31
      → IsClean m (synced s).world
      → (read (replenish_spares store runtime (pos replenish) s).1.world ≡ ok (pos m))
        ⊎ Ends m target (synced s).world (replenish_spares store runtime (pos replenish) s)
  unfolding replenish_spares synced after_sync
  replenish-Ends s m target replenish k t clean = go (sync_repo_if_configured runtime s.world) clean
    where
      go :
          (x : Result Error (Unit {0}) × W)
          → IsClean m x.1
          → (read (after_sync store runtime (pos replenish) (x.0, record s { world = x.1 })).1.world
              ≡ ok (pos m))
            ⊎ Ends m target x.1
                (after_sync store runtime (pos replenish) (x.0, record s { world = x.1 }))
      go (err e, w) c = inl c.0
      go (ok _, w) c = inr (
          read-Ends s.settings.max_node_count m target replenish (record s { world = w }) _ refl k t
            c)

  -- The write has failed; or the push and the reset after it; or the manifest is within the bounds.
  pub Replenished : ℕ → ℕ → ℤ → W → Result Error (Unit {0}) × State W → Type 0
  Replenished m max target w x =
      ((e : Error) × (x.0 ≡ err e)
        × ((runtime.write_machine_deployment_replicas target w).0 ≡ err e))
      ⊎ (((previous : String) × (e : Error) × (e' : Error) × (x.0
              ≡ err (push_failed_reset_failed previous e e')))
          ⊎ ((n : ℕ) × (runtime.read_machine_deployment_replicas x.1.world ≡ ok (pos n))
              × (m ≤ n)
              × (n ≤ max)))

  Ends-Replenished :
      (m max target : ℕ) (w : W) (x : Result Error (Unit {0}) × State W)
      → m ≤ target
      → target ≤ max
      → Ends m target w x
      → Replenished m max (pos target) w x
  unfolding Replenished
  Ends-Replenished m max target w x h k (unwritten e l o) = inl (e, l, o)
  Ends-Replenished m max target w x h k (lost previous e e' l) = inr (inl (previous, e, e', l))
  Ends-Replenished m max target w x h k (restored e l o) =
      inr (inr (m, o, omega arith, omega arith))
  Ends-Replenished m max target w x h k (written l) = inr (inr (target, l, h, k))

  -- Where the clone is clean after the sync, with a manifest of `m` replicas within a maximum that is
  -- not 0, and `int32` holds the numbers: the replenishment leaves a manifest that has at least `m`
  -- replicas and at most the maximum, also where the sync, the commit, the push or the update of the
  -- inventory fails. The exceptions are a write of the manifest that fails, and a push and a reset
  -- that both fail, and then the replenishment returns that error.
  pub replenish_spares_bounds :
      (s : State W) (max m replenish : ℕ)
      → s.settings.max_node_count ≡ pos max
      → IsClean m (synced s).world
      → 0 < max
      → m ≤ max
      → max < 2 ^ 31
      → m + replenish < 2 ^ 31
      → Replenished m max
          (scale_out_target (pos max) (pos m) (pos replenish))
          (synced s).world
          (replenish_spares store runtime (pos replenish) s)
  replenish_spares_bounds s max m replenish e clean h k l o =
      let (n, at, below, above, exact) = scale_out_target_lem max m replenish h k l o in
      rw at
        (elim (replenish-Ends s m n replenish
          (ap (λ c. scale_out_target c (pos m) (pos replenish)) e ∙ at) (omega arith) clean) [
            | inl x ↦ unfold Replenished in inr (inr (m, x, omega arith, k))
            | inr x ↦ Ends-Replenished m max n (synced s).world _ below above x
          ])

  Ends-written :
      (m target : ℕ) (w : W) (x : Result Error (Unit {0}) × State W)
      → x.0 ≡ ok tt
      → Ends m target w x
      → read x.1.world ≡ ok (pos target)
  Ends-written m target w x h (unwritten e k l) = absurd (cc (sym h ∙ k))
  Ends-written m target w x h (lost previous e e' k) = absurd (cc (sym h ∙ k))
  Ends-written m target w x h (restored e k l) = absurd (cc (sym h ∙ k))
  Ends-written m target w x h (written k) = k

  synced_ok :
      (s : State W) (w : W) (replenish : ℤ)
      → sync_repo_if_configured runtime s.world ≡ (ok tt, w)
      → replenish_spares store runtime replenish s
        ≡ after_read store runtime s.settings.max_node_count replenish
            (read w)
            (record s { world = w })
  unfolding replenish_spares after_sync
  synced_ok s w replenish h = rw h refl

  -- Where the clone is synced and clean, its manifest has more replicas than the maximum, which is not
  -- 0, and `int32` holds the numbers: a replenishment that succeeds leaves a manifest with just the
  -- maximum, and so takes replicas away, however many it was to add.
  pub replenish_spares-shrinks :
      (s : State W) (w : W) (max m replenish : ℕ)
      → s.settings.max_node_count ≡ pos max
      → sync_repo_if_configured runtime s.world ≡ (ok tt, w)
      → IsClean m w
      → 0 < max
      → max < m
      → m + replenish < 2 ^ 31
      → (replenish_spares store runtime (pos replenish) s).0 ≡ ok tt
      → runtime.read_machine_deployment_replicas
          (replenish_spares store runtime (pos replenish) s).1.world
        ≡ ok (pos max)
  replenish_spares-shrinks s w max m replenish e sync clean h k l fine =
      ap (λ x. read x.1.world) same
      ∙ Ends-written m max w _ (ap (λ x. x.0) (sym same) ∙ fine) (
          read-Ends s.settings.max_node_count m max replenish (record s { world = w }) _ refl
            (ap (λ c. scale_out_target c (pos m) (pos replenish)) e
              ∙ scale_out_target_capped max m replenish h k l)
            (omega arith) clean)
    where
      same :
          replenish_spares store runtime (pos replenish) s
          ≡ after_read store runtime s.settings.max_node_count
              (pos replenish)
              (read w)
              (record s { world = w })
      same = synced_ok s w (pos replenish) sync
