-- ===== src/Git/Repository/Syncing.antt =====
-- When a sync of the clone fails.
use quotascale_controller.Prelude.{false, ◌≡◌, refl, Bool-cases, inl, inr}
use quotascale_controller.Prelude.Int.{ℤ}
use quotascale_controller.Effects.{Result, ok, err}
use quotascale_controller.Failure.{Error}
use quotascale_controller.Git.Config.{NodeScalingConfig}
use quotascale_controller.Git.Repository.{
  Outside, exists, Clone, repo_dir, read_machine_deployment_replicas, pull_repo, forgiven,
  after_pull, refresh, sync_found, sync_repo,
}

module _ {Repo Worktree W : Type 0} (o : Outside Repo Worktree W) (config : NodeScalingConfig) where
  -- The pull failed, and the manifest cannot be read either.
  abbrev IsLost : W → Error → Type 0
  IsLost w e =
      ((pull_repo o config w).0 ≡ err e)
      × ((e' : Error) × (read_machine_deployment_replicas o config (pull_repo o config w).1
            ≡ err e'))

  after_pull-IsLost :
      (r : Result Error (Unit {0})) (s : Clone W) (e : Error)
      → (after_pull o config (r, s)).0 ≡ err e
      → (r ≡ err e) × ((e' : Error) × (read_machine_deployment_replicas o config s.world ≡ err e'))
  unfolding after_pull
  after_pull-IsLost (ok _) s e h = absurd (cc h)
  after_pull-IsLost (err x) s e h = forgave _ refl h
    where
      forgave :
          (r : Result Error ℤ)
          → read_machine_deployment_replicas o config s.world ≡ r
          → forgiven o config x r ≡ err e
          → (◌≡◌ {A = Result Error (Unit {0})} (err x) (err e))
            × ((e' : Error) × (read_machine_deployment_replicas o config s.world ≡ err e'))
      forgave (ok n) k l = absurd (cc l)
      forgave (err e') k l = (l, (e', k))

  refresh-IsLost :
      (s : Clone W) (e : Error)
      → (refresh o config s).0 ≡ err e
      → (s.skip_next_pull ≡ false) × IsLost s.world e
  unfolding refresh
  refresh-IsLost s e h = elim (Bool-cases s.skip_next_pull) [
    | inl k ↦ absurd (cc (rw k at h))
    | inr k ↦ (k, after_pull-IsLost _ _ e (rw k at h))
  ]

  -- Where there is a clone and its parent directory, a sync fails only if it pulls, the pull fails,
  -- and what is there of the manifest cannot be read; the error is the pull's.
  pub sync_repo_fails :
      (s : Clone W) (e : Error) (w : W)
      → o.mkdir_all (o.dir (repo_dir o config)) s.world ≡ (ok tt, w)
      → o.stat (o.join (repo_dir o config) ".git") w ≡ exists
      → (sync_repo o config s).0 ≡ err e
      → (s.skip_next_pull ≡ false)
        × ((pull_repo o config w).0 ≡ err e)
        × ((e' : Error) × (read_machine_deployment_replicas o config (pull_repo o config w).1
              ≡ err e'))
  unfolding sync_repo sync_found
  sync_repo_fails s e w made there h =
      let lost = refresh-IsLost (record s { world = w }) e (simp (made, there) at h) in
      (lost.0, lost.1.0, lost.1.1)
