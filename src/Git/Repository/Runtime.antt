-- ===== src/Git/Repository/Runtime.antt =====
-- The runtime of the clone keeps its manifest as the controllers expect it.
use quotascale_controller.Prelude.{ℕ, ◌^◌, ◌<◌, String, ◌≡◌, refl, sym, ap, ◌∙◌}
use quotascale_controller.Prelude.Int.{ℤ, pos}
use quotascale_controller.Prelude.Text.{append}
use quotascale_controller.Effects.{Result, ok, err, bind_pair, bind_result}
use quotascale_controller.Failure.{Error, push_failed_restored}
use quotascale_controller.Inventory.Store.{NodeScalingInventoryStore}
use quotascale_controller.NodeScaling.ScaleOut.Replenish.{
  CommitEnds, done, kept, restored, lost, KeepsManifest,
}
use quotascale_controller.Git.Config.{NodeScalingConfig}
use quotascale_controller.Git.Repository.{
  Outside, Clone, repo_dir, auth, machine_deployment_absolute_path, read_machine_deployment,
  read_machine_deployment_replicas, replicas_there, write_machine_deployment_replicas, write_edited,
  write_read, commit_and_push, commit_text, pushed, git_runtime, restored as restored_result,
}
use quotascale_controller.Git.Repository.Replicas.{
  StoresManifest, HoldsPlain, read-write_machine_deployment_replicas,
}

-- What go-git does to the manifest, `file_at` being its text in a commit: staging, committing and
-- pushing leave the file, a reset that succeeds gives it the text of its commit, and writing a file
-- touches neither the repository nor its head.
pub record KeepsClone {Repo Worktree W : Type 0} (o : Outside Repo Worktree W)
    (config : NodeScalingConfig) (file_at : String → Result Error String) : Type 0 where
  pub open-write :
      (path content : String) (w : W)
      → o.plain_open (repo_dir o config) (o.write_file path content w).1
        ≡ o.plain_open (repo_dir o config) w
  pub head-write :
      (repo : Repo) (path content : String) (w : W)
      → o.head repo (o.write_file path content w).1 ≡ o.head repo w
  pub read-add :
      (worktree : Worktree) (path file : String) (w : W)
      → o.read_file file (o.add worktree path w).1 ≡ o.read_file file w
  pub read-commit :
      (worktree : Worktree) (message name email file : String) (w : W)
      → o.read_file file (o.commit worktree message name email w).1 ≡ o.read_file file w
  pub read-push :
      (repo : Repo) (file : String) (w : W)
      → o.read_file file (o.push repo (auth config) w).1 ≡ o.read_file file w
  pub read-reset :
      (worktree : Worktree) (commit : String) (w : W)
      → (o.reset_hard worktree commit w).0 ≡ ok tt
      → o.read_file (machine_deployment_absolute_path o config) (o.reset_hard worktree commit w).1
        ≡ file_at commit

module _ {Repo Worktree W : Type 0} (o : Outside Repo Worktree W) (config : NodeScalingConfig)
    (file_at : String → Result Error String) (laws : KeepsClone o config file_at) where
  abbrev decoded : Result Error String → Result Error ℤ
  decoded text = bind_result (bind_result text o.unmarshal_replicas) (replicas_there o config)

  abbrev read : W → Result Error ℤ
  read = read_machine_deployment_replicas o config

  read-decoded :
      (w : W) → read w ≡ decoded (o.read_file (machine_deployment_absolute_path o config) w)
  unfolding read_machine_deployment_replicas read_machine_deployment
  read-decoded w = refl

  -- A step that leaves the file leaves the replicas.
  same_file :
      (v w : W)
      → o.read_file (machine_deployment_absolute_path o config) v
        ≡ o.read_file (machine_deployment_absolute_path o config) w
      → read v ≡ read w
  same_file v w h = read-decoded v ∙ ap decoded h ∙ sym (read-decoded w)

  -- The replicas of the commit where the clone stands.
  unfoldable pub committed : W → Result Error ℤ
  committed w =
      bind_result (o.plain_open (repo_dir o config) w)
        (λ repo. bind_result (o.head repo w) (λ head. decoded (file_at head)))

  module _ (before after : Result Error ℤ) where
    abbrev Ends : Result Error (Unit {0}) × W → Type 0
    Ends = CommitEnds read before after

    bind-Ends :
        {A : Type 0} (x : Result Error A × W) (rest : A → W → Result Error (Unit {0}) × W)
        → read x.1 ≡ before
        → ((a : A) → x.0 ≡ ok a → Ends (rest a x.1))
        → Ends (bind_pair x rest)
    bind-Ends (ok a, w) rest h goes = goes a refl
    bind-Ends (err e, w) rest h goes = kept e refl h

    reset-Ends :
        (worktree : Worktree) (previous : String) (e : Error) (w : W) (r : Result Error (Unit {0}))
        → (o.reset_hard worktree previous w).0 ≡ r
        → decoded (file_at previous) ≡ after
        → Ends (restored_result o config previous e (r, (o.reset_hard worktree previous w).1))
    unfolding restored_result
    reset-Ends worktree previous e w (ok _) h c =
        restored (push_failed_restored previous e) refl
          (read-decoded _ ∙ ap decoded (laws.read-reset worktree previous w h) ∙ c)
    reset-Ends worktree previous e w (err e') h c = lost previous e e' refl

    pushed-Ends :
        (worktree : Worktree) (previous : String) (r : Result Error (Unit {0})) (w : W)
        → read w ≡ before
        → decoded (file_at previous) ≡ after
        → Ends (pushed o config worktree previous (r, w))
    unfolding pushed
    pushed-Ends worktree previous (ok _) w h c = done refl h
    pushed-Ends worktree previous (err e) w h c = reset-Ends worktree previous e w _ refl c

  committed-at :
      (w : W) (repo : Repo) (head : String)
      → o.plain_open (repo_dir o config) w ≡ ok repo
      → o.head repo w ≡ ok head
      → decoded (file_at head) ≡ committed w
  unfolding committed
  committed-at w repo head h k = sym (simp (h, k) refl)

  commit_and_push-CommitEnds :
      (message : String) (w : W)
      → CommitEnds read (read w) (committed w) (commit_and_push o config message w)
  unfolding commit_and_push
  commit_and_push-CommitEnds message w =
      bind (o.plain_open (repo_dir o config) w, w) _ refl
        (λ repo h.
          bind (o.head repo w, w) _ refl
            (λ head k.
              bind (o.worktree repo w, w) _ refl
                (λ worktree l.
                  bind (o.add worktree config.repo_file_path w) _ (added worktree) (λ _ m.
                    bind
                      (o.commit worktree message config.username
                        (append config.username "@gitea.local")
                        (o.add worktree config.repo_file_path w).1)
                      _ (stored worktree)
                      (λ hash n.
                        pushed-Ends (read w) (committed w) worktree head _ _
                          (same_file _ _ (laws.read-push repo _ _) ∙ stored worktree)
                          (committed-at w repo head h k))))))
    where
      bind :
          {A : Type 0} (x : Result Error A × W) (rest : A → W → Result Error (Unit {0}) × W)
          → read x.1 ≡ read w
          → ((a : A) → x.0 ≡ ok a → CommitEnds read (read w) (committed w) (rest a x.1))
          → CommitEnds read (read w) (committed w) (bind_pair x rest)
      bind = bind-Ends (read w) (committed w)

      added : (worktree : Worktree) → read (o.add worktree config.repo_file_path w).1 ≡ read w
      added worktree = same_file _ _ (laws.read-add worktree config.repo_file_path _ w)

      stored :
          (worktree : Worktree)
          → read
              (o.commit worktree message config.username
                (append config.username "@gitea.local")
                (o.add worktree config.repo_file_path w).1).1
            ≡ read w
      stored worktree = same_file _ _ (laws.read-commit worktree message _ _ _ _) ∙ added worktree

  -- A write of the replicas leaves what is committed, whatever it comes to.
  committed-write_file :
      (path content : String) (w : W) → committed (o.write_file path content w).1 ≡ committed w
  unfolding committed
  committed-write_file path content w = λ i.
      bind_result (laws.open-write path content w i) (λ repo.
        bind_result (laws.head-write repo path content w i) (λ head. decoded (file_at head)))

  committed-write_edited :
      (r : Result Error String) (w : W) → committed (write_edited o config r w).1 ≡ committed w
  unfolding write_edited
  committed-write_edited (err e) w = refl
  committed-write_edited (ok content) w = committed-write_file _ content w

  committed-write_read :
      (n : ℤ) (r : Result Error String) (w : W)
      → committed (write_read o config n r w).1 ≡ committed w
  unfolding write_read
  committed-write_read n (err e) w = refl
  committed-write_read n (ok content) w = committed-write_edited _ w

  committed-write :
      (n : ℤ) (w : W) → committed (write_machine_deployment_replicas o config n w).1 ≡ committed w
  unfolding write_machine_deployment_replicas
  committed-write n w = committed-write_read n _ w

  in_clone :
      (before after : Result Error ℤ) (s : Clone W) (x : Result Error (Unit {0}) × W)
      → CommitEnds read before after x
      → CommitEnds (λ (c : Clone W). read c.world) before after (x.0, record s { world = x.1 })
  in_clone before after s x (done h k) = done h k
  in_clone before after s x (kept e h k) = kept e h k
  in_clone before after s x (restored e h k) = restored e h k
  in_clone before after s x (lost previous e e' h) = lost previous e e' h

  -- The clone's runtime has the laws that the scale-out relies on, for manifests that are plain and a
  -- store of the inventory that leaves the file alone.
  pub git_runtime-KeepsManifest :
      (store : NodeScalingInventoryStore (Clone W))
      → ((n : ℕ) → n < 2 ^ 31 → StoresManifest o (pos n))
      → ((n : ℤ) (s : Clone W)
          → read_machine_deployment_replicas o config
              (store.update_machine_deployment_replicas n s).1.world
            ≡ read_machine_deployment_replicas o config s.world)
      → KeepsManifest
          (git_runtime o config)
          store
          (λ s. committed s.world)
          (λ s. HoldsPlain o config s.world)
  unfolding git_runtime
  git_runtime-KeepsManifest store stores updates = record {
    write-read = λ n s h p k.
        read-write_machine_deployment_replicas o config (pos n) (stores n h) s.world p k;
    write-committed = λ n s. committed-write (pos n) s.world;
    commits = λ m s.
        in_clone _ _ s (commit_and_push o config (commit_text m) s.world)
          (commit_and_push-CommitEnds (commit_text m) s.world);
    updates = updates;
  }
