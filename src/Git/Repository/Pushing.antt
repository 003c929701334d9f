-- ===== src/Git/Repository/Pushing.antt =====
-- What a push that fails leaves of the clone.
use quotascale_controller.Prelude.{String, ◌≡◌, refl, subst, ◌∙◌}
use quotascale_controller.Prelude.Text.{append}
use quotascale_controller.Effects.{Result, ok, err, bind_pair, ◌>>=◌}
use quotascale_controller.Failure.{Error, push_failed_reset_failed, push_failed_restored}
use quotascale_controller.Git.Config.{NodeScalingConfig}
use quotascale_controller.Git.Repository.{
  Outside, repo_dir, auth, restored, pushed, commit_and_push,
}

-- The commit at which the clone stands, and what go-git does to it: staging and pushing leave it, a
-- commit that fails leaves it, and a reset that succeeds sets it.
pub record MovesHead {Repo Worktree W : Type 0} (o : Outside Repo Worktree W) (head : W → String)
    : Type 0 where
  pub reads_head : (repo : Repo) (w : W) (h : String) → o.head repo w ≡ ok h → head w ≡ h
  pub adds : (worktree : Worktree) (path : String) (w : W) → head (o.add worktree path w).1 ≡ head w
  pub commit_fails :
      (worktree : Worktree) (message name email : String) (w : W) (e : Error)
      → (o.commit worktree message name email w).0 ≡ err e
      → head (o.commit worktree message name email w).1 ≡ head w
  pub resets :
      (worktree : Worktree) (commit : String) (w : W)
      → (o.reset_hard worktree commit w).0 ≡ ok tt
      → head (o.reset_hard worktree commit w).1 ≡ commit

module _ {Repo Worktree W : Type 0} (o : Outside Repo Worktree W) (config : NodeScalingConfig)
    (head : W → String) (moves : MovesHead o head) (message : String) where
  -- The clone stands where it stood, or the result says why it does not: the change is pushed, or
  -- both the push and the reset have failed.
  pub data Ends (before : String) (x : Result Error (Unit {0}) × W) : Type 0 where
    done : x.0 ≡ ok tt → Ends before x
    stuck : (e e' : Error) → x.0 ≡ err (push_failed_reset_failed before e e') → Ends before x
    kept : (e : Error) → x.0 ≡ err e → head x.1 ≡ before → Ends before x

  restored-Ends :
      (worktree : Worktree) (before : String) (e : Error) (w : W) (r : Result Error (Unit {0}))
      → (o.reset_hard worktree before w).0 ≡ r
      → Ends before (restored o config before e (r, (o.reset_hard worktree before w).1))
  unfolding restored
  restored-Ends worktree before e w (ok _) h =
      kept (push_failed_restored before e) refl (moves.resets worktree before w h)
  restored-Ends worktree before e w (err e') h = stuck e e' refl

  pushed-Ends :
      (worktree : Worktree) (before : String) (r : Result Error (Unit {0})) (w : W)
      → Ends before (pushed o config worktree before (r, w))
  unfolding pushed
  pushed-Ends worktree before (ok _) w = done refl
  pushed-Ends worktree before (err e) w = restored-Ends worktree before e w _ refl

  -- A step that leaves the clone where it stood if it fails.
  bind-Ends :
      {A : Type 0} (before : String) (x : Result Error A × W)
      (rest : A → W → Result Error (Unit {0}) × W)
      → ((e : Error) → x.0 ≡ err e → head x.1 ≡ before)
      → ((a : A) → x.0 ≡ ok a → Ends before (rest a x.1))
      → Ends before (bind_pair x rest)
  bind-Ends before (ok a, w) rest fails goes = goes a refl
  bind-Ends before (err e, w) rest fails goes = kept e refl (fails e refl)

  -- From the staging on.
  staged-Ends :
      (repo : Repo) (worktree : Worktree) (w : W)
      → Ends (head w) (
          bind_pair (o.add worktree config.repo_file_path w) (λ _. (do
            hash ← o.commit worktree message config.username (append config.username "@gitea.local")
            λ v. pushed o config worktree (head w) (o.push repo (auth config) v))))
  staged-Ends repo worktree w =
      bind-Ends (head w) (o.add worktree config.repo_file_path w) _
        (λ e h. moves.adds worktree config.repo_file_path w)
        (λ _ h.
          bind-Ends (head w) (o.commit worktree message _ _ _) _
            (λ e k.
              moves.commit_fails worktree message _ _ _ e k
              ∙ moves.adds worktree config.repo_file_path w)
            (λ hash k. pushed-Ends worktree (head w) _ _))

  -- Where go-git moves the head as documented: whatever fails on the way, the clone stands at the commit
  -- where it stood, unless the call succeeds, or the push and the reset both failed, which the error then
  -- says.
  pub commit_and_push-Ends : (w : W) → Ends (head w) (commit_and_push o config message w)
  unfolding commit_and_push
  commit_and_push-Ends w =
      bind-Ends (head w) (o.plain_open (repo_dir o config) w, w) _ (λ e h. refl)
        (λ repo h.
          bind-Ends (head w) (o.head repo w, w) _ (λ e k. refl)
            (λ before k.
              bind-Ends (head w) (o.worktree repo w, w) _ (λ e l. refl)
                (λ worktree l.
                  subst
                    (λ b. Ends (head w) (
                      bind_pair (o.add worktree config.repo_file_path w) (λ _. (do
                        hash ←
                            o.commit worktree message config.username
                              (append config.username "@gitea.local")
                        λ v. pushed o config worktree b (o.push repo (auth config) v)))))
                    (moves.reads_head repo w before k) (staged-Ends repo worktree w))))
