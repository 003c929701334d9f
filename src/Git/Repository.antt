-- ===== src/Git/Repository.antt =====
-- internal/nodescaling/runtime.go: the clone and its remote. The file system, YAML and go-git are an
-- interface, `Outside`; what is theirs is `W`, and the clone's own two flags are kept beside it.
pub mod Pushing
pub mod Syncing
pub mod Replicas
pub mod Runtime
use quotascale_controller.Prelude.{
  String, Option, none, some, Bool, true, false, ◌&&◌, not, List, [], ◌∷◌, if◌then◌else◌,
}
use quotascale_controller.Prelude.Int.{ℤ}
use quotascale_controller.Prelude.Text.{str_eq, append}
use quotascale_controller.Prelude.Decimal.{format_int}
use quotascale_controller.Effects.{
  Result, ok, err, Eff, ◌>>=◌, ◌>>◌, pure, reads, modify, bind_result,
}
use quotascale_controller.Failure.{
  Error, replicas_missing, push_failed_reset_failed, push_failed_restored,
}
use quotascale_controller.NodeScaling.{
  NodeScalingRuntime, CommitMessage, scale_up, scale_in, initialize,
}
use quotascale_controller.Git.Manifest.{YamlNode, set_spec_replicas}
use quotascale_controller.Git.Config.{NodeScalingConfig, load_node_scaling_config}

-- What `os.Stat` finds.
pub data PathState : Type 0 where
  exists not_exists : PathState
  unknown : Error → PathState

pub data PullResult : Type 0 where
  pulled already_up_to_date : PullResult
  pull_failed : Error → PullResult

-- `http.BasicAuth`
pub record BasicAuth : Type 0 where
  pub username : String
  pub password : String

-- The calls of the file system, of path/filepath, of yaml and of go-git. `encode` is the encoder with
-- an indent of 2, closed; `reset_hard` is `Reset` in mode HardReset.
pub record Outside (Repo Worktree W : Type 0) : Type 0 where
  pub getenv : String → String
  pub temp_dir : String
  pub dir : String → String
  pub join : String → String → String
  pub stat : String → W → PathState
  pub mkdir_all : String → Eff Error W (Unit {0})
  pub remove_all : String → Eff Error W (Unit {0})
  pub read_file : String → W → Result Error String
  pub write_file : String → String → Eff Error W (Unit {0})
  pub unmarshal_replicas : String → Result Error (Option ℤ)
  pub unmarshal_node : String → Result Error YamlNode
  pub encode : YamlNode → Result Error String
  pub plain_clone : String → String → Option BasicAuth → String → Eff Error W (Unit {0})
  pub plain_open : String → W → Result Error Repo
  pub head : Repo → W → Result Error String
  pub worktree : Repo → W → Result Error Worktree
  pub remote_urls : Repo → String → W → Result Error (List String)
  pub delete_remote : Repo → String → Eff Error W (Unit {0})
  pub create_remote : Repo → String → String → Eff Error W (Unit {0})
  pub pull : Worktree → Option BasicAuth → String → W → PullResult × W
  pub add : Worktree → String → Eff Error W (Unit {0})
  pub commit : Worktree → String → String → String → Eff Error W String
  pub push : Repo → Option BasicAuth → Eff Error W (Unit {0})
  pub reset_hard : Worktree → String → Eff Error W (Unit {0})

-- The flags of `NodeScalingRuntime`, and all else. `just_cloned` is only ever set.
pub record Clone (W : Type 0) : Type 0 where
  pub world : W
  pub just_cloned : Bool
  pub skip_next_pull : Bool

abbrev pub outside : {W A : Type 0} → Eff Error W A → Eff Error (Clone W) A
outside m s = ((m s.world).0, record s { world = (m s.world).1 })

unfoldable pub commit_text : CommitMessage → String
commit_text (scale_up n) = append "Scale up node MachineDeployment to " (format_int n)
commit_text (scale_in n) = append "Scale in node MachineDeployment to " (format_int n)
commit_text (initialize n) =
    append "Initialize node scaling MachineDeployment replicas to " (format_int n)

unfoldable pub auth : NodeScalingConfig → Option BasicAuth
auth config =
    if str_eq config.username "" && str_eq config.password ""
    then none
    else some (record { username = config.username; password = config.password })

module _ {Repo Worktree W : Type 0} (o : Outside Repo Worktree W) (config : NodeScalingConfig) where
  unfoldable pub repo_dir : String
  repo_dir = o.join o.temp_dir "quotascale-controller-node-scaling"

  unfoldable pub machine_deployment_absolute_path : String
  unfolding repo_dir
  machine_deployment_absolute_path = o.join repo_dir config.repo_file_path

  unfoldable pub read_machine_deployment : W → Result Error (Option ℤ)
  unfolding machine_deployment_absolute_path
  read_machine_deployment w =
      bind_result (o.read_file machine_deployment_absolute_path w) o.unmarshal_replicas

  abbrev pub replicas_there : Option ℤ → Result Error ℤ
  replicas_there none = err replicas_missing
  replicas_there (some replicas) = ok replicas

  unfoldable pub read_machine_deployment_replicas : W → Result Error ℤ
  unfolding read_machine_deployment
  read_machine_deployment_replicas w = bind_result (read_machine_deployment w) replicas_there

  -- What is written to the file, from what is read.
  unfoldable pub edited : ℤ → String → Result Error String
  edited replicas content =
      bind_result (o.unmarshal_node content)
        (λ doc. bind_result (set_spec_replicas doc replicas) o.encode)

  write_edited : Result Error String → Eff Error W (Unit {0})
  unfolding machine_deployment_absolute_path
  write_edited (err e) w = (err e, w)
  write_edited (ok content) w = o.write_file machine_deployment_absolute_path content w

  write_read : ℤ → Result Error String → Eff Error W (Unit {0})
  unfolding write_edited edited
  write_read replicas (err e) w = (err e, w)
  write_read replicas (ok content) w = write_edited (edited replicas content) w

  unfoldable pub write_machine_deployment_replicas : ℤ → Eff Error W (Unit {0})
  unfolding write_read machine_deployment_absolute_path
  write_machine_deployment_replicas replicas w =
      write_read replicas (o.read_file machine_deployment_absolute_path w) w

  cloned : Result Error (Unit {0}) × Clone W → Result Error (Unit {0}) × Clone W
  cloned (err e, s) = (err e, s)
  cloned (ok _, s) = (ok tt, record s { just_cloned = true; skip_next_pull = true })

  unfoldable pub clone_repo : Eff Error (Clone W) (Unit {0})
  unfolding cloned repo_dir
  clone_repo s =
      cloned (outside (o.plain_clone repo_dir config.repo_url (auth config) config.repo_branch) s)

  new_remote : Repo → Eff Error W (Unit {0})
  new_remote repo = do o.delete_remote repo "origin"; o.create_remote repo "origin" config.repo_url

  -- The URLs of "origin": nothing to do where the first is the configured one.
  replace_remote : Repo → List String → Eff Error W (Unit {0})
  unfolding new_remote
  replace_remote repo [] w = new_remote repo w
  replace_remote repo (url ∷ urls) w =
      if str_eq url config.repo_url then (ok tt, w) else new_remote repo w

  unfoldable pub ensure_remote_url : Repo → Eff Error W (Unit {0})
  unfolding replace_remote
  ensure_remote_url repo = do urls ← reads (o.remote_urls repo "origin"); replace_remote repo urls

  abbrev pull_result : PullResult × W → Result Error (Unit {0}) × W
  pull_result (pulled, w) = (ok tt, w)
  pull_result (already_up_to_date, w) = (ok tt, w)
  pull_result (pull_failed e, w) = (err e, w)

  unfoldable pub pull_repo : Eff Error W (Unit {0})
  unfolding ensure_remote_url repo_dir
  pull_repo = do
    repo ← reads (o.plain_open repo_dir)
    ensure_remote_url repo
    worktree ← reads (o.worktree repo)
    λ w. pull_result (o.pull worktree (auth config) config.repo_branch w)

  abbrev pub forgiven : Error → Result Error ℤ → Result Error (Unit {0})
  forgiven e (ok n) = ok tt
  forgiven e (err e') = err e

  -- A pull that fails is no error as long as the manifest can be read.
  after_pull : Result Error (Unit {0}) × Clone W → Result Error (Unit {0}) × Clone W
  unfolding read_machine_deployment_replicas
  after_pull (ok _, s) = (ok tt, s)
  after_pull (err e, s) = (forgiven e (read_machine_deployment_replicas s.world), s)

  -- There is a clone.
  unfoldable pub refresh : Eff Error (Clone W) (Unit {0})
  unfolding after_pull pull_repo
  refresh s =
      if s.skip_next_pull
      then (ok tt, record s { skip_next_pull = false })
      else after_pull (outside pull_repo s)

  -- There is none: what stands in its place is removed.
  start_over : PathState → Eff Error (Clone W) (Unit {0})
  unfolding clone_repo repo_dir
  start_over exists = do outside (o.remove_all repo_dir); clone_repo
  start_over not_exists = clone_repo
  start_over (unknown e) = clone_repo

  sync_found : PathState → Eff Error (Clone W) (Unit {0})
  unfolding refresh start_over repo_dir
  sync_found exists s = refresh s
  sync_found (unknown e) s = (err e, s)
  sync_found not_exists s = start_over (o.stat repo_dir s.world) s

  unfoldable pub sync_repo : Eff Error (Clone W) (Unit {0})
  unfolding sync_found repo_dir
  sync_repo = do
    outside (o.mkdir_all (o.dir repo_dir))
    λ s. sync_found (o.stat (o.join repo_dir ".git") s.world) s

  -- A push that fails takes the commit back.
  restored : String → Error → Result Error (Unit {0}) × W → Result Error (Unit {0}) × W
  restored previous e (ok _, w) = (err (push_failed_restored previous e), w)
  restored previous e (err e', w) = (err (push_failed_reset_failed previous e e'), w)

  pushed : Worktree → String → Result Error (Unit {0}) × W → Result Error (Unit {0}) × W
  unfolding restored
  pushed worktree previous (ok _, w) = (ok tt, w)
  pushed worktree previous (err e, w) = restored previous e (o.reset_hard worktree previous w)

  unfoldable pub commit_and_push : String → Eff Error W (Unit {0})
  unfolding pushed repo_dir
  commit_and_push message = do
    repo ← reads (o.plain_open repo_dir)
    previous ← reads (o.head repo)
    worktree ← reads (o.worktree repo)
    o.add worktree config.repo_file_path
    hash ← o.commit worktree message config.username (append config.username "@gitea.local")
    λ w. pushed worktree previous (o.push repo (auth config) w)

  -- The interface that the controller uses, over the clone.
  unfoldable pub git_runtime : NodeScalingRuntime (Clone W)
  git_runtime = record {
    repo_url = config.repo_url;
    sync_repo = sync_repo;
    read_machine_deployment_replicas = λ s. read_machine_deployment_replicas s.world;
    write_machine_deployment_replicas = λ n. outside (write_machine_deployment_replicas n);
    commit_and_push = λ message. outside (commit_and_push (commit_text message));
  }

-- The runtime, if there is one, and the error: a repository that cannot be synchronised gives both.
module _ {Repo Worktree W : Type 0} (o : Outside Repo Worktree W) where
  initialized :
      NodeScalingConfig
      → Result Error (Unit {0}) × Clone W
      → Option (NodeScalingRuntime (Clone W)) × Option Error × Clone W
  unfolding git_runtime
  initialized config (ok _, s) = (some (git_runtime o config), none, s)
  initialized config (err e, s) = (some (git_runtime o config), some e, s)

  initialize_with :
      Result Error NodeScalingConfig
      → W
      → Option (NodeScalingRuntime (Clone W)) × Option Error × Clone W
  unfolding initialized sync_repo
  initialize_with (err e) w =
      (none, some e, record { world = w; just_cloned = false; skip_next_pull = false })
  initialize_with (ok config) w =
      initialized config
        (sync_repo o config (record { world = w; just_cloned = false; skip_next_pull = false }))

  unfoldable pub initialize_node_scaling :
      Bool → NodeScalingConfig → W → Option (NodeScalingRuntime (Clone W)) × Option Error × Clone W
  unfolding initialize_with load_node_scaling_config
  initialize_node_scaling enabled overrides w =
      if enabled
      then initialize_with (load_node_scaling_config o.getenv overrides) w
      else (none, none, record { world = w; just_cloned = false; skip_next_pull = false })
