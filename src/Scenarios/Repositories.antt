-- ===== src/Scenarios/Repositories.antt =====
-- Runs on the Git clone: a repository in memory whose remote refuses every push and pull.
use quotascale_controller.Prelude.{
  String, Option, none, some, true, false, [], ◌∷◌, ◌≡◌, refl, sym, ap, ◌∙◌, subst, if◌then◌else◌,
}
use quotascale_controller.Prelude.Int.{ℤ, pos}
use quotascale_controller.Prelude.Text.{str_eq}
use quotascale_controller.Prelude.Decimal.{format_int}
use quotascale_controller.Effects.{Result, ok, err, ok_inj}
use quotascale_controller.Failure.{Error, external}
use quotascale_controller.Git.Manifest.{
  YamlNode, yaml, end, cons, document_node, mapping_node, scalar, value_of, set_spec_replicas,
  find_value, find_mapping_value, set_replicas,
}
use quotascale_controller.Git.Manifest.Aliases.{have_alias}
use quotascale_controller.Git.Manifest.Editing.{IsNumber}
use quotascale_controller.Git.Manifest.Documents.{
  spec_entry, HasReplicas, set_spec_replicas-HasReplicas,
}
use quotascale_controller.Git.Manifest.Documents.Plain.{IsPlain}
use quotascale_controller.Git.Config.{NodeScalingConfig}
use quotascale_controller.Git.Repository.{
  Outside, exists, pull_failed, Clone, pull_repo, sync_repo, commit_and_push,
  read_machine_deployment_replicas, write_machine_deployment_replicas,
}
use quotascale_controller.Git.Repository.Pushing.{MovesHead, Ends, commit_and_push-Ends}
use quotascale_controller.Git.Repository.Replicas.{
  StoresManifest, HoldsPlain, read-write_machine_deployment_replicas,
}
use quotascale_controller.Git.Repository.Runtime.{KeepsClone}
use quotascale_controller.Git.Repository.Syncing.{sync_repo_fails}

record Disk : Type 0 where
  file : String
  commit : String

-- A kind and `spec: { replicas: <number>, paused: x }`.
abbrev doc_with : String → YamlNode
doc_with number = yaml document_node "" "" 0 (
    cons
      (yaml mapping_node "!!map" "" 0 (
        cons (scalar "!!str" "kind") (
          cons (scalar "!!str" "MachineDeployment") (
            cons (scalar "!!str" "spec") (
              cons
                (yaml mapping_node "!!map" "" 0 (
                  cons (scalar "!!str" "replicas") (
                    cons (scalar "!!int" number)
                      (cons (scalar "!!str" "paused") (cons (scalar "!!str" "x") end)))))
                end)))))
      end)

abbrev doc : YamlNode
doc = doc_with "1"

-- The text of a document is that of its replicas.
abbrev text_of : Option YamlNode → Result Error String
text_of none = err (external "no replicas")
text_of (some v) = ok (value_of v)

abbrev decoded : String → Result Error (Option ℤ)
decoded content =
    if str_eq content "1"
    then ok (some (pos 1))
    else if str_eq content "2"
    then ok (some (pos 2))
    else if str_eq content "3"
    then ok (some (pos 3))
    else err (external "yaml")

abbrev o : Outside (Unit {0}) (Unit {0}) Disk
o = record {
  getenv = λ name. "";
  temp_dir = "/tmp";
  dir = λ path. "/tmp";
  join = λ path name. name;
  stat = λ path w. exists;
  mkdir_all = λ path w. (ok tt, w);
  remove_all = λ path w. (ok tt, w);
  read_file = λ path w. ok w.file;
  write_file = λ path content w. (ok tt, record w { file = content });
  unmarshal_replicas = decoded;
  unmarshal_node = λ content. ok (doc_with content);
  encode = λ node. text_of (spec_entry "replicas" node);
  plain_clone = λ path url auth branch w. (ok tt, w);
  plain_open = λ path w. ok tt;
  head = λ repo w. ok w.commit;
  worktree = λ repo w. ok tt;
  remote_urls = λ repo name w. ok ("https://git.example/cluster" ∷ []);
  delete_remote = λ repo name w. (ok tt, w);
  create_remote = λ repo name url w. (ok tt, w);
  pull = λ worktree auth branch w. (pull_failed (external "offline"), w);
  add = λ worktree path w. (ok tt, w);
  commit = λ worktree message name email w. (ok "new", record w { commit = "new" });
  push = λ repo auth w. (err (external "rejected"), w);
  reset_hard = λ worktree commit w. (ok tt, record w { commit = commit });
}

abbrev config : NodeScalingConfig
config = record {
  enabled = true;
  repo_url = "https://git.example/cluster";
  repo_branch = "main";
  repo_file_path = "md.yaml";
  username = "bot";
  password = "secret";
}

abbrev disk : Disk
disk = record { file = "1"; commit = "old" }

abbrev clone : Clone Disk
clone = record { world = disk; just_cloned = true; skip_next_pull = false }

moves : MovesHead o (λ w. w.commit)
moves = record {
  reads_head = λ repo w h e. ok_inj e;
  adds = λ worktree path w. refl;
  commit_fails = λ worktree message name email w e h. absurd (cc h);
  resets = λ worktree commit w h. refl;
}

number_text :
    (v : YamlNode) (content : String)
    → IsNumber "3" v
    → ◌≡◌ {A = Result Error String} (ok (value_of v)) (ok content)
    → decoded content ≡ ok (some (pos 3))
number_text (yaml kind tag value style rest) content h k =
    subst (λ x. decoded x ≡ ok (some (pos 3))) (sym h.2 ∙ ok_inj k) refl

stores : StoresManifest o (pos 3)
unfolding format_int
stores = record {
  read-write = λ path content w h. refl;
  decodes = λ d v content p h k l. number_text v content k (sym (ap text_of h) ∙ l);
}

plain : (number : String) → IsPlain (doc_with number)
unfolding find_mapping_value find_value have_alias
plain number = (
  refl,
  ((refl, refl), refl, ((refl, refl), refl, tt)),
  ((refl, refl), refl, ((refl, refl), refl, tt)),
  tt,
  (refl, refl),
)

holds_plain : HoldsPlain o config disk
unfolding HoldsPlain
holds_plain text d h k = subst IsPlain (ok_inj k) (plain text)

-- The same, with a working copy that a reset takes back to 1 replica, as in every commit.
abbrev restoring : Outside (Unit {0}) (Unit {0}) Disk
restoring = record o {
  reset_hard = λ worktree commit w. (ok tt, record { file = "1"; commit = commit });
}

keeps_clone : KeepsClone restoring config (λ commit. ok "1")
keeps_clone = record {
  open-write = λ path content w. refl;
  head-write = λ repo path content w. refl;
  read-add = λ worktree path file w. refl;
  read-commit = λ worktree message name email file w. refl;
  read-push = λ repo file w. refl;
  read-reset = λ worktree commit w h. refl;
}

commit_and_push-Ends_example :
    Ends o config
      (λ w. w.commit)
      moves
      "Scale up node MachineDeployment to 3"
      "old"
      (commit_and_push o config "Scale up node MachineDeployment to 3" disk)
commit_and_push-Ends_example =
    commit_and_push-Ends o config (λ w. w.commit) moves "Scale up node MachineDeployment to 3" disk

abbrev spec' : YamlNode
spec' = yaml mapping_node "!!map" "" 0 (
    cons (scalar "!!str" "replicas")
      (cons (scalar "!!int" "3") (cons (scalar "!!str" "paused") (cons (scalar "!!str" "x") end))))

abbrev doc' : YamlNode
doc' = yaml document_node "" "" 0 (
    cons
      (yaml mapping_node "!!map" "" 0 (
        cons (scalar "!!str" "kind") (
          cons (scalar "!!str" "MachineDeployment")
            (cons (scalar "!!str" "spec") (cons spec' end)))))
      end)

set_spec_replicas-HasReplicas_example : HasReplicas (format_int (pos 3)) "paused" "kind" doc doc'
unfolding set_spec_replicas find_mapping_value find_value set_replicas format_int
set_spec_replicas-HasReplicas_example =
    set_spec_replicas-HasReplicas doc doc' (pos 3) "paused" "kind" refl refl tt refl

read-write_machine_deployment_replicas_example :
    read_machine_deployment_replicas o config
      (write_machine_deployment_replicas o config (pos 3) disk).1
    ≡ ok (pos 3)
unfolding write_machine_deployment_replicas set_spec_replicas
read-write_machine_deployment_replicas_example =
    read-write_machine_deployment_replicas o config (pos 3) stores disk holds_plain refl

-- The same, with a manifest that cannot be read.
abbrev unreadable : Outside (Unit {0}) (Unit {0}) Disk
unreadable = record o { read_file = λ path w. err (external "no such file") }

sync_repo_fails_example :
    (clone.skip_next_pull ≡ false)
    × ((pull_repo unreadable config disk).0 ≡ err (external "offline"))
    × ((e' : Error) × (read_machine_deployment_replicas unreadable config
            (pull_repo unreadable config disk).1
          ≡ err e'))
unfolding sync_repo pull_repo read_machine_deployment_replicas
sync_repo_fails_example =
    sync_repo_fails unreadable config clone (external "offline") disk refl refl refl
