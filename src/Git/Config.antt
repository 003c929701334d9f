-- ===== src/Git/Config.antt =====
-- internal/nodescaling/runtime.go: where the repository is, from the flags or else the environment.
use quotascale_controller.Prelude.{String, Bool, true, false, List, [], ◌∷◌, if◌then◌else◌}
use quotascale_controller.Prelude.Text.{str_eq}
use quotascale_controller.Effects.{Result, ok, err}
use quotascale_controller.Failure.{Error, repo_url_not_set, username_not_set, password_not_set}

pub record NodeScalingConfig : Type 0 where
  pub enabled : Bool
  pub repo_url : String
  pub repo_branch : String
  pub repo_file_path : String
  pub username : String
  pub password : String

unfoldable pub first_non_empty : List String → String
first_non_empty [] = ""
first_non_empty (value ∷ values) = if str_eq value "" then first_non_empty values else value

-- `if value == "" { value = default }`
abbrev non_empty_or : String → String → String
non_empty_or default value = if str_eq value "" then default else value

-- Before the checks; `getenv` is "" for a variable that is not set.
unfoldable pub merged_config : (String → String) → NodeScalingConfig → NodeScalingConfig
unfolding first_non_empty
merged_config getenv overrides =
    let either = λ (flag name : String). first_non_empty (flag ∷ getenv name ∷ []) in
    record {
      enabled = true;
      repo_url = either overrides.repo_url "GITEA_REPO_URL";
      repo_branch = non_empty_or "main" (either overrides.repo_branch "GITEA_REPO_BRANCH");
      repo_file_path =
          non_empty_or "feature/node-scaling/md.yaml"
            (either overrides.repo_file_path "GITEA_REPO_FILE_PATH");
      username = either overrides.username "GITEA_USERNAME";
      password = either overrides.password "GITEA_PASSWORD";
    }

unfoldable pub check_config : NodeScalingConfig → Result Error NodeScalingConfig
check_config cfg =
    if str_eq cfg.repo_url ""
    then err repo_url_not_set
    else if str_eq cfg.username ""
    then err username_not_set
    else if str_eq cfg.password ""
    then err password_not_set
    else ok cfg

unfoldable pub load_node_scaling_config :
    (String → String) → NodeScalingConfig → Result Error NodeScalingConfig
unfolding merged_config check_config
load_node_scaling_config getenv overrides = check_config (merged_config getenv overrides)

abbrev no_overrides : NodeScalingConfig
no_overrides = record {
  enabled = false;
  repo_url = "";
  repo_branch = "";
  repo_file_path = "";
  username = "";
  password = "";
}

unfoldable pub load_node_scaling_config_from_env :
    (String → String) → Result Error NodeScalingConfig
load_node_scaling_config_from_env getenv = load_node_scaling_config getenv no_overrides
