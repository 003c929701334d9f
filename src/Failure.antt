-- ===== src/Failure.antt =====
-- The errors of internal/nodescaling. A formatted message is its constructor with the values that
-- the message shows; `deferred` is `NodeScalingDeferredError`.
use quotascale_controller.Prelude.{String, List}
use quotascale_controller.Prelude.Int.{ℤ}
use quotascale_controller.Inventory.{SelectError}

-- What a Kubernetes client call may fail with, as far as the sources tell errors apart.
pub data ApiError : Type 0 where
  not_found already_exists : ApiError
  other : String → ApiError

pub data Error : Type 0 where
  api : ApiError → Error
  selection : SelectError → Error
  inventory_node_not_found : String → Error
  store_not_configured client_not_configured : Error
  scale_out_queue_full scale_in_queue_full : Error
  -- The namespace, the replicas and the configured maximum.
  max_node_count_reached : String → ℤ → ℤ → Error
  no_reusable_or_spare_nodes : String → Error
  -- `NodeScalingDeferredError`: the reserved nodes that are waited for.
  deferred : List String → Error
  replicas_missing manifest_empty root_not_mapping spec_missing spec_not_mapping : Error
  repo_url_not_set username_not_set password_not_set : Error
  -- A failure of Git, YAML or the file system.
  external : String → Error
  -- The push failed; then the reset did too, or the clone stands at the previous head.
  push_failed_reset_failed : String → Error → Error → Error
  push_failed_restored : String → Error → Error
