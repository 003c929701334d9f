-- ===== src/NodeScaling/QuotaTotals.antt =====
-- internal/nodescaling/scalein_trigger.go: `ManagedQuotaLimitTotals`, the sum of the limits of all
-- quotas that have a scaler. Resolving them may create quotas and name them in their scalers.
use quotascale_controller.Prelude.{String, Option, none, some, List, [], ◌∷◌}
use quotascale_controller.Prelude.Int.{◌+ℤ◌, wrap64}
use quotascale_controller.Effects.{Result, ok, err, Eff}
use quotascale_controller.Failure.{ApiError}
use quotascale_controller.Cluster.{
  Quantities, milli, mega, quantity_of, lookup, ResourceList, ResourceQuota, QuotaClient,
}
use quotascale_controller.Autoscaler.{QuotaAutoscaler}
use quotascale_controller.Resources.{Resources, empty}
use quotascale_controller.ScalerResolver.{ScalerClient, ResolveError, resolve_resource_quota}

pub data TotalsError : Type 0 where
  list_failed : ApiError → TotalsError
  unresolved : ResolveError → TotalsError

module _ {Q : Type 0} (q : Quantities Q) where
  -- The limit, or what stands under the legacy key.
  unfoldable pub limit_or_legacy : String → String → ResourceList Q → Q
  limit_or_legacy key legacy hard = elim (lookup key hard) [
    | some v ↦ v
    | none ↦ quantity_of q legacy hard
  ]

  unfoldable pub add_limits : ResourceQuota Q → Resources → Resources
  unfolding limit_or_legacy
  add_limits quota total = record total {
    cpu =
        wrap64 (total.cpu +ℤ q.scaled_value (limit_or_legacy "limits.cpu" "cpu" quota.hard) milli);
    memory =
        wrap64 (
          total.memory
          +ℤ q.scaled_value (limit_or_legacy "limits.memory" "memory" quota.hard) mega);
  }

  module _ {W : Type 0} (client : Option (QuotaClient Q W)) (scalers : ScalerClient W) where
    -- The loop: the first scaler that cannot be resolved ends it.
    unfoldable pub sum_limits : List QuotaAutoscaler → Resources → Eff TotalsError W Resources
    unfolding add_limits
    sum_limits [] total w = (ok total, w)
    sum_limits (scaler ∷ rest) total w =
        let r = resolve_resource_quota q client (some scalers) (some scaler) w in
        elim r.0 [
          | err e ↦ (err (unresolved e), r.1)
          | ok found ↦ sum_limits rest (add_limits found.0 total) r.1
        ]

    sum_listed : Result ApiError (List QuotaAutoscaler) → Eff TotalsError W Resources
    unfolding sum_limits
    sum_listed (err e) w = (err (list_failed e), w)
    sum_listed (ok items) w = sum_limits items empty w

    -- `list` reads the scalers of all namespaces.
    unfoldable pub managed_quota_limit_totals :
        (W → Result ApiError (List QuotaAutoscaler)) → Eff TotalsError W Resources
    unfolding sum_listed
    managed_quota_limit_totals list w = sum_listed (list w) w
