-- ===== src/Quota/Failure.antt =====
-- The errors of internal/quota. A formatted message is its constructor with the values it shows.
use quotascale_controller.Failure as NodeScaling
use quotascale_controller.Failure.{ApiError}
use quotascale_controller.Resources.{Resources}

pub data QuotaError : Type 0 where
  api : ApiError → QuotaError
  quota_status_is_nil : QuotaError
  -- What the pending pods request and what the worker nodes have left.
  demand_exceeds_capacity : Resources → Resources → QuotaError
  scale_out : NodeScaling.Error → QuotaError
  -- `QuotaDeferredError`: a scale-out is already pending, or was requested and has not come through.
  scale_out_pending : QuotaError → QuotaError
  scale_out_requested : QuotaError → QuotaError
  -- The polls of the cluster were cut off. No error of the program; see Quota/Update/Polling.
  polls_exhausted : QuotaError
