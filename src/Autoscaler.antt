-- ===== src/Autoscaler.antt =====
-- pkg/scalerclient/apis/quotaautoscaler/v1/types.go: the custom resource that configures the scaling
-- of one namespace's quota. Of its metadata the sources use the namespace, the name and the UID.
use quotascale_controller.Prelude.{String, List}
use quotascale_controller.Prelude.Int.{ℤ}

-- `SchemeGroupVersion.String()`
abbrev pub api_version : String
api_version = "dcn.ssu.ac.kr/v1"

pub record QuotaScalePolicy : Type 0 where
  pub method : String
  pub value : ℤ  -- int
  pub target_utilization : ℤ  -- int

pub record QuotaScaleBehavior : Type 0 where
  pub policies : List QuotaScalePolicy

pub record QuotaAutoscalerSpecBehavior : Type 0 where
  pub scale_up : QuotaScaleBehavior
  pub scale_down : QuotaScaleBehavior

pub record QuotaAutoscalerSpec : Type 0 where
  pub resource_quota : String
  pub min_cpu : String
  pub max_cpu : String
  pub min_memory : String
  pub max_memory : String
  pub behavior : QuotaAutoscalerSpecBehavior

pub record QuotaAutoscaler : Type 0 where
  pub namespace : String
  pub name : String
  pub uid : String
  pub spec : QuotaAutoscalerSpec
