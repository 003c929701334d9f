-- ===== src/Resize/Calls.antt =====
-- internal/resize/api.go: what one goroutine of the handler does. The calls of Kubernetes, of HTTP, of
-- JSON and of the file system are parameters. `ResizeApiFunc` is the call of Kubernetes; the one of the
-- HTTP service stands in the source as an example.
use quotascale_controller.Prelude.{
  String, Option, none, some, Bool, List, [], ◌∷◌, ◌++◌, length, ltb, if◌then◌else◌,
}
use quotascale_controller.Prelude.Int.{ℤ, pos, ◌==ℤ◌}
use quotascale_controller.Prelude.Text.{append}
use quotascale_controller.Prelude.Decimal.{format_int}
use quotascale_controller.Effects.{Result, ok, err, Eff, ◌>>=◌, reads}
use quotascale_controller.Failure.{Error}
use quotascale_controller.Resources.{Resources}
use quotascale_controller.Resize.{NamespaceResizeEvent}

pub record ResizeResult : Type 0 where
  pub event : NamespaceResizeEvent
  pub error : Option Error

-- `ResizeResultChan`, of capacity 1024: a result that finds it full is dropped.
unfoldable pub publish_resize_result :
    NamespaceResizeEvent → Option Error → List ResizeResult → List ResizeResult
publish_resize_result ns error results =
    if ltb (length results) 1024
    then results ++ record { event = ns; error = error } ∷ []
    else results

abbrev outcome : Result Error (Unit {0}) → Option Error
outcome (ok _) = none
outcome (err e) = some e

-- `resizeAsync` with its call; the event is then on `eventDoneChan`.
unfoldable pub resize_async :
    {W : Type 0}
    → (NamespaceResizeEvent → Eff Error W (Unit {0}))
    → NamespaceResizeEvent
    → List ResizeResult × W
    → List ResizeResult × W
unfolding publish_resize_result
resize_async resize_api event (results, w) =
    let r = resize_api event w in (publish_resize_result event (outcome r.0) results, r.1)

-- `InvokeResizeApiAsync` and `InvokeImmediateResizeApiAsync`: the event that is sent.
unfoldable pub resize_event_of :
    Bool → String → String → Resources → Resources → NamespaceResizeEvent
resize_event_of immediate namespace resource_quota old new = record {
  namespace = namespace;
  resource_quota = resource_quota;
  old = old;
  new = new;
  immediate = immediate;
}

unfoldable pub resource_quota_patch : Resources → String
resource_quota_patch res =
    append "{\"spec\": {\"hard\": {\"cpu\": null, \"memory\": null, \"requests.cpu\": \"" (
      append (format_int res.requests_cpu) (
        append "m\", \"limits.cpu\": \"" (
          append (format_int res.cpu) (
            append "m\", \"requests.memory\": \"" (
              append (format_int res.requests_memory)
                (append "M\", \"limits.memory\": \"" (append (format_int res.memory) "M\"}}}")))))))

-- `InvokeResizeApiStub`: a client, or why there is none, and its merge patch by namespace and name.
unfoldable pub invoke_resize_api_stub :
    {W : Type 0}
    → (W → Result Error (String → String → String → Eff Error W (Unit {0})))
    → NamespaceResizeEvent
    → Eff Error W (Unit {0})
unfolding resource_quota_patch
invoke_resize_api_stub get_kubernetes_client ns = do
  patch ← reads get_kubernetes_client
  patch ns.namespace ns.resource_quota (resource_quota_patch ns.new)

-- `NamespacePatch`, with what its specification holds.
pub record NamespacePatch : Type 0 where
  pub name : String
  pub workload : String
  pub cpu : ℤ
  pub memory : ℤ
  pub storage : ℤ

pub record Response : Type 0 where
  pub status_code : ℤ
  pub status : String
  pub body : Result Error String

pub data InvokeError : Type 0 where
  call_failed : Error → InvokeError
  token_unreadable : Error → InvokeError
  status_nok : String → InvokeError

-- JSON, the environment, files, and `utils.HttpPatch` with a URL, headers and a body.
pub record HttpApi (W : Type 0) : Type 0 where
  pub marshal : NamespacePatch → Result Error String
  pub getenv : String → String
  pub read_file : String → W → Result Error String
  pub http_patch : String → List (String × String) → String → Eff Error W Response

module _ {W : Type 0} (api : HttpApi W) where
  unfoldable pub namespace_patch : NamespaceResizeEvent → NamespacePatch
  namespace_patch ns = record {
    name = ns.namespace;
    workload = api.getenv "WORKLOAD";
    cpu = ns.new.cpu;
    memory = ns.new.memory;
    storage = ns.new.storage;
  }

  -- The body must be read; what it says is only logged.
  checked : Response → Result Error String → Result InvokeError (Unit {0})
  checked response (err e) = err (call_failed e)
  checked response (ok body) =
      if response.status_code ==ℤ pos 200 then ok tt else err (status_nok response.status)

  answered : Result Error Response × W → Result InvokeError (Unit {0}) × W
  unfolding checked
  answered (err e, w) = (err (call_failed e), w)
  answered (ok response, w) = (checked response response.body, w)

  with_token : String → Result Error String → Eff InvokeError W (Unit {0})
  unfolding answered
  with_token body (err e) w = (err (token_unreadable e), w)
  with_token body (ok token) w = answered (
      api.http_patch (append (api.getenv "ICHP_API_ENDPOINT") "/api/v1/namespace")
        (("Content-Type", "application/json") ∷ ("Authorization", append "Bearer " token) ∷ []) body
        w)

  with_body : Result Error String → Eff InvokeError W (Unit {0})
  unfolding with_token
  with_body (err e) w = (err (call_failed e), w)
  with_body (ok body) w =
      with_token body (api.read_file "/var/run/secrets/kubernetes.io/serviceaccount/token" w) w

  unfoldable pub invoke_resize_api : NamespaceResizeEvent → Eff InvokeError W (Unit {0})
  unfolding with_body namespace_patch
  invoke_resize_api ns = with_body (api.marshal (namespace_patch ns))
