-- ===== src/Scenarios/Running.antt =====
-- A run of the node scaling controller: a request for a scale-out arrives, and the ticker ticks.
use quotascale_controller.Prelude.{some, true, ◌++◌, ◌≡◌}
use quotascale_controller.Prelude.Int.{ℤ}
use quotascale_controller.Resources.{empty}
use quotascale_controller.NodeScaling.{
  Dependencies, ScaleOutRequest, Settings, State, handle_scale_out_request,
  new_node_scaling_controller,
}
use quotascale_controller.NodeScaling.Run.{
  Reachable, on_tick, scale_out_arrives, start_run, started, step, ticks,
}
use quotascale_controller.NodeScaling.Run.Queues.{accepted-taken, accepted_in, taken_in}
use quotascale_controller.Scenarios.{World, client, q, runtime, store, w}

abbrev deps : Dependencies ℤ World
deps = record {
  runtime = some runtime;
  client = some client;
  has_quota_autoscaler_client = true;
  inventory_store = some store;
  now = λ w. w.now;
}

abbrev settings : Settings
settings = (new_node_scaling_controller w).settings

abbrev request : ScaleOutRequest
request = record { namespace = "team"; current = empty; desired = empty; reason = "no room" }

abbrev s : State World
s =
    on_tick q deps
      (handle_scale_out_request request
        (start_run q deps (record (new_node_scaling_controller w) { settings = settings }))).1

abbrev run : Reachable q deps settings w s
run = step (step started (scale_out_arrives request)) ticks

accepted-taken_example : accepted_in q deps run ≡ taken_in q deps run ++ s.scale_out_requests
accepted-taken_example = accepted-taken q deps s run
