-- ===== src/Readiness/Tests.antt =====
-- The readiness of the sample's worker.
use capten_autoscaler.Base.{text, false, not, ◌&&◌, any, ◌≡◌}
use capten_autoscaler.Cluster.Api.{ok}
use capten_autoscaler.Sample.{worker}
use capten_autoscaler.Readiness.{NodeReadiness, get_node_readiness, get_unready_node_copy, ready_of}
use capten_autoscaler.Readiness.Verdict.{
  is_error, is_ready_condition, is_blocking, is_blocking_taint, get_node_readiness_lem,
  unready_copy_is_unready,
}

get_node_readiness_lem_example :
    (is_error (get_node_readiness worker) ≡ not (any is_ready_condition worker.conditions))
    × (ready_of (get_node_readiness worker) ≡ (
        any is_ready_condition worker.conditions
        && (not (any is_blocking worker.conditions) && not (any is_blocking_taint worker.taints))))
get_node_readiness_lem_example = get_node_readiness_lem worker

unready_copy_is_unready_example :
    (r : NodeReadiness) × (get_node_readiness
        (get_unready_node_copy worker (text "ResourceUnready"))
      ≡ ok r)
    × (r.ready ≡ false)
    × (r.reason ≡ text "ResourceUnready")
unready_copy_is_unready_example = unready_copy_is_unready worker (text "ResourceUnready")
