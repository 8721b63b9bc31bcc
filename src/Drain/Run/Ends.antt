-- ===== src/Drain/Run/Ends.antt =====
-- A drain of a node ends, in a world that answers.
use capten_autoscaler.Base.{ℤ, Text, List, All}
use capten_autoscaler.Cluster.Objects.{Pod}
use capten_autoscaler.Cluster.Api.{Result, ok, err, Env, pure, ask, list_node_pods}
use capten_autoscaler.Cluster.Ends.{Ends, Ends-pure, Ends-ask, Ends-bind}
use capten_autoscaler.Drain.Filter.{Helper, make_filters, filter_pods, pods_to_delete, errors}
use capten_autoscaler.Drain.Filter.Ends.{FilterEnds, filter_pods-Ends, make_filters-Ends}
use capten_autoscaler.Drain.Wait.{Poller}
use capten_autoscaler.Drain.Wait.Ends.{IsPrompt}
use capten_autoscaler.Drain.Evict.Ends.{KeepsTime, delete_or_evict_pods-Ends}
use capten_autoscaler.Drain.Run.{
  Selection, listed, refused, select_by, filter_listed, list_and_filter, get_pods_for_deletion,
  drain_selected, run_node_drain,
}

module _ (env : Env) (poll : ℤ → Poller) (d : Helper) (prompt : IsPrompt env poll)
    (deadline : KeepsTime env d) (more : All FilterEnds d.additional_filters) where
  filter_listed-Ends : (r : Result (List Pod)) → Ends (filter_listed env poll d r)
  filter_listed-Ends (err e) = Ends-pure _
  filter_listed-Ends (ok pods) =
      Ends-bind (filter_pods pods (make_filters env d))
        (λ items. pure (select_by items (errors env items)))
        (filter_pods-Ends pods (make_filters env d) (make_filters-Ends env d more))
        (λ items. Ends-pure _)

  list_and_filter-Ends :
      (node_name : Text) (r : Result Text) → Ends (list_and_filter env poll d node_name r)
  list_and_filter-Ends node_name (err e) = Ends-pure _
  list_and_filter-Ends node_name (ok selector) =
      Ends-bind
        (ask (list_node_pods selector node_name) (λ h. env.on_list_node_pods h selector node_name))
        (filter_listed env poll d) (Ends-ask _ _) filter_listed-Ends

  drain_selected-Ends : (s : Selection) → Ends (drain_selected env poll d s)
  drain_selected-Ends (refused errs) = Ends-pure _
  drain_selected-Ends (listed items) =
      delete_or_evict_pods-Ends env poll d prompt deadline (pods_to_delete items)

  pub run_node_drain-Ends : (node_name : Text) → Ends (run_node_drain env poll d node_name)
  unfolding run_node_drain get_pods_for_deletion
  run_node_drain-Ends node_name =
      Ends-bind (get_pods_for_deletion env poll d node_name) (drain_selected env poll d)
        (list_and_filter-Ends node_name (env.parse_selector d.pod_selector)) drain_selected-Ends
