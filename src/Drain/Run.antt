-- ===== src/Drain/Run.antt =====
-- pkg/util/kubernetes/drain/default.go and `GetPodsForDeletion` of drain.go: draining one node.
-- `RunNodeDrain` also prints the warnings of the list.
pub mod Safety
pub mod Calls
pub mod Ends
mod Tests
use capten_autoscaler.Base.{ℤ, Text, Option, none, some, List, [], ◌∷◌}
use capten_autoscaler.Cluster.Objects.{Pod}
use capten_autoscaler.Cluster.Api.{
  Error, Result, ok, err, list_node_pods, Env, Action, pure, ask, ◌>>=◌,
}
use capten_autoscaler.Drain.Filter.{
  Helper, PodDelete, make_filters, filter_pods, pods_to_delete, errors,
}
use capten_autoscaler.Drain.Wait.{Poller}
use capten_autoscaler.Drain.Evict.{delete_or_evict_pods}

-- `(*PodDeleteList, []error)`, of which `RunNodeDrain` uses the list if there are no errors.
pub data Selection : Type 0 where
  listed : List PodDelete → Selection
  refused : List Error → Selection

abbrev select_by : List PodDelete → List Error → Selection
select_by items [] = listed items
select_by items (e ∷ es) = refused (e ∷ es)

module _ (env : Env) (poll : ℤ → Poller) (d : Helper) where
  abbrev filter_listed : Result (List Pod) → Action Selection
  filter_listed (err e) = pure (refused (e ∷ []))
  filter_listed (ok pods) =
      filter_pods pods (make_filters env d) >>= λ items. pure (select_by items (errors env items))

  abbrev list_and_filter : Text → Result Text → Action Selection
  list_and_filter node_name (err e) = pure (refused (e ∷ []))
  list_and_filter node_name (ok selector) = do
    answer ←
        ask (list_node_pods selector node_name) (λ h. env.on_list_node_pods h selector node_name)
    filter_listed answer

  unfoldable pub get_pods_for_deletion : Text → Action Selection
  get_pods_for_deletion node_name = list_and_filter node_name (env.parse_selector d.pod_selector)

  abbrev drain_selected : Selection → Action (Option Error)
  drain_selected (refused errs) = pure (env.new_aggregate errs)
  drain_selected (listed items) = delete_or_evict_pods env poll d (pods_to_delete items)

  unfoldable pub run_node_drain : Text → Action (Option Error)
  unfolding get_pods_for_deletion
  run_node_drain node_name = get_pods_for_deletion node_name >>= drain_selected
