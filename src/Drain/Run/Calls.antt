-- ===== src/Drain/Run/Calls.antt =====
-- Which calls a drain of a node makes, and so which it does not.
use capten_autoscaler.Base.{ℕ, ℤ, Text, Bool, List, All, refl}
use capten_autoscaler.Cluster.Objects.{Pod}
use capten_autoscaler.Cluster.Api.{
  Result, ok, err, Call, History, Env, pure, ask, list_node_pods, get_daemon_set,
}
use capten_autoscaler.Cluster.Keeps.{
  Ignores, Keeps, Keeps-pure, Keeps-ask, Keeps-bind, Counted, Counted-Ignores, Avoids-Keeps,
}
use capten_autoscaler.Cluster.Laws.{Avoids, IsForeign}
use capten_autoscaler.Drain.Filter.{Helper, make_filters, filter_pods, pods_to_delete, errors}
use capten_autoscaler.Drain.Filter.Calls.{FilterKeeps, filter_pods-Keeps, make_filters-Keeps}
use capten_autoscaler.Drain.Wait.{Poller, IsPollImmediate}
use capten_autoscaler.Drain.Evict.Calls.{delete_or_evict_pods-Keeps}
use capten_autoscaler.Drain.Run.{
  Selection, listed, refused, select_by, filter_listed, list_and_filter, get_pods_for_deletion,
  drain_selected, run_node_drain,
}

module _ (I : History → Type 0) (foreign : Ignores I) (env : Env) (poll : ℤ → Poller) (d : Helper)
    (polls : (timeout : ℤ) → IsPollImmediate (poll timeout))
    (more : All (FilterKeeps I) d.additional_filters) where
  filter_listed-Keeps : (r : Result (List Pod)) → Keeps I (filter_listed env poll d r)
  filter_listed-Keeps (err e) = Keeps-pure I _
  filter_listed-Keeps (ok pods) =
      Keeps-bind I (filter_pods pods (make_filters env d))
        (λ items. pure (select_by items (errors env items)))
        (filter_pods-Keeps I pods (make_filters env d)
          (make_filters-Keeps I env d (λ ns name. foreign (get_daemon_set ns name) refl) more))
        (λ items. Keeps-pure I _)

  list_and_filter-Keeps :
      (node_name : Text) (r : Result Text) → Keeps I (list_and_filter env poll d node_name r)
  list_and_filter-Keeps node_name (err e) = Keeps-pure I _
  list_and_filter-Keeps node_name (ok selector) =
      Keeps-bind I
        (ask (list_node_pods selector node_name) (λ h. env.on_list_node_pods h selector node_name))
        (filter_listed env poll d) (Keeps-ask I _ _ (foreign (list_node_pods _ _) refl))
        filter_listed-Keeps

  drain_selected-Keeps : (s : Selection) → Keeps I (drain_selected env poll d s)
  drain_selected-Keeps (refused errs) = Keeps-pure I _
  drain_selected-Keeps (listed items) =
      delete_or_evict_pods-Keeps I foreign env poll d polls (pods_to_delete items)

  pub run_node_drain-Keeps : (node_name : Text) → Keeps I (run_node_drain env poll d node_name)
  unfolding run_node_drain get_pods_for_deletion
  run_node_drain-Keeps node_name =
      Keeps-bind I (get_pods_for_deletion env poll d node_name) (drain_selected env poll d)
        (list_and_filter-Keeps node_name (env.parse_selector d.pod_selector)) drain_selected-Keeps

pub run_node_drain-Avoids :
    (p : Call → Bool) (foreign : IsForeign p) (env : Env) (poll : ℤ → Poller) (d : Helper)
    (polls : (timeout : ℤ) → IsPollImmediate (poll timeout))
    (more : (n : ℕ) → All (FilterKeeps (Counted p n)) d.additional_filters) (node_name : Text)
    → Avoids p (run_node_drain env poll d node_name)
run_node_drain-Avoids p foreign env poll d polls more node_name =
    Avoids-Keeps p (run_node_drain env poll d node_name) (λ n.
      run_node_drain-Keeps (Counted p n) (Counted-Ignores p foreign n) env poll d polls (more n)
        node_name)
