-- ===== src/Drain/Run/Tests.antt =====
-- A drain in the sample world.
use capten_autoscaler.Base.{[], ◌≡◌, refl, arith, text_eq, lookup}
use capten_autoscaler.Cluster.Objects.{is_finished}
use capten_autoscaler.Cluster.Api.{History}
use capten_autoscaler.Cluster.Laws.{count}
use capten_autoscaler.Sample.{worker, world, world-IsFaithful, poll_twice}
use capten_autoscaler.Drain.Filter.{
  filter_pods, make_filters, should_skip_pod, has_local_storage, errors, pods_to_delete,
}
use capten_autoscaler.Drain.Wait.{wait_for_delete}
use capten_autoscaler.Drain.Evict.{delete_or_evict_pods}
use capten_autoscaler.Drain.Run.{run_node_drain}
use capten_autoscaler.Drain.Run.Safety.{is_removal, IsAccepted, run_node_drain-IsAccepted}
use capten_autoscaler.Autoscaler.{drain_helper}

abbrev drained : History
drained = (run_node_drain world poll_twice drain_helper worker.name []).1

one_removed : count is_removal drained ≡ 1
unfolding run_node_drain filter_pods make_filters should_skip_pod text_eq lookup has_local_storage
    is_finished errors delete_or_evict_pods pods_to_delete wait_for_delete
one_removed = refl

run_node_drain-IsAccepted_example :
    IsAccepted world poll_twice drain_helper world-IsFaithful (λ n. tt) worker.name []
run_node_drain-IsAccepted_example =
    run_node_drain-IsAccepted world poll_twice drain_helper world-IsFaithful (λ n. tt) worker.name
      [] (λ same. omega (arith, one_removed, same))
