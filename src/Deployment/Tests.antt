-- ===== src/Deployment/Tests.antt =====
-- A pod that finds no room, and a scale set of two machines.
use capten_autoscaler.Base.{
  ◌+ℤ◌, ◌-ℤ◌, int64, int32, pos, text_eq, lookup, none, some, [], ◌∷◌, ◌≡◌, refl, text, equal_fold,
}
use capten_autoscaler.Cluster.Objects.{Pod, condition_false, is_finished}
use capten_autoscaler.Cluster.Api.{Env, ok}
use capten_autoscaler.Sample.{web_pod, world, poll_twice, whole, small_nodes}
use capten_autoscaler.Listers.{
  reason_unschedulable, all_pods, all_nodes, unschedulable_pods, is_active, is_unschedulable,
}
use capten_autoscaler.Azure.{delete_vm, update_capacity}
use capten_autoscaler.Drain.Filter.{
  filter_pods, make_filters, should_skip_pod, has_local_storage, errors, pods_to_delete,
}
use capten_autoscaler.Drain.Wait.{wait_for_delete}
use capten_autoscaler.Drain.Cordon.{patch_or_replace}
use capten_autoscaler.Drain.Evict.{delete_or_evict_pods}
use capten_autoscaler.Drain.Run.{run_node_drain}
use capten_autoscaler.Autoscaler.{
  NodeInfo, is_worker, get_min_nodes_required, retire, retire_nodes, retire_node, get_requirement,
  get_nodes_to_scale_up, start, reconcile, tick,
}
use capten_autoscaler.Deployment.{Cloud, with_azure, azure_requests}

abbrev stuck_pod : Pod
stuck_pod = record web_pod {
  node_name = [];
  scheduled_condition = some (record { status = condition_false; reason = reason_unschedulable });
}

abbrev busy : Env
busy = record world { on_list_pods = λ h. ok (stuck_pod ∷ []) }

abbrev scale_set : Cloud
scale_set h = record {
  on_get = ok (some (pos 2));
  on_begin_update = λ capacity. none;
  on_update_done = none;
  pages = [];
  on_begin_delete = λ name. none;
  on_delete_done = none;
}

raised_once :
    azure_requests scale_set
      (start (with_azure scale_set busy) poll_twice whole small_nodes (tick ∷ []) []).1
    ≡ update_capacity (pos 7) ∷ []
unfolding azure_requests with_azure start reconcile all_pods all_nodes unschedulable_pods is_active
    is_unschedulable text_eq lookup get_requirement get_nodes_to_scale_up int64 int32 ◌+ℤ◌ ◌-ℤ◌
raised_once = refl

-- No pods, and a machine for the only node.
abbrev spare : Env
spare = record world { on_list_pods = λ h. ok [] }

abbrev no_minimum : NodeInfo whole
no_minimum = record small_nodes { min = pos 0 }

abbrev one_machine : Cloud
one_machine h = record {
  on_get = ok (some (pos 1));
  on_begin_update = λ capacity. none;
  on_update_done = none;
  pages =
      ok (
        record {
          name = some (text "vm_0");
          properties =
              some
                (record { os_profile = some (record { computer_name = some (text "Worker-1") }) });
        }
        ∷ [])
      ∷ [];
  on_begin_delete = λ name. none;
  on_delete_done = none;
}

removed_once :
    azure_requests one_machine
      (start (with_azure one_machine spare) poll_twice whole no_minimum (tick ∷ []) []).1
    ≡ delete_vm (text "vm_0") ∷ []
unfolding azure_requests with_azure start reconcile all_pods all_nodes unschedulable_pods is_active
    is_unschedulable text_eq lookup get_requirement int64 int32 ◌+ℤ◌ ◌-ℤ◌ is_worker
    get_min_nodes_required retire retire_nodes retire_node patch_or_replace run_node_drain
    filter_pods make_filters should_skip_pod has_local_storage is_finished errors
    delete_or_evict_pods pods_to_delete wait_for_delete equal_fold
removed_once = refl
