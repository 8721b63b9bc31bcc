-- ===== src/Listers.antt =====
-- pkg/util/kubernetes/k8sapi/listers.go: the listers that the autoscaler reads the cluster by, and the
-- classes of pods. The informers behind them are the `Env`. A slice that is nil is an empty list.
pub mod Classes
pub mod Registry
pub mod TestListers
pub mod Calls
mod Tests
use capten_autoscaler.Base.{
  Text, text, is_empty, Bool, true, false, not, ◌&&◌, ◌||◌, Option, none, some, List, [], select,
  is_some, Dict, lookup, ◌==◌, text_Eq, if◌then◌else◌,
}
use capten_autoscaler.Cluster.Objects.{
  Pod, PodCondition, Node, pod_succeeded, pod_failed, condition_false,
}
use capten_autoscaler.Cluster.Api.{Result, ok, err, list_pods, list_nodes, Env, Action, ask}
use capten_autoscaler.Readiness.{is_node_ready_and_schedulable}

unfoldable pub is_scheduled : Pod → Bool
is_scheduled pod = not (is_empty pod.node_name)

unfoldable pub is_deleted : Pod → Bool
is_deleted pod = is_some pod.deletion_timestamp

abbrev pub reason_unschedulable : Text
reason_unschedulable = text "Unschedulable"

abbrev pub is_unschedulable_condition : Option PodCondition → Bool
is_unschedulable_condition none = false
is_unschedulable_condition (some c) =
    if not (c.status == condition_false) || not (c.reason == reason_unschedulable)
    then false
    else true

unfoldable pub is_unschedulable : Pod → Bool
unfolding is_scheduled is_deleted
is_unschedulable pod =
    if is_scheduled pod || is_deleted pod
    then false
    else is_unschedulable_condition pod.scheduled_condition

unfoldable pub scheduled_pods : List Pod → List Pod
scheduled_pods pods = select is_scheduled pods

unfoldable pub unschedulable_pods : List Pod → List Pod
unschedulable_pods pods = select is_unschedulable pods

abbrev is_unprocessed_condition : Option PodCondition → Bool
is_unprocessed_condition none = true
is_unprocessed_condition (some c) = c.status == condition_false && is_empty c.reason

-- `bypassedSchedulers[name]`: false for a name that is not in the map.
abbrev can_bypass : Option Bool → Bool
can_bypass none = false
can_bypass (some b) = b

unfoldable pub is_unprocessed : Dict Text Bool → Pod → Bool
is_unprocessed bypassed pod =
    if not (can_bypass (lookup pod.scheduler_name bypassed))
    then false
    else if is_scheduled pod || (is_deleted pod || is_unschedulable pod)
    then false
    else is_unprocessed_condition pod.scheduled_condition

unfoldable pub scheduler_unprocessed_pods : List Pod → Dict Text Bool → List Pod
scheduler_unprocessed_pods pods bypassed = select (is_unprocessed bypassed) pods

-- `p.Status.Phase != apiv1.PodSucceeded && p.Status.Phase != apiv1.PodFailed`
unfoldable pub is_active : Pod → Bool
is_active pod = not (pod.phase == pod_succeeded) && not (pod.phase == pod_failed)

abbrev pub active_pods : Result (List Pod) → Result (List Pod)
active_pods (ok pods) = ok (select is_active pods)
active_pods (err e) = err e

-- A `nodeListerImpl`: its filter may be nil.
abbrev pub NodeFilter : Type 0
NodeFilter = Option (Node → Bool)

abbrev pub filter_nodes : NodeFilter → Result (List Node) → Result (List Node)
filter_nodes filter (err e) = err e
filter_nodes none (ok nodes) = ok nodes
filter_nodes (some predicate) (ok nodes) = ok (select predicate nodes)

module _ (env : Env) where
  -- `AllPodLister.List`
  unfoldable pub all_pods : Action (Result (List Pod))
  all_pods = ask list_pods (λ h. active_pods (env.on_list_pods h))

  -- `nodeListerImpl.List`
  unfoldable pub list_filtered_nodes : NodeFilter → Action (Result (List Node))
  list_filtered_nodes filter = ask list_nodes (λ h. filter_nodes filter (env.on_list_nodes h))

  -- `NewAllNodeLister(…).List`
  unfoldable pub all_nodes : Action (Result (List Node))
  unfolding list_filtered_nodes
  all_nodes = list_filtered_nodes none

  -- `NewReadyNodeLister(…).List`
  unfoldable pub ready_nodes : Action (Result (List Node))
  unfolding list_filtered_nodes
  ready_nodes = list_filtered_nodes (some is_node_ready_and_schedulable)
