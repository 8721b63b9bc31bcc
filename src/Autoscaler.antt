-- ===== src/Autoscaler.antt =====
-- pkg/autoscaler/autoscaler.go: how many nodes the pods ask for, and the loop that asks the cloud for
-- more nodes or retires nodes. Log lines are left out.
-- `PatchOrReplace` also marks the node object of the informer's cache, which the listers share: what
-- they answer later is the world's, in any way.
pub mod Sizing
pub mod Retire
pub mod Absent
pub mod Drained
pub mod Workers
pub mod Emptied
pub mod Calls
pub mod Ends
pub mod Passes
pub mod Loop
pub mod Spec
pub mod Asked
pub mod Returning
pub mod Wiring
mod Tests
use capten_autoscaler.Base.{
  ℕ, zero, suc, ◌/◌, ℤ, pos, negsuc, pos_part, neg_part, ◌+ℤ◌, ◌-ℤ◌, min_ℤ, max_ℤ, int_eq, int64,
  int32, Text, text, Bool, true, false, not, ◌&&◌, ◌||◌, ◌++◌, text_Eq, Option, none, some, List,
  [], ◌∷◌, select, length, is_some, Dict, lookup, if◌then◌else◌, ◌==◌, int_Eq,
}
use capten_autoscaler.Cluster.Objects.{Pod, Node, Container}
use capten_autoscaler.Cluster.Api.{
  Error, failure, wrap, message, Result, ok, err, scale_up, scale_down, delete_node, Env, Outcome,
  done, unfinished, Action, pure, panic, ask, ask_out, ◌>>=◌, ◌>>◌,
}
use capten_autoscaler.Drain.Filter.{Helper}
use capten_autoscaler.Drain.Wait.{Poller}
use capten_autoscaler.Drain.Cordon.{Cordoned, new_cordon_helper, patch_or_replace}
use capten_autoscaler.Drain.Run.{run_node_drain}
use capten_autoscaler.Listers.{all_pods, all_nodes, unschedulable_pods}

abbrev pub master_node_label : Text
master_node_label = text "node-role.kubernetes.io/control-plane"

-- Go's `float64`, with the operations that the program uses. `of_nanocores` is
-- `AsApproximateFloat64` of a quantity.
pub record Float64 : Type 1 where
  pub F : Type 0
  pub zero_f : F
  pub add : F → F → F
  pub div : F → F → F
  pub ceil : F → F
  pub to_int64 : F → ℤ
  pub of_nanocores : ℤ → F

-- `a / b` of Go's `int64`, which rounds towards zero; nothing for the division by zero.
unfoldable pub quot : ℤ → ℤ → Option ℤ
quot a (pos zero) = none
quot (pos a) (pos (suc b)) = some (pos (a / suc b))
quot (negsuc a) (pos (suc b)) = some (int64 (pos 0 -ℤ pos (suc a / suc b)))
quot (pos a) (negsuc b) = some (int64 (pos 0 -ℤ pos (a / suc b)))
quot (negsuc a) (negsuc b) = some (int64 (pos (suc a / suc b)))

-- The `drain.Helper` of `scaleDown`. The timeout is in nanoseconds.
abbrev pub drain_helper : Helper
drain_helper = record {
  has_ctx = true;
  has_client = true;
  force = false;
  grace_period_seconds = pos 10;
  ignore_all_daemon_sets = true;
  timeout = pos 10000000000;
  delete_empty_dir_data = true;
  pod_selector = [];
  disable_eviction = false;
  skip_wait_for_delete_timeout_seconds = pos 0;
  additional_filters = [];
}

unfoldable pub is_worker : Node → Bool
is_worker node = not (is_some (lookup master_node_label node.labels))

abbrev pub worker_nodes_of : Result (List Node) → Result (List Node)
worker_nodes_of (err e) = err e
worker_nodes_of (ok nodes) = ok (select is_worker nodes)

module _ (float : Float64) where
  pub record NodeInfo : Type 0 where
    pub cpu : float.F
    pub memory : ℤ
    pub min : ℤ
    pub max : ℤ

  pub record Requirement : Type 0 where
    pub cpu : float.F
    pub memory : ℤ

  abbrev pub nothing_required : Requirement
  nothing_required = record { cpu = float.zero_f; memory = pos 0 }

  pub add_container : Requirement → Container → Requirement
  add_container r c = record {
    cpu = float.add r.cpu (float.of_nanocores c.cpu);
    memory = int64 (r.memory +ℤ c.memory);
  }

  pub add_containers : Requirement → List Container → Requirement
  unfolding add_container
  add_containers r [] = r
  add_containers r (c ∷ cs) = add_containers (add_container r c) cs

  pub add_pods : Requirement → List Pod → Requirement
  unfolding add_containers
  add_pods r [] = r
  add_pods r (pod ∷ pods) = add_pods (add_containers r pod.containers) pods

  unfoldable pub get_requirement : List Pod → Requirement
  unfolding add_pods
  get_requirement pods = add_pods nothing_required pods

  -- `a.Node`.
  module _ (info : NodeInfo) where
    abbrev pub max_count : ℤ → Option ℤ → Option ℤ
    max_count cpu_based none = none
    max_count cpu_based (some memory_based) = some (max_ℤ cpu_based memory_based)

    -- Nothing where the division panics.
    unfoldable pub get_node_count : Requirement → Option ℤ
    unfolding quot
    get_node_count r =
        max_count (float.to_int64 (float.ceil (float.div r.cpu info.cpu)))
          (quot r.memory info.memory)

    abbrev pub at_most_max : Option ℤ → Option ℤ
    at_most_max none = none
    at_most_max (some count) = some (min_ℤ count info.max)

    abbrev pub at_least_min : Option ℤ → Option ℤ
    at_least_min none = none
    at_least_min (some count) = some (int32 (max_ℤ count info.min))

    unfoldable pub get_nodes_to_scale_up : Requirement → Option ℤ
    unfolding get_node_count
    get_nodes_to_scale_up r = at_most_max (get_node_count r)

    unfoldable pub get_min_nodes_required : Requirement → Option ℤ
    unfolding get_node_count
    get_min_nodes_required r = at_least_min (get_node_count r)

module _ (env : Env) (poll : ℤ → Poller) where
  unfoldable pub get_worker_nodes : Action (Result (List Node))
  unfolding is_worker
  get_worker_nodes = all_nodes env >>= λ r. pure (worker_nodes_of r)

  -- The rest of one round after each step: `continue` leaves the round.
  abbrev pub after_scale_down : Node → Option Error → Action (Unit {0})
  after_scale_down node (some e) = pure tt
  after_scale_down node none =
      ask (delete_node node.name) (λ h. env.on_delete_node h node.name) >>= λ e. pure tt

  abbrev pub after_drain : Node → Option Error → Action (Unit {0})
  after_drain node (some e) = pure tt
  after_drain node none =
      ask_out (scale_down node.name) (λ h. env.on_scale_down h node.name) >>= after_scale_down node

  abbrev pub after_cordon : Node → Cordoned → Action (Unit {0})
  after_cordon node r =
      if is_some r.error || is_some r.patch_error
      then pure tt
      else run_node_drain env poll drain_helper node.name >>= after_drain node

  -- One round of the loop of `scaleDown`.
  unfoldable pub retire_node : Node → Action (Unit {0})
  unfolding new_cordon_helper
  retire_node node = patch_or_replace env (new_cordon_helper node) false >>= after_cordon node

  -- The loop, for a number of rounds: `nodes[i]` panics behind the last node.
  unfoldable pub retire_nodes : ℕ → List Node → Action (Unit {0})
  unfolding retire_node
  retire_nodes zero nodes = pure tt
  retire_nodes (suc n) [] = panic
  retire_nodes (suc n) (node ∷ nodes) = retire_node node >> retire_nodes n nodes

  -- `int32(len(nodes)) - val`
  abbrev pub nodes_to_scale_down : ℤ → List Node → ℤ
  nodes_to_scale_down val nodes = int32 (int32 (pos (length nodes)) -ℤ val)

  -- `scaleDown`; a negative number of rounds is none.
  unfoldable pub retire : ℤ → List Node → Action (Option Error)
  unfolding retire_nodes
  retire val nodes =
      if nodes_to_scale_down val nodes == pos 0
      then pure none
      else retire_nodes (pos_part (nodes_to_scale_down val nodes)) nodes >>= λ u. pure none

  module _ (float : Float64) (info : NodeInfo float) where
    abbrev pub grown : Option Error → Option Error
    grown none = none
    grown (some e) = some (failure (text "failed to scale up node: " ++ message e))

    abbrev pub grow : Option ℤ → Action (Option Error)
    grow none = panic
    grow (some count) =
        ask_out (scale_up count) (λ h. env.on_scale_up h count) >>= λ e. pure (grown e)

    abbrev pub shrink : List Node → Option ℤ → Action (Option Error)
    shrink nodes none = panic
    shrink nodes (some required) =
        if pos (length nodes) == required then pure none else retire required nodes

    abbrev pub decide : List Pod → List Node → List Pod → Action (Option Error)
    decide pods nodes [] =
        shrink nodes (get_min_nodes_required float info (get_requirement float pods))
    decide pods nodes (p ∷ ps) =
        grow (get_nodes_to_scale_up float info (get_requirement float (p ∷ ps)))

    abbrev pub with_nodes : List Pod → Result (List Node) → Action (Option Error)
    with_nodes pods (err e) = pure (some (wrap (text "failed to get worker nodes: ") e))
    with_nodes pods (ok nodes) = decide pods nodes (unschedulable_pods pods)

    abbrev pub with_pods : Result (List Pod) → Action (Option Error)
    with_pods (err e) = pure (some e)
    with_pods (ok pods) = get_worker_nodes >>= with_nodes pods

    unfoldable pub reconcile : Action (Option Error)
    unfolding get_worker_nodes retire
    reconcile = all_pods env >>= with_pods

    -- What `select` takes in turn: the context's end, or a tick.
    pub data Wake : Type 0 where
      cancelled tick : Wake

    abbrev pub after_tick : Option Error → Action (Unit {0}) → Action (Unit {0})
    after_tick none next = next
    after_tick (some e) next = pure tt

    -- `Start`, for the events of a run: behind the last one it is still waiting.
    unfoldable pub start : List Wake → Action (Unit {0})
    unfolding reconcile
    start [] h = (unfinished, h)
    start (cancelled ∷ events) h = (done tt, h)
    start (tick ∷ events) h = (reconcile >>= λ e. after_tick e (start events)) h
