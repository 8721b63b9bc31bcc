-- ===== src/Autoscaler/Tests.antt =====
-- Runs of a pass in the sample world.
use capten_autoscaler.Base.{
  suc, ◌*◌, ◌<◌, ℤ, pos, pos_part, neg_part, some, List, [], ◌∷◌, ◌≡◌, refl, arith, text_eq, lookup,
  ◌≤◌, int64, ◌+ℤ◌, ℕ, zero, leb, true, ◌++◌, Option, text, int32, ◌-ℤ◌, FitsInt32, select, subst,
  sym, length, ◌^◌,
}
use capten_autoscaler.Cluster.Objects.{Pod, Node, is_finished}
use capten_autoscaler.Cluster.Api.{History, ok, Error, sleep, Action, pure, Env}
use capten_autoscaler.Cluster.Laws.{count}
use capten_autoscaler.Sample.{
  whole, small_nodes, web_pod, worker, world, poll_twice, poll_twice-IsPollImmediate, conclude_try,
  tries, time_over,
}
use capten_autoscaler.Drain.Filter.{
  filter_pods, make_filters, should_skip_pod, has_local_storage, errors, pods_to_delete,
}
use capten_autoscaler.Drain.Wait.{wait_for_delete, Poll, finished, pending, failed, Condition}
use capten_autoscaler.Drain.Cordon.{patch_or_replace}
use capten_autoscaler.Drain.Evict.{delete_or_evict_pods, global_timeout}
use capten_autoscaler.Drain.Run.{run_node_drain}
use capten_autoscaler.Autoscaler.{
  Requirement, drain_helper, retire_node, reconcile, get_node_count, get_requirement, start,
  cancelled, tick, get_min_nodes_required, retire, retire_nodes, is_worker,
}
use capten_autoscaler.Listers.{is_active, all_pods, all_nodes, unschedulable_pods}
use capten_autoscaler.Cluster.Ends.{Ends, Returned, Ends-pure, Ends-bind}
use capten_autoscaler.Drain.Evict.Loop.{slept}
use capten_autoscaler.Drain.Evict.Ends.{KeepsTime}
use capten_autoscaler.Autoscaler.Ends.{IsAnswering}
use capten_autoscaler.Autoscaler.Returning.{IsSized, reconcile-Returned, start-Returned}
use capten_autoscaler.Autoscaler.Retire.{is_scale_down}
use capten_autoscaler.Autoscaler.Passes.{IsOneWay, reconcile-IsOneWay}
use capten_autoscaler.Autoscaler.Sizing.{get_node_count-memory}
use capten_autoscaler.Autoscaler.Spec.{Sees, Pass, reconcile-Pass}
use capten_autoscaler.Autoscaler.Asked.{asked, start-asked}

-- No pods, and a worker more than `Min`.
abbrev idle : Env
idle = record world {
  on_list_pods = λ h. ok [];
  on_list_nodes = λ h. ok (worker ∷ record worker { name = text "worker-2" } ∷ []);
}

one_taken :
    count is_scale_down (start idle poll_twice whole small_nodes (tick ∷ cancelled ∷ []) []).1 ≡ 1
unfolding start reconcile all_pods all_nodes unschedulable_pods is_worker get_requirement
    get_min_nodes_required retire retire_nodes retire_node patch_or_replace run_node_drain
    filter_pods make_filters should_skip_pod text_eq lookup has_local_storage is_finished errors
    delete_or_evict_pods pods_to_delete wait_for_delete int64 int32 ◌+ℤ◌ ◌-ℤ◌
one_taken = refl

abbrev some_work : Requirement whole
some_work = record { cpu = 2; memory = pos 1000 }

reconcile-IsOneWay_example :
    IsOneWay world poll_twice poll_twice-IsPollImmediate whole small_nodes []
      (reconcile world poll_twice whole small_nodes []).1
reconcile-IsOneWay_example =
    reconcile-IsOneWay world poll_twice poll_twice-IsPollImmediate whole small_nodes []

get_node_count-memory_example :
    (count : ℤ) × (get_node_count whole small_nodes some_work ≡ some count)
    × (neg_part count ≡ 0)
    × (1000 < (suc (pos_part count)) * 300)
get_node_count-memory_example = get_node_count-memory whole small_nodes some_work 1000 299 refl refl

start-asked_example :
    asked (start world poll_twice whole small_nodes (tick ∷ tick ∷ []) []).1 ≤ 2 * 5
start-asked_example =
    start-asked world poll_twice poll_twice-IsPollImmediate whole small_nodes (tick ∷ tick ∷ [])

few_nodes :
    (h : History) (pods : List Pod) (needed : ℤ)
    → Sees world whole small_nodes h pods
    → get_node_count whole small_nodes (get_requirement whole pods) ≡ some needed
    → FitsInt32 needed
unfolding get_node_count get_requirement is_active text_eq int64 ◌+ℤ◌
few_nodes h pods needed (all, at, seen) e = one_node (
    subst
      (λ a.
        get_node_count whole small_nodes (get_requirement whole (select is_active a)) ≡ some needed)
      (sym (one_pod at))
      (subst (λ q. get_node_count whole small_nodes (get_requirement whole q) ≡ some needed)
        (sym seen) e))
  where
    one_pod : {xs : List Pod} → ok (web_pod ∷ []) ≡ ok xs → web_pod ∷ [] ≡ xs
    one_pod at = cc

    one_node : some (pos 500000000) ≡ some needed → FitsInt32 needed
    one_node e = ground arith

one_worker : {nodes : List Node} → ok (worker ∷ []) ≡ ok nodes → length nodes < 2 ^ 31
one_worker e = ground arith

reconcile-Pass_example :
    Pass world whole small_nodes [] (reconcile world poll_twice whole small_nodes []).1
reconcile-Pass_example =
    reconcile-Pass world poll_twice poll_twice-IsPollImmediate whole small_nodes
      (omega arith, omega arith) refl [] (few_nodes []) (λ nodes e. one_worker e)

concluded :
    (v : Poll) (qs : List Pod) (next : Action (List Pod × Option Error))
    → Ends next
    → Ends (conclude_try v qs next)
concluded finished qs next k = Ends-pure _
concluded (failed e) qs next k = Ends-pure _
concluded pending qs next k = k

tries-Ends :
    (n : ℕ) (c : Condition)
    → ((ps : List Pod) → Ends (c ps))
    → (ps : List Pod) → Ends (tries n c ps)
tries-Ends zero c k ps =
    Ends-bind (c ps) (λ r. conclude_try r.1 r.0 (pure (r.0, some time_over))) (k ps)
      (λ r. concluded r.1 r.0 (pure (r.0, some time_over)) (Ends-pure _))
tries-Ends (suc n) c k ps =
    Ends-bind (c ps) (λ r. conclude_try r.1 r.0 (tries n c r.0)) (k ps)
      (λ r. concluded r.1 r.0 (tries n c r.0) (tries-Ends n c k r.0))

slept-append : (own h : History) → slept own ≤ slept (own ++ h)
slept-append [] h = omega arith
slept-append (sleep n ∷ own) h = omega (arith, slept-append own h)
slept-append (c ∷ own) h = slept-append own h

leb-true : (a b : ℕ) → a ≤ b → leb a b ≡ true
leb-true a b le = ground arith

world-KeepsTime : KeepsTime world drain_helper
unfolding global_timeout
world-KeepsTime version h own le =
    leb-true 10000000000 (slept (own ++ h) * 1000000000) (omega (arith, le, slept-append own h))

world-IsAnswering : IsAnswering world poll_twice
world-IsAnswering = record {
  prompt = record {
    pod_or_error = λ h namespace name e. cc;
    polls_end = λ timeout c k. tries-Ends 1 c k;
  };
  deadline = world-KeepsTime;
  scales_up = λ h n. tt;
  scales_down = λ h name. tt;
}

world-IsSized : IsSized world whole small_nodes
world-IsSized = record {
  node_memory = (299, refl);
  min_fits = (omega arith, omega arith);
  min_nat = refl;
  counts = few_nodes;
  short = λ h nodes e. one_worker e;
}

reconcile-Returned_example : Returned (reconcile world poll_twice whole small_nodes []).0
reconcile-Returned_example =
    reconcile-Returned world poll_twice world-IsAnswering whole small_nodes world-IsSized []

start-Returned_example :
    Returned (start world poll_twice whole small_nodes (tick ∷ cancelled ∷ []) []).0
start-Returned_example =
    start-Returned world poll_twice world-IsAnswering whole small_nodes world-IsSized (tick ∷ []) []
      []
