-- ===== src/Autoscaler/Returning.antt =====
-- A pass returns, and so does the loop, in a world that answers.
use capten_autoscaler.Base.{
  ℕ, suc, ◌/◌, ◌-ℤ◌, int64, ◌<◌, ◌^◌, ℤ, pos, negsuc, neg_part, int_eq, FitsInt32, int32_exact,
  max_ℤ, min_ℤ, none, some, List, [], ◌∷◌, ◌++◌, length, select, ◌≡◌, refl, arith,
}
use capten_autoscaler.Cluster.Objects.{Pod, Node}
use capten_autoscaler.Cluster.Api.{
  Result, ok, err, list_pods, list_nodes, scale_up, History, Env, pure, ask_out,
}
use capten_autoscaler.Cluster.Ends.{Ends, Returned, Ends-pure, Ends-ask_out, Ends-if, Ends-bind}
use capten_autoscaler.Drain.Wait.{Poller}
use capten_autoscaler.Listers.{
  active_pods, filter_nodes, is_active, all_pods, all_nodes, list_filtered_nodes,
  unschedulable_pods,
}
use capten_autoscaler.Autoscaler.{
  worker_nodes_of, Float64, NodeInfo, Requirement, quot, is_worker, get_requirement, get_node_count,
  get_nodes_to_scale_up, get_min_nodes_required, get_worker_nodes, grown, grow, shrink, decide,
  with_nodes, with_pods, retire, reconcile, Wake, cancelled, start,
}
use capten_autoscaler.Autoscaler.Ends.{IsAnswering, retire-Ends}
use capten_autoscaler.Autoscaler.Loop.{start-Returns}
use capten_autoscaler.Autoscaler.Spec.{Sees, length-select, max_fits, max_nat}

-- The numbers that the passes meet are in the range of `int32`, `Min` is none below zero, and a node has
-- memory.
pub record IsSized (env : Env) (float : Float64) (info : NodeInfo float) : Type 0 where
  pub node_memory : (size : ℕ) × (info.memory ≡ pos (suc size))
  pub min_fits : FitsInt32 info.min
  pub min_nat : neg_part info.min ≡ 0
  pub counts :
      (h : History) (pods : List Pod) (needed : ℤ)
      → Sees env float info h pods
      → get_node_count float info (get_requirement float pods) ≡ some needed
      → FitsInt32 needed
  pub short :
      (h : History) (nodes : List Node) → env.on_list_nodes h ≡ ok nodes → length nodes < 2 ^ 31

quot-some : (a : ℤ) (b : ℕ) → (q : ℤ) × (quot a (pos (suc b)) ≡ some q)
unfolding quot
quot-some (pos a) b = (pos (a / suc b), refl)
quot-some (negsuc a) b = (int64 (pos 0 -ℤ pos (suc a / suc b)), refl)

-- A node with memory has a count for each requirement.
get_node_count-some :
    (float : Float64) (info : NodeInfo float) (r : Requirement float) (size : ℕ)
    → info.memory ≡ pos (suc size)
    → (n : ℤ) × (get_node_count float info r ≡ some n)
unfolding get_node_count
get_node_count-some float info r size e =
    let (q, found) = quot-some r.memory size in
    (max_ℤ (float.to_int64 (float.ceil (float.div r.cpu info.cpu))) q, rw (e, found))

module _ (env : Env) (poll : ℤ → Poller) (answers : IsAnswering env poll) (float : Float64)
    (info : NodeInfo float) (sized : IsSized env float info) where
  grow-Ends :
      (r : Requirement float) → Ends (grow env poll float info (get_nodes_to_scale_up float info r))
  unfolding get_nodes_to_scale_up
  grow-Ends r =
      let (size, e) = sized.node_memory in
      let (n, at) = get_node_count-some float info r size e in
      rw at (
        Ends-bind
          (ask_out (scale_up (min_ℤ n info.max)) (λ h. env.on_scale_up h (min_ℤ n info.max)))
          (λ e. pure (grown env poll float info e))
          (Ends-ask_out _ _ (λ h. answers.scales_up h (min_ℤ n info.max))) (λ e. Ends-pure _))

  shrink-Ends :
      (r : Requirement float) (nodes : List Node)
      → length nodes < 2 ^ 31
      → ((needed : ℤ) → get_node_count float info r ≡ some needed → FitsInt32 needed)
      → Ends (shrink env poll float info nodes (get_min_nodes_required float info r))
  unfolding get_min_nodes_required
  shrink-Ends r nodes short fits =
      let (size, e) = sized.node_memory in
      let (n, at) = get_node_count-some float info r size e in
      let m = max_ℤ n info.min in
      let held = max_fits n info.min (fits n at) sized.min_fits in
      rw (at, int32_exact m held)
        (Ends-if (int_eq (pos (length nodes)) m) (pure none) (retire env poll m nodes)
          (Ends-pure none)
          (retire-Ends env poll answers m nodes short held.0 (max_nat n info.min sized.min_nat)))

  decide-Ends :
      (h : History) (pods : List Pod) (nodes : List Node) (stuck : List Pod)
      → Sees env float info h pods
      → length nodes < 2 ^ 31
      → Ends (decide env poll float info pods nodes stuck)
  decide-Ends h pods nodes [] seen short =
      shrink-Ends (get_requirement float pods) nodes short
        (λ needed e. sized.counts h pods needed seen e)
  decide-Ends h pods nodes (p ∷ ps) seen short = grow-Ends (get_requirement float (p ∷ ps))

  -- A pass returns, on every way through it, whatever the cluster and the cloud answer: it neither panics
  -- nor loops, where the API server, the cloud and the libraries answer, a node has memory, `Min` is no
  -- negative number, and the numbers that it meets are in the range of `int32`.
  pub reconcile-Returned : (h : History) → Returned (reconcile env poll float info h).0
  unfolding reconcile all_pods get_worker_nodes all_nodes list_filtered_nodes
  reconcile-Returned h = by_pods (env.on_list_pods h) refl
    where
      by_nodes :
          (pods : List Pod) (r : Result (List Node))
          → Sees env float info h pods
          → env.on_list_nodes (list_pods ∷ h) ≡ r
          → Returned
              (with_nodes env poll float info pods
                (worker_nodes_of (filter_nodes none r))
                (list_nodes ∷ list_pods ∷ h)).0
      by_nodes pods (err e) seen at = tt
      by_nodes pods (ok nodes) seen at =
          (decide-Ends h pods (select is_worker nodes) (unschedulable_pods pods) seen (
              omega
                (arith, sized.short (list_pods ∷ h) nodes at, length-select is_worker nodes))).at
            (list_nodes ∷ list_pods ∷ h)

      by_pods :
          (r : Result (List Pod))
          → env.on_list_pods h ≡ r
          → Returned (with_pods env poll float info (active_pods r) (list_pods ∷ h)).0
      by_pods (err e) at = tt
      by_pods (ok all) at =
          by_nodes (select is_active all) (env.on_list_nodes (list_pods ∷ h)) (all, at, refl) refl

  -- `Start` returns once its context ends: whatever the cluster and the cloud answer, no pass before keeps
  -- it from that, under the conditions under which a pass returns.
  pub start-Returned :
      (before later : List (Wake env poll float info)) (h : History)
      → Returned (start env poll float info (before ++ cancelled ∷ later) h).0
  start-Returned before later h =
      start-Returns env poll float info reconcile-Returned before later h
