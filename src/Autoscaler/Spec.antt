-- ===== src/Autoscaler/Spec.antt =====
-- What one pass may ask of the cloud, stated by what the cluster answers, and that `reconcile` keeps to it.
use capten_autoscaler.Base.{
  ◌^◌, ◌≤◌, ◌<◌, ◌+◌, ◌-◌, ℤ, pos, pos_part, neg_part, ◌≤ℤ◌, int_eq, FitsInt32, int32_exact, min_ℤ,
  max_ℤ, Bool, Option, none, some, List, [], ◌∷◌, select, length, ◌≡◌, ◌≢◌, refl, arith, Bool-cases,
  inl, inr,
}
use capten_autoscaler.Cluster.Objects.{Pod, Node}
use capten_autoscaler.Cluster.Api.{
  Result, ok, err, list_pods, list_nodes, scale_up, continue, History, Env, Outcome, pure, done,
  panicked, exited, unfinished,
}
use capten_autoscaler.Cluster.Laws.{count}
use capten_autoscaler.Drain.Wait.{Poller, IsPollImmediate}
use capten_autoscaler.Listers.{
  active_pods, filter_nodes, is_active, all_pods, all_nodes, list_filtered_nodes,
  unschedulable_pods,
}
use capten_autoscaler.Autoscaler.{
  worker_nodes_of, Float64, NodeInfo, is_worker, get_requirement, get_node_count,
  get_nodes_to_scale_up, get_min_nodes_required, get_worker_nodes, grown, grow, shrink, decide,
  with_nodes, with_pods, reconcile,
}
use capten_autoscaler.Autoscaler.Retire.{is_scale_down}
use capten_autoscaler.Autoscaler.Absent.{is_scale_up, scale_up-IsAbsent, retire-Avoids}
use capten_autoscaler.Autoscaler.Calls.{retire-count}

module _ (env : Env) (float : Float64) (info : NodeInfo float) where
  -- The pods that the pass at `h` sees: all that are not finished.
  abbrev pub Sees : History → List Pod → Type 0
  Sees h pods = (all : List Pod) × (env.on_list_pods h ≡ ok all) × (select is_active all ≡ pods)

  -- The workers that it sees next.
  abbrev pub SeesWorkers : History → List Node → Type 0
  SeesWorkers h nodes =
      (all : List Node) × (env.on_list_nodes (list_pods ∷ h) ≡ ok all)
      × (select is_worker all ≡ nodes)

  -- The histories that a pass at `h` may come to.
  pub data Pass (h : History) : History → Type 0 where
    -- it asks nothing of the cloud
    idle :
        {h' : History}
        → count is_scale_up h' ≡ count is_scale_up h
        → count is_scale_down h' ≡ count is_scale_down h
        → Pass h h'
    -- pods find no room: it asks once, last of all, for the nodes that these need, but at most `Max`
    grew :
        (pods : List Pod) (needed n : ℤ)
        → Sees h pods
        → unschedulable_pods pods ≢ []
        → get_node_count float info (get_requirement float (unschedulable_pods pods)) ≡ some needed
        → n ≤ℤ needed
        → n ≤ℤ info.max
        → Pass h (scale_up n ∷ list_nodes ∷ list_pods ∷ h)
    -- every pod has room: it takes machines away, and leaves at least as many workers as all pods
    -- need, and at least `Min`, if there were so many
    shrank :
        {h' : History} (pods : List Pod) (nodes : List Node) (needed keep : ℤ)
        → Sees h pods
        → unschedulable_pods pods ≡ []
        → SeesWorkers h nodes
        → get_node_count float info (get_requirement float pods) ≡ some needed
        → needed ≤ℤ keep
        → info.min ≤ℤ keep
        → count is_scale_up h' ≡ count is_scale_up h
        → count is_scale_down h' ≤ (length nodes - pos_part keep) + count is_scale_down h
        → Pass h h'

pub length-select : {A : Type 0} (p : A → Bool) (xs : List A) → length (select p xs) ≤ length xs
length-select p [] = omega arith
length-select p (x ∷ xs) = ground (arith, length-select p xs)

cons_nil : {A : Type 0} {x : A} {xs : List A} → x ∷ xs ≢ []
cons_nil e = cc

pub max_fits : (a b : ℤ) → FitsInt32 a → FitsInt32 b → FitsInt32 (max_ℤ a b)
max_fits a b x y = ground arith

pub max_nat : (a b : ℤ) → neg_part b ≡ 0 → neg_part (max_ℤ a b) ≡ 0
max_nat a b nat = ground arith

last_call :
    {A B : Type 0} (o : Outcome A) (f : A → B) (h : History)
    → (continue o (λ a. pure (f a)) h).1 ≡ h
last_call (done a) f h = refl
last_call panicked f h = refl
last_call exited f h = refl
last_call unfinished f h = refl

module _ (env : Env) (poll : ℤ → Poller) (polls : (timeout : ℤ) → IsPollImmediate (poll timeout))
    (float : Float64) (info : NodeInfo float) (fits_min : FitsInt32 info.min)
    (nat_min : neg_part info.min ≡ 0) where
  module _ (h : History) (pods : List Pod) (seen : Sees env float info h pods) where
    grow-Pass :
        (stuck : List Pod) (o : Option ℤ)
        → unschedulable_pods pods ≡ stuck
        → stuck ≢ []
        → get_node_count float info (get_requirement float stuck) ≡ o
        → Pass env float info h
            (grow env poll float info
              (get_nodes_to_scale_up float info (get_requirement float stuck))
              (list_nodes ∷ list_pods ∷ h)).1
    unfolding get_nodes_to_scale_up
    grow-Pass stuck none e some_stuck at = rw at (idle refl refl)
    grow-Pass stuck (some needed) e some_stuck at =
        rw
          (
            at,
            last_call (env.on_scale_up (list_nodes ∷ list_pods ∷ h) (min_ℤ needed info.max))
                (grown env poll float info),
          )
          (grew pods needed (min_ℤ needed info.max) seen (rw e some_stuck) (rw e at) (ground arith)
            (ground arith))

    module _ (nodes : List Node) (workers : SeesWorkers env float info h nodes)
        (short : length nodes < 2 ^ 31) (room : unschedulable_pods pods ≡ []) where
      keep-Pass :
          (needed keep : ℤ)
          → get_node_count float info (get_requirement float pods) ≡ some needed
          → FitsInt32 keep
          → neg_part keep ≡ 0
          → needed ≤ℤ keep
          → info.min ≤ℤ keep
          → Pass env float info h
              (shrink env poll float info nodes (some keep) (list_nodes ∷ list_pods ∷ h)).1
      keep-Pass needed keep at fits nat enough least =
          elim (Bool-cases (int_eq (pos (length nodes)) keep)) [
            | inl same ↦ rw same (idle refl refl)
            | inr other ↦ rw other (
                shrank pods nodes needed keep seen room workers at enough least
                  ((retire-Avoids env poll polls is_scale_up scale_up-IsAbsent keep nodes).at
                    (list_nodes ∷ list_pods ∷ h))
                  (retire-count env poll polls keep nodes (list_nodes ∷ list_pods ∷ h) short fits.0
                    nat))
          ]

      shrink-Pass :
          (o : Option ℤ)
          → get_node_count float info (get_requirement float pods) ≡ o
          → ((needed : ℤ) → o ≡ some needed → FitsInt32 needed)
          → Pass env float info h
              (shrink env poll float info nodes
                (get_min_nodes_required float info (get_requirement float pods))
                (list_nodes ∷ list_pods ∷ h)).1
      unfolding get_min_nodes_required
      shrink-Pass none at fits = rw at (idle refl refl)
      shrink-Pass (some needed) at fits =
          let m = max_ℤ needed info.min in
          rw (at, int32_exact m (max_fits needed info.min (fits needed refl) fits_min))
            (keep-Pass needed m at (max_fits needed info.min (fits needed refl) fits_min)
              (max_nat needed info.min nat_min) (ground arith) (ground arith))

    -- The decision, for the workers listed.
    decide-Pass :
        (nodes : List Node) (stuck : List Pod)
        → SeesWorkers env float info h nodes
        → length nodes < 2 ^ 31
        → ((needed : ℤ)
            → get_node_count float info (get_requirement float pods) ≡ some needed
            → FitsInt32 needed)
        → unschedulable_pods pods ≡ stuck
        → Pass env float info h
            (decide env poll float info pods nodes stuck (list_nodes ∷ list_pods ∷ h)).1
    decide-Pass nodes [] workers short counts e =
        shrink-Pass nodes workers short e (get_node_count float info (get_requirement float pods))
          refl counts
    decide-Pass nodes (p ∷ ps) workers short counts e =
        grow-Pass (p ∷ ps) (get_node_count float info (get_requirement float (p ∷ ps))) e cons_nil
          refl

  -- A pass refines its specification: whatever the cluster and the cloud answer and however it ends,
  -- it asks nothing of the cloud; or, where pods find no room, last of all for the nodes that these need
  -- but at most `Max`; or, where every pod has room, to take away so many machines at most that as many
  -- workers stay as the pods need, and `Min`. `Min` is no negative number, and it, the nodes that the
  -- pods listed need and the number of the nodes listed are in the range of `int32`.
  pub reconcile-Pass :
      (h : History)
      → ((pods : List Pod) (needed : ℤ)
          → Sees env float info h pods
          → get_node_count float info (get_requirement float pods) ≡ some needed
          → FitsInt32 needed)
      → ((nodes : List Node) → env.on_list_nodes (list_pods ∷ h) ≡ ok nodes → length nodes < 2 ^ 31)
      → Pass env float info h (reconcile env poll float info h).1
  unfolding reconcile all_pods get_worker_nodes all_nodes list_filtered_nodes
  reconcile-Pass h counts short = by_pods (env.on_list_pods h) refl
    where
      by_nodes :
          (pods : List Pod) (r : Result (List Node))
          → Sees env float info h pods
          → env.on_list_nodes (list_pods ∷ h) ≡ r
          → Pass env float info h
              (with_nodes env poll float info pods
                (worker_nodes_of (filter_nodes none r))
                (list_nodes ∷ list_pods ∷ h)).1
      by_nodes pods (err e) seen at = idle refl refl
      by_nodes pods (ok nodes) seen at =
          decide-Pass h pods seen (select is_worker nodes) (unschedulable_pods pods)
            (nodes, at, refl) (omega (arith, short nodes at, length-select is_worker nodes))
            (λ needed e. counts pods needed seen e) refl

      by_pods :
          (r : Result (List Pod))
          → env.on_list_pods h ≡ r
          → Pass env float info h (with_pods env poll float info (active_pods r) (list_pods ∷ h)).1
      by_pods (err e) at = idle refl refl
      by_pods (ok all) at =
          by_nodes (select is_active all) (env.on_list_nodes (list_pods ∷ h)) (all, at, refl) refl
