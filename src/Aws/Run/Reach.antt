-- ===== src/Aws/Run/Reach.antt =====
-- The invariant of the cache in every state that operations lead to.
use capten_autoscaler.Base.{
  ℕ, Text, text_Eq, Option, none, some, List, [], ◌∷◌, lookup, ◌≡◌, refl, ap, if◌then◌else◌, Bool,
  true, false, ltb_ℤ, ◌+ℤ◌, ◌-ℤ◌,
}
use capten_autoscaler.Cluster.Api.{Error, Outcome, done, panicked, exited, unfinished}
use capten_autoscaler.Aws.Types.{InstanceRef, ref_Eq, Instant}
use capten_autoscaler.Aws.State.Ends.{none-some}
use capten_autoscaler.Aws.State.{read_clock, Service, State, pure, continue, ◌>>=◌, ◌>>◌}
use capten_autoscaler.Aws.State.Rules.{AnyRequest, Does, Extends-refl, Does-pure, Does-bind}
use capten_autoscaler.Aws.Groups.{delete_instances}
use capten_autoscaler.Aws.Groups.Stable.{Does-request, set_asg_size-Does}
use capten_autoscaler.Aws.Groups.WellFormed.{IsWellFormed, IsWellFormed-IsStable}
use capten_autoscaler.Aws.Groups.Kept.{delete_instances-Does, parse_explicit_asgs-IsWellFormed}
use capten_autoscaler.Aws.Refresh.{get_autoscaling_groups_by_names, regenerate, build_asg_names}
use capten_autoscaler.Aws.Refresh.Kept.{regenerate_from-IsWellFormed}
use capten_autoscaler.Aws.Manager.{
  time_now, refresh_interval, set_last_refresh, after_regenerate, force_refresh, refresh,
  after_deletion, manager_delete_instances,
}
use capten_autoscaler.Aws.NodeGroup.{group_id}
use capten_autoscaler.Aws.NodeGroup.Kept.{
  increase_size-Does, decrease_target_size-Does, delete_nodes-Does,
}
use capten_autoscaler.Aws.Run.{
  Operation, refresh_cache, force_refresh_cache, set_size, delete_by_ref, increase, decrease,
  delete_by_node, perform, new_asg_cache, refresh_new, create_aws_manager, initial, Reachable,
  created, configured, after,
}

module _ (svc : Service) where
  set_last_refresh-Does : (t : Instant) → Does IsWellFormed AnyRequest (set_last_refresh svc t)
  set_last_refresh-Does t = record {
    keeps = λ s w. record { registered = w.registered; known = w.known; free = w.free };
    adds = λ s w. Extends-refl AnyRequest s.log;
  }

  look-Does :
      (f : Instant → Instant)
      → Does {A = Option Error} IsWellFormed AnyRequest
          (time_now svc >>= λ now. set_last_refresh svc (f now) >> pure none)
  look-Does f =
      Does-bind IsWellFormed AnyRequest (time_now svc) _
        (Does-request IsWellFormed IsWellFormed-IsStable AnyRequest read_clock svc.on_read_clock tt)
        (λ now.
          Does-bind IsWellFormed AnyRequest (set_last_refresh svc (f now)) (λ u. pure none)
            (set_last_refresh-Does (f now)) (λ u. Does-pure IsWellFormed AnyRequest none))

  after_deletion-Does : (e : Option Error) → Does IsWellFormed AnyRequest (after_deletion svc e)
  after_deletion-Does (some e) = Does-pure IsWellFormed AnyRequest _
  after_deletion-Does none = look-Does (λ now. now -ℤ refresh_interval)

  manager_delete_instances-Does :
      (instances : List InstanceRef)
      → Does IsWellFormed AnyRequest (manager_delete_instances svc instances)
  unfolding manager_delete_instances
  manager_delete_instances-Does instances =
      Does-bind IsWellFormed AnyRequest (delete_instances svc instances) (after_deletion svc)
        (delete_instances-Does svc instances) after_deletion-Does

  after_regenerate-IsWellFormed :
      (o : Outcome (Option Error)) (s : State)
      → IsWellFormed s
      → IsWellFormed (continue o (after_regenerate svc) s).1
  after_regenerate-IsWellFormed (done (some e)) s w = w
  after_regenerate-IsWellFormed (done none) s w = (look-Does (λ now. now)).keeps s w
  after_regenerate-IsWellFormed panicked s w = w
  after_regenerate-IsWellFormed exited s w = w
  after_regenerate-IsWellFormed unfinished s w = w

  force_refresh-IsWellFormed : (s : State) → IsWellFormed s → IsWellFormed (force_refresh svc s).1
  unfolding force_refresh regenerate
  force_refresh-IsWellFormed s w =
      after_regenerate-IsWellFormed (regenerate svc s).0 (regenerate svc s).1 (
        regenerate_from-IsWellFormed svc (get_autoscaling_groups_by_names (build_asg_names svc s)) s
          w)

  refresh-IsWellFormed : (s : State) → IsWellFormed s → IsWellFormed (refresh svc s).1
  unfolding refresh
  refresh-IsWellFormed s w =
      by_test (ltb_ℤ (svc.on_read_clock s.log) (s.last_refresh +ℤ refresh_interval))
    where
      looked : IsWellFormed (record s { log = read_clock ∷ s.log })
      looked = IsWellFormed-IsStable.on_log read_clock s w

      by_test :
          (b : Bool)
          → IsWellFormed
              ((if b then pure none else force_refresh svc)
                (record s { log = read_clock ∷ s.log })).1
      by_test true = looked
      by_test false = force_refresh-IsWellFormed (record s { log = read_clock ∷ s.log }) looked

  perform-IsWellFormed :
      (o : Operation) (s : State) → IsWellFormed s → IsWellFormed (perform svc o s).1
  perform-IsWellFormed refresh_cache s w = refresh-IsWellFormed s w
  perform-IsWellFormed force_refresh_cache s w = force_refresh-IsWellFormed s w
  perform-IsWellFormed (set_size asg size) s w =
      (set_asg_size-Does IsWellFormed IsWellFormed-IsStable AnyRequest svc asg size
          (λ s i a at size. tt)).keeps
        s w
  perform-IsWellFormed (delete_by_ref instances) s w =
      (manager_delete_instances-Does instances).keeps s w
  perform-IsWellFormed (increase group delta) s w =
      (increase_size-Does IsWellFormed IsWellFormed-IsStable AnyRequest svc group (λ name size. tt)
          delta).keeps
        s w
  perform-IsWellFormed (decrease group delta) s w =
      (decrease_target_size-Does IsWellFormed IsWellFormed-IsStable AnyRequest svc group
          (λ name size. tt) delta).keeps
        s w
  perform-IsWellFormed (delete_by_node group nodes) s w =
      (delete_nodes-Does IsWellFormed IsWellFormed-IsStable AnyRequest svc group nodes
          manager_delete_instances-Does).keeps
        s w

  pub initial-IsWellFormed : IsWellFormed initial
  unfolding lookup
  initial-IsWellFormed = record {
    registered = λ k p at. absurd (none-some at);
    known = λ i p at. absurd (none-some at);
    free = λ p le. refl;
  }

  refresh_new-IsWellFormed :
      (o : Outcome (Option Error)) (s : State)
      → IsWellFormed s
      → IsWellFormed (continue o (refresh_new svc) s).1
  refresh_new-IsWellFormed (done (some e)) s w = w
  refresh_new-IsWellFormed (done none) s w = force_refresh-IsWellFormed s w
  refresh_new-IsWellFormed panicked s w = w
  refresh_new-IsWellFormed exited s w = w
  refresh_new-IsWellFormed unfinished s w = w

  -- In every state that operations of the provider lead to, a registered group stands in the heap under
  -- its own name, the group of a known instance stands in the heap, and what is not allocated is free.
  pub Reachable-IsWellFormed : (s : State) → Reachable svc s → IsWellFormed s
  unfolding create_aws_manager
  Reachable-IsWellFormed s created =
      refresh_new-IsWellFormed (new_asg_cache svc []).0 (new_asg_cache svc []).1
        (parse_explicit_asgs-IsWellFormed svc [] initial initial-IsWellFormed)
  Reachable-IsWellFormed s (configured specs) =
      parse_explicit_asgs-IsWellFormed svc specs initial initial-IsWellFormed
  Reachable-IsWellFormed s (after {s = t} before o) =
      perform-IsWellFormed o t (Reachable-IsWellFormed t before)

  -- In such a state the id of a registered group is the name that it is registered under: its pointer
  -- is not nil.
  pub Reachable-group_id :
      (s : State) (k : Text) (p : ℕ)
      → Reachable svc s
      → lookup k s.registered_asgs ≡ some p
      → group_id svc (record { asg = p }) s ≡ (done k, s)
  Reachable-group_id s k p reach at =
      let (a, here, named) = (Reachable-IsWellFormed s reach).registered k p at in
      rw here (ap (λ n. (done n, s)) named)
