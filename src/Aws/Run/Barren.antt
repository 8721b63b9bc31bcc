-- ===== src/Aws/Run/Barren.antt =====
-- A manager is made without explicit groups, and the query for groups answers none.
use capten_autoscaler.Base.{
  ℕ, ℤ, pos, ltb_ℤ, leb_ℤ, ◌+ℤ◌, Text, text_Eq, Bool, true, false, Option, none, some, List, [],
  ◌∷◌, map, ap, Dict, lookup, All, ◌≡◌, refl, if◌then◌else◌, Bool-cases, inl, inr,
}
use capten_autoscaler.Cluster.Api.{Error, Outcome, done}
use capten_autoscaler.Aws.Types.{InstanceRef, ref_Eq, Instant}
use capten_autoscaler.Aws.State.{Request, read_clock, Service, State, continue, pure, ◌>>=◌}
use capten_autoscaler.Aws.Groups.{set_asg_size, delete_from, delete_instances, parse_explicit_asgs}
use capten_autoscaler.Aws.Placeholders.{create_placeholders}
use capten_autoscaler.Aws.Refresh.{
  register_groups, get_autoscaling_groups_by_names, unregister_gone, names_to_query, populate,
  regenerate_from, regenerate,
}
use capten_autoscaler.Aws.Refresh.Emptied.{Ranges}
use capten_autoscaler.Aws.Manager.{
  refresh_interval, after_regenerate, after_deletion, force_refresh, refresh,
  manager_delete_instances,
}
use capten_autoscaler.Aws.NodeGroup.{
  NodeGroup, node_groups, increase_size, decrease_target_size, delete_nodes,
}
use capten_autoscaler.Aws.Run.{
  Operation, refresh_cache, force_refresh_cache, set_size, delete_by_ref, increase, decrease,
  delete_by_node, perform, initial, create_aws_manager,
}

abbrev pub IsClock : Request → Type 0
IsClock r = r ≡ read_clock

-- A cache without groups, whose requests so far are looks at the clock.
record IsBarren (s : State) : Type 0 where
  pub none_registered : s.registered_asgs ≡ []
  pub none_known : s.instance_to_asg ≡ []
  pub no_cell : (p : ℕ) → s.cell p ≡ none
  pub clock_only : All IsClock s.log

-- Operations one after the other.
abbrev pub perform_all : Service → List Operation → State → State
perform_all svc [] s = s
perform_all svc (o ∷ operations) s = perform_all svc operations (perform svc o s).1

-- The state of a new manager after operations.
abbrev pub managed : Service → List Operation → State
managed svc operations = perform_all svc operations (create_aws_manager svc).1

module _ (svc : Service) (ranges : Ranges svc) where
  no_entries : (d : Dict Text ℕ) → All (λ e. lookup e.0 [] ≡ some e.1) d → d ≡ []
  unfolding lookup
  no_entries [] found = refl
  no_entries ((k, p) ∷ d) found = cc (found.0)

  range_nothing : svc.range_groups [] ≡ []
  range_nothing = no_entries (svc.range_groups []) (ranges [])

  looked :
      (t : Instant) (s : State)
      → IsBarren s
      → IsBarren (record s { last_refresh = t; log = read_clock ∷ s.log })
  looked t s i = record {
    none_registered = i.none_registered;
    none_known = i.none_known;
    no_cell = i.no_cell;
    clock_only = (refl, i.clock_only);
  }

  -- Its regeneration returns no error and changes nothing here.
  regenerate-IsBarren :
      (s : State) → IsBarren s → ((regenerate svc s).0 ≡ done none) × IsBarren (regenerate svc s).1
  unfolding regenerate regenerate_from create_placeholders register_groups
      get_autoscaling_groups_by_names unregister_gone populate names_to_query
  regenerate-IsBarren s i =
      rw (i.none_registered, range_nothing, populate, range_nothing)
        (
          refl,
          record {
            none_registered = refl;
            none_known = refl;
            no_cell = i.no_cell;
            clock_only = i.clock_only;
          },
        )

  after_regenerate-IsBarren :
      (o : Outcome (Option Error)) (s : State)
      → o ≡ done none
      → IsBarren s
      → IsBarren (continue o (after_regenerate svc) s).1
  after_regenerate-IsBarren o s e i = rw e (looked _ s i)

  force_refresh-IsBarren : (s : State) → IsBarren s → IsBarren (force_refresh svc s).1
  unfolding force_refresh
  force_refresh-IsBarren s i =
      let (e, kept) = regenerate-IsBarren s i in
      after_regenerate-IsBarren (regenerate svc s).0 (regenerate svc s).1 e kept

  refresh-IsBarren : (s : State) → IsBarren s → IsBarren (refresh svc s).1
  unfolding refresh
  refresh-IsBarren s i =
      by_test (ltb_ℤ (svc.on_read_clock s.log) (s.last_refresh +ℤ refresh_interval))
    where
      read : IsBarren (record s { log = read_clock ∷ s.log })
      read = looked s.last_refresh s i

      by_test :
          (b : Bool)
          → IsBarren
              ((if b then pure none else force_refresh svc)
                (record s { log = read_clock ∷ s.log })).1
      by_test true = read
      by_test false = force_refresh-IsBarren (record s { log = read_clock ∷ s.log }) read

  unknown-IsBarren :
      (r : InstanceRef) (instances : List InstanceRef) (o : Option ℕ) (s : State)
      → o ≡ none
      → IsBarren s
      → IsBarren ((delete_from svc r instances o >>= after_deletion svc) s).1
  unknown-IsBarren r instances o s e i = rw e i

  delete_by_ref-IsBarren :
      (instances : List InstanceRef) (s : State)
      → IsBarren s
      → IsBarren (manager_delete_instances svc instances s).1
  unfolding manager_delete_instances delete_instances lookup
  delete_by_ref-IsBarren [] s i = looked _ s i
  delete_by_ref-IsBarren (r ∷ instances) s i =
      unknown-IsBarren r (r ∷ instances) (lookup r s.instance_to_asg) s (rw i.none_known refl) i

  increase-IsBarren :
      (group : NodeGroup) (delta : ℤ) (s : State)
      → IsBarren s
      → IsBarren (increase_size svc group delta s).1
  unfolding increase_size
  increase-IsBarren group delta s i = elim (Bool-cases (leb_ℤ delta (pos 0))) [
    | inl small ↦ rw small i
    | inr large ↦ rw (large, i.no_cell group.asg) i
  ]

  decrease-IsBarren :
      (group : NodeGroup) (delta : ℤ) (s : State)
      → IsBarren s
      → IsBarren (decrease_target_size svc group delta s).1
  unfolding decrease_target_size
  decrease-IsBarren group delta s i = elim (Bool-cases (leb_ℤ (pos 0) delta)) [
    | inl large ↦ rw large i
    | inr small ↦ rw (small, i.no_cell group.asg) i
  ]

  perform-IsBarren : (o : Operation) (s : State) → IsBarren s → IsBarren (perform svc o s).1
  unfolding set_asg_size delete_nodes
  perform-IsBarren refresh_cache s i = refresh-IsBarren s i
  perform-IsBarren force_refresh_cache s i = force_refresh-IsBarren s i
  perform-IsBarren (set_size asg size) s i = rw (i.no_cell asg) i
  perform-IsBarren (delete_by_ref instances) s i = delete_by_ref-IsBarren instances s i
  perform-IsBarren (increase group delta) s i = increase-IsBarren group delta s i
  perform-IsBarren (decrease group delta) s i = decrease-IsBarren group delta s i
  perform-IsBarren (delete_by_node group nodes) s i = rw (i.no_cell group.asg) i

  perform_all-IsBarren :
      (operations : List Operation) (s : State)
      → IsBarren s
      → IsBarren (perform_all svc operations s)
  perform_all-IsBarren [] s i = i
  perform_all-IsBarren (o ∷ operations) s i =
      perform_all-IsBarren operations (perform svc o s).1 (perform-IsBarren o s i)

  created-IsBarren : IsBarren (create_aws_manager svc).1
  unfolding create_aws_manager parse_explicit_asgs
  created-IsBarren =
      force_refresh-IsBarren initial
        (record { none_registered = refl; none_known = refl; no_cell = λ p. refl; clock_only = tt })

  no_groups : (s : State) → IsBarren s → node_groups svc.range_groups s ≡ (done [], s)
  unfolding node_groups
  no_groups s i =
      ap (λ (l : List NodeGroup). (done l, s)) (of_none s.registered_asgs i.none_registered)
    where
      of_none :
          (d : Dict Text ℕ)
          → d ≡ []
          → map {B = NodeGroup} (λ e. record { asg = e.1 }) (svc.range_groups d) ≡ []
      of_none d e = rw (e, range_nothing)

  -- A manager made by `createAWSManagerInternal` never has a node group: after any operations `NodeGroups`
  -- returns none, no size has been set and no instance terminated, since all its requests were looks at
  -- the clock; where `range` visits entries of the map alone.
  pub managed-IsClock :
      (operations : List Operation)
      → (node_groups svc.range_groups (managed svc operations) ≡ (done [], managed svc operations))
        × All IsClock (managed svc operations).log
  managed-IsClock operations =
      let i = perform_all-IsBarren operations (create_aws_manager svc).1 created-IsBarren in
      (no_groups (managed svc operations) i, i.clock_only)
