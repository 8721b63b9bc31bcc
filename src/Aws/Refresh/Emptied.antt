-- ===== src/Aws/Refresh/Emptied.antt =====
-- The query for groups is not implemented and answers none: what a regeneration does by it.
use capten_autoscaler.Base.{
  ℕ, Text, text, text_Eq, Bool, not, ◌&&◌, Option, none, some, List, [], ◌∷◌, ◌++◌, Dict, lookup,
  is_some, All, ◌≡◌, refl, ◌∙◌, inl, inr, Bool-cases, if◌then◌else◌,
}
use capten_autoscaler.Cluster.Api.{Error, failure, ok, Outcome, done}
use capten_autoscaler.Aws.Types.{InstanceRef, ref_Eq, Asg}
use capten_autoscaler.Aws.State.{Service, State, continue}
use capten_autoscaler.Aws.Groups.{unregister, unregister_name, delete_instances, holds}
use capten_autoscaler.Aws.Groups.WellFormed.{IsWellFormed}
use capten_autoscaler.Aws.Groups.Register.{IsLive}
use capten_autoscaler.Aws.Placeholders.{create_placeholders}
use capten_autoscaler.Aws.Refresh.{
  register_groups, get_autoscaling_groups_by_names, nothing_known, unregister_if_gone,
  unregister_gone, get_by_key, names_to_query, populate, set_maps, settle_maps, regenerate_from,
  regenerate,
}
use capten_autoscaler.Aws.Refresh.Settled.{unregister_name-cell, unregister_gone-Does}
use capten_autoscaler.Aws.Refresh.Kept.{nothing-IsFresh}

-- `range` visits entries of the map alone.
abbrev pub Ranges : Service → Type 0
Ranges svc = (d : Dict Text ℕ) → All (λ e. lookup e.0 d ≡ some e.1) (svc.range_groups d)

abbrev AllLive : State → Dict Text ℕ → Type 0
AllLive s entries = All (λ e. IsLive s e.1) entries

all_live :
    (s : State) (d entries : Dict Text ℕ)
    → ((k : Text) (p : ℕ) → lookup k d ≡ some p → IsLive s p)
    → All (λ e. lookup e.0 d ≡ some e.1) entries
    → AllLive s entries
all_live s d [] live found = tt
all_live s d ((k, p) ∷ entries) live found = (live k p found.0, all_live s d entries live found.1)

still_live :
    (s t : State) (entries : Dict Text ℕ) → t.cell ≡ s.cell → AllLive s entries → AllLive t entries
still_live s t [] same live = tt
still_live s t ((k, p) ∷ entries) same ((a, here), live) =
    ((a, rw same here), still_live s t entries same live)

module _ (svc : Service) where
  unregister-done :
      (p : ℕ) (s : State)
      → IsLive s p
      → (t : State) × (unregister p s ≡ (done tt, t)) × (t.cell ≡ s.cell)
  unfolding unregister
  unregister-done p s (a, here) =
      ((unregister_name a.name s).1, rw here, unregister_name-cell a.name s)

  unregister_if_gone-done :
      (exists : Dict Text Bool) (p : ℕ) (a : Asg) (read s : State)
      → IsLive s p
      → (t : State) × (unregister_if_gone svc exists p a read s ≡ (done tt, t)) × (t.cell ≡ s.cell)
  unregister_if_gone-done exists p a read s live =
      elim (Bool-cases (
        not (holds (lookup a.name exists))
        && not (holds (lookup a.name read.explicitly_configured)))) [
          | inl gone ↦ let (t, e, same) = unregister-done p s live in (t, rw gone e, same)
          | inr stays ↦ (s, rw stays, refl)
        ]

  unregister_gone-done :
      (exists : Dict Text Bool) (entries : Dict Text ℕ) (s : State)
      → AllLive s entries
      → (t : State) × (unregister_gone svc exists entries s ≡ (done tt, t)) × (t.cell ≡ s.cell)
  unfolding unregister_gone
  unregister_gone-done exists [] s live = (s, refl, refl)
  unregister_gone-done exists ((k, p) ∷ entries) s ((a, here), live) =
      let (t, e, same) = unregister_if_gone-done exists p a s s (a, here) in
      let (u, e', same') =
        unregister_gone-done exists entries t (still_live s t entries same live) in
      (u, rw (here, e) e', same' ∙ same)

  names_to_query-done :
      (entries : Dict Text ℕ) (s : State)
      → AllLive s entries
      → (names : List Text) × (names_to_query svc entries s ≡ (done names, s))
  unfolding names_to_query
  names_to_query-done [] s live = ([], refl)
  names_to_query-done ((k, p) ∷ entries) s ((a, here), live) =
      let (names, e) = names_to_query-done entries s live in
      ((if is_some (get_by_key svc a.name s) then names else a.name ∷ names), rw (here, e))

  module _ (ranges : Ranges svc) where
    registered_live : (s : State) → IsWellFormed s → AllLive s (svc.range_groups s.registered_asgs)
    registered_live s w =
        all_live s s.registered_asgs (svc.range_groups s.registered_asgs)
          (λ k p at. let (a, here, named) = w.registered k p at in (a, here))
          (ranges s.registered_asgs)

    populate-done : (s : State) → IsWellFormed s → (populate svc s).0 ≡ done none
    unfolding populate
    populate-done s w =
        let live = registered_live s w in
        let (names, e) = names_to_query-done (svc.range_groups s.registered_asgs) s live in rw e

    -- The instances that the cache knows of: none.
    abbrev pub IsEmptied : State → Type 0
    IsEmptied s =
        (s.instance_to_asg ≡ [])
        × (s.asg_to_instances ≡ [])
        × (s.instance_status ≡ [])
        × (s.instance_lifecycle ≡ [])

    after_populate :
        (o : Outcome (Option Error)) (s : State)
        → o ≡ done none
        → ((continue o (λ e. set_maps svc nothing_known) s).0 ≡ done none)
          × IsEmptied (continue o (λ e. set_maps svc nothing_known) s).1
    after_populate o s e = rw e (refl, (refl, refl, refl, refl))

    settled :
        (s : State)
        → IsWellFormed s
        → ((settle_maps svc (ok nothing_known) s).0 ≡ done none)
          × IsEmptied (settle_maps svc (ok nothing_known) s).1
    settled s w =
        let (t, e, same) =
          unregister_gone-done [] (svc.range_groups s.registered_asgs) s (registered_live s w) in
        let kept =
          (unregister_gone-Does svc nothing_known [] (svc.range_groups s.registered_asgs)).keeps s
            (w, nothing-IsFresh s) in
        rw e
          (after_populate (populate svc t).0 (populate svc t).1 (populate-done t (rw e at kept).0))

    -- A regeneration of the cache in a well-formed state neither fails nor panics, and forgets every
    -- instance, since the query for groups answers none; where `range` visits entries of the map alone.
    pub regenerate-IsEmptied :
        (s : State)
        → IsWellFormed s
        → ((regenerate svc s).0 ≡ done none) × IsEmptied (regenerate svc s).1
    unfolding regenerate regenerate_from create_placeholders register_groups
        get_autoscaling_groups_by_names
    regenerate-IsEmptied s w = settled s w

    -- After the regeneration of this code, whose query answers none, of a well-formed cache, a deletion of
    -- at least one instance is refused, makes no request and changes nothing; where `range` visits entries
    -- of the map alone.
    pub delete_instances-IsEmptied :
        (i : InstanceRef) (instances : List InstanceRef) (s : State)
        → IsWellFormed s
        → delete_instances svc (i ∷ instances) (regenerate svc s).1 ≡ (
          done (
              some (
                failure (
                  text "can't delete instance "
                  ++ (i.name ++ text ", which is not part of an ASG")))),
          (regenerate svc s).1,
        )
    unfolding delete_instances lookup
    delete_instances-IsEmptied i instances s w = rw (regenerate-IsEmptied s w).1.0
