-- ===== src/Aws/Refresh/Kept.antt =====
-- A regeneration keeps the invariant of the cache.
use capten_autoscaler.Base.{List, lookup, text_Eq}
use capten_autoscaler.Cluster.Api.{Result, ok, err, Outcome, done, panicked, exited, unfinished}
use capten_autoscaler.Aws.Types.{ref_Eq, Group}
use capten_autoscaler.Aws.State.Ends.{none-some}
use capten_autoscaler.Aws.State.{Service, State, continue, ◌>>=◌}
use capten_autoscaler.Aws.State.Rules.{AnyRequest}
use capten_autoscaler.Aws.Groups.WellFormed.{IsWellFormed, IsWellFormed-IsStable}
use capten_autoscaler.Aws.Refresh.{
  Fresh, nothing_known, register_groups, settle_maps, regenerate_from,
}
use capten_autoscaler.Aws.Placeholders.{create_placeholders}
use capten_autoscaler.Aws.Placeholders.Calls.{create_placeholders-Does}
use capten_autoscaler.Aws.Refresh.Built.{IsFresh, IsBuilt, register_groups-IsBuilt}
use capten_autoscaler.Aws.Refresh.Settled.{settle_maps-IsWellFormed}

pub nothing-IsFresh : (s : State) → IsFresh s nothing_known
unfolding lookup
nothing-IsFresh s i p at = absurd (none-some at)

module _ (svc : Service) where
  settle_built :
      (o : Outcome (Result Fresh)) (s : State)
      → IsBuilt (o, s)
      → IsWellFormed (continue o (settle_maps svc) s).1
  settle_built (done (ok f)) s w = settle_maps-IsWellFormed svc f s w
  settle_built (done (err e)) s w = w
  settle_built panicked s w = w
  settle_built exited s w = w
  settle_built unfinished s w = w

  register_filled :
      (o : Outcome (List Group)) (s : State)
      → IsWellFormed s
      → IsWellFormed
          (continue o (λ filled. register_groups svc filled nothing_known >>= settle_maps svc) s).1
  register_filled (done groups) s w =
      settle_built _ _ (register_groups-IsBuilt svc groups nothing_known s w (nothing-IsFresh s))
  register_filled panicked s w = w
  register_filled exited s w = w
  register_filled unfinished s w = w

  -- A regeneration keeps the invariant of the cache, whichever groups its query answers and however it
  -- ends: afterwards a registered group stands in the heap under its own name, the group of every
  -- instance that is known stands in the heap, and what is not allocated is free.
  pub regenerate_from-IsWellFormed :
      (answer : Result (List Group)) (s : State)
      → IsWellFormed s
      → IsWellFormed (regenerate_from svc answer s).1
  unfolding regenerate_from
  regenerate_from-IsWellFormed (err e) s w = w
  regenerate_from-IsWellFormed (ok groups) s w =
      register_filled (create_placeholders svc groups s).0 (create_placeholders svc groups s).1 (
        (create_placeholders-Does svc IsWellFormed IsWellFormed-IsStable AnyRequest (λ g. tt)
            groups).keeps
          s w)
