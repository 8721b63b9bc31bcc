-- ===== src/Aws/Run/Tests.antt =====
-- Operations on a new cache of the sample service.
use capten_autoscaler.Base.{text, All, pos, [], ◌∷◌, ◌≡◌}
use capten_autoscaler.Cluster.Api.{done}
use capten_autoscaler.Aws.State.{State}
use capten_autoscaler.Aws.Sample.{service, service-Ranges, workers_node_group}
use capten_autoscaler.Aws.Groups.WellFormed.{IsWellFormed}
use capten_autoscaler.Aws.NodeGroup.{node_groups}
use capten_autoscaler.Aws.Run.{increase, refresh_cache, perform, new_asg_cache, configured, after}
use capten_autoscaler.Aws.Run.Reach.{Reachable-IsWellFormed}
use capten_autoscaler.Aws.Run.Barren.{IsClock, managed, managed-IsClock}

abbrev fresh : State
fresh = (new_asg_cache service (text "workers" ∷ [])).1

Reachable-IsWellFormed_example :
    IsWellFormed
      (perform service refresh_cache
        (perform service (increase workers_node_group (pos 2)) fresh).1).1
Reachable-IsWellFormed_example =
    Reachable-IsWellFormed service
      (perform service refresh_cache
        (perform service (increase workers_node_group (pos 2)) fresh).1).1
      (after (after (configured (text "workers" ∷ [])) (increase workers_node_group (pos 2)))
        refresh_cache)

managed-IsClock_example :
    (node_groups service.range_groups
        (managed service (refresh_cache ∷ increase workers_node_group (pos 2) ∷ []))
      ≡ (done [], managed service (refresh_cache ∷ increase workers_node_group (pos 2) ∷ [])))
    × All IsClock (managed service (refresh_cache ∷ increase workers_node_group (pos 2) ∷ [])).log
managed-IsClock_example =
    managed-IsClock service service-Ranges
      (refresh_cache ∷ increase workers_node_group (pos 2) ∷ [])
