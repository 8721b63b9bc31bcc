-- ===== src/Aws/Refresh/Tests.antt =====
-- Regenerations of the sample cache.
use capten_autoscaler.Base.{text, some, [], ◌∷◌, ◌++◌, ◌≡◌}
use capten_autoscaler.Cluster.Api.{failure, ok, done}
use capten_autoscaler.Aws.Sample.{
  service, service-Ranges, cache, cache-IsWellFormed, ref_a, workers_group,
}
use capten_autoscaler.Aws.Groups.{delete_instances}
use capten_autoscaler.Aws.Groups.WellFormed.{IsWellFormed}
use capten_autoscaler.Aws.Refresh.{regenerate_from, regenerate}
use capten_autoscaler.Aws.Refresh.Kept.{regenerate_from-IsWellFormed}
use capten_autoscaler.Aws.Refresh.Emptied.{delete_instances-IsEmptied}

regenerate_from-IsWellFormed_example :
    IsWellFormed (regenerate_from service (ok (workers_group ∷ [])) cache).1
regenerate_from-IsWellFormed_example =
    regenerate_from-IsWellFormed service (ok (workers_group ∷ [])) cache cache-IsWellFormed

delete_instances-IsEmptied_example :
    delete_instances service (ref_a ∷ []) (regenerate service cache).1 ≡ (
      done (
          some (
            failure (
              text "can't delete instance "
              ++ (ref_a.name ++ text ", which is not part of an ASG")))),
      (regenerate service cache).1,
    )
delete_instances-IsEmptied_example =
    delete_instances-IsEmptied service service-Ranges ref_a [] cache cache-IsWellFormed
