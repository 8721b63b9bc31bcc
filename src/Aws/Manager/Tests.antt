-- ===== src/Aws/Manager/Tests.antt =====
-- A refresh after a deletion in the sample cache.
use capten_autoscaler.Base.{
  int64, ◌-ℤ◌, text_eq, has_prefix, lookup, none, [], ◌∷◌, ◌≡◌, refl, arith,
}
use capten_autoscaler.Cluster.Api.{done}
use capten_autoscaler.Aws.State.{modify}
use capten_autoscaler.Aws.Sample.{service, cache, ref_a}
use capten_autoscaler.Aws.Groups.{
  is_placeholder_instance, check_common, delete_each, delete_instances,
}
use capten_autoscaler.Aws.Manager.{force_refresh, refresh, manager_delete_instances}
use capten_autoscaler.Aws.Manager.Refreshing.{looked, manager_delete_instances-refresh}

returned : (manager_delete_instances service (ref_a ∷ []) cache).0 ≡ done none
unfolding manager_delete_instances delete_instances delete_each check_common is_placeholder_instance
    has_prefix lookup text_eq modify int64 ◌-ℤ◌
returned = refl

manager_delete_instances-refresh_example :
    refresh service (manager_delete_instances service (ref_a ∷ []) cache).1
    ≡ force_refresh service (looked (manager_delete_instances service (ref_a ∷ []) cache).1)
manager_delete_instances-refresh_example =
    manager_delete_instances-refresh service (ref_a ∷ []) cache returned (ground arith)
