-- ===== src/Aws/Groups/Tests.antt =====
-- The cache of the sample service at work.
use capten_autoscaler.Base.{
  ℕ, pos, ◌-ℤ◌, int64, lookup, text_eq, text_Eq, has_prefix, length, none, some, [], ◌∷◌, ◌≡◌, refl,
  All, arith, ap,
}
use capten_autoscaler.Cluster.Api.{done}
use capten_autoscaler.Aws.Types.{ref_Eq, Asg}
use capten_autoscaler.Aws.State.Rules.{Extends}
use capten_autoscaler.Aws.Sample.{service, cache, workers, ref_a, ref_b}
use capten_autoscaler.Aws.Groups.{
  register, delete_instances, delete_each, check_common, is_placeholder_instance,
}
use capten_autoscaler.Aws.Groups.Deletions.{IsAllowed, NamesGroup, delete_instances-IsAllowed}
use capten_autoscaler.Aws.Groups.Accounting.{Shrunk, delete_instances-Shrunk}
use capten_autoscaler.Aws.Groups.Register.{
  register_plainly, register-register_plainly, register-explicit,
}
use capten_autoscaler.Aws.State.{modify}

two_terminated : length (delete_instances service (ref_a ∷ ref_b ∷ []) cache).1.log ≡ 2
unfolding delete_instances delete_each check_common is_placeholder_instance lookup text_eq
    has_prefix modify int64 ◌-ℤ◌
two_terminated = refl

delete_instances-IsAllowed_example :
    (p : ℕ) × All (λ i. lookup i cache.instance_to_asg ≡ some p) (ref_a ∷ ref_b ∷ [])
    × Extends
        (IsAllowed cache.instance_to_asg cache.instance_lifecycle p
          (NamesGroup cache p)
          (ref_a ∷ ref_b ∷ []))
        cache.log
        (delete_instances service (ref_a ∷ ref_b ∷ []) cache).1.log
delete_instances-IsAllowed_example =
    delete_instances-IsAllowed service (ref_a ∷ ref_b ∷ []) cache
      (λ same. omega (arith, two_terminated, ap length same))

register-register_plainly_example : register workers cache ≡ register_plainly workers cache
register-register_plainly_example = register-register_plainly workers cache

-- The service gives the group other sizes.
abbrev resized : Asg
resized = record workers { min_size = pos 0; max_size = pos 100; cur_size = pos 4 }

register-explicit_example :
    (a : Asg) × ((register resized cache).1.cell 0 ≡ some a)
    × (a.min_size ≡ pos 1)
    × (a.max_size ≡ pos 5)
    × (a.cur_size ≡ pos 4)
unfolding lookup text_eq
register-explicit_example = register-explicit resized workers 0 cache refl refl refl

returned : (delete_instances service (ref_a ∷ ref_b ∷ []) cache).0 ≡ done none
unfolding delete_instances delete_each check_common is_placeholder_instance lookup text_eq
    has_prefix modify int64 ◌-ℤ◌
returned = refl

delete_instances-Shrunk_example :
    Shrunk 2 0 workers cache (delete_instances service (ref_a ∷ ref_b ∷ []) cache).1
unfolding lookup text_eq is_placeholder_instance has_prefix
delete_instances-Shrunk_example =
    delete_instances-Shrunk service 0 ref_a (ref_b ∷ []) workers cache refl refl (refl, (refl, tt))
      (ground arith) (ground arith) returned
