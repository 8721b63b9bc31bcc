-- ===== src/Aws/Refs/Tests.antt =====
-- The ids of an instance and of a placeholder.
use capten_autoscaler.Base.{◌≡◌, refl, inr, text, some, none}
use capten_autoscaler.Cluster.Api.{ok, done}
use capten_autoscaler.Aws.Types.{Instance}
use capten_autoscaler.Aws.Refs.{all_chars, ref_from_provider_id, build_instance_ref}
use capten_autoscaler.Aws.Refs.RoundTrip.{ref_from_provider_id-build_instance_ref}

abbrev placeholder_instance : Instance
placeholder_instance = record {
  availability_zone = some (text "us-east-1a");
  instance_id = some (text "i-placeholder-My_Group-0");
  health_status = none;
  lifecycle_state = none;
}

ref_from_provider_id-build_instance_ref_example :
    ref_from_provider_id (build_instance_ref placeholder_instance).provider_id
    ≡ done (ok (build_instance_ref placeholder_instance))
unfolding all_chars
ref_from_provider_id-build_instance_ref_example =
    ref_from_provider_id-build_instance_ref placeholder_instance refl
      (inr (text "-My_Group-0", refl, refl))
