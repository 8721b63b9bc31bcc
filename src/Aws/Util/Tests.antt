-- ===== src/Aws/Util/Tests.antt =====
-- Regions and architectures.
use capten_autoscaler.Base.{text, text_eq, none, ◌≡◌, refl}
use capten_autoscaler.Cluster.Api.{failure, ok, err}
use capten_autoscaler.Aws.Util.{
  Metadata, get_current_aws_region, interpret_ec2_supported_architecure,
}

abbrev outside : Metadata
outside = record {
  Session = Unit {0};
  lookup_env = λ name. none;
  new_session = err (failure (text "no credentials"));
  region = λ s endpoint. ok endpoint;
}

no_region : get_current_aws_region outside ≡ err (failure (text "failed to create session"))
unfolding get_current_aws_region
no_region = refl

arm : interpret_ec2_supported_architecure (text "arm64") ≡ text "arm64"
unfolding interpret_ec2_supported_architecure text_eq
arm = refl

mac : interpret_ec2_supported_architecure (text "x86_64_mac") ≡ text "amd64"
unfolding interpret_ec2_supported_architecure text_eq
mac = refl
