-- ===== src/Aws/Util.antt =====
-- pkg/cloudprovider/aws/aws_util.go, and the clock of cache.go.
mod Tests
use capten_autoscaler.Base.{
  ℕ, ℤ, pos, ◌*◌, ◌+ℤ◌, int64, int64_exact, ◌+◌, ◌≤◌, ◌<◌, ◌^◌, ◌≡◌, arith, Text, text, text_Eq,
  Bool, true, false, Option, none, some, List, [], ◌∷◌, Dict, ◌==◌, if◌then◌else◌,
}
use capten_autoscaler.Cluster.Api.{Error, failure, Result, ok, err}
use capten_autoscaler.Aws.Manager.{InstanceType}

abbrev pub ec2_meta_data_service_url : Text
ec2_meta_data_service_url = text "http://169.254.169.254"

abbrev pub types_or_error : Dict Text InstanceType → Result (Dict Text InstanceType)
types_or_error [] = err (failure (text "unable to load EC2 Instance Type list"))
types_or_error (t ∷ types) = ok (t ∷ types)

-- `GenerateEC2InstanceTypes`, whose map stays empty.
abbrev pub generate_ec2_instance_types : Result (Dict Text InstanceType)
generate_ec2_instance_types = types_or_error []

-- `GetStaticEC2InstanceTypes`, with the generated table.
abbrev pub get_static_ec2_instance_types :
    Dict Text InstanceType → Text → Dict Text InstanceType × Text
get_static_ec2_instance_types instance_types last_update = (instance_types, last_update)

-- `interpretEc2SupportedArchitecure`
unfoldable pub interpret_ec2_supported_architecure : Text → Text
interpret_ec2_supported_architecure arch_name =
    if arch_name == text "arm64"
    then text "arm64"
    else if arch_name == text "i386"
    then text "amd64"
    else if arch_name == text "x86_64"
    then text "amd64"
    else if arch_name == text "x86_64_mac"
    then text "amd64"
    else text "amd64"

-- The environment, and of the SDK its session and its metadata service at an endpoint.
pub record Metadata : Type 1 where
  pub Session : Type 0
  pub lookup_env : Text → Option Text
  pub new_session : Result Session
  pub region : Session → (endpoint : Text) → Result Text

module _ (lib : Metadata) where
  abbrev pub region_by : Result lib.Session → Result Text
  region_by (err e) = err (failure (text "failed to create session"))
  region_by (ok session) = lib.region session ec2_meta_data_service_url

  abbrev pub region_or_ask : Option Text → Result Text
  region_or_ask (some region) = ok region
  region_or_ask none = region_by lib.new_session

  -- `GetCurrentAwsRegion`
  unfoldable pub get_current_aws_region : Result Text
  get_current_aws_region = region_or_ask (lib.lookup_env (text "AWS_REGION"))

abbrev pub cache_min_ttl : ℕ
cache_min_ttl = 120

abbrev pub cache_max_ttl : ℕ
cache_max_ttl = 600

-- `jitterClock.Since`: the time since an instant in nanoseconds, to which the jitter adds as many whole
-- seconds as `rand.IntnRange` draws from a range.
unfoldable pub jitter_since : (jitter : Bool) → (since : ℤ) → (intn_range : ℕ → ℕ → ℕ) → ℤ
jitter_since jitter since intn_range =
    if jitter
    then int64 (since +ℤ pos (1000000000 * intn_range cache_min_ttl cache_max_ttl))
    else since

-- With jitter an entry seems older by two to ten minutes, without it as old as it is.
jitter_since_bounds :
    (jitter : Bool) (age : ℕ) (intn_range : ℕ → ℕ → ℕ)
    → age < 2 ^ 62
    → (120 ≤ intn_range 120 600) × (intn_range 120 600 < 600)
    → (older : ℕ) × (jitter_since jitter (pos age) intn_range ≡ pos (age + older))
      × (older < 600000000000)
unfolding jitter_since int64 ◌+ℤ◌
jitter_since_bounds false age draw short range = (0, ground arith, omega arith)
jitter_since_bounds true age draw short range = (
  1000000000 * draw 120 600,
  ground (arith, int64_exact (pos (age + 1000000000 * draw 120 600))),
  omega arith,
)
