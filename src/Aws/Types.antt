-- ===== src/Aws/Types.antt =====
-- The types of pkg/cloudprovider/aws/autoscaling_group.go and cloud_provider.go, and those of the AWS
-- SDK with the fields that the code reads. A pointer that may be nil is an option. An `AwsRef` is a
-- struct of one name: here it is the name.
use capten_autoscaler.Base.{
  ℤ, Text, text_eq, text_eq_iff, Bool, true, ◌&&◌, Option, List, ◌≡◌, ◌↔◌, Eq, text_Eq, arith,
}

-- `AwsInstanceRef`, a key of maps.
pub record InstanceRef : Type 0 where
  pub provider_id : Text
  pub name : Text

abbrev pub ref_eq : InstanceRef → InstanceRef → Bool
ref_eq a b = text_eq a.provider_id b.provider_id && text_eq a.name b.name

pub ref_eq_iff : (a b : InstanceRef) → (ref_eq a b ≡ true) ↔ (a ≡ b)
ref_eq_iff a b = ground (arith, text_eq_iff a.provider_id b.provider_id, text_eq_iff a.name b.name)

instance abbrev pub ref_Eq : Eq InstanceRef
ref_Eq = record { equals = ref_eq; equals_iff = ref_eq_iff }

pub record LaunchTemplate : Type 0 where
  pub name : Text
  pub version : Text

-- A value of the SDK that the code passes on without a look inside.
pub record InstanceRequirements : Type 0 where
  pub content : Text

-- `autoscaling.TagDescription`, passed on without a look inside.
pub record TagDescription : Type 0 where
  pub content : Text

pub record MixedInstancesPolicy : Type 0 where
  pub launch_template : Option LaunchTemplate
  pub instance_types_overrides : List Text
  pub instance_requirements_overrides : Option InstanceRequirements

-- Nanoseconds since Go's zero time, which is 0.
abbrev pub Instant : Type 0
Instant = ℤ

pub record Asg : Type 0 where
  pub name : Text
  pub min_size : ℤ
  pub max_size : ℤ
  pub cur_size : ℤ
  pub last_update_time : Instant
  pub availability_zones : List Text
  pub launch_configuration_name : Text
  pub launch_template : Option LaunchTemplate
  pub mixed_instances_policy : Option MixedInstancesPolicy
  pub tags : List TagDescription

-- `dynamic.NodeGroupSpec`
pub record NodeGroupSpec : Type 0 where
  pub name : Text
  pub min_size : ℤ
  pub max_size : ℤ
  pub support_scale_to_zero : Bool

-- `autoscaling.Instance`
pub record Instance : Type 0 where
  pub availability_zone : Option Text
  pub instance_id : Option Text
  pub health_status : Option Text
  pub lifecycle_state : Option Text

-- `autoscaling.LaunchTemplateOverrides`
pub record Override : Type 0 where
  pub instance_type : Option Text
  pub instance_requirements : Option InstanceRequirements

-- `autoscaling.MixedInstancesPolicy`: the overrides of its launch template, which may be nil.
pub record GroupPolicy : Type 0 where
  pub overrides : Option (List Override)

-- `autoscaling.Group`
pub record Group : Type 0 where
  pub auto_scaling_group_name : Option Text
  pub min_size : Option ℤ
  pub max_size : Option ℤ
  pub desired_capacity : Option ℤ
  pub instances : List Instance
  pub availability_zones : List (Option Text)
  pub launch_configuration_name : Option Text
  pub mixed_instances_policy : Option GroupPolicy
  pub tags : List TagDescription

-- `autoscaling.Activity`
pub record Activity : Type 0 where
  pub start_time : Option Instant
  pub status_code : Option Text
