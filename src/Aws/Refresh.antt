-- ===== src/Aws/Refresh.antt =====
-- `regenerate` of pkg/cloudprovider/aws/autoscaling_group.go, with what it calls: `buildAsgFromAWS`,
-- the cache of instance types (cache.go) and the wrapper of the service (wrapper.go).
-- `regenerate_from` is the function behind the answer to its query, which is fixed in the wrapper.
pub mod Built
pub mod Settled
pub mod Kept
pub mod Emptied
mod Tests
use capten_autoscaler.Base.{
  ℕ, nat_eq, ℤ, pos, Text, text, Bool, true, false, not, ◌&&◌, Option, none, some, List, [], ◌∷◌,
  ◌++◌, map, select, length, Dict, lookup, insert, is_some, ◌==◌, text_Eq, if◌then◌else◌,
}
use capten_autoscaler.Cluster.Api.{
  Error, failure, message, Result, ok, err, Outcome, done, panicked,
}
use capten_autoscaler.Aws.Types.{
  InstanceRef, ref_Eq, InstanceRequirements, MixedInstancesPolicy, Asg, NodeGroupSpec, Instance,
  Override, GroupPolicy, Group,
}
use capten_autoscaler.Aws.State.{Service, State, Act, pure, gets, ◌>>=◌, ◌>>◌, lift, load}
use capten_autoscaler.Aws.Refs.{string_value, build_instance_ref}
use capten_autoscaler.Aws.Groups.{holds, register, unregister}
use capten_autoscaler.Aws.Placeholders.{create_placeholders}

-- `aws.Int64Value`
abbrev pub int64_value : Option ℤ → ℤ
int64_value none = pos 0
int64_value (some n) = n

-- The wrapper's queries, which are not implemented.
unfoldable pub get_autoscaling_groups_by_names : List Text → Result (List Group)
get_autoscaling_groups_by_names names = ok []

unfoldable pub get_instance_types_for_asgs : List Text → Result (Dict Text Text)
get_instance_types_for_asgs names = ok []

abbrev pub add_type : Override → List Text → List Text
add_type o types = elim o.instance_type [ none ↦ types | some t ↦ t ∷ types ]

-- `getInstanceTypes`
unfoldable pub instance_types_of : List Override → List Text
instance_types_of [] = []
instance_types_of (o ∷ overrides) = add_type o (instance_types_of overrides)

-- `getInstanceTypeRequirements`
abbrev pub requirements_of : List Override → Option InstanceRequirements
requirements_of (o ∷ []) = o.instance_requirements
requirements_of _ = none

abbrev pub policy_of : List Override → MixedInstancesPolicy
policy_of overrides = record {
  launch_template = none;
  instance_types_overrides = instance_types_of overrides;
  instance_requirements_overrides = requirements_of overrides;
}

abbrev pub is_nil : {A : Type 0} → List A → Bool
is_nil [] = true
is_nil (x ∷ xs) = false

abbrev pub with_policy : Asg → Option GroupPolicy → Outcome (Result Asg)
with_policy asg none = done (ok asg)
with_policy asg (some policy) = elim policy.overrides [
  | none ↦ panicked
  | some overrides ↦ done (
      if not (is_nil (instance_types_of overrides)) && is_some (requirements_of overrides)
      then err (
          failure (
            text
              "invalid setup of both instance type and instance requirements overrides configured"))
      else ok (record asg { mixed_instances_policy = some (policy_of overrides) }))
]

abbrev pub spec_of : Group → NodeGroupSpec
spec_of g = record {
  name = string_value g.auto_scaling_group_name;
  min_size = int64_value g.min_size;
  max_size = int64_value g.max_size;
  support_scale_to_zero = true;
}

abbrev pub asg_of : Group → Asg
asg_of g = record {
  name = string_value g.auto_scaling_group_name;
  min_size = int64_value g.min_size;
  max_size = int64_value g.max_size;
  cur_size = int64_value g.desired_capacity;
  last_update_time = pos 0;
  availability_zones = map string_value g.availability_zones;
  launch_configuration_name = string_value g.launch_configuration_name;
  launch_template = none;
  mixed_instances_policy = none;
  tags = g.tags;
}

-- The maps that a regeneration builds, and the names that it met.
pub record Fresh : Type 0 where
  pub instance_to_asg : Dict InstanceRef ℕ
  pub asg_to_instances : Dict Text (List InstanceRef)
  pub instance_status : Dict InstanceRef (Option Text)
  pub instance_lifecycle : Dict InstanceRef (Option Text)
  pub exists : Dict Text Bool

abbrev pub nothing_known : Fresh
nothing_known = record {
  instance_to_asg = [];
  asg_to_instances = [];
  instance_status = [];
  instance_lifecycle = [];
  exists = [];
}

abbrev pub add_instance : ℕ → Instance → Fresh → Fresh
add_instance p i f = record f {
  instance_to_asg = insert (build_instance_ref i) p f.instance_to_asg;
  instance_status = insert (build_instance_ref i) i.health_status f.instance_status;
  instance_lifecycle = insert (build_instance_ref i) i.lifecycle_state f.instance_lifecycle;
}

unfoldable pub add_instances : ℕ → List Instance → Fresh → Fresh
add_instances p [] f = f
add_instances p (i ∷ instances) f = add_instances p instances (add_instance p i f)

abbrev pub add_group : ℕ → Asg → List Instance → Fresh → Fresh
add_group p asg instances f = add_instances p instances (record f {
  exists = insert asg.name true f.exists;
  asg_to_instances = insert asg.name (map build_instance_ref instances) f.asg_to_instances;
})

module _ (svc : Service) where
  abbrev pub after_validation : Group → Option Error → Outcome (Result Asg)
  after_validation g (some e) =
      done (err (failure (text "failed to create node group spec: " ++ message e)))
  after_validation g none = with_policy (asg_of g) g.mixed_instances_policy

  -- `buildAsgFromAWS`
  unfoldable pub build_asg_from_aws : Group → Outcome (Result Asg)
  unfolding instance_types_of
  build_asg_from_aws g = after_validation g (svc.validate (spec_of g))

  abbrev pub after_build :
      List Instance → Fresh → Result Asg → (Fresh → Act (Result Fresh)) → Act (Result Fresh)
  after_build instances f (err e) rest = pure (err e)
  after_build instances f (ok asg) rest = register asg >>= λ p. rest (add_group p asg instances f)

  -- The loop that registers groups.
  unfoldable pub register_groups : List Group → Fresh → Act (Result Fresh)
  unfolding add_instances
  register_groups [] f = pure (ok f)
  register_groups (g ∷ groups) f = lift (build_asg_from_aws g) >>= λ built.
      after_build g.instances f built (λ fresh. register_groups groups fresh)

  abbrev pub unregister_if_gone : Dict Text Bool → ℕ → Asg → State → Act (Unit {0})
  unregister_if_gone exists p a s =
      if not (holds (lookup a.name exists)) && not (holds (lookup a.name s.explicitly_configured))
      then unregister p
      else pure tt

  -- The loop over `m.registeredAsgs`, which it also deletes from.
  unfoldable pub unregister_gone : Dict Text Bool → Dict Text ℕ → Act (Unit {0})
  unregister_gone exists [] = pure tt
  unregister_gone exists ((k, p) ∷ entries) = do
    a ← load p
    s ← gets (λ s. s)
    unregister_if_gone exists p a s
    unregister_gone exists entries

  -- `getInstanceTypeForAsg` and `populate` read the store of instance types by `GetByKey`.
  abbrev pub get_by_key : Text → State → Option Text
  get_by_key name s = if svc.expired s.log name then none else lookup name s.asg_instance_type_cache

  -- The names of the groups whose instance type is not in the store.
  unfoldable pub names_to_query : Dict Text ℕ → Act (List Text)
  names_to_query [] = pure []
  names_to_query ((k, p) ∷ entries) = do
    a ← load p
    found ← gets (get_by_key a.name)
    names ← names_to_query entries
    pure (if is_some found then names else a.name ∷ names)

  -- `es.List()` drops what has expired.
  abbrev pub drop_expired : State → State
  drop_expired s = record s {
    asg_instance_type_cache = select (λ e. not (svc.expired s.log e.0)) s.asg_instance_type_cache;
  }

  unfoldable pub add_types : Dict Text Text → Dict Text Text → Dict Text Text
  add_types [] types = types
  add_types ((name, t) ∷ found) types = add_types found (insert name t types)

  abbrev pub store_types : Result (Dict Text Text) → Act (Option Error)
  store_types (err e) s = (done (some e), s)
  store_types (ok found) s =
      (done none, record s { asg_instance_type_cache = add_types found s.asg_instance_type_cache })

  -- `populate`
  unfoldable pub populate : Act (Option Error)
  unfolding names_to_query get_instance_types_for_asgs add_types
  populate = do
    groups ← gets (λ s. s.registered_asgs)
    names ← names_to_query (svc.range_groups groups)
    λ s. store_types (get_instance_types_for_asgs names) (drop_expired s)

  abbrev pub set_maps : Fresh → Act (Option Error)
  set_maps f s = (
    done none,
    record s {
      asg_to_instances = f.asg_to_instances;
      instance_to_asg = f.instance_to_asg;
      instance_status = f.instance_status;
      instance_lifecycle = f.instance_lifecycle;
    },
  )

  -- An error of `populate` is only logged.
  abbrev pub settle_maps : Result Fresh → Act (Option Error)
  settle_maps (err e) = pure (some e)
  settle_maps (ok f) = do
    groups ← gets (λ s. s.registered_asgs)
    unregister_gone f.exists (svc.range_groups groups)
    populate
    set_maps f

  unfoldable pub regenerate_from : Result (List Group) → Act (Option Error)
  unfolding register_groups unregister_gone populate
  regenerate_from (err e) = pure (some e)
  regenerate_from (ok groups) = do
    filled ← create_placeholders svc groups
    fresh ← register_groups filled nothing_known
    settle_maps fresh

  -- `buildAsgNames`
  abbrev pub build_asg_names : State → List Text
  build_asg_names s = svc.range_names (map (λ e. e.0) s.explicitly_configured)

  -- `regenerate`
  unfoldable pub regenerate : Act (Option Error)
  unfolding get_autoscaling_groups_by_names
  regenerate =
      gets build_asg_names >>= λ names. regenerate_from (get_autoscaling_groups_by_names names)

  abbrev pub type_or_error : Text → Result (Dict Text Text) → Result Text
  type_or_error name (err e) =
      err (Error.wrap (text "could not get instance type for " ++ (name ++ text ": ")) e)
  type_or_error name (ok found) = elim (lookup name found) [
    | none ↦ err (failure (text "could not find instance type for " ++ name))
    | some t ↦ ok t
  ]

  abbrev pub type_of_entry : Asg → Option Text → Result Text
  type_of_entry asg (some t) = ok t
  type_of_entry asg none = type_or_error asg.name (get_instance_types_for_asgs (asg.name ∷ []))

  -- `getInstanceTypeForAsg`
  unfoldable pub get_instance_type_for_asg : Asg → Act (Result Text)
  unfolding get_instance_types_for_asgs
  get_instance_type_for_asg asg = gets (λ s. type_of_entry asg (get_by_key asg.name s))
