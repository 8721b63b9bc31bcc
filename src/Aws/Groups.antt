-- ===== src/Aws/Groups.antt =====
-- pkg/cloudprovider/aws/autoscaling_group.go: the operations of the cache on its groups. Log lines are
-- left out. The pointers to instances that `DeleteInstances` is given are not nil.
pub mod Stable
pub mod WellFormed
pub mod Rounds
pub mod Deletions
pub mod Register
pub mod Accounting
pub mod Kept
mod Tests
use capten_autoscaler.Base.{
  ℕ, nat_eq, ℤ, pos, ◌-ℤ◌, int64, Text, text, has_prefix, join, Bool, true, false, ◌||◌, Option,
  none, some, List, [], ◌∷◌, ◌++◌, map, Dict, lookup, insert, erase, is_some, ◌==◌, text_Eq,
  if◌then◌else◌,
}
use capten_autoscaler.Cluster.Api.{
  Error, failure, message, Result, ok, err, Outcome, done, panicked,
}
use capten_autoscaler.Aws.Types.{InstanceRef, ref_Eq, NodeGroupSpec, Asg}
use capten_autoscaler.Aws.DeepEqual.{deep_equal}
use capten_autoscaler.Aws.State.{
  set_desired_capacity, terminate_instance, Service, Act, pure, panic, gets, send, ◌>>=◌, ◌>>◌,
  lift, load, modify, allocate,
}

abbrev pub placeholder_instance_name_prefix : Text
placeholder_instance_name_prefix = text "i-placeholder"

-- `m[key]` of a map of Booleans: false for a missing key.
abbrev pub holds : Option Bool → Bool
holds none = false
holds (some b) = b

-- What `register` writes to an existing group.
unfoldable pub update_group : (explicit : Bool) (asg : Asg) → Asg → Asg
update_group explicit asg existing = record existing {
  min_size = if explicit then existing.min_size else asg.min_size;
  max_size = if explicit then existing.max_size else asg.max_size;
  cur_size = asg.cur_size;
  availability_zones = asg.availability_zones;
  launch_configuration_name = asg.launch_configuration_name;
  launch_template = asg.launch_template;
  mixed_instances_policy = asg.mixed_instances_policy;
  tags = asg.tags;
}

abbrev pub set_registered : Text → ℕ → Act (Unit {0})
set_registered name p s = (done tt, record s { registered_asgs = insert name p s.registered_asgs })

abbrev pub is_explicit : Text → Act Bool
is_explicit name = gets (λ s. holds (lookup name s.explicitly_configured))

abbrev pub update_existing : Asg → ℕ → Act ℕ
update_existing asg p = do
  explicit ← is_explicit asg.name
  modify p (update_group explicit asg)
  pure p

abbrev pub register_at : Asg → Option ℕ → Act ℕ
register_at asg none = allocate asg >>= λ p. set_registered asg.name p >> pure p
register_at asg (some p) =
    load p >>= λ existing. if deep_equal existing asg then pure p else update_existing asg p

-- `register`: the pointer to the registered group.
unfoldable pub register : Asg → Act ℕ
register asg = gets (λ s. lookup asg.name s.registered_asgs) >>= register_at asg

abbrev pub unregister_name : Text → Act (Unit {0})
unregister_name name s = (
  done tt,
  if is_some (lookup name s.registered_asgs)
      then record s { registered_asgs = erase name s.registered_asgs }
      else s,
)

-- `unregister`, for its effect.
unfoldable pub unregister : ℕ → Act (Unit {0})
unregister p = load p >>= λ a. unregister_name a.name

abbrev pub build_asg : NodeGroupSpec → Asg
build_asg spec = record {
  name = spec.name;
  min_size = spec.min_size;
  max_size = spec.max_size;
  cur_size = pos 0;
  last_update_time = pos 0;
  availability_zones = [];
  launch_configuration_name = [];
  launch_template = none;
  mixed_instances_policy = none;
  tags = [];
}

abbrev pub set_explicit : Text → Act (Unit {0})
set_explicit name s =
    (done tt, record s { explicitly_configured = insert name true s.explicitly_configured })

-- `findForInstance`, `FindForInstance`: a nil pointer where the instance is not known.
abbrev pub find_for_instance : InstanceRef → Act (Option ℕ)
find_for_instance instance = gets (λ s. lookup instance s.instance_to_asg)

abbrev pub instances_or_error : Text → Option (List InstanceRef) → Result (List InstanceRef)
instances_or_error name none =
    err (failure (text "error while looking for instances of ASG: {" ++ (name ++ text "}")))
instances_or_error name (some refs) = ok refs

-- `InstancesByAsg`
abbrev pub instances_by_asg : Text → Act (Result (List InstanceRef))
instances_by_asg name = gets (λ s. instances_or_error name (lookup name s.asg_to_instances))

abbrev pub known_or_error : InstanceRef → Option (Option Text) → Result (Option Text)
known_or_error ref none = err (
    failure
      (text "could not find instance {" ++ (ref.provider_id ++ (b' ' ∷ (ref.name ++ text "}")))))
known_or_error ref (some status) = ok status

-- `InstanceStatus`
abbrev pub status_of_instance : InstanceRef → Act (Result (Option Text))
status_of_instance ref = gets (λ s. known_or_error ref (lookup ref s.instance_status))

-- `findInstanceLifecycle`
abbrev pub find_instance_lifecycle : InstanceRef → Act (Result (Option Text))
find_instance_lifecycle ref = gets (λ s. known_or_error ref (lookup ref s.instance_lifecycle))

unfoldable pub is_placeholder_instance : InstanceRef → Bool
is_placeholder_instance instance = has_prefix instance.name placeholder_instance_name_prefix

-- `l == nil` is no guard of the later comparisons: `&&` binds tighter than `||`.
abbrev pub is_terminating : Option Text → Outcome Bool
is_terminating none = panicked
is_terminating (some l) = done (
    l == text "Terminated"
    || (l == text "Terminating"
        || (l == text "Terminating:Wait" || l == text "Terminating:Proceed")))

-- The loop that looks for an instance of another group: none, or the pointer that differs.
pub data Common : Type 0 where
  same : Common
  differs : Option ℕ → Common

abbrev pub compare_to : ℕ → Option ℕ → Common → Common
compare_to p none rest = differs none
compare_to p (some q) rest = if nat_eq p q then rest else differs (some q)

unfoldable pub check_common : Dict InstanceRef ℕ → ℕ → List InstanceRef → Common
check_common groups p [] = same
check_common groups p (i ∷ instances) =
    compare_to p (lookup i groups) (check_common groups p instances)

module _ (svc : Service) where
  abbrev pub after_parse : Result NodeGroupSpec → Act (Option Error) → Act (Option Error)
  after_parse (err e) rest = pure (
      some (
        failure
          (text "failed to parse node group spec: failed to parse node group spec: " ++ message e)))
  after_parse (ok spec) rest = set_explicit spec.name >> (register (build_asg spec) >>= λ p. rest)

  -- `parseExplicitAsgs`, `buildAsgFromSpec`
  unfoldable pub parse_explicit_asgs : List Text → Act (Option Error)
  parse_explicit_asgs [] = pure none
  parse_explicit_asgs (spec ∷ specs) =
      after_parse (svc.spec_from_string spec) (parse_explicit_asgs specs)

  abbrev pub after_set : ℕ → ℤ → Option Error → Act (Option Error)
  after_set p size (some e) = pure (some e)
  after_set p size none = modify p (λ a. record a { cur_size = size }) >> pure none

  -- `setAsgSizeNoLock`, `SetAsgSize`
  unfoldable pub set_asg_size : ℕ → ℤ → Act (Option Error)
  set_asg_size p size = do
    a ← load p
    e ← send (set_desired_capacity a.name size) (λ log. svc.on_set_desired_capacity log a.name size)
    after_set p size e

  unfoldable pub decrease_asg_size_by_one : ℕ → Act (Option Error)
  decrease_asg_size_by_one p = load p >>= λ a. set_asg_size p (int64 (a.cur_size -ℤ pos 1))

  abbrev pub shrink_by_one : Asg → Asg
  shrink_by_one a = record a { cur_size = int64 (a.cur_size -ℤ pos 1) }

  abbrev pub after_terminate : ℕ → Result (Option Text) → Act (Option Error) → Act (Option Error)
  after_terminate p (err e) rest = pure (some e)
  after_terminate p (ok none) rest = panic
  after_terminate p (ok (some description)) rest = modify p shrink_by_one >> rest

  abbrev pub terminate : ℕ → InstanceRef → Act (Option Error) → Act (Option Error)
  terminate p i rest =
      send (terminate_instance i.name) (λ log. svc.on_terminate_instance log i.name) >>= λ answer.
      after_terminate p answer rest

  abbrev pub after_lifecycle :
      ℕ → InstanceRef → Result (Option Text) → Act (Option Error) → Act (Option Error)
  after_lifecycle p i (err e) rest = pure (some e)
  after_lifecycle p i (ok lifecycle) rest =
      lift (is_terminating lifecycle) >>= λ going. if going then rest else terminate p i rest

  -- One round of the loop that deletes, before the rounds behind it. The error of a placeholder's
  -- round is dropped.
  abbrev pub delete_one : ℕ → InstanceRef → Act (Option Error) → Act (Option Error)
  delete_one p i rest =
      if is_placeholder_instance i
      then decrease_asg_size_by_one p >> rest
      else find_instance_lifecycle i >>= λ lifecycle. after_lifecycle p i lifecycle rest

  unfoldable pub delete_each : ℕ → List InstanceRef → Act (Option Error)
  unfolding decrease_asg_size_by_one set_asg_size
  delete_each p [] = pure none
  delete_each p (i ∷ instances) = delete_one p i (delete_each p instances)

  -- The message names both groups: a nil pointer to the second one panics.
  abbrev pub refuse : ℕ → Option ℕ → List InstanceRef → Act (Option Error)
  refuse p none instances = load p >>= λ a. panic
  refuse p (some q) instances = do
    a ← load p
    b ← load q
    pure (
        some (
          failure (
            text "can't delete instances "
            ++ (join (map (λ i. i.name) instances) (text ",")
                ++ (text " as they belong to at least two different ASGs ("
                    ++ (a.name ++ (text " and " ++ (b.name ++ text ")"))))))))

  abbrev pub delete_common : ℕ → List InstanceRef → Common → Act (Option Error)
  delete_common p instances same = delete_each p instances
  delete_common p instances (differs q) = refuse p q instances

  abbrev pub delete_from : InstanceRef → List InstanceRef → Option ℕ → Act (Option Error)
  delete_from first instances none = pure (
      some (
        failure
          (text "can't delete instance " ++ (first.name ++ text ", which is not part of an ASG"))))
  delete_from first instances (some p) =
      gets (λ s. check_common s.instance_to_asg p instances) >>= delete_common p instances

  -- `DeleteInstances` of the cache
  unfoldable pub delete_instances : List InstanceRef → Act (Option Error)
  unfolding delete_each check_common
  delete_instances [] = pure none
  delete_instances (i ∷ instances) = find_for_instance i >>= delete_from i (i ∷ instances)
