-- ===== src/Aws/Answers.antt =====
-- What callers read of pkg/cloudprovider/aws: the getters of autoscaling_group.go and manager.go, the
-- fixed answers of cloud_provider.go, and the clean-up.
mod Tests
use capten_autoscaler.Base.{
  ℕ, suc, ℤ, pos, negsuc, Text, text, decimal, Bool, true, false, Option, none, some, List, [], ◌∷◌,
  ◌++◌, Dict, lookup, text_Eq, is_empty, not, ◌||◌, if◌then◌else◌,
}
use capten_autoscaler.Cluster.Api.{Error, Result, ok, Outcome, done, panicked}
use capten_autoscaler.Aws.Types.{InstanceRef, MixedInstancesPolicy}
use capten_autoscaler.Aws.State.{Service, Act, pure, gets, ◌>>=◌, load}
use capten_autoscaler.Aws.Groups.{
  find_for_instance, instances_by_asg, status_of_instance, set_asg_size,
}
use capten_autoscaler.Aws.Manager.{refresh}
use capten_autoscaler.Aws.NodeGroup.{NodeGroup, group_id, min_size, max_size}

-- `asgCache.Get`, `getAsgs`
abbrev pub get_registered : Act (Dict Text ℕ)
get_registered = gets (λ s. s.registered_asgs)

abbrev pub get_asgs : Act (Dict Text ℕ)
get_asgs = get_registered

-- `m[k]` of a map of maps: the nil map, which is empty, for a key that is not there.
abbrev pub map_or_nil : Option (Dict Text Text) → Dict Text Text
map_or_nil none = []
map_or_nil (some m) = m

-- `asgCache.GetAutoscalingOptions`, `getAutoscalingOptions`
abbrev pub options_of : Text → Act (Dict Text Text)
options_of name = gets (λ s. map_or_nil (lookup name s.autoscaling_options))

abbrev pub get_autoscaling_options : Text → Act (Dict Text Text)
get_autoscaling_options name = options_of name

-- The manager's `GetAsgForInstance`, `GetAsgNodes`, `GetInstanceStatus` and `SetAsgSize`
abbrev pub get_asg_for_instance : InstanceRef → Act (Option ℕ)
get_asg_for_instance instance = find_for_instance instance

abbrev pub get_asg_nodes : Text → Act (Result (List InstanceRef))
get_asg_nodes name = instances_by_asg name

abbrev pub get_instance_status : InstanceRef → Act (Result (Option Text))
get_instance_status ref = status_of_instance ref

abbrev pub manager_set_asg_size : Service → ℕ → ℤ → Act (Option Error)
manager_set_asg_size svc asg size = set_asg_size svc asg size

-- `updateCapacityWithRequirementsOverrides`, both ways through it.
abbrev pub no_overrides : MixedInstancesPolicy → Bool
no_overrides p = elim p.instance_types_overrides [ [] ↦ true | t ∷ ts ↦ false ]

unfoldable pub update_capacity :
    {Resources : Type 0} → Resources → Option MixedInstancesPolicy → Resources × Option Error
update_capacity capacity none = (capacity, none)
update_capacity capacity (some p) =
    if not (no_overrides p) then (capacity, none) else (capacity, none)

-- `close(m.interrupt)`, by whether the channel is closed: to close it twice panics.
abbrev pub close_interrupt : Bool → Outcome Bool
close_interrupt true = panicked
close_interrupt false = done true

-- `asgCache.Cleanup`, the manager's and the provider's, which returns nil.
abbrev pub cleanup_cache : Bool → Outcome Bool
cleanup_cache closed = close_interrupt closed

abbrev pub cleanup_manager : Bool → Outcome Bool
cleanup_manager closed = cleanup_cache closed

unfoldable pub cleanup : Bool → Outcome (Option Error) × Bool
cleanup closed = elim (cleanup_manager closed) [
  | done now ↦ (done none, now)
  | _ ↦ (panicked, closed)
]

-- `GPULabel`
abbrev pub gpu_label : Text
gpu_label = text "k8s.amazonaws.com/accelerator"

-- `GetAvailableGPUTypes`, a set as a list.
abbrev pub available_gpu_types : List Text
available_gpu_types =
    text "nvidia-tesla-k80"
    ∷ text "nvidia-tesla-p100"
    ∷ text "nvidia-tesla-v100"
    ∷ text "nvidia-tesla-t4"
    ∷ text "nvidia-tesla-a100"
    ∷ text "nvidia-a10g"
    ∷ []

-- `GetAvailableMachineTypes`
abbrev pub available_machine_types : Result (List Text)
available_machine_types = ok []

-- The provider's `Refresh`
abbrev pub refresh_provider : Service → Act (Option Error)
refresh_provider svc = refresh svc

module _ (svc : Service) (ng : NodeGroup) where
  -- `Exist`
  abbrev pub exist : Bool
  exist = true

  -- `Autoprovisioned`
  abbrev pub autoprovisioned : Bool
  autoprovisioned = false

  -- `Delete`
  abbrev pub delete_group : Act (Option Error)
  delete_group = pure none

  -- `%d`
  abbrev pub signed_decimal : ℤ → Text
  signed_decimal (pos n) = decimal n
  signed_decimal (negsuc n) = b'-' ∷ decimal (suc n)

  abbrev pub debug_text : Text → ℤ → ℤ → Text
  debug_text id least greatest =
      id
      ++ (text " ("
          ++ (signed_decimal least ++ (text ":" ++ (signed_decimal greatest ++ text ")"))))

  -- `Debug`
  unfoldable pub debug : Act Text
  debug = do
    id ← group_id svc ng
    least ← min_size svc ng
    greatest ← max_size svc ng
    pure (debug_text id least greatest)
