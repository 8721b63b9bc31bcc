-- ===== src/Drain/Filter.antt =====
-- pkg/util/kubernetes/drain/filter.go, and `filterPods` of drain.go: which pods of a node a drain
-- deletes, which it skips, and which make it fail. Of `Helper` (drain.go) the model has the settings;
-- `Client` and the clock are the `Env`, the writers and the progress callbacks only print.
pub mod Policy
pub mod Report
pub mod Calls
pub mod Ends
mod Tests
use capten_autoscaler.Base.{
  ℤ, pos, negsuc, ◌-ℤ◌, ltb_ℤ, min_ℤ, max_ℤ, Text, text, is_empty, join, Bool, true, false, not,
  ◌&&◌, Option, none, some, List, [], ◌∷◌, ◌++◌, map, select, any, Dict, lookup, insert, contains,
  ◌==◌, text_Eq, int_Eq, if◌then◌else◌,
}
use capten_autoscaler.Cluster.Objects.{Time, Pod, OwnerRef, is_finished}
use capten_autoscaler.Cluster.Api.{
  Error, failure, message, is_not_found, get_daemon_set, Env, Action, pure, ask, ◌>>=◌,
}

pub record PodDeleteStatus : Type 0 where
  pub delete : Bool
  pub reason : Text
  pub message : Text

pub record PodDelete : Type 0 where
  pub pod : Pod
  pub status : PodDeleteStatus

abbrev pub PodFilter : Type 0
PodFilter = Pod → Action PodDeleteStatus

pub record Helper : Type 0 where
  pub has_ctx : Bool  -- `Ctx != nil`
  pub has_client : Bool  -- `Client != nil`
  pub force : Bool
  pub grace_period_seconds : ℤ
  pub ignore_all_daemon_sets : Bool
  pub timeout : ℤ  -- nanoseconds
  pub delete_empty_dir_data : Bool
  pub pod_selector : Text
  pub disable_eviction : Bool
  pub skip_wait_for_delete_timeout_seconds : ℤ
  pub additional_filters : List PodFilter

abbrev pub type_okay : Text
type_okay = text "Okay"

abbrev pub type_skip : Text
type_skip = text "Skip"

abbrev pub type_warning : Text
type_warning = text "Warning"

abbrev pub type_error : Text
type_error = text "Error"

abbrev pub daemon_set_fatal : Text
daemon_set_fatal = text "DaemonSet-managed Pods (use --ignore-daemonsets to ignore)"

abbrev pub daemon_set_warning : Text
daemon_set_warning = text "ignoring DaemonSet-managed Pods"

abbrev pub local_storage_fatal : Text
local_storage_fatal = text "Pods with local storage (use --delete-emptydir-data to override)"

abbrev pub local_storage_warning : Text
local_storage_warning = text "deleting Pods with local storage"

abbrev pub unmanaged_fatal : Text
unmanaged_fatal = text "Pods declare no controller (use --force to override)"

abbrev pub unmanaged_warning : Text
unmanaged_warning = text "deleting Pods that declare no controller"

abbrev pub okay : PodDeleteStatus
okay = record { delete = true; reason = type_okay; message = [] }

abbrev pub skip : PodDeleteStatus
skip = record { delete = false; reason = type_skip; message = [] }

abbrev pub with_warning : Bool → Text → PodDeleteStatus
with_warning delete message = record { delete = delete; reason = type_warning; message = message }

abbrev pub with_error : Text → PodDeleteStatus
with_error message = record { delete = false; reason = type_error; message = message }

unfoldable pub has_local_storage : Pod → Bool
has_local_storage pod = any (λ v. v.empty_dir) pod.volumes

-- `!timestamp.IsZero()`
abbrev pub is_set : Option Time → Bool
is_set none = false
is_set (some t) = not (t == pos 0)

-- `int(now.Sub(t).Seconds())`: a `Duration` saturates at 2^63 - 1 nanoseconds.
unfoldable pub seconds_since : Time → Time → ℤ
seconds_since now t = max_ℤ (negsuc 9223372035) (min_ℤ (pos 9223372036) (now -ℤ t))

abbrev older_than : ℤ → Time → Option Time → Bool
older_than limit now none = false
older_than limit now (some t) = ltb_ℤ limit (seconds_since now t)

unfoldable pub should_skip_pod : Pod → ℤ → Time → Bool
unfolding seconds_since
should_skip_pod pod limit now =
    ltb_ℤ (pos 0) limit
    && (is_set pod.deletion_timestamp && older_than limit now pod.deletion_timestamp)

abbrev pub daemon_set : Text
daemon_set = text "DaemonSet"

-- What the answer to the `Get` of the pod's DaemonSet makes of the pod.
unfoldable pub daemon_set_status : Helper → Option Error → PodDeleteStatus
daemon_set_status d (some e) =
    if is_not_found e && d.force then with_warning true (message e) else with_error (message e)
daemon_set_status d none =
    if not d.ignore_all_daemon_sets
    then with_error daemon_set_fatal
    else with_warning false daemon_set_warning

abbrev pub mirror_annotation : Text
mirror_annotation = text "kubernetes.io/config.mirror"

module _ (env : Env) (d : Helper) where
  unfoldable pub skip_deleted_filter : PodFilter
  skip_deleted_filter pod h =
      pure
        (if should_skip_pod pod d.skip_wait_for_delete_timeout_seconds (env.now h)
          then skip
          else okay)
        h

  unfoldable pub daemon_set_of : Option OwnerRef → PodFilter
  unfolding daemon_set_status
  daemon_set_of none pod = pure okay
  daemon_set_of (some ref) pod =
      if not (ref.kind == daemon_set) then pure okay else if is_finished pod then pure okay else (do
        answer ←
            ask (get_daemon_set pod.namespace ref.name)
              (λ h. env.on_get_daemon_set h pod.namespace ref.name)
        pure (daemon_set_status d answer))

  unfoldable pub daemon_set_filter : PodFilter
  unfolding daemon_set_of
  daemon_set_filter pod = daemon_set_of pod.controller pod

  unfoldable pub mirror_pod_filter : PodFilter
  mirror_pod_filter pod = pure (if contains mirror_annotation pod.annotations then skip else okay)

  unfoldable pub local_storage_filter : PodFilter
  local_storage_filter pod = pure (
      if not (has_local_storage pod)
      then okay
      else if is_finished pod
      then okay
      else if not d.delete_empty_dir_data
      then with_error local_storage_fatal
      else with_warning true local_storage_warning)

  abbrev unreplicated_status : Option OwnerRef → PodDeleteStatus
  unreplicated_status (some ref) = okay
  unreplicated_status none =
      if d.force then with_warning true unmanaged_warning else with_error unmanaged_fatal

  unfoldable pub unreplicated_filter : PodFilter
  unreplicated_filter pod =
      pure (if is_finished pod then okay else unreplicated_status pod.controller)

  unfoldable pub base_filters : List PodFilter
  unfolding skip_deleted_filter daemon_set_filter mirror_pod_filter local_storage_filter
      unreplicated_filter
  base_filters =
      skip_deleted_filter ∷ daemon_set_filter ∷ mirror_pod_filter ∷ local_storage_filter
      ∷ unreplicated_filter ∷ []

  unfoldable pub make_filters : List PodFilter
  unfolding base_filters
  make_filters = base_filters ++ d.additional_filters

abbrev no_status : PodDeleteStatus
no_status = record { delete = false; reason = []; message = [] }

-- The inner loop of `filterPods`: it stops at the first filter that says not to delete.
unfoldable pub run_filters : List PodFilter → PodDeleteStatus → PodFilter
run_filters [] status pod = pure status
run_filters (filter ∷ filters) status pod =
    filter pod >>= λ s. if not s.delete then pure s else run_filters filters s pod

unfoldable pub filter_pods : List Pod → List PodFilter → Action (List PodDelete)
unfolding run_filters
filter_pods [] filters = pure []
filter_pods (pod ∷ pods) filters = do
  status ← run_filters filters no_status pod
  rest ← filter_pods pods filters
  pure (
      record { pod = record pod { kind = text "Pod"; api_version = text "v1" }; status = status }
      ∷ rest)

-- `PodDeleteList.Pods`
unfoldable pub pods_to_delete : List PodDelete → List Pod
pods_to_delete items = map (λ i. i.pod) (select (λ i. i.status.delete) items)

-- `fmt.Sprintf("%s/%s", i.Pod.Namespace, i.Pod.Name)`
abbrev pub full_name : Pod → Text
full_name pod = pod.namespace ++ (b'/' ∷ pod.name)

abbrev pub entries : Option (List Text) → List Text
entries none = []
entries (some names) = names

-- `m[key] = append(m[key], name)`
unfoldable pub add_name : Text → Text → Dict Text (List Text) → Dict Text (List Text)
add_name key name m = insert key (entries (lookup key m) ++ name ∷ []) m

-- The first loop of `Warnings` and of `errors`, for the items of one reason.
unfoldable pub group_by_message :
    (reason : Text) (key : Text → Text)
    → List PodDelete
    → Dict Text (List Text)
    → Dict Text (List Text)
unfolding add_name
group_by_message reason key [] m = m
group_by_message reason key (i ∷ items) m =
    group_by_message reason key items
      (if i.status.reason == reason then add_name (key i.status.message) (full_name i.pod) m else m)

module _ (env : Env) where
  -- `PodDeleteList.Warnings`
  unfoldable pub warnings : List PodDelete → Text
  unfolding group_by_message
  warnings items =
      join
        (map (λ (key, pods). key ++ (text ": " ++ join pods (text ", ")))
          (env.range_order (group_by_message type_warning (λ msg. msg) items [])))
        (text "; ")

  abbrev error_key : Text → Text
  error_key msg = if is_empty msg then text "unexpected error" else msg

  -- `PodDeleteList.errors`
  unfoldable pub errors : List PodDelete → List Error
  unfolding group_by_message
  errors items =
      map
        (λ (msg, pods).
          failure (text "cannot delete " ++ (msg ++ (text ": " ++ join pods (text ", ")))))
        (env.range_order (group_by_message type_error error_key items []))
