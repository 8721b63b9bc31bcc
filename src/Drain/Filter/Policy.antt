-- ===== src/Drain/Filter/Policy.antt =====
-- The drain policy that the five base filters implement, stated without their order.
use capten_autoscaler.Base.{
  Bool, false, not, ◌&&◌, ◌||◌, Option, none, some, [], ◌≡◌, contains, ◌==◌, text_Eq, text_eq,
  is_some, arith,
}
use capten_autoscaler.Cluster.Objects.{Pod, OwnerRef, is_finished}
use capten_autoscaler.Cluster.Api.{Error, is_not_found, Env, History, Returns}
use capten_autoscaler.Drain.Filter.{
  Helper, daemon_set, mirror_annotation, should_skip_pod, has_local_storage, make_filters,
  run_filters, no_status, type_error,
}

-- The answer of the API server about the DaemonSet that manages the pod.
abbrev is_managed : Option OwnerRef → Bool
is_managed none = false
is_managed (some ref) = ref.kind == daemon_set

abbrev answer : Env → History → Pod → Option OwnerRef → Option Error
answer env h pod none = none
answer env h pod (some ref) = env.on_get_daemon_set h pod.namespace ref.name

abbrev is_gone : Option Error → Bool
is_gone none = false
is_gone (some e) = is_not_found e

module _ (env : Env) (d : Helper) (h : History) (pod : Pod) where
  abbrev pub is_skipped : Bool
  is_skipped = should_skip_pod pod d.skip_wait_for_delete_timeout_seconds (env.now h)

  -- An unfinished pod of a DaemonSet.
  abbrev pub is_daemon : Bool
  is_daemon = is_managed pod.controller && not (is_finished pod)

  -- A daemon whose DaemonSet is gone, in a drain with `--force`.
  abbrev pub is_forced_orphan : Bool
  is_forced_orphan = is_gone (answer env h pod pod.controller) && d.force

  abbrev pub is_mirror : Bool
  is_mirror = contains mirror_annotation pod.annotations

  abbrev pub keeps_local_data : Bool
  keeps_local_data = has_local_storage pod && (not (is_finished pod) && not d.delete_empty_dir_data)

  abbrev pub is_unmanaged : Bool
  is_unmanaged = not (is_finished pod) && (not (is_some pod.controller) && not d.force)

  abbrev pub is_deletable : Bool
  is_deletable =
      not is_skipped
      && ((not is_daemon || is_forced_orphan)
          && (not is_mirror && (not keeps_local_data && not is_unmanaged)))

  -- The daemon is known to be alive, and the drain ignores such pods.
  abbrev pub is_ignored_daemon : Bool
  is_ignored_daemon = not (is_some (answer env h pod pod.controller)) && d.ignore_all_daemon_sets

  abbrev pub is_refused : Bool
  is_refused =
      not is_skipped
      && (is_daemon && (not is_forced_orphan && not is_ignored_daemon)
          || (not is_daemon || is_forced_orphan)
            && (not is_mirror && (keeps_local_data || is_unmanaged)))

  -- With no additional filters, the filters of a drain return for every pod, at every state of the
  -- cluster, a status that says to delete the pod exactly when it is deletable: it is not already
  -- being deleted for too long, no live DaemonSet manages it, it is no mirror pod, deleting it loses
  -- no local data that the drain must keep, and it has a controller unless the drain is forced.
  pub run_filters-is_deletable :
      d.additional_filters ≡ []
      → Returns (run_filters (make_filters env d) no_status pod h).0 (λ s. s.delete ≡ is_deletable)
  unfolding run_filters make_filters
  run_filters-is_deletable e = rw e (ground arith)

  -- With no additional filters, the status of a pod is an error exactly when the pod is refused: its
  -- DaemonSet is alive and not to be ignored, or cannot be looked up, or the pod would lose local
  -- data or has no controller and the drain lacks the flag that allows it.
  pub run_filters-is_refused :
      d.additional_filters ≡ []
      → Returns
          (run_filters (make_filters env d) no_status pod h).0
          (λ s. (s.reason == type_error) ≡ is_refused)
  unfolding run_filters make_filters text_eq
  run_filters-is_refused e = rw e (ground arith)
