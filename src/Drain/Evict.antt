-- ===== src/Drain/Evict.antt =====
-- pkg/util/kubernetes/drain/drain.go: deleting or evicting a list of pods.
-- `evictPods` starts a goroutine for each pod. The model runs them one after the other, in the order
-- in which their results arrive, which the world chooses: a goroutine shares nothing with another but
-- the world, and the world's answers depend on the calls recorded so far in any way, so every
-- concurrent run has the results of a run of the model in some world.
-- The texts of the errors leave out the pod's name and the duration.
pub mod Loop
pub mod Results
pub mod Pods
pub mod Cleared
pub mod Calls
pub mod Ends
mod Tests
use capten_autoscaler.Base.{
  ℕ, zero, suc, ◌+◌, ◌*◌, ◌/◌, ◌^◌, ℤ, pos, pos_part, leb_ℤ, int_eq, Text, text, is_empty, Bool,
  true, false, not, ◌&&◌, Option, none, some, List, [], ◌∷◌, ◌++◌, ◌==◌, text_Eq, int_Eq,
  if◌then◌else◌,
}
use capten_autoscaler.Cluster.Objects.{Pod}
use capten_autoscaler.Cluster.Api.{
  Error, failure, message, is_not_found, is_too_many_requests, is_terminating_namespace, Result, ok,
  err, GroupVersion, ApiResource, Grace, server_resources, delete_pod, evict_v1, evict_v1beta1,
  get_pod, ctx_done, sleep, PodAnswer, Env, unfinished, Action, pure, panic, ask, ◌>>=◌, ◌>>◌,
}
use capten_autoscaler.Drain.Filter.{Helper, is_set}
use capten_autoscaler.Drain.Wait.{Poller, get_pod_fn, wait_for_delete}

abbrev pub eviction_kind : Text
eviction_kind = text "Eviction"

abbrev pub eviction_subresource : Text
eviction_subresource = text "pods/eviction"

abbrev pub max_int64 : ℤ
max_int64 = pos 9223372036854775807

unfoldable pub is_eviction : ApiResource → Bool
is_eviction r =
    r.name == eviction_subresource
    && (r.kind == eviction_kind && (not (is_empty r.group) && not (is_empty r.version)))

abbrev pub no_version : GroupVersion
no_version = record { group = []; version = [] }

-- The loop of `CheckEvictionSupport`.
unfoldable pub eviction_version : List ApiResource → GroupVersion
unfolding is_eviction
eviction_version [] = no_version
eviction_version (r ∷ rs) =
    if is_eviction r then record { group = r.group; version = r.version } else eviction_version rs

-- `GroupVersion.Empty`
abbrev pub is_no_version : GroupVersion → Bool
is_no_version v = is_empty v.group && is_empty v.version

abbrev pub is_policy_v1 : GroupVersion → Bool
is_policy_v1 v = v.group == text "policy" && v.version == text "v1"

unfoldable pub make_delete_options : Helper → Grace
make_delete_options d =
    if leb_ℤ (pos 0) d.grace_period_seconds then some d.grace_period_seconds else none

-- 0 means no limit.
unfoldable pub global_timeout : Helper → ℤ
global_timeout d = if d.timeout == pos 0 then max_int64 else d.timeout

-- How a goroutine leaves the loop of its eviction: by `break`, or with its result.
pub data Attempt : Type 0 where
  evicted : Attempt
  returned : Option Error → Attempt

-- What the loop does with the answer to an eviction.
pub data Verdict : Type 0 where
  leave : Attempt → Verdict
  retry : Verdict

unfoldable pub verdict : Pod → Option Error → Verdict
verdict active none = leave evicted
verdict active (some e) =
    if is_not_found e
    then leave (returned none)
    else if is_too_many_requests e
    then retry
    else if is_set active.deletion_timestamp && is_terminating_namespace e
    then leave evicted
    else if is_terminating_namespace e
    then retry
    else leave (returned (some (failure (text "error when evicting pods: " ++ message e))))

-- Five seconds for each retry: these rounds reach past the time limit.
abbrev pub rounds_within : ℤ → ℕ
rounds_within timeout = suc (suc (pos_part timeout / 5000000000))

module _ (env : Env) where
  abbrev support_of : Result (List ApiResource) → Result GroupVersion
  support_of (ok resources) = ok (eviction_version resources)
  support_of (err e) = err e

  unfoldable pub check_eviction_support : Action (Result GroupVersion)
  unfolding eviction_version
  check_eviction_support = ask server_resources (λ h. support_of (env.on_server_resources h))

  -- `DeletePod`
  unfoldable pub delete_one : Helper → Pod → Action (Option Error)
  unfolding make_delete_options
  delete_one d pod =
      let grace = make_delete_options d in
      ask (delete_pod pod.namespace pod.name grace)
        (λ h. env.on_delete_pod h pod.namespace pod.name grace)

  -- `EvictPod`
  unfoldable pub evict_one : Helper → Pod → GroupVersion → Action (Option Error)
  unfolding make_delete_options
  evict_one d pod version =
      let grace = make_delete_options d in
      if is_policy_v1 version
      then ask (evict_v1 pod.namespace pod.name grace)
          (λ h. env.on_evict_v1 h pod.namespace pod.name grace)
      else ask (evict_v1beta1 pod.namespace pod.name grace)
          (λ h. env.on_evict_v1beta1 h pod.namespace pod.name grace)

  -- `freshPod, err := getPodFn(…); if err == nil { activePod = *freshPod }`
  abbrev use_answer : Pod → Option Error → Option Pod → Action Pod
  use_answer pod (some e) found = pure pod
  use_answer pod none (some fresh) = pure fresh
  use_answer pod none none = panic

  unfoldable pub active_pod : Bool → Pod → Action Pod
  active_pod false pod = pure pod
  active_pod true pod = do
    answer ← get_pod_fn env pod.namespace pod.name
    use_answer pod answer.error answer.found

  abbrev timed_out : Error
  timed_out = failure (text "error when evicting pods: global timeout reached")

  -- `time.Sleep(5 * time.Second)`
  abbrev pause : Action (Unit {0})
  pause = ask (sleep 5) (λ h. tt)

  abbrev follow : Verdict → Action Attempt → Action Attempt
  follow (leave a) again = pure a
  follow retry again = pause >> again

  -- The loop of a goroutine, for a number of rounds. `refreshPod` is a variable of the loop.
  unfoldable pub evict_loop : ℕ → Helper → GroupVersion → (refresh : Bool) → Pod → Action Attempt
  unfolding evict_one active_pod verdict
  evict_loop zero d version refresh pod h = (unfinished, h)
  evict_loop (suc rounds) d version refresh pod h =
      let again = evict_loop rounds d version false pod in
      (ask ctx_done env.on_ctx_done >>= λ over.
      if over then pure (returned (some timed_out)) else (do
        active ← active_pod refresh pod
        answer ← evict_one d active version
        follow (verdict active answer) again))
        h

  module _ (poll : ℤ → Poller) (d : Helper) where
    abbrev after_wait : List Pod × Option Error → Option Error
    after_wait (_, none) = none
    after_wait (_, some e) =
        some (failure (text "error when waiting for pod to terminate: " ++ message e))

    abbrev settle : Pod → Attempt → Action (Option Error)
    settle pod (returned e) = pure e
    settle pod evicted =
        wait_for_delete env (poll max_int64) d.skip_wait_for_delete_timeout_seconds (pod ∷ [])
        >>= λ r. pure (after_wait r)

    -- One goroutine of `evictPods`, and what it sends on the channel.
    unfoldable pub evict_pod : GroupVersion → Pod → Action (Option Error)
    unfolding evict_loop global_timeout
    evict_pod version pod = do
      attempt ← evict_loop (rounds_within (global_timeout d)) d version false pod
      settle pod attempt

    abbrev add_error : Option Error → List Error → List Error
    add_error none errors = errors
    add_error (some e) errors = e ∷ errors

    -- The collecting loop: the errors among the results.
    unfoldable pub evict_each : GroupVersion → List Pod → Action (List Error)
    unfolding evict_pod
    evict_each version [] = pure []
    evict_each version (pod ∷ pods) = do
      result ← evict_pod version pod
      errors ← evict_each version pods
      pure (add_error result errors)

    unfoldable pub evict_pods : GroupVersion → List Pod → Action (Option Error)
    unfolding evict_each
    evict_pods version pods h =
        (evict_each version (env.arrival h pods) >>= λ errors. pure (env.new_aggregate errors)) h

    abbrev unless_failed : Option Error → Action (Option Error) → Action (Option Error)
    unless_failed none next = next
    unless_failed (some e) next = if is_not_found e then next else pure (some e)

    -- The first loop of `deletePods`.
    unfoldable pub delete_each : List Pod → Action (Option Error)
    unfolding delete_one
    delete_each [] = pure none
    delete_each (pod ∷ pods) =
        delete_one d pod >>= λ result. unless_failed result (delete_each pods)

    abbrev wait_for_all : List Pod → Option Error → Action (Option Error)
    wait_for_all pods (some e) = pure (some e)
    wait_for_all pods none =
        wait_for_delete env (poll (global_timeout d)) d.skip_wait_for_delete_timeout_seconds pods
        >>= λ r. pure r.1

    unfoldable pub delete_pods : List Pod → Action (Option Error)
    unfolding delete_each global_timeout
    delete_pods pods = delete_each pods >>= wait_for_all pods

    abbrev with_support : List Pod → Result GroupVersion → Action (Option Error)
    with_support pods (err e) = pure (some e)
    with_support pods (ok version) =
        if not (is_no_version version) then evict_pods version pods else delete_pods pods

    -- By `d.DisableEviction`.
    abbrev delete_or_ask : Bool → List Pod → Action (Option Error)
    delete_or_ask true pods = delete_pods pods
    delete_or_ask false pods = check_eviction_support >>= with_support pods

    unfoldable pub delete_or_evict_pods : List Pod → Action (Option Error)
    unfolding delete_pods evict_pods check_eviction_support
    delete_or_evict_pods [] = pure none
    delete_or_evict_pods (p ∷ ps) = delete_or_ask d.disable_eviction (p ∷ ps)
