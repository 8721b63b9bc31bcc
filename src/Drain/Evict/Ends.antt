-- ===== src/Drain/Evict/Ends.antt =====
-- A removal of pods ends, in a world that answers.
use capten_autoscaler.Base.{ℤ, pos_part, Bool, true, false, not, Option, none, some, List, [], ◌∷◌}
use capten_autoscaler.Cluster.Objects.{Pod}
use capten_autoscaler.Cluster.Api.{
  Error, is_not_found, Result, ok, err, GroupVersion, History, Env, Action, pure,
}
use capten_autoscaler.Cluster.Ends.{Ends, Ends-pure, Ends-ask, Ends-if, Ends-bind}
use capten_autoscaler.Drain.Filter.{Helper}
use capten_autoscaler.Drain.Wait.{Poller, wait_for_delete}
use capten_autoscaler.Drain.Wait.Ends.{IsPrompt, wait_for_delete-Ends}
use capten_autoscaler.Drain.Evict.{
  Attempt, evicted, returned, settle, evict_loop, evict_pod, evict_each, evict_pods, unless_failed,
  delete_one, delete_each, wait_for_all, delete_pods, with_support, check_eviction_support,
  delete_or_ask, delete_or_evict_pods, rounds_within, global_timeout, max_int64, is_no_version,
}
use capten_autoscaler.Drain.Evict.Loop.{IsDeadline, evict_loop-Returns}

-- The context of the evictions is done once a goroutine has slept for the time limit.
abbrev pub KeepsTime : Env → Helper → Type 0
KeepsTime env d =
    (version : GroupVersion) (h : History)
    → IsDeadline env d version (pos_part (global_timeout d)) h

module _ (env : Env) (poll : ℤ → Poller) (d : Helper) (prompt : IsPrompt env poll)
    (deadline : KeepsTime env d) where
  waited :
      (timeout : ℤ) (pods : List Pod)
      → Ends (wait_for_delete env (poll timeout) d.skip_wait_for_delete_timeout_seconds pods)
  waited timeout pods =
      wait_for_delete-Ends env poll prompt timeout d.skip_wait_for_delete_timeout_seconds pods

  settle-Ends : (pod : Pod) (a : Attempt) → Ends (settle env poll d pod a)
  settle-Ends pod (returned e) = Ends-pure _
  settle-Ends pod evicted =
      Ends-bind
        (wait_for_delete env (poll max_int64) d.skip_wait_for_delete_timeout_seconds (pod ∷ [])) _
        (waited max_int64 (pod ∷ [])) (λ r. Ends-pure _)

  evict_pod-Ends : (version : GroupVersion) (pod : Pod) → Ends (evict_pod env poll d version pod)
  unfolding evict_pod
  evict_pod-Ends version pod =
      Ends-bind (evict_loop env (rounds_within (global_timeout d)) d version false pod)
        (settle env poll d pod)
        (record { at = λ h. evict_loop-Returns env d version pod h (deadline version h) })
        (settle-Ends pod)

  evict_each-Ends :
      (version : GroupVersion) (pods : List Pod) → Ends (evict_each env poll d version pods)
  unfolding evict_each
  evict_each-Ends version [] = Ends-pure _
  evict_each-Ends version (pod ∷ pods) =
      Ends-bind (evict_pod env poll d version pod) _ (evict_pod-Ends version pod) (λ result.
        Ends-bind (evict_each env poll d version pods) _ (evict_each-Ends version pods)
          (λ errors. Ends-pure _))

  evict_pods-Ends :
      (version : GroupVersion) (pods : List Pod) → Ends (evict_pods env poll d version pods)
  unfolding evict_pods
  evict_pods-Ends version pods = record {
    at = λ h.
        (Ends-bind (evict_each env poll d version (env.arrival h pods)) _
            (evict_each-Ends version (env.arrival h pods))
            (λ errors. Ends-pure (env.new_aggregate errors))).at
          h;
  }

  unless_failed-Ends :
      (r : Option Error) (next : Action (Option Error))
      → Ends next
      → Ends (unless_failed env poll d r next)
  unless_failed-Ends none next k = k
  unless_failed-Ends (some e) next k = Ends-if (is_not_found e) next (pure (some e)) k (Ends-pure _)

  delete_each-Ends : (pods : List Pod) → Ends (delete_each env poll d pods)
  unfolding delete_each delete_one
  delete_each-Ends [] = Ends-pure _
  delete_each-Ends (pod ∷ pods) =
      Ends-bind (delete_one env d pod)
        (λ r. unless_failed env poll d r (delete_each env poll d pods)) (Ends-ask _ _)
        (λ r. unless_failed-Ends r (delete_each env poll d pods) (delete_each-Ends pods))

  wait_for_all-Ends : (pods : List Pod) (r : Option Error) → Ends (wait_for_all env poll d pods r)
  wait_for_all-Ends pods (some e) = Ends-pure _
  wait_for_all-Ends pods none =
      Ends-bind
        (wait_for_delete env (poll (global_timeout d)) d.skip_wait_for_delete_timeout_seconds pods)
        _ (waited (global_timeout d) pods) (λ r. Ends-pure _)

  delete_pods-Ends : (pods : List Pod) → Ends (delete_pods env poll d pods)
  unfolding delete_pods
  delete_pods-Ends pods =
      Ends-bind (delete_each env poll d pods) (wait_for_all env poll d pods) (delete_each-Ends pods)
        (wait_for_all-Ends pods)

  with_support-Ends :
      (pods : List Pod) (r : Result GroupVersion) → Ends (with_support env poll d pods r)
  with_support-Ends pods (err e) = Ends-pure _
  with_support-Ends pods (ok version) =
      Ends-if (not (is_no_version version)) (evict_pods env poll d version pods)
        (delete_pods env poll d pods) (evict_pods-Ends version pods) (delete_pods-Ends pods)

  delete_or_ask-Ends : (b : Bool) (pods : List Pod) → Ends (delete_or_ask env poll d b pods)
  unfolding check_eviction_support
  delete_or_ask-Ends true pods = delete_pods-Ends pods
  delete_or_ask-Ends false pods =
      Ends-bind (check_eviction_support env) (with_support env poll d pods) (Ends-ask _ _)
        (with_support-Ends pods)

  pub delete_or_evict_pods-Ends : (pods : List Pod) → Ends (delete_or_evict_pods env poll d pods)
  unfolding delete_or_evict_pods
  delete_or_evict_pods-Ends [] = Ends-pure _
  delete_or_evict_pods-Ends (p ∷ ps) = delete_or_ask-Ends d.disable_eviction (p ∷ ps)
