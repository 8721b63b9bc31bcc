-- ===== src/Drain/Evict/Calls.antt =====
-- Which calls a removal of pods makes.
use capten_autoscaler.Base.{
  ℕ, zero, suc, ℤ, Bool, true, false, Option, none, some, List, [], ◌∷◌, refl, not,
}
use capten_autoscaler.Cluster.Objects.{Pod}
use capten_autoscaler.Cluster.Api.{
  Error, Result, ok, err, GroupVersion, History, ctx_done, delete_pod, evict_v1, evict_v1beta1,
  sleep, server_resources, Env, Action, pure, ask, is_not_found,
}
use capten_autoscaler.Cluster.Keeps.{
  Ignores, Keeps, Keeps-pure, Keeps-ask, Keeps-bind, Keeps-if, Keeps-panic,
}
use capten_autoscaler.Drain.Filter.{Helper}
use capten_autoscaler.Drain.Wait.{Poller, IsPollImmediate, get_pod_fn, wait_for_delete}
use capten_autoscaler.Drain.Wait.Calls.{get_pod_fn-Keeps, wait_for_delete-Keeps}
use capten_autoscaler.Drain.Evict.{
  evict_one, delete_one, evict_loop, active_pod, use_answer, follow, verdict, Verdict, leave, retry,
  Attempt, evicted, returned, settle, evict_pod, evict_each, evict_pods, unless_failed, delete_each,
  wait_for_all, delete_pods, with_support, check_eviction_support, delete_or_ask,
  delete_or_evict_pods, is_policy_v1, rounds_within, global_timeout, timed_out, pause, max_int64,
  is_no_version,
}

module _ (I : History → Type 0) (foreign : Ignores I) (env : Env) where
  delete_one-Keeps : (d : Helper) (pod : Pod) → Keeps I (delete_one env d pod)
  unfolding delete_one
  delete_one-Keeps d pod = Keeps-ask I _ _ (foreign (delete_pod _ _ _) refl)

  evict_one-Keeps : (d : Helper) (pod : Pod) (v : GroupVersion) → Keeps I (evict_one env d pod v)
  unfolding evict_one
  evict_one-Keeps d pod v =
      Keeps-if I (is_policy_v1 v) _ _ (Keeps-ask I _ _ (foreign (evict_v1 _ _ _) refl))
        (Keeps-ask I _ _ (foreign (evict_v1beta1 _ _ _) refl))

  use_answer-Keeps :
      (pod : Pod) (e : Option Error) (f : Option Pod) → Keeps I (use_answer env pod e f)
  use_answer-Keeps pod (some e) f = Keeps-pure I _
  use_answer-Keeps pod none (some fresh) = Keeps-pure I _
  use_answer-Keeps pod none none = Keeps-panic I

  active_pod-Keeps : (refresh : Bool) (pod : Pod) → Keeps I (active_pod env refresh pod)
  unfolding active_pod
  active_pod-Keeps false pod = Keeps-pure I _
  active_pod-Keeps true pod =
      Keeps-bind I (get_pod_fn env pod.namespace pod.name) _ (get_pod_fn-Keeps I foreign env _ _)
        (λ answer. use_answer-Keeps pod answer.error answer.found)

  follow-Keeps :
      (v : Verdict) (again : Action Attempt) → Keeps I again → Keeps I (follow env v again)
  follow-Keeps (leave a) again k = Keeps-pure I _
  follow-Keeps retry again k =
      Keeps-bind I (pause env) _ (Keeps-ask I _ _ (foreign (sleep _) refl)) (λ u. k)

  evict_loop-Keeps :
      (rounds : ℕ) (d : Helper) (v : GroupVersion) (refresh : Bool) (pod : Pod)
      → Keeps I (evict_loop env rounds d v refresh pod)
  unfolding evict_loop
  evict_loop-Keeps zero d v refresh pod = record { at = λ h i. i }
  evict_loop-Keeps (suc rounds) d v refresh pod =
      let again = evict_loop env rounds d v false pod in
      record {
        at =
            (Keeps-bind I (ask ctx_done env.on_ctx_done) _ (Keeps-ask I _ _ (foreign ctx_done refl))
              (λ over. Keeps-if I over (pure (returned (some (timed_out env)))) _ (Keeps-pure I _) (
                Keeps-bind I (active_pod env refresh pod) _ (active_pod-Keeps refresh pod)
                  (λ active.
                    Keeps-bind I (evict_one env d active v)
                      (λ answer. follow env (verdict active answer) again)
                      (evict_one-Keeps d active v)
                      (λ answer.
                        follow-Keeps (verdict active answer) again
                          (evict_loop-Keeps rounds d v false pod)))))).at;
      }

  module _ (poll : ℤ → Poller) (d : Helper)
      (polls : (timeout : ℤ) → IsPollImmediate (poll timeout)) where
    settle-Keeps : (pod : Pod) (a : Attempt) → Keeps I (settle env poll d pod a)
    settle-Keeps pod (returned e) = Keeps-pure I _
    settle-Keeps pod evicted =
        Keeps-bind I
          (wait_for_delete env (poll max_int64) d.skip_wait_for_delete_timeout_seconds (pod ∷ [])) _
          (wait_for_delete-Keeps I foreign env (poll max_int64) _ _ (polls max_int64))
          (λ r. Keeps-pure I _)

    evict_pod-Keeps : (v : GroupVersion) (pod : Pod) → Keeps I (evict_pod env poll d v pod)
    unfolding evict_pod
    evict_pod-Keeps v pod =
        Keeps-bind I (evict_loop env (rounds_within (global_timeout d)) d v false pod)
          (settle env poll d pod)
          (evict_loop-Keeps (rounds_within (global_timeout d)) d v false pod) (settle-Keeps pod)

    evict_each-Keeps : (v : GroupVersion) (pods : List Pod) → Keeps I (evict_each env poll d v pods)
    unfolding evict_each
    evict_each-Keeps v [] = Keeps-pure I _
    evict_each-Keeps v (pod ∷ pods) =
        Keeps-bind I (evict_pod env poll d v pod) _ (evict_pod-Keeps v pod) (λ result.
          Keeps-bind I (evict_each env poll d v pods) _ (evict_each-Keeps v pods)
            (λ es. Keeps-pure I _))

    evict_pods-Keeps : (v : GroupVersion) (pods : List Pod) → Keeps I (evict_pods env poll d v pods)
    unfolding evict_pods
    evict_pods-Keeps v pods = record {
      at = λ h.
          (Keeps-bind I (evict_each env poll d v (env.arrival h pods))
              (λ es. pure (env.new_aggregate es)) (evict_each-Keeps v (env.arrival h pods))
              (λ es. Keeps-pure I _)).at
            h;
    }

    unless_failed-Keeps :
        (e : Option Error) (next : Action (Option Error))
        → Keeps I next
        → Keeps I (unless_failed env poll d e next)
    unless_failed-Keeps none next k = k
    unless_failed-Keeps (some e) next k = Keeps-if I (is_not_found e) _ _ k (Keeps-pure I _)

    delete_each-Keeps : (pods : List Pod) → Keeps I (delete_each env poll d pods)
    unfolding delete_each
    delete_each-Keeps [] = Keeps-pure I _
    delete_each-Keeps (pod ∷ pods) =
        Keeps-bind I (delete_one env d pod) _ (delete_one-Keeps d pod) (λ result.
          unless_failed-Keeps result (delete_each env poll d pods) (delete_each-Keeps pods))

    wait_for_all-Keeps :
        (pods : List Pod) (e : Option Error) → Keeps I (wait_for_all env poll d pods e)
    wait_for_all-Keeps pods (some e) = Keeps-pure I _
    wait_for_all-Keeps pods none =
        Keeps-bind I
          (wait_for_delete env (poll (global_timeout d)) d.skip_wait_for_delete_timeout_seconds
            pods)
          _
          (wait_for_delete-Keeps I foreign env (poll (global_timeout d)) _ _
            (polls (global_timeout d)))
          (λ r. Keeps-pure I _)

    delete_pods-Keeps : (pods : List Pod) → Keeps I (delete_pods env poll d pods)
    unfolding delete_pods
    delete_pods-Keeps pods =
        Keeps-bind I (delete_each env poll d pods) (wait_for_all env poll d pods)
          (delete_each-Keeps pods) (wait_for_all-Keeps pods)

    with_support-Keeps :
        (pods : List Pod) (r : Result GroupVersion) → Keeps I (with_support env poll d pods r)
    with_support-Keeps pods (err e) = Keeps-pure I _
    with_support-Keeps pods (ok v) =
        Keeps-if I (not (is_no_version v)) _ _ (evict_pods-Keeps v pods) (delete_pods-Keeps pods)

    delete_or_ask-Keeps : (b : Bool) (pods : List Pod) → Keeps I (delete_or_ask env poll d b pods)
    unfolding check_eviction_support
    delete_or_ask-Keeps true pods = delete_pods-Keeps pods
    delete_or_ask-Keeps false pods =
        Keeps-bind I (check_eviction_support env) (with_support env poll d pods)
          (Keeps-ask I _ _ (foreign server_resources refl)) (with_support-Keeps pods)

    pub delete_or_evict_pods-Keeps :
        (pods : List Pod) → Keeps I (delete_or_evict_pods env poll d pods)
    unfolding delete_or_evict_pods
    delete_or_evict_pods-Keeps [] = Keeps-pure I _
    delete_or_evict_pods-Keeps (q ∷ qs) = delete_or_ask-Keeps d.disable_eviction (q ∷ qs)
