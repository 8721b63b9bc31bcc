-- ===== src/Drain/Wait/Calls.antt =====
-- Which calls waiting for pods makes: looks at the pods and at the context.
use capten_autoscaler.Base.{ℤ, Text, refl, if◌then◌else◌, List, [], ◌∷◌}
use capten_autoscaler.Cluster.Objects.{Pod}
use capten_autoscaler.Cluster.Api.{Result, ok, err, History, Env, Action, get_pod, ctx_done, ask}
use capten_autoscaler.Cluster.Keeps.{Ignores, Keeps, Keeps-pure, Keeps-ask, Keeps-bind, Keeps-panic}
use capten_autoscaler.Drain.Wait.{
  failed, pending, timeout_reached, Poller, IsPollImmediate, get_pod_fn, Sighting, gone, skipped,
  present, absent, lost, sight, keep_pod, sighted, pending_pods, judge, delete_condition,
  wait_for_delete,
}

module _ (I : History → Type 0) (foreign : Ignores I) (env : Env) where
  pub get_pod_fn-Keeps : (ns n : Text) → Keeps I (get_pod_fn env ns n)
  get_pod_fn-Keeps ns n = Keeps-ask I _ _ (foreign (get_pod ns n) refl)

  keep_pod-Keeps : (pod : Pod) (r : Result (List Pod)) → Keeps I (keep_pod env pod r)
  keep_pod-Keeps pod (ok pods) = Keeps-pure I _
  keep_pod-Keeps pod (err e) = Keeps-pure I _

  sighted-Keeps :
      (pod : Pod) (s : Sighting env) (rest : Action (Result (List Pod)))
      → Keeps I rest
      → Keeps I (sighted env pod s rest)
  sighted-Keeps pod gone rest k = k
  sighted-Keeps pod skipped rest k = k
  sighted-Keeps pod present rest k = Keeps-bind I rest (keep_pod env pod) k (keep_pod-Keeps pod)
  sighted-Keeps pod absent rest k = Keeps-panic I
  sighted-Keeps pod (lost e) rest k = Keeps-pure I _

  pending_pods-Keeps : (limit : ℤ) (pods : List Pod) → Keeps I (pending_pods env limit pods)
  unfolding pending_pods
  pending_pods-Keeps limit [] = Keeps-pure I _
  pending_pods-Keeps limit (pod ∷ pods) =
      Keeps-bind I (get_pod_fn env pod.namespace pod.name)
        (λ answer h. sighted env pod (sight env limit pod answer h) (pending_pods env limit pods) h)
        (get_pod_fn-Keeps pod.namespace pod.name)
        (λ answer. record {
          at = λ h.
              (sighted-Keeps pod (sight env limit pod answer h) (pending_pods env limit pods)
                  (pending_pods-Keeps limit pods)).at
                h;
        })

  judge-Keeps : (pods : List Pod) (r : Result (List Pod)) → Keeps I (judge env pods r)
  judge-Keeps pods (err e) = Keeps-pure I _
  judge-Keeps pods (ok []) = Keeps-pure I _
  judge-Keeps pods (ok (q ∷ qs)) =
      Keeps-bind I (ask ctx_done env.on_ctx_done) _
        (Keeps-ask I ctx_done env.on_ctx_done (foreign ctx_done refl))
        (λ over. Keeps-pure I (q ∷ qs, if over then failed (timeout_reached env) else pending))

  delete_condition-Keeps : (limit : ℤ) (pods : List Pod) → Keeps I (delete_condition env limit pods)
  unfolding delete_condition
  delete_condition-Keeps limit pods =
      Keeps-bind I (pending_pods env limit pods) (judge env pods) (pending_pods-Keeps limit pods)
        (judge-Keeps pods)

  pub wait_for_delete-Keeps :
      (poll : Poller) (limit : ℤ) (pods : List Pod)
      → IsPollImmediate poll
      → Keeps I (wait_for_delete env poll limit pods)
  unfolding wait_for_delete
  wait_for_delete-Keeps poll limit pods polls =
      polls.calls_only I (delete_condition env limit) (delete_condition-Keeps limit) pods
