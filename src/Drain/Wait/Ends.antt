-- ===== src/Drain/Wait/Ends.antt =====
-- A wait for the end of pods ends, in a world that answers.
use capten_autoscaler.Base.{
  ℤ, Text, Bool, true, false, ◌||◌, Option, none, some, List, [], ◌∷◌, ◌≡◌, refl, if◌then◌else◌,
}
use capten_autoscaler.Cluster.Objects.{Pod}
use capten_autoscaler.Cluster.Api.{Error, Result, ok, err, PodAnswer, History, Env, Action}
use capten_autoscaler.Cluster.Ends.{Ends, Returned, Ends-pure, Ends-bind}
use capten_autoscaler.Drain.Filter.{should_skip_pod}
use capten_autoscaler.Drain.Wait.{
  Condition, Poller, Sighting, gone, skipped, present, absent, lost, sight, sight_pod, sighted,
  keep_pod, error_is_not_found, is_other_pod, pending_pods, judge, delete_condition,
  wait_for_delete,
}

-- The API server answers a `Get` with a pod or an error, and `wait.PollImmediate` returns where the tries
-- of its condition do.
pub record IsPrompt (env : Env) (poll : ℤ → Poller) : Type 0 where
  pub pod_or_error :
      (h : History) (namespace name : Text)
      → (env.on_get_pod h namespace name).error ≡ none
      → (p : Pod) × ((env.on_get_pod h namespace name).found ≡ some p)
  pub polls_end :
      (timeout : ℤ) (c : Condition)
      → ((ps : List Pod) → Ends (c ps))
      → (ps : List Pod) → Ends (poll timeout c ps)

module _ (env : Env) (poll : ℤ → Poller) (prompt : IsPrompt env poll) where
  keep_pod-Returned :
      (pod : Pod) (s : Sighting env) (rest : Action (Result (List Pod))) (h : History)
      → ¬ (s ≡ absent)
      → Ends rest
      → Returned (sighted env pod s rest h).0
  keep_pod-Returned pod gone rest h seen k = k.at h
  keep_pod-Returned pod skipped rest h seen k = k.at h
  keep_pod-Returned pod absent rest h seen k = absurd (seen refl)
  keep_pod-Returned pod (lost e) rest h seen k = tt
  keep_pod-Returned pod present rest h seen k =
      (Ends-bind rest (keep_pod env pod) k (λ r. kept r)).at h
    where
      kept : (r : Result (List Pod)) → Ends (keep_pod env pod r)
      kept (ok pods) = Ends-pure _
      kept (err e) = Ends-pure _

  skips-present :
      (b : Bool) {s t : Sighting env}
      → ¬ (s ≡ absent)
      → ¬ (t ≡ absent)
      → ¬ ((if b then s else t) ≡ absent)
  skips-present true one two = one
  skips-present false one two = two

  sight_pod-present :
      (limit : ℤ) (e : Option Error) (f : Option Pod) (h : History)
      → (e ≡ none → (p : Pod) × (f ≡ some p))
      → ¬ (sight_pod env limit e f h ≡ absent)
  sight_pod-present limit (some e) f h answered = λ bad. cc
  sight_pod-present limit none none h answered = λ bad. let (p, found) = answered refl in cc
  sight_pod-present limit none (some p) h answered =
      skips-present (should_skip_pod p limit (env.now h)) (λ bad. cc) (λ bad. cc)

  sight-present :
      (limit : ℤ) (pod : Pod) (answer : PodAnswer) (h : History)
      → (answer.error ≡ none → (p : Pod) × (answer.found ≡ some p))
      → ¬ (sight env limit pod answer h ≡ absent)
  unfolding sight
  sight-present limit pod answer h answered =
      skips-present (error_is_not_found env answer.error || is_other_pod env pod answer.found)
        (λ bad. cc) (sight_pod-present limit answer.error answer.found h answered)

  pending_pods-Ends : (limit : ℤ) (pods : List Pod) → Ends (pending_pods env limit pods)
  unfolding pending_pods
  pending_pods-Ends limit [] = Ends-pure _
  pending_pods-Ends limit (pod ∷ pods) = record {
    at = λ h.
        keep_pod-Returned pod _ (pending_pods env limit pods) _
          (sight-present limit pod (env.on_get_pod h pod.namespace pod.name) _
            (prompt.pod_or_error h pod.namespace pod.name))
          (pending_pods-Ends limit pods);
  }

  judge-Ends : (pods : List Pod) (r : Result (List Pod)) → Ends (judge env pods r)
  judge-Ends pods (err e) = Ends-pure _
  judge-Ends pods (ok []) = Ends-pure _
  judge-Ends pods (ok (p ∷ ps)) = record { at = λ h. tt }

  pub wait_for_delete-Ends :
      (timeout limit : ℤ) (pods : List Pod) → Ends (wait_for_delete env (poll timeout) limit pods)
  unfolding wait_for_delete delete_condition
  wait_for_delete-Ends timeout limit pods =
      prompt.polls_end timeout (delete_condition env limit)
        (λ ps.
          Ends-bind (pending_pods env limit ps) (judge env ps) (pending_pods-Ends limit ps)
            (judge-Ends ps))
        pods
