-- ===== src/Drain/Wait.antt =====
-- pkg/util/kubernetes/drain/drain.go: `waitForDelete`, the polling loop that ends when every pod of
-- a list is gone from the API server. `wait.PollImmediate` is a library's: it is a parameter, and
-- what it is documented to do is the relation `Polls`.
pub mod Growth
pub mod Sight
pub mod Gone
pub mod Calls
pub mod Ends
mod Tests
use capten_autoscaler.Base.{
  ℤ, Text, text, Bool, true, false, not, ◌&&◌, ◌||◌, Option, none, some, List, [], ◌∷◌, ◌++◌, ◌≡◌,
  ◌==◌, text_Eq, if◌then◌else◌,
}
use capten_autoscaler.Cluster.Objects.{Pod}
use capten_autoscaler.Cluster.Api.{
  Error, failure, is_not_found, Result, ok, err, PodAnswer, get_pod, ctx_done, History, Env,
  Outcome, done, Action, pure, panic, ask, ◌>>=◌,
}
use capten_autoscaler.Cluster.Keeps.{Keeps}
use capten_autoscaler.Drain.Filter.{should_skip_pod}

-- What the condition function returns: `(true, nil)`, `(false, nil)` or an error.
pub data Poll : Type 0 where
  finished pending : Poll
  failed : Error → Poll

-- The pods that are still waited for, a variable that the condition function writes.
abbrev pub Condition : Type 0
Condition = List Pod → Action (List Pod × Poll)

abbrev pub Poller : Type 0
Poller = Condition → List Pod → Action (List Pod × Option Error)

-- Runs of `wait.PollImmediate(interval, timeout, condition)`: the condition is tried at once and
-- then again and again, until it is true, or it fails, or the time is over.
pub data Polls (c : Condition) (out : Error)
    : List Pod → History → List Pod → Option Error → History → Type 0 where
  stop :
      {ps : List Pod} {h : History} {qs : List Pod} {h' : History}
      → c ps h ≡ (done (qs, finished), h')
      → Polls c out ps h qs none h'
  fail :
      {ps : List Pod} {h : History} {qs : List Pod} {e : Error} {h' : History}
      → c ps h ≡ (done (qs, failed e), h')
      → Polls c out ps h qs (some e) h'
  expire :
      {ps : List Pod} {h : History} {qs : List Pod} {h' : History}
      → c ps h ≡ (done (qs, pending), h')
      → Polls c out ps h qs (some out) h'
  again :
      {ps : List Pod} {h : History} {qs : List Pod} {h' : History} {rs : List Pod}
      {e : Option Error} {h'' : History}
      → c ps h ≡ (done (qs, pending), h')
      → Polls c out qs h' rs e h''
      → Polls c out ps h rs e h''

-- The documented behaviour, of every call that returns.
pub record IsPollImmediate (poll : Poller) : Type 1 where
  pub timeout_error : Error
  pub runs :
      (c : Condition) (ps : List Pod) (h : History) (qs : List Pod) (e : Option Error)
      (h' : History)
      → poll c ps h ≡ (done (qs, e), h')
      → Polls c timeout_error ps h qs e h'
  -- it makes no calls but those of the condition function
  pub calls_only :
      (I : History → Type 0) (c : Condition)
      → ((ps : List Pod) → Keeps I (c ps))
      → (ps : List Pod) → Keeps I (poll c ps)

module _ (env : Env) where
  abbrev pub get_pod_fn : Text → Text → Action PodAnswer
  get_pod_fn namespace name = ask (get_pod namespace name) (λ h. env.on_get_pod h namespace name)

  abbrev error_is_not_found : Option Error → Bool
  error_is_not_found none = false
  error_is_not_found (some e) = is_not_found e

  -- `p != nil && p.ObjectMeta.UID != pod.ObjectMeta.UID`
  abbrev pub is_other_pod : Pod → Option Pod → Bool
  is_other_pod pod none = false
  is_other_pod pod (some p) = not (p.uid == pod.uid)

  -- What one answer says of a pod that is waited for; `absent` is `*p` with a nil `p`.
  pub data Sighting : Type 0 where
    gone skipped present absent : Sighting
    lost : Error → Sighting

  abbrev sight_pod : ℤ → Option Error → Option Pod → History → Sighting
  sight_pod limit (some e) found h = lost e
  sight_pod limit none none h = absent
  sight_pod limit none (some p) h = if should_skip_pod p limit (env.now h) then skipped else present

  unfoldable pub sight : ℤ → Pod → PodAnswer → History → Sighting
  sight limit pod answer h =
      if error_is_not_found answer.error || is_other_pod pod answer.found
      then gone
      else sight_pod limit answer.error answer.found h

  -- `pendingPods = append(pendingPods, pods[i])`, in front of the pending pods behind it.
  abbrev keep_pod : Pod → Result (List Pod) → Action (Result (List Pod))
  keep_pod pod (ok pods) = pure (ok (pod ∷ pods))
  keep_pod pod (err e) = pure (err e)

  abbrev sighted : Pod → Sighting → Action (Result (List Pod)) → Action (Result (List Pod))
  sighted pod gone rest = rest
  sighted pod skipped rest = rest
  sighted pod absent rest = panic
  sighted pod (lost e) rest = pure (err e)
  sighted pod present rest = rest >>= keep_pod pod

  -- The loop of the condition function over the pods: those still pending, or the first error.
  unfoldable pub pending_pods : ℤ → List Pod → Action (Result (List Pod))
  unfolding sight
  pending_pods limit [] = pure (ok [])
  pending_pods limit (pod ∷ pods) = do
    answer ← get_pod_fn pod.namespace pod.name
    λ h. sighted pod (sight limit pod answer h) (pending_pods limit pods) h

  abbrev timeout_reached : Error
  timeout_reached = failure (text "global timeout reached")

  -- `pods = pendingPods` is written only where no pod's answer was an error.
  abbrev judge : List Pod → Result (List Pod) → Action (List Pod × Poll)
  judge pods (err e) = pure (pods, failed e)
  judge pods (ok []) = pure ([], finished)
  judge pods (ok (p ∷ ps)) = do
    over ← ask ctx_done env.on_ctx_done
    pure (p ∷ ps, if over then failed timeout_reached else pending)

  unfoldable pub delete_condition : ℤ → Condition
  unfolding pending_pods
  delete_condition limit pods = pending_pods limit pods >>= judge pods

  unfoldable pub wait_for_delete : Poller → ℤ → List Pod → Action (List Pod × Option Error)
  unfolding delete_condition
  wait_for_delete poll limit pods = poll (delete_condition limit) pods
