-- ===== src/Drain/Evict/Pods.antt =====
-- The goroutines of `evictPods`: no error among their results means that every pod is cleared.
use capten_autoscaler.Base.{
  zero, suc, ℕ, ℤ, false, Option, none, some, List, [], ◌∷◌, ◌≡◌, refl, inl, inr, In, subst, arith,
}
use capten_autoscaler.Cluster.Objects.{Pod}
use capten_autoscaler.Cluster.Api.{
  Error, GroupVersion, ctx_done, sleep, History, Env, done, Action, pure, ask, ◌>>=◌,
}
use capten_autoscaler.Cluster.Laws.{
  bind-eq-done, done-subst, Later, Later-refl, Later-trans, Grows, Grows-pure, Grows-ask, Grows-if,
  Grows-bind, Grows-done,
}
use capten_autoscaler.Drain.Filter.{Helper}
use capten_autoscaler.Drain.Wait.{Poller, IsPollImmediate, wait_for_delete}
use capten_autoscaler.Drain.Wait.Growth.{wait_for_delete-Later}
use capten_autoscaler.Drain.Wait.Gone.{IsSeenGone, wait_for_delete-IsSeenGone}
use capten_autoscaler.Drain.Evict.{
  Attempt, evicted, returned, Verdict, leave, retry, follow, verdict, timed_out, pause, max_int64,
  global_timeout, rounds_within, evict_one, evict_loop, settle, after_wait, add_error, evict_pod,
  evict_each,
}
use capten_autoscaler.Drain.Evict.Results.{
  IsMissing, evict_loop-IsMissing, IsCleared, IsCleared-widen,
}

module _ (env : Env) (d : Helper) (version : GroupVersion) where
  evict_one-Grows : (pod : Pod) → Grows (evict_one env d pod version)
  unfolding evict_one
  evict_one-Grows pod = Grows-if _ _ _ (Grows-ask _ _) (Grows-ask _ _)

  follow-Grows : (v : Verdict) (again : Action Attempt) → Grows again → Grows (follow env v again)
  follow-Grows (leave a) again k = Grows-pure a
  follow-Grows retry again k =
      Grows-bind (pause env) (λ _. again) (Grows-ask (sleep 5) (λ h. tt)) (λ _. k)

  evict_loop-Grows : (rounds : ℕ) (pod : Pod) → Grows (evict_loop env rounds d version false pod)
  unfolding evict_loop
  evict_loop-Grows zero pod = record { at = λ h. Later-refl h }
  evict_loop-Grows (suc rounds) pod =
      let again = evict_loop env rounds d version false pod in
      let k = evict_loop-Grows rounds pod in
      record {
        at =
            (Grows-bind (ask ctx_done env.on_ctx_done) _ (Grows-ask _ _) (λ over.
              Grows-if over (pure (returned (some (timed_out env)))) _ (Grows-pure _) (
                Grows-bind (evict_one env d pod version)
                  (λ answer. follow env (verdict pod answer) again) (evict_one-Grows pod)
                  (λ answer. follow-Grows (verdict pod answer) again k)))).at;
      }

module _ (env : Env) (poll : ℤ → Poller) (d : Helper)
    (polls : (timeout : ℤ) → IsPollImmediate (poll timeout)) where
  after_wait-none : (r : List Pod × Option Error) → after_wait env poll d r ≡ none → r.1 ≡ none
  after_wait-none (ps, none) e = refl
  after_wait-none (ps, some x) e = cc

  pub wait-IsSeenGone :
      (timeout : ℤ) (pods : List Pod) (h : History) (r : List Pod × Option Error) (h' : History)
      → wait_for_delete env (poll timeout) d.skip_wait_for_delete_timeout_seconds pods h
        ≡ (done r, h')
      → r.1 ≡ none
      → (pod : Pod) → In pod pods
      → IsSeenGone env d.skip_wait_for_delete_timeout_seconds h h' pod
  wait-IsSeenGone timeout pods h (qs, e) h' w n =
      wait_for_delete-IsSeenGone env d.skip_wait_for_delete_timeout_seconds (poll timeout) pods qs h
        h' (polls timeout) (rw n at w)

  settle-Later :
      (pod : Pod) (a : Attempt) (h : History) (r : Option Error) (h' : History)
      → settle env poll d pod a h ≡ (done r, h')
      → Later h h'
  settle-Later pod (returned x) h r h' e = Grows-done h (Grows-pure x) e
  settle-Later pod evicted h r h' e =
      let (w, h1, waited, last) =
        bind-eq-done
          (wait_for_delete env (poll max_int64) d.skip_wait_for_delete_timeout_seconds (pod ∷ []))
          (λ r. pure (after_wait env poll d r)) h e in
      Later-trans
        (wait_for_delete-Later env d.skip_wait_for_delete_timeout_seconds (poll max_int64)
          (pod ∷ []) h w h1 (polls max_int64) waited)
        (Grows-done h1 (Grows-pure (after_wait env poll d w)) last)

  settle-IsCleared :
      (pod : Pod) (a : Attempt) (h h1 h' : History)
      → Later h h1
      → (a ≡ returned none → IsMissing env d h h1 pod)
      → settle env poll d pod a h1 ≡ (done none, h')
      → IsCleared env d h h' pod
  settle-IsCleared pod (returned x) h h1 h' before missing e =
      IsCleared-widen env d h h h1 h' pod (Later-refl h) (Grows-done h1 (Grows-pure x) e)
        (inl (missing (ground arith)))
  settle-IsCleared pod evicted h h1 h' before missing e =
      let (r, h2, waited, last) =
        bind-eq-done
          (wait_for_delete env (poll max_int64) d.skip_wait_for_delete_timeout_seconds (pod ∷ []))
          (λ r. pure (after_wait env poll d r)) h1 e in
      IsCleared-widen env d h h1 h2 h' pod before
        (Grows-done h2 (Grows-pure (after_wait env poll d r)) last)
        (inr (
          wait-IsSeenGone max_int64 (pod ∷ []) h1 r h2 waited (after_wait-none r (ground arith)) pod
            (inl refl)))

  module _ (version : GroupVersion) where
    abbrev looping : Pod → Action Attempt
    looping pod = evict_loop env (rounds_within (global_timeout d)) d version false pod

    evict_pod-Later :
        (pod : Pod) (h : History) (r : Option Error) (h' : History)
        → evict_pod env poll d version pod h ≡ (done r, h')
        → Later h h'
    unfolding evict_pod
    evict_pod-Later pod h r h' e =
        let (a, h1, looped, settled) = bind-eq-done (looping pod) (settle env poll d pod) h e in
        Later-trans
          (Grows-done h (evict_loop-Grows env d version (rounds_within (global_timeout d)) pod)
            looped)
          (settle-Later pod a h1 r h' settled)

    evict_pod-IsCleared :
        (pod : Pod) (h h' : History)
        → evict_pod env poll d version pod h ≡ (done none, h')
        → IsCleared env d h h' pod
    unfolding evict_pod
    evict_pod-IsCleared pod h h' e =
        let (a, h1, looped, settled) = bind-eq-done (looping pod) (settle env poll d pod) h e in
        settle-IsCleared pod a h h1 h'
          (Grows-done h (evict_loop-Grows env d version (rounds_within (global_timeout d)) pod)
            looped)
          (λ ea.
            evict_loop-IsMissing env d version (rounds_within (global_timeout d)) pod h h1
              (done-subst looped ea))
          settled

    add_error-nil :
        (r : Option Error) (errors : List Error)
        → add_error env poll d r errors ≡ []
        → (r ≡ none) × (errors ≡ [])
    add_error-nil none errors e = (refl, e)
    add_error-nil (some x) errors e = cc

    abbrev collect : Option Error → List Pod → Action (List Error)
    collect r ps =
        evict_each env poll d version ps >>= λ errors. pure (add_error env poll d r errors)

    evict_each-Later :
        (pods : List Pod) (h : History) (errors : List Error) (h' : History)
        → evict_each env poll d version pods h ≡ (done errors, h')
        → Later h h'
    unfolding evict_each
    evict_each-Later [] h errors h' e = Grows-done h (Grows-pure []) e
    evict_each-Later (p ∷ ps) h errors h' e =
        let (r, h1, first, more) =
          bind-eq-done (evict_pod env poll d version p) (λ r. collect r ps) h e in
        let (es, h2, others, last) =
          bind-eq-done (evict_each env poll d version ps) (λ es. pure (add_error env poll d r es))
            h1 more in
        Later-trans (evict_pod-Later p h r h1 first) (
          Later-trans (evict_each-Later ps h1 es h2 others)
            (Grows-done h2 (Grows-pure (add_error env poll d r es)) last))

    pub evict_each-IsCleared :
        (pods : List Pod) (h h' : History)
        → evict_each env poll d version pods h ≡ (done [], h')
        → (pod : Pod) → In pod pods
        → IsCleared env d h h' pod
    unfolding evict_each
    evict_each-IsCleared [] h h' e = λ pod m. absurd m
    evict_each-IsCleared (p ∷ ps) h h' e =
        let (r, h1, first, more) =
          bind-eq-done (evict_pod env poll d version p) (λ r. collect r ps) h e in
        let (es, h2, others, last) =
          bind-eq-done (evict_each env poll d version ps) (λ es. pure (add_error env poll d r es))
            h1 more in
        let (er, nil) = add_error-nil r es (ground arith) in
        let end = Grows-done h2 (Grows-pure (add_error env poll d r es)) last in
        let rest = Later-trans (evict_each-Later ps h1 es h2 others) end in
        λ pod m. elim m [
          | inl same ↦ subst (IsCleared env d h h') same (
              IsCleared-widen env d h h h1 h' p (Later-refl h) rest
                (evict_pod-IsCleared p h h1 (done-subst first er)))
          | inr later ↦
              IsCleared-widen env d h h1 h2 h' pod (evict_pod-Later p h r h1 first) end
                (evict_each-IsCleared ps h1 h2 (done-subst others nil) pod later)
        ]
