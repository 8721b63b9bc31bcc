-- ===== src/Drain/Evict/Loop.antt =====
-- The retry loop of a goroutine of `evictPods`: it ends in time, and it never looks at the pod again.
use capten_autoscaler.Base.{
  zero, suc, ◌+◌, ◌*◌, ◌≤◌, ◌/◌, ℕ, pos_part, Bool, true, false, Option, some, [], ◌∷◌, ◌++◌, ◌≡◌,
  refl, Bool-cases, inl, inr, arith, if◌then◌else◌,
}
use capten_autoscaler.Cluster.Objects.{Pod}
use capten_autoscaler.Cluster.Api.{
  Error, GroupVersion, Call, sleep, ctx_done, get_pod, evict_v1, evict_v1beta1, History, Env, done,
  Action, pure, ask, Returns, ◌>>=◌,
}
use capten_autoscaler.Cluster.Laws.{Avoids, Avoids-pure, Avoids-ask, Avoids-if, Avoids-bind}
use capten_autoscaler.Drain.Filter.{Helper}
use capten_autoscaler.Drain.Evict.{
  Attempt, returned, Verdict, leave, retry, follow, verdict, is_policy_v1, make_delete_options,
  pause, timed_out, evict_one, evict_loop, rounds_within, global_timeout,
}

-- Seconds slept in a run of calls.
abbrev pub slept : History → ℕ
slept [] = 0
slept (sleep n ∷ h) = n + slept h
slept (_ ∷ h) = slept h

abbrev pub is_get_pod : Call → Bool
is_get_pod (get_pod ns n) = true
is_get_pod _ = false

module _ (env : Env) (d : Helper) (version : GroupVersion) where
  evict_one-Avoids : (pod : Pod) → Avoids is_get_pod (evict_one env d pod version)
  unfolding evict_one
  evict_one-Avoids pod = Avoids-if _ _ _ _ (Avoids-ask _ _ _ refl) (Avoids-ask _ _ _ refl)

  follow-Avoids :
      (v : Verdict) (again : Action Attempt)
      → Avoids is_get_pod again
      → Avoids is_get_pod (follow env v again)
  follow-Avoids (leave a) again k = Avoids-pure _ _
  follow-Avoids retry again k =
      Avoids-bind _ (pause env) (λ _. again) (Avoids-ask _ (sleep 5) (λ h. tt) refl) (λ _. k)

  -- The retry loop of an eviction never asks the API server for the pod, however many rounds it makes
  -- and whatever the server answers: the variable `refreshPod` is never set.
  pub evict_loop-Avoids-is_get_pod :
      (rounds : ℕ) (pod : Pod) → Avoids is_get_pod (evict_loop env rounds d version false pod)
  unfolding evict_loop
  evict_loop-Avoids-is_get_pod zero pod = record { at = λ h. refl }
  evict_loop-Avoids-is_get_pod (suc rounds) pod =
      let again = evict_loop env rounds d version false pod in
      let k = evict_loop-Avoids-is_get_pod rounds pod in
      record {
        at =
            (Avoids-bind is_get_pod (ask ctx_done env.on_ctx_done) _ (Avoids-ask _ _ _ refl)
              (λ over.
                Avoids-if is_get_pod over (pure (returned (some (timed_out env)))) _
                  (Avoids-pure _ _)
                  (Avoids-bind is_get_pod (evict_one env d pod version)
                    (λ answer. follow env (verdict pod answer) again) (evict_one-Avoids pod)
                    (λ answer. follow-Avoids (verdict pod answer) again k)))).at;
      }

  -- The world's clock and the goroutine's own sleeps: from this history on, the context is done once
  -- the goroutine has slept for the time limit.
  abbrev pub IsDeadline : (timeout : ℕ) → History → Type 0
  IsDeadline timeout h =
      (own : History) → timeout ≤ slept own * 1000000000 → env.on_ctx_done (own ++ h) ≡ true

  abbrev pub retry_round : ℕ → Pod → Action Attempt
  retry_round rounds pod = evict_one env d pod version >>= λ answer.
      follow env (verdict pod answer) (evict_loop env rounds d version false pod)

  -- One round of the loop.
  pub evict_loop-suc :
      (rounds : ℕ) (pod : Pod) (h : History)
      → evict_loop env (suc rounds) d version false pod h ≡ (
          if env.on_ctx_done h
          then (done (returned (some (timed_out env))), ctx_done ∷ h)
          else retry_round rounds pod (ctx_done ∷ h))
  unfolding evict_loop
  evict_loop-suc rounds pod h = elim (Bool-cases (env.on_ctx_done h)) [
    | inl over ↦ rw over
    | inr more ↦ rw more
  ]

  -- An eviction is one call, of which the goroutine only waits for the answer.
  pub evict_one_lem :
      (pod : Pod) (h : History)
      → (a : Option Error) × (c : Call) × ((own : History) → slept (c ∷ own) ≡ slept own)
        × (evict_one env d pod version h ≡ (done a, c ∷ h))
  unfolding evict_one
  evict_one_lem pod h =
      let grace = make_delete_options d in
      elim (Bool-cases (is_policy_v1 version)) [
        | inl v1 ↦ (
          env.on_evict_v1 h pod.namespace pod.name grace,
          evict_v1 pod.namespace pod.name grace,
          λ own. refl,
          rw v1,
        )
        | inr beta ↦ (
          env.on_evict_v1beta1 h pod.namespace pod.name grace,
          evict_v1beta1 pod.namespace pod.name grace,
          λ own. refl,
          rw beta,
        )
      ]

  follow-Returns :
      (v : Verdict) (again : Action Attempt) (h : History)
      → Returns (again (sleep 5 ∷ h)).0 (λ _. Unit {0})
      → Returns (follow env v again h).0 (λ _. Unit {0})
  follow-Returns (leave a) again h r = tt
  follow-Returns retry again h r = r

  evict_loop-ends :
      (rounds timeout : ℕ) (pod : Pod) (h own : History)
      → IsDeadline timeout h
      → timeout ≤ (slept own + rounds * 5) * 1000000000
      → Returns (evict_loop env (suc rounds) d version false pod (own ++ h)).0 (λ _. Unit {0})
  evict_loop-ends zero timeout pod h own deadline fits =
      rw (evict_loop-suc zero pod (own ++ h), deadline own (omega arith)) tt
  evict_loop-ends (suc rounds) timeout pod h own deadline fits =
      rw (evict_loop-suc (suc rounds) pod (own ++ h))
        (elim (Bool-cases (env.on_ctx_done (own ++ h))) [
          | inl over ↦ rw over tt
          | inr more ↦
              let (a, c, quiet, e) = evict_one_lem pod (ctx_done ∷ (own ++ h)) in
              rw (more, e)
                (follow-Returns (verdict pod a) (evict_loop env (suc rounds) d version false pod) _
                  (evict_loop-ends rounds timeout pod h (sleep 5 ∷ c ∷ ctx_done ∷ own) deadline
                    (omega (arith, quiet (ctx_done ∷ own)))))
        ])

  -- The retry loop of an eviction ends: the rounds that the model gives it are enough for it to reach
  -- a result, whatever the server answers, where the context is done once the goroutine itself has
  -- slept for the time limit of the drain (five seconds for each retry).
  pub evict_loop-Returns :
      (pod : Pod) (h : History)
      → IsDeadline (pos_part (global_timeout d)) h
      → Returns
          (evict_loop env (rounds_within (global_timeout d)) d version false pod h).0
          (λ _. Unit {0})
  evict_loop-Returns pod h deadline =
      evict_loop-ends (suc (pos_part (global_timeout d) / 5000000000)) (pos_part (global_timeout d))
        pod h [] deadline (omega arith)
