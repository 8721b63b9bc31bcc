-- ===== src/Drain/Evict/Results.antt =====
-- What an eviction that ends without an error has seen of its pod.
use capten_autoscaler.Base.{
  zero, suc, ℕ, true, false, Option, none, some, [], ◌∷◌, ◌≡◌, refl, sym, ◌∙◌, ◌≢◌, ◌⊎◌, inl, inr,
  Bool-cases, arith,
}
use capten_autoscaler.Cluster.Objects.{Pod}
use capten_autoscaler.Cluster.Api.{
  Error, is_not_found, GroupVersion, ctx_done, sleep, History, Env, done, Action,
}
use capten_autoscaler.Cluster.Laws.{Later, Later-refl, Later-trans, Later-cons}
use capten_autoscaler.Drain.Filter.{Helper}
use capten_autoscaler.Drain.Wait.Gone.{IsSeenGone, IsSeenGone-widen}
use capten_autoscaler.Drain.Evict.{
  Attempt, returned, Verdict, leave, retry, follow, verdict, evict_one, evict_loop,
}
use capten_autoscaler.Drain.Evict.Loop.{evict_loop-suc, evict_one_lem}

-- Between two points of the run an eviction of the pod was answered by "not found".
pub record IsMissing (env : Env) (d : Helper) (start upto : History) (pod : Pod) : Type 0 where
  pub version : GroupVersion
  pub before : History
  pub after : History
  pub since : Later start before
  pub until : Later after upto
  pub error : Error
  pub answered : evict_one env d pod version before ≡ (done (some error), after)
  pub missing : is_not_found error ≡ true

pub IsMissing-widen :
    (env : Env) (d : Helper) (a b c e : History) (pod : Pod)
    → Later a b
    → Later c e
    → IsMissing env d b c pod
    → IsMissing env d a e pod
IsMissing-widen env d a b c e pod before after m = record {
  version = m.version;
  before = m.before;
  after = m.after;
  since = Later-trans before m.since;
  until = Later-trans m.until after;
  error = m.error;
  answered = m.answered;
  missing = m.missing;
}

module _ (env : Env) (d : Helper) (version : GroupVersion) where
  follow_inv :
      (v : Verdict) (again : Action Attempt) (h h' : History) (a : Attempt)
      → follow env v again h ≡ (done a, h')
      → ((v ≡ leave a) × (h ≡ h')) ⊎ (again (sleep 5 ∷ h) ≡ (done a, h'))
  follow_inv (leave b) again h h' a e = inl (ground arith, ground arith)
  follow_inv retry again h h' a e = inr e

  verdict_missing :
      (pod : Pod) (a : Option Error)
      → verdict pod a ≡ leave (returned none)
      → (e : Error) × (a ≡ some e) × (is_not_found e ≡ true)
  unfolding verdict
  verdict_missing pod none e = cc
  verdict_missing pod (some x) e = (x, refl, ground arith)

  evict_loop-zero :
      (pod : Pod) (h h' : History)
      → evict_loop env zero d version false pod h ≢ (done (returned none), h')
  unfolding evict_loop
  evict_loop-zero pod h h' e = cc

  pub evict_loop-IsMissing :
      (rounds : ℕ) (pod : Pod) (h h' : History)
      → evict_loop env rounds d version false pod h ≡ (done (returned none), h')
      → IsMissing env d h h' pod
  evict_loop-IsMissing zero pod h h' e = absurd (evict_loop-zero pod h h' e)
  evict_loop-IsMissing (suc rounds) pod h h' e =
      let step = sym (evict_loop-suc env d version rounds pod h) ∙ e in
      let again = evict_loop env rounds d version false pod in
      elim (Bool-cases (env.on_ctx_done h)) [
        | inl over ↦ let bad = rw over at step in cc
        | inr more ↦
            let (a, c, quiet, one) = evict_one_lem env d version pod (ctx_done ∷ h) in
            let rest = rw (more, one) at step in
            elim (follow_inv (verdict pod a) again (c ∷ ctx_done ∷ h) h' (returned none) rest) [
              | inl (left, end) ↦
                  let (x, ex, gone) = verdict_missing pod a left in
                  record {
                    version = version;
                    before = ctx_done ∷ h;
                    after = c ∷ ctx_done ∷ h;
                    since = Later-cons ctx_done (Later-refl h);
                    until = ([], sym end);
                    error = x;
                    answered = rw ex at one;
                    missing = gone;
                  }
              | inr more_rounds ↦
                  let h2 = sleep 5 ∷ c ∷ ctx_done ∷ h in
                  IsMissing-widen env d h h2 h' h' pod
                    (Later-cons _ (Later-cons _ (Later-cons _ (Later-refl h)))) (Later-refl h')
                    (evict_loop-IsMissing rounds pod h2 h' more_rounds)
            ]
      ]

-- What a drain has seen of a pod that it is done with.
abbrev pub IsCleared : Env → Helper → History → History → Pod → Type 0
IsCleared env d start upto pod =
    IsMissing env d start upto pod
    ⊎ IsSeenGone env d.skip_wait_for_delete_timeout_seconds start upto pod

pub IsCleared-widen :
    (env : Env) (d : Helper) (a b c e : History) (pod : Pod)
    → Later a b
    → Later c e
    → IsCleared env d b c pod
    → IsCleared env d a e pod
IsCleared-widen env d a b c e pod before after (inl m) =
    inl (IsMissing-widen env d a b c e pod before after m)
IsCleared-widen env d a b c e pod before after (inr s) =
    inr (IsSeenGone-widen env d.skip_wait_for_delete_timeout_seconds a b c e pod before after s)
