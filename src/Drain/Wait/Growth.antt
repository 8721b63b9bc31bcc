-- ===== src/Drain/Wait/Growth.antt =====
-- The wait records its calls and takes none back.
use capten_autoscaler.Base.{ℤ, Option, List, [], ◌∷◌, ◌≡◌, refl}
use capten_autoscaler.Cluster.Objects.{Pod}
use capten_autoscaler.Cluster.Api.{
  Action, ctx_done, Error, Result, ok, err, get_pod, History, Env, done,
}
use capten_autoscaler.Cluster.Laws.{
  Later, Later-trans, Grows, Grows-pure, Grows-panic, Grows-bind, Grows-done,
}
use capten_autoscaler.Drain.Wait.{
  Sighting, gone, skipped, present, absent, lost, Poller, Polls, IsPollImmediate, keep_pod, stop,
  fail, expire, again, sighted, pending_pods, judge, delete_condition, wait_for_delete,
}

module _ (env : Env) (limit : ℤ) where
  keep_pod-Grows : (p : Pod) (r : Result (List Pod)) → Grows (keep_pod env p r)
  keep_pod-Grows p (ok ps) = Grows-pure _
  keep_pod-Grows p (err x) = Grows-pure _

  sighted-Grows :
      (p : Pod) (s : Sighting env) (rest : Action (Result (List Pod)))
      → Grows rest
      → Grows (sighted env p s rest)
  sighted-Grows p gone rest g = g
  sighted-Grows p skipped rest g = g
  sighted-Grows p present rest g = Grows-bind rest (keep_pod env p) g (keep_pod-Grows p)
  sighted-Grows p absent rest g = Grows-panic
  sighted-Grows p (lost x) rest g = Grows-pure _

  pub pending_pods-Grows : (ps : List Pod) → Grows (pending_pods env limit ps)
  unfolding pending_pods
  pending_pods-Grows [] = Grows-pure _
  pending_pods-Grows (p ∷ ps) = record {
    at = λ h.
        Later-trans (get_pod p.namespace p.name ∷ [], refl)
          ((sighted-Grows p _ (pending_pods env limit ps) (pending_pods-Grows ps)).at
            (get_pod p.namespace p.name ∷ h));
  }

  pub judge-Grows : (ps : List Pod) (r : Result (List Pod)) → Grows (judge env ps r)
  judge-Grows ps (err x) = Grows-pure _
  judge-Grows ps (ok []) = Grows-pure _
  judge-Grows ps (ok (q ∷ qs)) = record { at = λ h. (ctx_done ∷ [], refl) }

  pub delete_condition-Grows : (ps : List Pod) → Grows (delete_condition env limit ps)
  unfolding delete_condition
  delete_condition-Grows ps =
      Grows-bind (pending_pods env limit ps) (judge env ps) (pending_pods-Grows ps) (judge-Grows ps)

  pub Polls-Later :
      {out : Error} {ps : List Pod} {h : History} {qs : List Pod} {e : Option Error} {h' : History}
      → Polls (delete_condition env limit) out ps h qs e h'
      → Later h h'
  Polls-Later (stop {ps = ps} {h = h} c) = Grows-done h (delete_condition-Grows ps) c
  Polls-Later (fail {ps = ps} {h = h} c) = Grows-done h (delete_condition-Grows ps) c
  Polls-Later (expire {ps = ps} {h = h} c) = Grows-done h (delete_condition-Grows ps) c
  Polls-Later (again {ps = ps} {h = h} c rest) =
      Later-trans (Grows-done h (delete_condition-Grows ps) c) (Polls-Later rest)

pub wait_for_delete-Later :
    (env : Env) (limit : ℤ) (poll : Poller) (pods : List Pod) (h : History)
    (r : List Pod × Option Error) (h' : History)
    → IsPollImmediate poll
    → wait_for_delete env poll limit pods h ≡ (done r, h')
    → Later h h'
unfolding wait_for_delete
wait_for_delete-Later env limit poll pods h r h' law e =
    Polls-Later env limit (law.runs (delete_condition env limit) pods h r.0 r.1 h' e)
