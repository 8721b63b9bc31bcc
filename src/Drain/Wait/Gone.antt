-- ===== src/Drain/Wait/Gone.antt =====
-- A wait that ends without an error has seen every pod gone.
use capten_autoscaler.Base.{
  subst, ℤ, Option, none, List, [], ◌∷◌, ◌≡◌, refl, ◌⊎◌, inl, inr, In, arith,
}
use capten_autoscaler.Cluster.Objects.{Pod}
use capten_autoscaler.Cluster.Api.{Error, Result, ok, err, get_pod, History, Env, done}
use capten_autoscaler.Cluster.Laws.{
  bind-eq-done, done-subst, Later, Later-refl, Later-trans, Later-cons, Grows-done,
}
use capten_autoscaler.Drain.Wait.Growth.{
  judge-Grows, pending_pods-Grows, delete_condition-Grows, Polls-Later,
}
use capten_autoscaler.Drain.Wait.Sight.{IsOver, sight-IsOver}
use capten_autoscaler.Drain.Wait.{
  Poll, Sighting, gone, skipped, present, absent, lost, finished, pending, Poller, Polls,
  IsPollImmediate, keep_pod, stop, fail, expire, again, sight, sighted, pending_pods, judge,
  delete_condition, wait_for_delete,
}

module _ (env : Env) (limit : ℤ) where
  -- Between two points of the run the API server was asked for the pod, and its answer ends the wait.
  pub record IsSeenGone (start upto : History) (pod : Pod) : Type 0 where
    pub at : History
    pub since : Later start at
    pub until : Later (get_pod pod.namespace pod.name ∷ at) upto
    pub over :
        IsOver limit pod
          (env.on_get_pod at pod.namespace pod.name)
          (env.now (get_pod pod.namespace pod.name ∷ at))

  pub IsSeenGone-widen :
      (a b c e : History) (pod : Pod)
      → Later a b
      → Later c e
      → IsSeenGone b c pod
      → IsSeenGone a e pod
  IsSeenGone-widen a b c e pod before after seen = record {
    at = seen.at;
    since = Later-trans before seen.since;
    until = Later-trans seen.until after;
    over = seen.over;
  }

  -- Every pod of the first list is in the second, or was seen gone between the two points.
  abbrev Clears : History → History → List Pod → List Pod → Type 0
  Clears h h' ps qs = (pod : Pod) → In pod ps → In pod qs ⊎ IsSeenGone h h' pod

  Clears-widen :
      (a b c : History) (ps qs : List Pod) → Later a b → Clears b c ps qs → Clears a c ps qs
  Clears-widen a b c ps qs before k pod m = elim (k pod m) [
    | inl q ↦ inl q
    | inr seen ↦ inr (IsSeenGone-widen a b c c pod before (Later-refl c) seen)
  ]

  Clears-widen_end :
      (a b c : History) (ps qs : List Pod) → Later b c → Clears a b ps qs → Clears a c ps qs
  Clears-widen_end a b c ps qs after k pod m = elim (k pod m) [
    | inl q ↦ inl q
    | inr seen ↦ inr (IsSeenGone-widen a a b c pod (Later-refl a) after seen)
  ]

  Clears-cons_gone :
      (a b : History) (p : Pod) (ps qs : List Pod)
      → IsSeenGone a b p
      → Clears a b ps qs
      → Clears a b (p ∷ ps) qs
  Clears-cons_gone a b p ps qs seen rest pod (inl e) = inr (subst (IsSeenGone a b) e seen)
  Clears-cons_gone a b p ps qs seen rest pod (inr m) = rest pod m

  Clears-cons :
      (a b : History) (p : Pod) (ps qs : List Pod) → Clears a b ps qs → Clears a b (p ∷ ps) (p ∷ qs)
  Clears-cons a b p ps qs rest pod (inl e) = inl (inl e)
  Clears-cons a b p ps qs rest pod (inr m) = elim (rest pod m) [
    | inl k ↦ inl (inr k)
    | inr g ↦ inr g
  ]

  -- What the pods behind the first one contribute.
  abbrev TailClears : List Pod → Type 0
  TailClears ps =
      (h : History) (qs : List Pod) (h' : History)
      → pending_pods env limit ps h ≡ (done (ok qs), h')
      → Clears h h' ps qs

  kept_inv :
      (p : Pod) (r : Result (List Pod)) (h1 : History) (qs : List Pod) (h' : History)
      → keep_pod env p r h1 ≡ (done (ok qs), h')
      → (rest : List Pod) × (r ≡ ok rest) × (qs ≡ p ∷ rest) × (h1 ≡ h')
  kept_inv p (ok ps) h1 qs h' e = (ps, refl, ground arith, ground arith)
  kept_inv p (err x) h1 qs h' e = cc

  abbrev asked : Pod → History → History
  asked p h = get_pod p.namespace p.name ∷ h

  -- The first pod was seen gone, and the rest of the loop goes on behind that.
  cleared_first :
      (p : Pod) (ps : List Pod) (h : History) (qs : List Pod) (h' : History)
      → (sight env limit p (env.on_get_pod h p.namespace p.name) (asked p h) ≡ gone)
        ⊎ (sight env limit p (env.on_get_pod h p.namespace p.name) (asked p h) ≡ skipped)
      → TailClears ps
      → pending_pods env limit ps (asked p h) ≡ (done (ok qs), h')
      → Clears h h' (p ∷ ps) qs
  cleared_first p ps h qs h' seen ih e =
      Clears-cons_gone h h' p ps qs
        (record {
          at = h;
          since = Later-refl h;
          until = Grows-done (asked p h) (pending_pods-Grows env limit ps) e;
          over = sight-IsOver env limit p (env.on_get_pod h p.namespace p.name) (asked p h) seen;
        })
        (Clears-widen h (asked p h) h' ps qs (Later-cons _ (Later-refl h)) (ih (asked p h) qs h' e))

  sighted-Clears :
      (p : Pod) (ps : List Pod) (s : Sighting env) (h : History) (qs : List Pod) (h' : History)
      → sight env limit p (env.on_get_pod h p.namespace p.name) (asked p h) ≡ s
      → TailClears ps
      → sighted env p s (pending_pods env limit ps) (asked p h) ≡ (done (ok qs), h')
      → Clears h h' (p ∷ ps) qs
  sighted-Clears p ps gone h qs h' seen ih e = cleared_first p ps h qs h' (inl seen) ih e
  sighted-Clears p ps skipped h qs h' seen ih e = cleared_first p ps h qs h' (inr seen) ih e
  sighted-Clears p ps present h qs h' seen ih e =
      let (r, h1, rest, last) =
        bind-eq-done (pending_pods env limit ps) (keep_pod env p) (asked p h) e in
      let (rs, er, eq, eh) = kept_inv p r h1 qs h' last in
      rw eq (
        subst (λ x. Clears h x (p ∷ ps) (p ∷ rs)) eh
          (Clears-cons h h1 p ps rs (
            Clears-widen h (asked p h) h1 ps rs (Later-cons _ (Later-refl h))
              (ih (asked p h) rs h1 (done-subst rest er)))))
  sighted-Clears p ps absent h qs h' seen ih e = cc
  sighted-Clears p ps (lost x) h qs h' seen ih e = cc

  pending_pods-Clears : (ps : List Pod) → TailClears ps
  unfolding pending_pods
  pending_pods-Clears [] h qs h' e = λ pod m. elim m [ ]
  pending_pods-Clears (p ∷ ps) h qs h' e =
      sighted-Clears p ps _ h qs h' refl (pending_pods-Clears ps) e

  judge_cases :
      (ps : List Pod) (r : Result (List Pod)) (h1 : History) (qs : List Pod) (p : Poll)
      (h' : History)
      → judge env ps r h1 ≡ (done (qs, p), h')
      → p ≡ finished
      → r ≡ ok []
  judge_cases ps (err x) h1 qs p h' e f = cc
  judge_cases ps (ok []) h1 qs p h' e f = refl
  judge_cases ps (ok (x ∷ xs)) h1 qs p h' e f = ground arith

  judge_rest :
      (ps : List Pod) (r : Result (List Pod)) (h1 : History) (qs : List Pod) (p : Poll)
      (h' : History)
      → judge env ps r h1 ≡ (done (qs, p), h')
      → p ≡ pending
      → r ≡ ok qs
  judge_rest ps (err x) h1 qs p h' e f = cc
  judge_rest ps (ok []) h1 qs p h' e f = cc
  judge_rest ps (ok (x ∷ xs)) h1 qs p h' e f = ground arith

  -- The condition is true only when no pod is pending; where it goes on, the pods that it writes
  -- back are the pending ones.
  judge_inv :
      (ps : List Pod) (r : Result (List Pod)) (h1 : History) (qs : List Pod) (p : Poll)
      (h' : History)
      → judge env ps r h1 ≡ (done (qs, p), h')
      → Later h1 h' × (p ≡ finished → r ≡ ok []) × (p ≡ pending → r ≡ ok qs)
  judge_inv ps r h1 qs p h' e = (
    Grows-done h1 (judge-Grows env limit ps r) e,
    λ f. judge_cases ps r h1 qs p h' e f,
    λ f. judge_rest ps r h1 qs p h' e f,
  )

  condition-Clears :
      (ps : List Pod) (h : History) (qs : List Pod) (p : Poll) (h' : History)
      → delete_condition env limit ps h ≡ (done (qs, p), h')
      → (p ≡ finished → Clears h h' ps []) × (p ≡ pending → Clears h h' ps qs)
  unfolding delete_condition
  condition-Clears ps h qs p h' e =
      let (r, h1, first, last) = bind-eq-done (pending_pods env limit ps) (judge env ps) h e in
      let (more, on_finished, on_pending) = judge_inv ps r h1 qs p h' last in
      (
        λ f.
            Clears-widen_end h h1 h' ps [] more
              (pending_pods-Clears ps h [] h1 (done-subst first (on_finished f))),
        λ f.
            Clears-widen_end h h1 h' ps qs more
              (pending_pods-Clears ps h qs h1 (done-subst first (on_pending f))),
      )

  Polls-Clears :
      {out : Error} {ps : List Pod} {h : History} {qs : List Pod} {e : Option Error} {h' : History}
      → Polls (delete_condition env limit) out ps h qs e h'
      → e ≡ none
      → Clears h h' ps []
  Polls-Clears (stop {ps = ps} {h = h} {qs = qs} {h' = h'} c) n =
      (condition-Clears ps h qs finished h' c).0 refl
  Polls-Clears (fail c) n = cc
  Polls-Clears (expire c) n = cc
  Polls-Clears (again {ps = ps} {h = h} {qs = qs} {h' = h'} {h'' = h''} c rest) n = λ pod m.
      let before = Grows-done h (delete_condition-Grows env limit ps) c in
      elim ((condition-Clears ps h qs pending h' c).1 refl pod m) [
        | inl k ↦ Clears-widen h h' h'' qs [] before (Polls-Clears rest n) pod k
        | inr seen ↦
            inr (IsSeenGone-widen h h h' h'' pod (Later-refl h) (Polls-Later env limit rest) seen)
      ]

pub wait_for_delete-IsSeenGone :
    (env : Env) (limit : ℤ) (poll : Poller) (pods qs : List Pod) (h h' : History)
    → IsPollImmediate poll
    → wait_for_delete env poll limit pods h ≡ (done (qs, none), h')
    → (pod : Pod) → In pod pods
    → IsSeenGone env limit h h' pod
unfolding wait_for_delete
wait_for_delete-IsSeenGone env limit poll pods qs h h' law e pod m =
    elim (Polls-Clears env limit (law.runs (delete_condition env limit) pods h qs none h' e) refl
      pod m) [ inl k ↦ absurd k | inr seen ↦ seen ]
