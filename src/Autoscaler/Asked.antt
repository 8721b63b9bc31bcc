-- ===== src/Autoscaler/Asked.antt =====
-- How many machines a whole run of `Start` asks for.
use capten_autoscaler.Base.{
  ◌+◌, ◌*◌, ◌≤◌, ℕ, suc, ℤ, pos, pos_part, min_ℤ, int_eq, ltb, Bool, false, Option, none, some,
  List, [], ◌∷◌, length, ◌≡◌, ◌∙◌, refl, arith,
}
use capten_autoscaler.Cluster.Objects.{Pod, Node}
use capten_autoscaler.Cluster.Api.{
  Error, Result, ok, err, Call, list_pods, list_nodes, scale_up, continue, History, Env, Outcome,
  Action, pure, done, panicked, exited, unfinished,
}
use capten_autoscaler.Cluster.Laws.{count, Avoids, Avoids-if, Avoids-pure}
use capten_autoscaler.Drain.Wait.{Poller, IsPollImmediate}
use capten_autoscaler.Listers.{
  active_pods, filter_nodes, all_pods, all_nodes, list_filtered_nodes, unschedulable_pods,
}
use capten_autoscaler.Autoscaler.{
  worker_nodes_of, Float64, NodeInfo, at_most_max, get_nodes_to_scale_up, get_worker_nodes, grown,
  grow, shrink, decide, with_nodes, with_pods, retire, reconcile, Wake, cancelled, tick, after_tick,
  start,
}
use capten_autoscaler.Autoscaler.Absent.{IsAbsent, is_scale_up, scale_up-IsAbsent, retire-Avoids}

-- The machines that the recorded calls ask the cloud for.
abbrev pub asked : History → ℕ
asked [] = 0
asked (scale_up n ∷ h) = pos_part n + asked h
asked (_ ∷ h) = asked h

-- A call for more machines than `most`.
abbrev pub is_big : ℤ → Call → Bool
is_big most (scale_up n) = ltb (pos_part most) (pos_part n)
is_big most _ = false

big-IsAbsent : (most : ℤ) → IsAbsent (is_big most)
big-IsAbsent most = record {
  foreign = record {
    no_list = λ s n. refl;
    no_get = λ s n. refl;
    no_daemon_set = λ s n. refl;
    no_delete = λ s n g. refl;
    no_evict_v1 = λ s n g. refl;
    no_evict_v1beta1 = λ s n g. refl;
    no_resources = refl;
    no_done = refl;
    no_sleep = λ n. refl;
  };
  no_scale_down = λ n. refl;
  no_delete_node = λ n. refl;
  no_patch = λ n q d. refl;
  no_update = λ n d. refl;
}

-- The calls recorded ask for at most `most` machines each.
asked-le :
    (most : ℤ) (h : History)
    → count (is_big most) h ≡ 0
    → asked h ≤ count is_scale_up h * pos_part most
asked-le most [] e = omega arith
asked-le most (scale_up n ∷ h) e = ground (arith, asked-le most h)
asked-le most (_ ∷ h) e = asked-le most h e

-- The ticks of a run.
abbrev pub ticks :
    {env : Env} {poll : ℤ → Poller} {float : Float64} {info : NodeInfo float}
    → List (Wake env poll float info)
    → ℕ
ticks [] = 0
ticks (cancelled ∷ events) = ticks events
ticks (tick ∷ events) = suc (ticks events)

module _ (env : Env) (poll : ℤ → Poller) (polls : (timeout : ℤ) → IsPollImmediate (poll timeout))
    (float : Float64) (info : NodeInfo float) where
  -- From `h` to `h'` the cloud is asked `n` times at most for more machines, and never for more than `Max`.
  record Steps (n : ℕ) (h h' : History) : Type 0 where
    pub modest : count (is_big info.max) h' ≡ count (is_big info.max) h
    pub seldom : count is_scale_up h' ≤ n + count is_scale_up h

  -- What has no count to ask for is a pass that panics.
  grow-Steps :
      (o : Option ℤ) (h : History)
      → Steps 1 h (grow env poll float info (at_most_max float info o) h).1
  grow-Steps none h = record { modest = refl; seldom = omega arith }
  grow-Steps (some n) h =
      asks (min_ℤ n info.max) (ground arith) (env.on_scale_up h (min_ℤ n info.max))
    where
      asks :
          (n : ℤ)
          → ltb (pos_part info.max) (pos_part n) ≡ false
          → (o : Outcome (Option Error))
          → Steps 1 h (continue o (λ e. pure (grown env poll float info e)) (scale_up n ∷ h)).1
      asks n small (done e) = record { modest = rw small; seldom = omega arith }
      asks n small panicked = record { modest = rw small; seldom = omega arith }
      asks n small exited = record { modest = rw small; seldom = omega arith }
      asks n small unfinished = record { modest = rw small; seldom = omega arith }

  shrink-Steps :
      (nodes : List Node) (o : Option ℤ) (h : History)
      → Steps 1 h (shrink env poll float info nodes o h).1
  shrink-Steps nodes none h = record { modest = refl; seldom = omega arith }
  shrink-Steps nodes (some n) h = record {
    modest = (avoids (is_big info.max) (big-IsAbsent info.max)).at h;
    seldom = omega (arith, (avoids is_scale_up scale_up-IsAbsent).at h);
  }
    where
      avoids :
          (p : Call → Bool) (absent : IsAbsent p)
          → Avoids p (shrink env poll float info nodes (some n))
      avoids p absent =
          Avoids-if p (int_eq (pos (length nodes)) n) (pure none) (retire env poll n nodes)
            (Avoids-pure p none) (retire-Avoids env poll polls p absent n nodes)

  decide-Steps :
      (pods : List Pod) (nodes : List Node) (stuck : List Pod) (h : History)
      → Steps 1 h (decide env poll float info pods nodes stuck h).1
  unfolding get_nodes_to_scale_up
  decide-Steps pods nodes [] h = shrink-Steps nodes _ h
  decide-Steps pods nodes (p ∷ ps) h = grow-Steps _ h

  reconcile-Steps : (h : History) → Steps 1 h (reconcile env poll float info h).1
  unfolding reconcile all_pods get_worker_nodes all_nodes list_filtered_nodes
  reconcile-Steps h = by_pods (env.on_list_pods h)
    where
      by_nodes :
          (pods : List Pod) (r : Result (List Node))
          → Steps 1 h
              (with_nodes env poll float info pods
                (worker_nodes_of (filter_nodes none r))
                (list_nodes ∷ list_pods ∷ h)).1
      by_nodes pods (err e) = record { modest = refl; seldom = omega arith }
      by_nodes pods (ok nodes) =
          let s = decide-Steps pods _ (unschedulable_pods pods) (list_nodes ∷ list_pods ∷ h) in
          record { modest = s.modest; seldom = s.seldom }

      by_pods :
          (r : Result (List Pod))
          → Steps 1 h (with_pods env poll float info (active_pods r) (list_pods ∷ h)).1
      by_pods (err e) = record { modest = refl; seldom = omega arith }
      by_pods (ok all) = by_nodes _ (env.on_list_nodes (list_pods ∷ h))

  then-Steps : (n : ℕ) {h h1 h2 : History} → Steps 1 h h1 → Steps n h1 h2 → Steps (suc n) h h2
  then-Steps n s t = record {
    modest = t.modest ∙ s.modest;
    seldom = omega (arith, t.seldom, s.seldom);
  }

  last-Steps : (n : ℕ) {h h1 : History} → Steps 1 h h1 → Steps (suc n) h h1
  last-Steps n s = record { modest = s.modest; seldom = omega (arith, s.seldom) }

  tick-Steps :
      (n : ℕ) (next : Action (Unit {0})) (o : Outcome (Option Error)) {h h1 : History}
      → ((h : History) → Steps n h (next h).1)
      → Steps 1 h h1
      → Steps (suc n) h (continue o (λ e. after_tick env poll float info e next) h1).1
  tick-Steps n next (done none) {h} {h1} later s = then-Steps n s (later h1)
  tick-Steps n next (done (some e)) later s = last-Steps n s
  tick-Steps n next panicked later s = last-Steps n s
  tick-Steps n next exited later s = last-Steps n s
  tick-Steps n next unfinished later s = last-Steps n s

  start-Steps :
      (events : List (Wake env poll float info)) (h : History)
      → Steps (ticks events) h (start env poll float info events h).1
  unfolding start
  start-Steps [] h = record { modest = refl; seldom = omega arith }
  start-Steps (cancelled ∷ events) h = record { modest = refl; seldom = omega arith }
  start-Steps (tick ∷ events) h =
      tick-Steps (ticks events) (start env poll float info events)
        (reconcile env poll float info h).0 (start-Steps events) (reconcile-Steps h)

  -- No call of a run asks for more than `Max`.
  pub start-is_big :
      (events : List (Wake env poll float info))
      → count (is_big info.max) (start env poll float info events []).1 ≡ 0
  start-is_big events = (start-Steps events []).modest

  -- A run of `Start` asks the cloud for at most `Max` machines for every tick in its events, in all its
  -- passes together, whatever the cluster and the cloud answer and however the passes end.
  pub start-asked :
      (events : List (Wake env poll float info))
      → asked (start env poll float info events []).1 ≤ ticks events * pos_part info.max
  start-asked events =
      let s = start-Steps events [] in
      grind (arith, asked-le info.max (start env poll float info events []).1 s.modest, s.seldom)
