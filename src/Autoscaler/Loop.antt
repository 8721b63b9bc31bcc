-- ===== src/Autoscaler/Loop.antt =====
-- The loop of `Start`: what ends it.
use capten_autoscaler.Base.{ℤ, Option, none, some, List, [], ◌∷◌, ◌++◌, ◌≡◌, refl}
use capten_autoscaler.Cluster.Api.{
  Error, continue, History, Env, Outcome, done, panicked, exited, unfinished, Action, Returns,
}
use capten_autoscaler.Drain.Wait.{Poller}
use capten_autoscaler.Autoscaler.{
  Float64, NodeInfo, reconcile, Wake, cancelled, tick, after_tick, start,
}

module _ (env : Env) (poll : ℤ → Poller) (float : Float64) (info : NodeInfo float) where
  abbrev Wakes : Type 0
  Wakes = List (Wake env poll float info)

  same_tail :
      (o : Outcome (Option Error)) (h : History) (first second : Action (Unit {0}))
      → ((h : History) → first h ≡ second h)
      → continue o (λ e. after_tick env poll float info e first) h
        ≡ continue o (λ e. after_tick env poll float info e second) h
  same_tail (done none) h first second same = same h
  same_tail (done (some e)) h first second same = refl
  same_tail panicked h first second same = refl
  same_tail exited h first second same = refl
  same_tail unfinished h first second same = refl

  -- Nothing that happens after the end of the context has an effect: with any further events the loop
  -- makes the same calls and ends in the same way as without them.
  pub start-cancelled :
      (before later : List (Wake env poll float info)) (h : History)
      → start env poll float info (before ++ cancelled ∷ later) h
        ≡ start env poll float info (before ++ cancelled ∷ []) h
  unfolding start
  start-cancelled [] later h = refl
  start-cancelled (cancelled ∷ before) later h = refl
  start-cancelled (tick ∷ before) later h =
      same_tail (reconcile env poll float info h).0 (reconcile env poll float info h).1 _ _
        (start-cancelled before later)

  returns_tail :
      (o : Outcome (Option Error)) (h : History) (next : Action (Unit {0}))
      → Returns o (λ e. Unit {0})
      → ((h : History) → Returns (next h).0 (λ u. Unit {0}))
      → Returns (continue o (λ e. after_tick env poll float info e next) h).0 (λ u. Unit {0})
  returns_tail (done none) h next r k = k h
  returns_tail (done (some e)) h next r k = tt
  returns_tail panicked h next r k = r
  returns_tail exited h next r k = r
  returns_tail unfinished h next r k = r

  -- The loop ends once the context does, whatever the passes before return, if each of them returns.
  pub start-Returns :
      ((h : History) → Returns (reconcile env poll float info h).0 (λ e. Unit {0}))
      → (before later : List (Wake env poll float info)) (h : History)
      → Returns (start env poll float info (before ++ cancelled ∷ later) h).0 (λ u. Unit {0})
  unfolding start
  start-Returns passes [] later h = tt
  start-Returns passes (cancelled ∷ before) later h = tt
  start-Returns passes (tick ∷ before) later h =
      returns_tail (reconcile env poll float info h).0 (reconcile env poll float info h).1
        (start env poll float info (before ++ cancelled ∷ later)) (passes h)
        (start-Returns passes before later)
