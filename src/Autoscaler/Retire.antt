-- ===== src/Autoscaler/Retire.antt =====
-- One round of the loop of `scaleDown`: how many machines it takes away.
use capten_autoscaler.Base.{
  ◌≤◌, Bool-cases, suc, ℤ, Text, Bool, true, false, Option, none, some, ◌∷◌, ◌≡◌, refl, ◌||◌,
  is_some, arith, inl, inr,
}
use capten_autoscaler.Cluster.Objects.{Node}
use capten_autoscaler.Cluster.Api.{
  Error, Call, scale_down, continue, History, Env, Outcome, done, panicked, exited, unfinished,
}
use capten_autoscaler.Cluster.Laws.{count, Avoids, IsForeign}
use capten_autoscaler.Drain.Wait.{Poller, IsPollImmediate}
use capten_autoscaler.Drain.Cordon.{Cordoned, new_cordon_helper, patch_or_replace}
use capten_autoscaler.Drain.Cordon.Calls.{patch_or_replace-Avoids}
use capten_autoscaler.Drain.Run.{run_node_drain}
use capten_autoscaler.Drain.Run.Calls.{run_node_drain-Avoids}
use capten_autoscaler.Autoscaler.{
  drain_helper, after_scale_down, after_drain, after_cordon, retire_node,
}

abbrev pub is_scale_down : Call → Bool
is_scale_down (scale_down name) = true
is_scale_down _ = false

scale_down-IsForeign : IsForeign is_scale_down
scale_down-IsForeign = record {
  no_list = λ s n. refl;
  no_get = λ s n. refl;
  no_daemon_set = λ s n. refl;
  no_delete = λ s n g. refl;
  no_evict_v1 = λ s n g. refl;
  no_evict_v1beta1 = λ s n g. refl;
  no_resources = refl;
  no_done = refl;
  no_sleep = λ n. refl;
}

module _ (env : Env) (poll : ℤ → Poller)
    (polls : (timeout : ℤ) → IsPollImmediate (poll timeout)) where
  drain_quiet : (name : Text) → Avoids is_scale_down (run_node_drain env poll drain_helper name)
  drain_quiet name =
      run_node_drain-Avoids is_scale_down scale_down-IsForeign env poll drain_helper polls (λ n. tt)
        name

  after_drain-count :
      (node : Node) (e : Option Error) (h : History)
      → count is_scale_down (after_drain env poll node e h).1 ≤ suc (count is_scale_down h)
  after_drain-count node (some x) h = omega arith
  after_drain-count node none h = answered (env.on_scale_down h node.name)
    where
      answered :
          (o : Outcome (Option Error))
          → count is_scale_down
              (continue o (after_scale_down env poll node) (scale_down node.name ∷ h)).1
            ≤ suc (count is_scale_down h)
      answered (done none) = omega arith
      answered (done (some x)) = omega arith
      answered panicked = omega arith
      answered exited = omega arith
      answered unfinished = omega arith

  after_cordon-count :
      (node : Node) (made : Cordoned) (h : History)
      → count is_scale_down (after_cordon env poll node made h).1 ≤ suc (count is_scale_down h)
  after_cordon-count node made h =
      elim (Bool-cases (is_some made.error || is_some made.patch_error)) [
        | inl bad ↦ rw bad (omega arith)
        | inr good ↦ rw good (
            drained (run_node_drain env poll drain_helper node.name h).0
              (run_node_drain env poll drain_helper node.name h).1 ((drain_quiet node.name).at h))
      ]
    where
      drained :
          (o : Outcome (Option Error)) (h1 : History)
          → count is_scale_down h1 ≡ count is_scale_down h
          → count is_scale_down (continue o (after_drain env poll node) h1).1
            ≤ suc (count is_scale_down h)
      drained (done e) h1 q = omega (arith, after_drain-count node e h1)
      drained panicked h1 q = omega arith
      drained exited h1 q = omega arith
      drained unfinished h1 q = omega arith

  pub retire_node-count :
      (node : Node) (h : History)
      → count is_scale_down (retire_node env poll node h).1 ≤ suc (count is_scale_down h)
  unfolding retire_node
  retire_node-count node h =
      cordoned (patch_or_replace env (new_cordon_helper node) false h).0
        (patch_or_replace env (new_cordon_helper node) false h).1
        ((patch_or_replace-Avoids is_scale_down env (new_cordon_helper node) false (λ n q d. refl)
            (λ n d. refl)).at
          h)
    where
      cordoned :
          (o : Outcome Cordoned) (h1 : History)
          → count is_scale_down h1 ≡ count is_scale_down h
          → count is_scale_down (continue o (after_cordon env poll node) h1).1
            ≤ suc (count is_scale_down h)
      cordoned (done made) h1 q = omega (arith, after_cordon-count node made h1)
      cordoned panicked h1 q = omega arith
      cordoned exited h1 q = omega arith
      cordoned unfinished h1 q = omega arith
