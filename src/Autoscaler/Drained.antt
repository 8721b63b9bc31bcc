-- ===== src/Autoscaler/Drained.antt =====
-- `scaleDown`: what has been done before each machine that it takes away.
use capten_autoscaler.Base.{
  Bool, ap, ◌∷◌, suc, zero, ℕ, ℤ, pos, pos_part, int_eq, Text, false, Option, none, some, List, [],
  All, ◌≡◌, refl,
}
use capten_autoscaler.Cluster.Objects.{Node}
use capten_autoscaler.Cluster.Api.{
  Error, scale_down, delete_node, History, Env, done, pure, ask, update_node, patch_node,
}
use capten_autoscaler.Cluster.Keeps.{
  Admits, Keeps, Keeps-pure, Keeps-panic, Keeps-ask, Keeps-if, Keeps-bind, Keeps-continue, Ignores,
}
use capten_autoscaler.Drain.Wait.{Poller, IsPollImmediate}
use capten_autoscaler.Drain.Cordon.{Cordoned, new_cordon_helper, patch_or_replace}
use capten_autoscaler.Drain.Cordon.Calls.{patch_or_replace-Keeps}
use capten_autoscaler.Drain.Run.{run_node_drain}
use capten_autoscaler.Drain.Run.Calls.{run_node_drain-Keeps}
use capten_autoscaler.Autoscaler.{
  drain_helper, after_scale_down, after_drain, after_cordon, retire_node, retire_nodes, retire,
  nodes_to_scale_down,
}

module _ (env : Env) (poll : ℤ → Poller) (W : Node → Type 0) where
  -- How a worker is got ready: it was cordoned without an error and without a failed merge patch, and
  -- the drain that followed returned no error; the recorded calls end with it.
  pub record IsReady (name : Text) (h : History) : Type 0 where
    pub node : Node
    pub named : node.name ≡ name
    pub worker : W node
    pub start : History
    pub made : Cordoned
    pub cordoned : History
    pub cordon : patch_or_replace env (new_cordon_helper node) false start ≡ (done made, cordoned)
    pub no_error : made.error ≡ none
    pub no_patch_error : made.patch_error ≡ none
    pub drain : run_node_drain env poll drain_helper node.name cordoned ≡ (done none, h)

  -- The invariant holds over all calls that a round of the loop makes, where a machine is taken away
  -- only of a worker that is ready.
  pub record Permits (I : History → Type 0) : Type 0 where
    pub drains : Ignores I
    pub patches : (name patch : Text) (dry : Bool) → Admits I (patch_node name patch dry)
    pub updates : (node : Node) (dry : Bool) → Admits I (update_node node dry)
    pub deletes_node : (name : Text) → Admits I (delete_node name)
    pub scales_down : (name : Text) (h : History) → IsReady name h → I h → I (scale_down name ∷ h)

module _ (env : Env) (poll : ℤ → Poller) (polls : (timeout : ℤ) → IsPollImmediate (poll timeout))
    (W : Node → Type 0) (I : History → Type 0) (permits : Permits env poll W I) where
  after_scale_down-Keeps :
      (node : Node) (e : Option Error) → Keeps I (after_scale_down env poll node e)
  after_scale_down-Keeps node (some e) = Keeps-pure I tt
  after_scale_down-Keeps node none =
      Keeps-bind I (ask (delete_node node.name) (λ h. env.on_delete_node h node.name))
        (λ e. pure tt)
        (Keeps-ask I (delete_node node.name) (λ h. env.on_delete_node h node.name)
          (permits.deletes_node node.name))
        (λ e. Keeps-pure I tt)

  after_drain-admitted :
      (node : Node) (e : Option Error) (h : History)
      → (e ≡ none → IsReady env poll W node.name h)
      → I h
      → I (after_drain env poll node e h).1
  after_drain-admitted node (some e) h ready i = i
  after_drain-admitted node none h ready i =
      Keeps-continue I (env.on_scale_down h node.name) (after_scale_down env poll node)
        (scale_down node.name ∷ h)
        (λ e q.
          (after_scale_down-Keeps node e).at (scale_down node.name ∷ h)
            (permits.scales_down node.name h (ready refl) i))
        (permits.scales_down node.name h (ready refl) i)

  drain-Keeps : (name : Text) → Keeps I (run_node_drain env poll drain_helper name)
  drain-Keeps name = run_node_drain-Keeps I permits.drains env poll drain_helper polls tt name

  after_cordon-admitted :
      (node : Node) (made : Cordoned) (h0 h : History)
      → W node
      → patch_or_replace env (new_cordon_helper node) false h0 ≡ (done made, h)
      → I h
      → I (after_cordon env poll node made h).1
  after_cordon-admitted node made h0 h worker cordon i =
      by_errors made.error made.patch_error refl refl
    where
      by_errors :
          (first second : Option Error)
          → made.error ≡ first
          → made.patch_error ≡ second
          → I (after_cordon env poll node made h).1
      by_errors (some x) second one two = rw one i
      by_errors none (some x) one two = rw (one, two) i
      by_errors none none one two =
          let last = run_node_drain env poll drain_helper node.name h in
          let still = (drain-Keeps node.name).at h i in
          rw (one, two)
            (Keeps-continue I last.0 (after_drain env poll node) last.1
              (λ e q.
                after_drain-admitted node e last.1
                  (λ clean. record {
                    node = node;
                    named = refl;
                    worker = worker;
                    start = h0;
                    made = made;
                    cordoned = h;
                    cordon = cordon;
                    no_error = one;
                    no_patch_error = two;
                    drain = ap (λ o. (o, last.1)) (rw clean at q);
                  })
                  still)
              still)

  retire_node-Keeps : (node : Node) → W node → Keeps I (retire_node env poll node)
  unfolding retire_node
  retire_node-Keeps node worker = record {
    at = λ h i.
        let first = patch_or_replace env (new_cordon_helper node) false h in
        let still =
          (patch_or_replace-Keeps I env (new_cordon_helper node) false permits.patches
              permits.updates).at
            h i in
        Keeps-continue I first.0 (after_cordon env poll node) first.1
          (λ made e.
            after_cordon-admitted node made h first.1 worker (ap (λ o. (o, first.1)) e) still)
          still;
  }

  retire_nodes-Keeps :
      (n : ℕ) (nodes : List Node) → All W nodes → Keeps I (retire_nodes env poll n nodes)
  unfolding retire_nodes
  retire_nodes-Keeps zero nodes all = Keeps-pure I tt
  retire_nodes-Keeps (suc n) [] all = Keeps-panic I
  retire_nodes-Keeps (suc n) (node ∷ nodes) all =
      Keeps-bind I (retire_node env poll node) (λ u. retire_nodes env poll n nodes)
        (retire_node-Keeps node all.0) (λ u. retire_nodes-Keeps n nodes all.1)

  pub retire-Keeps :
      (val : ℤ) (nodes : List Node) → All W nodes → Keeps I (retire env poll val nodes)
  unfolding retire
  retire-Keeps val nodes all =
      Keeps-if I (int_eq (nodes_to_scale_down env poll val nodes) (pos 0)) (pure none) _
        (Keeps-pure I none)
        (Keeps-bind I
          (retire_nodes env poll (pos_part (nodes_to_scale_down env poll val nodes)) nodes)
          (λ u. pure none) (retire_nodes-Keeps _ nodes all) (λ u. Keeps-pure I none))
