-- ===== src/Autoscaler/Ends.antt =====
-- A pass returns, and so does the loop, in a world that answers.
use capten_autoscaler.Base.{
  ℕ, zero, suc, ◌≤◌, ◌<◌, ◌^◌, ℤ, pos, pos_part, neg_part, int_eq, Text, false, Option, none, some,
  List, [], ◌∷◌, length, ◌≡◌, arith, is_some, ◌||◌,
}
use capten_autoscaler.Cluster.Objects.{Node}
use capten_autoscaler.Cluster.Api.{
  Error, scale_down, delete_node, History, Env, pure, ask, ask_out, ◌>>=◌,
}
use capten_autoscaler.Cluster.Ends.{
  Ends, Returned, Ends-pure, Ends-ask, Ends-ask_out, Ends-if, Ends-bind,
}
use capten_autoscaler.Drain.Wait.{Poller}
use capten_autoscaler.Drain.Wait.Ends.{IsPrompt}
use capten_autoscaler.Drain.Evict.Ends.{KeepsTime}
use capten_autoscaler.Drain.Cordon.{new_cordon_helper, patch_or_replace}
use capten_autoscaler.Drain.Cordon.Ends.{patch_or_replace-Ends}
use capten_autoscaler.Drain.Run.{run_node_drain}
use capten_autoscaler.Drain.Run.Ends.{run_node_drain-Ends}
use capten_autoscaler.Autoscaler.{
  drain_helper, after_scale_down, after_drain, after_cordon, retire_node, retire_nodes, retire,
  nodes_to_scale_down,
}
use capten_autoscaler.Autoscaler.Calls.{rounds-exact}

-- The API server, the libraries and the cloud answer: none of their calls ends the program.
pub record IsAnswering (env : Env) (poll : ℤ → Poller) : Type 0 where
  pub prompt : IsPrompt env poll
  pub deadline : KeepsTime env drain_helper
  pub scales_up : (h : History) (n : ℤ) → Returned (env.on_scale_up h n)
  pub scales_down : (h : History) (name : Text) → Returned (env.on_scale_down h name)

module _ (env : Env) (poll : ℤ → Poller) (answers : IsAnswering env poll) where
  after_scale_down-Ends : (node : Node) (e : Option Error) → Ends (after_scale_down env poll node e)
  after_scale_down-Ends node (some e) = Ends-pure _
  after_scale_down-Ends node none =
      Ends-bind (ask (delete_node node.name) (λ h. env.on_delete_node h node.name)) (λ e. pure tt)
        (Ends-ask _ _) (λ e. Ends-pure tt)

  after_drain-Ends : (node : Node) (e : Option Error) → Ends (after_drain env poll node e)
  after_drain-Ends node (some e) = Ends-pure _
  after_drain-Ends node none =
      Ends-bind (ask_out (scale_down node.name) (λ h. env.on_scale_down h node.name))
        (after_scale_down env poll node) (Ends-ask_out _ _ (λ h. answers.scales_down h node.name))
        (after_scale_down-Ends node)

  retire_node-Ends : (node : Node) → Ends (retire_node env poll node)
  unfolding retire_node
  retire_node-Ends node =
      Ends-bind (patch_or_replace env (new_cordon_helper node) false) (after_cordon env poll node)
        (patch_or_replace-Ends env (new_cordon_helper node) false)
        (λ made.
          Ends-if (is_some made.error || is_some made.patch_error) (pure tt)
            (run_node_drain env poll drain_helper node.name >>= after_drain env poll node)
            (Ends-pure tt)
            (Ends-bind (run_node_drain env poll drain_helper node.name) (after_drain env poll node)
              (run_node_drain-Ends env poll drain_helper answers.prompt answers.deadline tt
                node.name)
              (after_drain-Ends node)))

  retire_nodes-Ends :
      (n : ℕ) (nodes : List Node) → n ≤ length nodes → Ends (retire_nodes env poll n nodes)
  unfolding retire_nodes
  retire_nodes-Ends zero nodes le = Ends-pure tt
  retire_nodes-Ends (suc n) [] le = absurd (omega arith)
  retire_nodes-Ends (suc n) (node ∷ nodes) le =
      Ends-bind (retire_node env poll node) (λ u. retire_nodes env poll n nodes)
        (retire_node-Ends node) (λ u. retire_nodes-Ends n nodes (omega arith))

  -- The loop of `scaleDown` never runs out of the list.
  pub retire-Ends :
      (val : ℤ) (nodes : List Node)
      → length nodes < 2 ^ 31
      → pos_part val < 2 ^ 31
      → neg_part val ≡ 0
      → Ends (retire env poll val nodes)
  unfolding retire
  retire-Ends val nodes short fits nat =
      let n = nodes_to_scale_down env poll val nodes in
      Ends-if (int_eq n (pos 0)) (pure none) _ (Ends-pure none) (
        Ends-bind (retire_nodes env poll (pos_part n) nodes) (λ u. pure none)
          (retire_nodes-Ends (pos_part n) nodes
            (omega (arith, rounds-exact env poll val nodes short fits nat)))
          (λ u. Ends-pure none))
