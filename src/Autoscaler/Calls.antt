-- ===== src/Autoscaler/Calls.antt =====
-- How many machines `scaleDown` asks to take away.
use capten_autoscaler.Base.{
  int32_exact, leb, negsuc, ◌-ℤ◌, ◌+◌, ◌-◌, ◌≤◌, ◌<◌, ◌^◌, ℕ, zero, suc, ℤ, pos, pos_part, neg_part,
  int_eq, int32, Option, none, List, [], ◌∷◌, length, ◌≡◌, arith, Bool-cases, inl, inr,
}
use capten_autoscaler.Cluster.Objects.{Node}
use capten_autoscaler.Cluster.Api.{
  Error, continue, History, Env, Outcome, done, panicked, exited, unfinished, pure,
}
use capten_autoscaler.Cluster.Laws.{count}
use capten_autoscaler.Drain.Wait.{Poller, IsPollImmediate}
use capten_autoscaler.Autoscaler.{retire_node, retire_nodes, retire, nodes_to_scale_down}
use capten_autoscaler.Autoscaler.Retire.{is_scale_down, retire_node-count}

module _ (env : Env) (poll : ℤ → Poller) where
  exact_at :
      (n : ℕ) (val : ℤ)
      → n < 2 ^ 31
      → pos_part val < 2 ^ 31
      → neg_part val ≡ 0
      → pos_part (int32 (pos n -ℤ val)) ≡ n - pos_part val
  unfolding ◌-ℤ◌
  exact_at n (negsuc v) short fits nat = omega (arith, nat)
  exact_at n (pos v) short fits nat = elim (Bool-cases (leb v n)) [
    | inl le ↦ rw (int32_exact (pos n -ℤ pos v) (ground arith)) (ground arith)
    | inr gt ↦ rw (int32_exact (pos n -ℤ pos v) (ground arith)) (ground arith)
  ]

  -- The rounds of the loop, which are nodes over the number to keep.
  pub rounds-exact :
      (val : ℤ) (nodes : List Node)
      → length nodes < 2 ^ 31
      → pos_part val < 2 ^ 31
      → neg_part val ≡ 0
      → pos_part (nodes_to_scale_down env poll val nodes) ≡ length nodes - pos_part val
  rounds-exact val nodes short fits nat =
      let one = int32_exact (pos (length nodes)) (short, omega arith) in
      rw one (exact_at (length nodes) val short fits nat)

module _ (env : Env) (poll : ℤ → Poller)
    (polls : (timeout : ℤ) → IsPollImmediate (poll timeout)) where
  retire_nodes-count :
      (n : ℕ) (nodes : List Node) (h : History)
      → count is_scale_down (retire_nodes env poll n nodes h).1 ≤ n + count is_scale_down h
  unfolding retire_nodes
  retire_nodes-count zero nodes h = omega arith
  retire_nodes-count (suc n) [] h = omega arith
  retire_nodes-count (suc n) (node ∷ nodes) h =
      rest (retire_node env poll node h).0 (retire_node env poll node h).1
        (retire_node-count env poll polls node h)
        (retire_nodes-count n nodes (retire_node env poll node h).1)
    where
      rest :
          (o : Outcome (Unit {0})) (h1 : History)
          → count is_scale_down h1 ≤ suc (count is_scale_down h)
          → count is_scale_down (retire_nodes env poll n nodes h1).1 ≤ n + count is_scale_down h1
          → count is_scale_down (continue o (λ u. retire_nodes env poll n nodes) h1).1
            ≤ suc n + count is_scale_down h
      rest (done u) h1 one more = omega arith
      rest panicked h1 one more = omega arith
      rest exited h1 one more = omega arith
      rest unfinished h1 one more = omega arith

  retire-rounds :
      (val : ℤ) (nodes : List Node) (h : History)
      → count is_scale_down (retire env poll val nodes h).1
        ≤ pos_part (nodes_to_scale_down env poll val nodes) + count is_scale_down h
  unfolding retire
  retire-rounds val nodes h =
      elim (Bool-cases (int_eq (nodes_to_scale_down env poll val nodes) (pos 0))) [
        | inl same ↦ rw same (omega arith)
        | inr more ↦ rw more (
            rest
              (retire_nodes env poll (pos_part (nodes_to_scale_down env poll val nodes)) nodes h).0
              _ (retire_nodes-count (pos_part (nodes_to_scale_down env poll val nodes)) nodes h))
      ]
    where
      rest :
          (o : Outcome (Unit {0})) (h1 : History)
          → count is_scale_down h1
            ≤ pos_part (nodes_to_scale_down env poll val nodes) + count is_scale_down h
          → count is_scale_down (continue o (λ u. pure {A = Option Error} none) h1).1
            ≤ pos_part (nodes_to_scale_down env poll val nodes) + count is_scale_down h
      rest (done u) h1 le = le
      rest panicked h1 le = le
      rest exited h1 le = le
      rest unfinished h1 le = le

  -- `scaleDown` keeps the number of nodes it is given: it asks the cloud to take away at most as many
  -- machines as there are nodes over that number, and none if there are no more nodes than that,
  -- whatever fails on the way, for a number and a list that `int32` holds.
  pub retire-count :
      (val : ℤ) (nodes : List Node) (h : History)
      → length nodes < 2 ^ 31
      → pos_part val < 2 ^ 31
      → neg_part val ≡ 0
      → count is_scale_down (retire env poll val nodes h).1
        ≤ (length nodes - pos_part val) + count is_scale_down h
  retire-count val nodes h short fits nat =
      omega (arith, retire-rounds val nodes h, rounds-exact env poll val nodes short fits nat)
