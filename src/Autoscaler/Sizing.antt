-- ===== src/Autoscaler/Sizing.antt =====
-- How many nodes `getNodeCount` asks for, and the bounds on it.
use capten_autoscaler.Base.{
  ℕ, zero, suc, ◌*◌, ◌/◌, ◌<◌, ◌≤◌, ℤ, pos, pos_part, neg_part, ◌≤ℤ◌, min_ℤ, max_ℤ, int32_exact,
  FitsInt32, some, ◌≡◌, arith, ap,
}
use native.Mathlib.Omega.{div_fact, mod_fact}
use capten_autoscaler.Autoscaler.{
  Float64, NodeInfo, Requirement, quot, get_node_count, get_nodes_to_scale_up,
  get_min_nodes_required,
}

mul_le : (b q k : ℕ) → q ≤ k → suc b * q ≤ suc b * k
mul_le zero q k le = omega arith
mul_le (suc b) q k le = omega (arith, mul_le b q k le)

module _ (float : Float64) (info : NodeInfo float) (r : Requirement float) where
  -- Both roles of the node count are within their bounds: the count to scale up by is no more than
  -- `Max` and the count to keep is at least `Min` where the node count and `Min` fit `int32`.
  pub get_node_count-bounds :
      (count : ℤ)
      → get_node_count float info r ≡ some count
      → FitsInt32 count
      → FitsInt32 info.min
      → (up : ℤ) × (keep : ℤ) × (get_nodes_to_scale_up float info r ≡ some up)
        × (get_min_nodes_required float info r ≡ some keep)
        × (up ≤ℤ info.max)
        × (up ≤ℤ count)
        × (info.min ≤ℤ keep)
        × (count ≤ℤ keep)
  unfolding get_nodes_to_scale_up get_min_nodes_required
  get_node_count-bounds count e fits fits_min = (
    min_ℤ count info.max,
    max_ℤ count info.min,
    rw e,
    rw e (ap some (int32_exact (max_ℤ count info.min) (max_fits count info.min fits fits_min))),
    ground arith,
    ground arith,
    ground arith,
    ground arith,
  )
    where
      max_fits : (a b : ℤ) → FitsInt32 a → FitsInt32 b → FitsInt32 (max_ℤ a b)
      max_fits a b x y = ground arith

  -- The nodes that `getNodeCount` asks for have room for the required memory but for less than one
  -- node's, which the division rounds away, where both sizes are numbers and a node has memory.
  pub get_node_count-memory :
      (required size : ℕ)
      → r.memory ≡ pos required
      → info.memory ≡ pos (suc size)
      → (count : ℤ) × (get_node_count float info r ≡ some count)
        × (neg_part count ≡ 0)
        × (required < (suc (pos_part count)) * suc size)
  unfolding get_node_count quot
  get_node_count-memory required size e e' =
      let cpu_based = float.to_int64 (float.ceil (float.div r.cpu info.cpu)) in
      (
        max_ℤ cpu_based (pos (required / suc size)),
        rw (e, e'),
        ground arith,
        covers required size (pos_part (max_ℤ cpu_based (pos (required / suc size))))
            (ground arith),
      )
    where
      covers : (a b k : ℕ) → a / suc b ≤ k → a < suc k * suc b
      covers a b k le = omega (arith, div_fact a b, mod_fact a b, mul_le b (a / suc b) k le)
