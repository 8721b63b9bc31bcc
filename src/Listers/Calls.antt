-- ===== src/Listers/Calls.antt =====
-- The listers' calls.
use capten_autoscaler.Base.{Bool, false, ◌≡◌}
use capten_autoscaler.Cluster.Api.{Call, list_pods, list_nodes, Env}
use capten_autoscaler.Cluster.Laws.{Avoids}
use capten_autoscaler.Listers.{all_pods, all_nodes, list_filtered_nodes}

module _ (p : Call → Bool) (env : Env) where
  pub all_pods-Avoids : p list_pods ≡ false → Avoids p (all_pods env)
  unfolding all_pods
  all_pods-Avoids quiet = record { at = λ h. rw quiet }

  pub all_nodes-Avoids : p list_nodes ≡ false → Avoids p (all_nodes env)
  unfolding all_nodes list_filtered_nodes
  all_nodes-Avoids quiet = record { at = λ h. rw quiet }
