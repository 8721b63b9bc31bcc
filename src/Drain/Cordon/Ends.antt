-- ===== src/Drain/Cordon/Ends.antt =====
-- A cordon ends.
use capten_autoscaler.Base.{Text, Bool}
use capten_autoscaler.Cluster.Objects.{Node}
use capten_autoscaler.Cluster.Api.{Result, ok, err, Env}
use capten_autoscaler.Cluster.Ends.{Ends, Ends-pure}
use capten_autoscaler.Drain.Cordon.{CordonHelper, send, with_data, with_old_data, patch_or_replace}

module _ (env : Env) (c : CordonHelper) (dry_run : Bool) where
  send-Ends : (node : Node) (r : Result Text) → Ends (send env node dry_run r)
  send-Ends node (ok patch) = record { at = λ h. tt }
  send-Ends node (err bad) = record { at = λ h. tt }

  with_data-Ends :
      (node : Node) (old_data : Text) (r : Result Text)
      → Ends (with_data env node dry_run old_data r)
  with_data-Ends node old_data (ok new_data) =
      send-Ends node (env.merge_patch old_data new_data node)
  with_data-Ends node old_data (err e) = Ends-pure _

  with_old_data-Ends : (r : Result Text) → Ends (with_old_data env c dry_run r)
  with_old_data-Ends (ok old_data) =
      with_data-Ends (record c.node { unschedulable = c.desired }) old_data _
  with_old_data-Ends (err e) = Ends-pure _

  pub patch_or_replace-Ends : Ends (patch_or_replace env c dry_run)
  unfolding patch_or_replace
  patch_or_replace-Ends = with_old_data-Ends (env.marshal_node c.node)
