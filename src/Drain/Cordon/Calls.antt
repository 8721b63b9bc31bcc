-- ===== src/Drain/Cordon/Calls.antt =====
-- Which calls a cordon makes: a patch or an update of the node.
use capten_autoscaler.Base.{Text, Bool, false, none, some, ◌≡◌}
use capten_autoscaler.Cluster.Objects.{Node}
use capten_autoscaler.Cluster.Api.{
  Result, ok, err, Call, History, patch_node, update_node, Env, pure, ask,
}
use capten_autoscaler.Cluster.Laws.{Avoids}
use capten_autoscaler.Cluster.Keeps.{
  Admits, Keeps, Keeps-pure, Keeps-ask, Keeps-bind, Counted, Counted-Admits, Avoids-Keeps,
}
use capten_autoscaler.Drain.Cordon.{CordonHelper, send, with_data, with_old_data, patch_or_replace}

module _ (I : History → Type 0) (env : Env) (c : CordonHelper) (dry_run : Bool)
    (no_patch : (n q : Text) (d : Bool) → Admits I (patch_node n q d))
    (no_update : (n : Node) (d : Bool) → Admits I (update_node n d)) where
  send-Keeps : (node : Node) (r : Result Text) → Keeps I (send env node dry_run r)
  send-Keeps node (ok patch) =
      Keeps-bind I
        (ask (patch_node node.name patch dry_run)
          (λ h. env.on_patch_node h node.name patch dry_run))
        (λ e. pure (record { node = node; error = e; patch_error = none }))
        (Keeps-ask I _ _ (no_patch node.name patch dry_run)) (λ e. Keeps-pure I _)
  send-Keeps node (err bad) =
      Keeps-bind I (ask (update_node node dry_run) (λ h. env.on_update_node h node dry_run))
        (λ e. pure (record { node = node; error = e; patch_error = some bad }))
        (Keeps-ask I _ _ (no_update node dry_run)) (λ e. Keeps-pure I _)

  with_data-Keeps :
      (node : Node) (old_data : Text) (r : Result Text)
      → Keeps I (with_data env node dry_run old_data r)
  with_data-Keeps node old_data (ok new_data) =
      send-Keeps node (env.merge_patch old_data new_data node)
  with_data-Keeps node old_data (err e) = Keeps-pure I _

  with_old_data-Keeps : (r : Result Text) → Keeps I (with_old_data env c dry_run r)
  with_old_data-Keeps (ok old_data) =
      with_data-Keeps (record c.node { unschedulable = c.desired }) old_data _
  with_old_data-Keeps (err e) = Keeps-pure I _

  pub patch_or_replace-Keeps : Keeps I (patch_or_replace env c dry_run)
  unfolding patch_or_replace
  patch_or_replace-Keeps = with_old_data-Keeps (env.marshal_node c.node)

pub patch_or_replace-Avoids :
    (p : Call → Bool) (env : Env) (c : CordonHelper) (dry_run : Bool)
    (no_patch : (n q : Text) (d : Bool) → p (patch_node n q d) ≡ false)
    (no_update : (n : Node) (d : Bool) → p (update_node n d) ≡ false)
    → Avoids p (patch_or_replace env c dry_run)
patch_or_replace-Avoids p env c dry_run no_patch no_update =
    Avoids-Keeps p (patch_or_replace env c dry_run) (λ n.
      patch_or_replace-Keeps (Counted p n) env c dry_run
        (λ name q d. Counted-Admits p n (patch_node name q d) (no_patch name q d))
        (λ node d. Counted-Admits p n (update_node node d) (no_update node d)))
