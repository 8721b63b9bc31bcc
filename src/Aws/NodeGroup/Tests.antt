-- ===== src/Aws/NodeGroup/Tests.antt =====
-- The sample group, resized and rid of a node.
use capten_autoscaler.Base.{
  pos, negsuc, ◌+ℤ◌, ◌-ℤ◌, ◌<ℤ◌, ◌≤ℤ◌, int64, text_eq, text_Eq, has_prefix, lookup, length, some,
  List, [], ◌∷◌, ◌≡◌, refl, ap, arith,
}
use capten_autoscaler.Aws.Types.{InstanceRef}
use capten_autoscaler.Aws.State.{modify}
use capten_autoscaler.Aws.Sample.{service, cache, workers, node_a, workers_node_group}
use capten_autoscaler.Aws.Refs.{
  all_chars, after_prefix, skip_id, matches_instance, is_valid_id, slice_from, split,
  ref_from_provider_id,
}
use capten_autoscaler.Aws.Groups.{
  set_asg_size, is_placeholder_instance, check_common, delete_each, delete_instances,
}
use capten_autoscaler.Aws.Manager.{manager_delete_instances}
use capten_autoscaler.Aws.NodeGroup.{
  increase_size, decrease_target_size, belongs, refs_of_nodes, delete_nodes,
}
use capten_autoscaler.Aws.NodeGroup.Sizes.{asked, increase_size-bounds, decrease_target_size-bounds}
use capten_autoscaler.Aws.NodeGroup.Nodes.{IsDeletion, delete_nodes-IsMember}

increased : length (increase_size service workers_node_group (pos 2) cache).1.log ≡ 1
unfolding increase_size set_asg_size modify int64 ◌+ℤ◌
increased = refl

increase_size-bounds_example :
    (pos 3 <ℤ (pos 3 +ℤ pos 2))
    × ((pos 3 +ℤ pos 2) ≤ℤ pos 5)
    × (increase_size service workers_node_group (pos 2) cache
        ≡ asked service 0 workers (pos 3 +ℤ pos 2) cache)
unfolding ◌+ℤ◌
increase_size-bounds_example =
    increase_size-bounds service workers_node_group workers cache refl (pos 2) (ground arith)
      (λ same. omega (arith, increased, ap length same))

decreased : length (decrease_target_size service workers_node_group (negsuc 0) cache).1.log ≡ 1
unfolding decrease_target_size set_asg_size modify int64 ◌+ℤ◌ lookup text_eq
decreased = refl

decrease_target_size-bounds_example :
    (instances : List InstanceRef) × (lookup workers.name cache.asg_to_instances ≡ some instances)
    × (pos (length instances) ≤ℤ (pos 3 +ℤ negsuc 0))
    × ((pos 3 +ℤ negsuc 0) <ℤ pos 3)
    × (decrease_target_size service workers_node_group (negsuc 0) cache
        ≡ asked service 0 workers (pos 3 +ℤ negsuc 0) cache)
unfolding ◌+ℤ◌
decrease_target_size-bounds_example =
    decrease_target_size-bounds service workers_node_group workers cache refl (negsuc 0)
      (ground arith) (λ same. omega (arith, decreased, ap length same))

deleted : length (delete_nodes service workers_node_group (node_a ∷ []) cache).1.log ≡ 2
unfolding delete_nodes refs_of_nodes belongs ref_from_provider_id is_valid_id matches_instance
    skip_id all_chars after_prefix slice_from split manager_delete_instances delete_instances
    delete_each check_common is_placeholder_instance has_prefix lookup text_eq modify int64 ◌-ℤ◌
deleted = refl

delete_nodes-IsMember_example :
    (workers.min_size <ℤ workers.cur_size)
    × IsDeletion service workers_node_group cache workers refl
        (node_a ∷ [])
        (delete_nodes service workers_node_group (node_a ∷ []) cache)
delete_nodes-IsMember_example =
    delete_nodes-IsMember service workers_node_group cache workers refl (node_a ∷ [])
      (λ same. omega (arith, deleted, ap length same))
