-- ===== src/Aws/NodeGroup.antt =====
-- pkg/cloudprovider/aws/cloud_provider.go: node groups, which share their group with the cache by
-- pointer, and the provider's questions about nodes. `GPULabel`, `Exist` and the like are constants.
pub mod Sizes
pub mod Kept
pub mod Nodes
mod Tests
use capten_autoscaler.Base.{
  ℕ, ℤ, pos, ◌+ℤ◌, int64, ltb_ℤ, leb_ℤ, Text, text, is_empty, has_prefix, text_eq, Bool, true,
  false, not, Option, none, some, List, [], ◌∷◌, ◌++◌, map, length, Dict, lookup, ◌==◌, text_Eq,
  if◌then◌else◌,
}
use capten_autoscaler.Cluster.Objects.{Node}
use capten_autoscaler.Cluster.Api.{Error, failure, message, Result, ok, err, Outcome, done}
use capten_autoscaler.Aws.Types.{InstanceRef, Asg}
use capten_autoscaler.Aws.State.{Service, State, Act, pure, gets, ◌>>=◌, ◌>>◌, lift, load}
use capten_autoscaler.Aws.Refs.{ref_from_provider_id}
use capten_autoscaler.Aws.Groups.{
  find_for_instance, instances_by_asg, status_of_instance, set_asg_size,
}
use capten_autoscaler.Aws.Manager.{manager_delete_instances}

-- `AwsNodeGroup`, whose manager is the state.
pub record NodeGroup : Type 0 where
  pub asg : ℕ

-- `NodeGroups`
unfoldable pub node_groups : (Dict Text ℕ → Dict Text ℕ) → Act (List NodeGroup)
node_groups range_groups =
    gets (λ s. map (λ e. record { asg = e.1 }) (range_groups s.registered_asgs))

abbrev pub group_at : Option ℕ → Option NodeGroup
group_at none = none
group_at (some p) = some (record { asg = p })

abbrev pub group_of_ref : Result InstanceRef → Act (Result (Option NodeGroup))
group_of_ref (err e) = pure (err e)
group_of_ref (ok ref) = find_for_instance ref >>= λ p. pure (ok (group_at p))

-- `NodeGroupForNode`
unfoldable pub node_group_for_node : Node → Act (Result (Option NodeGroup))
node_group_for_node node =
    if is_empty node.provider_id
    then pure (ok none)
    else lift (ref_from_provider_id node.provider_id) >>= group_of_ref

abbrev pub node_not_present : Text → Error
node_not_present reason = failure (text "node is not present in aws: " ++ reason)

abbrev pub present : Result (Option Text) → Bool × Option Error
present (ok (some status)) = (true, none)
present (ok none) = (false, some (node_not_present (text "<nil>")))
present (err e) = (false, some (node_not_present (message e)))

abbrev pub has_ref : Result InstanceRef → Act (Bool × Option Error)
has_ref (err e) = pure (false, some e)
has_ref (ok ref) = status_of_instance ref >>= λ r. pure (present r)

abbrev pub is_text : Text → Option Text → Bool
is_text t none = false
is_text t (some s) = s == t

-- `HasInstance`
unfoldable pub has_instance : Node → Act (Bool × Option Error)
has_instance node =
    if has_prefix node.name (text "fargate")
    then pure (true, some (failure (text "not Implemented")))
    else if is_text (text "false")
        (lookup (text "k8s.io/cluster-autoscaler/enabled") node.annotations)
    then pure (false, none)
    else lift (ref_from_provider_id node.provider_id) >>= has_ref

module _ (svc : Service) (ng : NodeGroup) where
  abbrev pub max_size : Act ℤ
  max_size = load ng.asg >>= λ a. pure a.max_size

  abbrev pub min_size : Act ℤ
  min_size = load ng.asg >>= λ a. pure a.min_size

  abbrev pub target_size : Act (Result ℤ)
  target_size = load ng.asg >>= λ a. pure (ok a.cur_size)

  -- `Id`
  abbrev pub group_id : Act Text
  group_id = load ng.asg >>= λ a. pure a.name

  -- `Nodes`
  abbrev pub group_nodes : Act (Result (List InstanceRef))
  group_nodes = load ng.asg >>= λ a. instances_by_asg a.name

  abbrev pub increase_by : ℤ → Asg → Act (Option Error)
  increase_by delta a =
      if ltb_ℤ a.max_size (int64 (a.cur_size +ℤ delta))
      then pure (some (failure (text "size increase too large")))
      else set_asg_size svc ng.asg (int64 (a.cur_size +ℤ delta))

  -- `IncreaseSize`
  unfoldable pub increase_size : ℤ → Act (Option Error)
  increase_size delta =
      if leb_ℤ delta (pos 0)
      then pure (some (failure (text "size increase must be positive")))
      else load ng.asg >>= increase_by delta

  abbrev pub decrease_by : ℤ → Asg → Result (List InstanceRef) → Act (Option Error)
  decrease_by delta a (err e) = pure (some e)
  decrease_by delta a (ok nodes) =
      if ltb_ℤ (int64 (a.cur_size +ℤ delta)) (pos (length nodes))
      then pure (some (failure (text "attempt to delete existing nodes")))
      else set_asg_size svc ng.asg (int64 (a.cur_size +ℤ delta))

  -- `DecreaseTargetSize`
  unfoldable pub decrease_target_size : ℤ → Act (Option Error)
  decrease_target_size delta =
      if leb_ℤ (pos 0) delta
      then pure (some (failure (text "size decrease size must be negative")))
      else load ng.asg >>= λ a. instances_by_asg a.name >>= decrease_by delta a

  abbrev pub compare_group : Node → Option ℕ → Act (Result Bool)
  compare_group node none =
      pure (err (failure (node.name ++ text " doesn't belong to a known asg")))
  compare_group node (some p) = do
    target ← load p
    a ← load ng.asg
    pure (ok (target.name == a.name))

  abbrev pub belongs_ref : Node → Result InstanceRef → Act (Result Bool)
  belongs_ref node (err e) = pure (err e)
  belongs_ref node (ok ref) = find_for_instance ref >>= compare_group node

  -- `Belongs`
  unfoldable pub belongs : Node → Act (Result Bool)
  belongs node = lift (ref_from_provider_id node.provider_id) >>= belongs_ref node

  abbrev pub cons_ref : InstanceRef → Result (List InstanceRef) → Result (List InstanceRef)
  cons_ref ref (err e) = err e
  cons_ref ref (ok refs) = ok (ref ∷ refs)

  abbrev pub with_ref :
      Result InstanceRef → Act (Result (List InstanceRef)) → Act (Result (List InstanceRef))
  with_ref (err e) rest = pure (err e)
  with_ref (ok ref) rest = rest >>= λ refs. pure (cons_ref ref refs)

  abbrev pub if_belongs :
      Node → Result Bool → Act (Result (List InstanceRef)) → Act (Result (List InstanceRef))
  if_belongs node (err e) rest = pure (err e)
  if_belongs node (ok false) rest = group_id >>= λ id.
      pure (err (failure (node.name ++ (text " belongs to a different asg than " ++ id))))
  if_belongs node (ok true) rest =
      lift (ref_from_provider_id node.provider_id) >>= λ ref. with_ref ref rest

  -- The loop of `DeleteNodes`.
  unfoldable pub refs_of_nodes : List Node → Act (Result (List InstanceRef))
  unfolding belongs
  refs_of_nodes [] = pure (ok [])
  refs_of_nodes (node ∷ nodes) =
      belongs node >>= λ answer. if_belongs node answer (refs_of_nodes nodes)

  abbrev pub delete_refs : Result (List InstanceRef) → Act (Option Error)
  delete_refs (err e) = pure (some e)
  delete_refs (ok refs) = manager_delete_instances svc refs

  -- `DeleteNodes`
  unfoldable pub delete_nodes : List Node → Act (Option Error)
  unfolding refs_of_nodes
  delete_nodes nodes = load ng.asg >>= λ a.
      if leb_ℤ a.cur_size a.min_size
      then pure (some (failure (text "min size reached, nodes will not be deleted")))
      else refs_of_nodes nodes >>= delete_refs
