-- ===== src/Aws/NodeGroup/Kept.antt =====
-- The operations of node groups, for any invariant that a request and a write to a group keep.
use capten_autoscaler.Base.{
  ℕ, ℤ, pos, ◌+ℤ◌, int64, ltb_ℤ, leb_ℤ, Text, Bool, true, false, Option, none, some, List, [], ◌∷◌,
  length, lookup, text_Eq,
}
use capten_autoscaler.Cluster.Objects.{Node}
use capten_autoscaler.Cluster.Api.{Result, ok, err}
use capten_autoscaler.Aws.Types.{InstanceRef, ref_Eq, Asg}
use capten_autoscaler.Aws.State.{
  Request, set_desired_capacity, Service, State, Act, pure, gets, lift, load,
}
use capten_autoscaler.Aws.State.Rules.{Does, Does-pure, Does-lift, Does-gets, Does-if, Does-bind}
use capten_autoscaler.Aws.Refs.{ref_from_provider_id}
use capten_autoscaler.Aws.Groups.Stable.{IsStable, Does-load, set_asg_size-Does}
use capten_autoscaler.Aws.Manager.{manager_delete_instances}
use capten_autoscaler.Aws.NodeGroup.{
  NodeGroup, increase_by, increase_size, decrease_by, decrease_target_size, compare_group,
  belongs_ref, belongs, cons_ref, with_ref, if_belongs, refs_of_nodes, delete_refs, delete_nodes,
}

module _ (I : State → Type 0) (stable : IsStable I) (P : Request → Type 0) (svc : Service)
    (ng : NodeGroup) where
  load_it : (p : ℕ) → Does I P (load p)
  load_it p = Does-load I stable P p

  module _ (resize : (name : Text) (size : ℤ) → P (set_desired_capacity name size)) where
    pub increase_size-Does : (delta : ℤ) → Does I P (increase_size svc ng delta)
    unfolding increase_size
    increase_size-Does delta = Does-if I P (leb_ℤ delta (pos 0)) (pure _) _ (Does-pure I P _) (
        Does-bind I P (load ng.asg) (increase_by svc ng delta) (load_it ng.asg) (λ a.
          Does-if I P (ltb_ℤ a.max_size (int64 (a.cur_size +ℤ delta))) (pure _) _ (Does-pure I P _)
            (set_asg_size-Does I stable P svc ng.asg (int64 (a.cur_size +ℤ delta))
              (λ s i a at size. resize a.name size))))

    decrease_by-Does :
        (delta : ℤ) (a : Asg) (r : Result (List InstanceRef))
        → Does I P (decrease_by svc ng delta a r)
    decrease_by-Does delta a (err e) = Does-pure I P _
    decrease_by-Does delta a (ok nodes) =
        Does-if I P (ltb_ℤ (int64 (a.cur_size +ℤ delta)) (pos (length nodes))) (pure _) _
          (Does-pure I P _)
          (set_asg_size-Does I stable P svc ng.asg (int64 (a.cur_size +ℤ delta))
            (λ s i a at size. resize a.name size))

    pub decrease_target_size-Does : (delta : ℤ) → Does I P (decrease_target_size svc ng delta)
    unfolding decrease_target_size
    decrease_target_size-Does delta =
        Does-if I P (leb_ℤ (pos 0) delta) (pure _) _ (Does-pure I P _) (
          Does-bind I P (load ng.asg) _ (load_it ng.asg) (λ a.
            Does-bind I P (gets _) (decrease_by svc ng delta a) (Does-gets I P _)
              (decrease_by-Does delta a)))

  compare_group-Does : (node : Node) (o : Option ℕ) → Does I P (compare_group svc ng node o)
  compare_group-Does node none = Does-pure I P _
  compare_group-Does node (some p) =
      Does-bind I P (load p) _ (load_it p)
        (λ target. Does-bind I P (load ng.asg) _ (load_it ng.asg) (λ a. Does-pure I P _))

  belongs_ref-Does : (node : Node) (r : Result InstanceRef) → Does I P (belongs_ref svc ng node r)
  belongs_ref-Does node (err e) = Does-pure I P _
  belongs_ref-Does node (ok ref) =
      Does-bind I P (gets (λ s. lookup ref s.instance_to_asg)) (compare_group svc ng node)
        (Does-gets I P _) (compare_group-Does node)

  pub belongs-Does : (node : Node) → Does I P (belongs svc ng node)
  unfolding belongs
  belongs-Does node =
      Does-bind I P (lift (ref_from_provider_id node.provider_id)) (belongs_ref svc ng node)
        (Does-lift I P _) (belongs_ref-Does node)

  with_ref-Does :
      (r : Result InstanceRef) (rest : Act (Result (List InstanceRef)))
      → Does I P rest
      → Does I P (with_ref svc ng r rest)
  with_ref-Does (err e) rest k = Does-pure I P _
  with_ref-Does (ok ref) rest k =
      Does-bind I P rest (λ refs. pure (cons_ref svc ng ref refs)) k (λ refs. Does-pure I P _)

  if_belongs-Does :
      (node : Node) (r : Result Bool) (rest : Act (Result (List InstanceRef)))
      → Does I P rest
      → Does I P (if_belongs svc ng node r rest)
  if_belongs-Does node (err e) rest k = Does-pure I P _
  if_belongs-Does node (ok false) rest k =
      Does-bind I P _ _
        (Does-bind I P (load ng.asg) (λ a. pure a.name) (load_it ng.asg)
          (λ a. Does-pure I P a.name))
        (λ id. Does-pure I P _)
  if_belongs-Does node (ok true) rest k =
      Does-bind I P (lift (ref_from_provider_id node.provider_id)) (λ ref. with_ref svc ng ref rest)
        (Does-lift I P _) (λ ref. with_ref-Does ref rest k)

  pub refs_of_nodes-Does : (nodes : List Node) → Does I P (refs_of_nodes svc ng nodes)
  unfolding refs_of_nodes
  refs_of_nodes-Does [] = Does-pure I P _
  refs_of_nodes-Does (node ∷ nodes) =
      Does-bind I P (belongs svc ng node) _ (belongs-Does node) (λ answer.
        if_belongs-Does node answer (refs_of_nodes svc ng nodes) (refs_of_nodes-Does nodes))

  delete_refs-Does :
      (r : Result (List InstanceRef))
      → ((refs : List InstanceRef) → Does I P (manager_delete_instances svc refs))
      → Does I P (delete_refs svc ng r)
  delete_refs-Does (err e) k = Does-pure I P _
  delete_refs-Does (ok refs) k = k refs

  pub delete_nodes-Does :
      (nodes : List Node)
      → ((refs : List InstanceRef) → Does I P (manager_delete_instances svc refs))
      → Does I P (delete_nodes svc ng nodes)
  unfolding delete_nodes
  delete_nodes-Does nodes k = Does-bind I P (load ng.asg) _ (load_it ng.asg) (λ a.
      Does-if I P (leb_ℤ a.cur_size a.min_size) (pure _) _ (Does-pure I P _) (
        Does-bind I P (refs_of_nodes svc ng nodes) (delete_refs svc ng) (refs_of_nodes-Does nodes)
          (λ r. delete_refs-Does r k)))
