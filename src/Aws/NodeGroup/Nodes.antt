-- ===== src/Aws/NodeGroup/Nodes.antt =====
-- `DeleteNodes`: when it can make a request.
use capten_autoscaler.Base.{
  ◌≢◌, ℕ, ◌<ℤ◌, leb_ℤ, text_Eq, text_eq_iff, ◌==◌, Bool, true, false, Option, none, some, List, [],
  ◌∷◌, lookup, ◌≡◌, refl, ap, All, inl, inr, Bool-cases, arith,
}
use capten_autoscaler.Cluster.Objects.{Node}
use capten_autoscaler.Cluster.Api.{
  Error, Result, ok, err, Outcome, done, panicked, exited, unfinished,
}
use capten_autoscaler.Aws.Types.{InstanceRef, ref_Eq, Asg}
use capten_autoscaler.Aws.State.{Service, State, Act, pure, continue, ◌>>=◌, load, from_option}
use capten_autoscaler.Aws.Refs.{ref_from_provider_id}
use capten_autoscaler.Aws.Manager.{manager_delete_instances}
use capten_autoscaler.Aws.NodeGroup.{
  NodeGroup, compare_group, belongs_ref, belongs, cons_ref, with_ref, if_belongs, refs_of_nodes,
  delete_refs, delete_nodes,
}

module _ (svc : Service) (ng : NodeGroup) (s : State) (a : Asg)
    (here : s.cell ng.asg ≡ some a) where
  -- The node's provider id is one of an instance that the cache knows in a group of this one's name.
  abbrev pub IsMember : Node → Type 0
  IsMember node =
      (ref : InstanceRef) × (q : ℕ) × (b : Asg) × (ref_from_provider_id node.provider_id
        ≡ done (ok ref))
      × (lookup ref s.instance_to_asg ≡ some q)
      × (s.cell q ≡ some b)
      × (b.name ≡ a.name)

  abbrev IsYes : Outcome (Result Bool) → Type 0
  IsYes (done (ok true)) = Unit
  IsYes _ = ⊥

  -- An answer that leaves the state, and is yes only for a member.
  abbrev IsAnswer : Node → Outcome (Result Bool) × State → Type 0
  IsAnswer node (o, t) = (t ≡ s) × (IsYes o → IsMember node)

  yes_true : (b : Bool) → IsYes (done (ok b)) → b ≡ true
  yes_true true y = refl
  yes_true false y = absurd y

  compare_group-IsAnswer :
      (node : Node) (ref : InstanceRef) (o : Option ℕ)
      → ref_from_provider_id node.provider_id ≡ done (ok ref)
      → lookup ref s.instance_to_asg ≡ o
      → IsAnswer node (compare_group svc ng node o s)
  compare_group-IsAnswer node ref none e at = (refl, λ y. absurd y)
  compare_group-IsAnswer node ref (some q) e at = by_cell (s.cell q) refl
    where
      by_cell :
          (c : Option Asg)
          → s.cell q ≡ c
          → IsAnswer node (
              (from_option c >>= λ target. load ng.asg >>= λ b. pure (ok (target.name == b.name)))
                s)
      by_cell none there = (refl, λ y. absurd y)
      by_cell (some b) there = rw here (
        refl,
        λ y. (
          ref,
          q,
          b,
          e,
          at,
          there,
          (text_eq_iff b.name a.name).0 (yes_true (b.name == a.name) y),
        ),
      )

  belongs-IsAnswer : (node : Node) → IsAnswer node (belongs svc ng node s)
  unfolding belongs
  belongs-IsAnswer node = by_ref (ref_from_provider_id node.provider_id) refl
    where
      by_ref :
          (o : Outcome (Result InstanceRef))
          → ref_from_provider_id node.provider_id ≡ o
          → IsAnswer node (continue o (belongs_ref svc ng node) s)
      by_ref (done (ok ref)) e =
          compare_group-IsAnswer node ref (lookup ref s.instance_to_asg) e refl
      by_ref (done (err x)) e = (refl, λ y. absurd y)
      by_ref panicked e = (refl, λ y. absurd y)
      by_ref exited e = (refl, λ y. absurd y)
      by_ref unfinished e = (refl, λ y. absurd y)

  -- The instances that the nodes' provider ids name, in order.
  abbrev pub AreRefs : List Node → List InstanceRef → Type 0
  AreRefs [] [] = Unit
  AreRefs (node ∷ nodes) (ref ∷ refs) =
      (ref_from_provider_id node.provider_id ≡ done (ok ref)) × AreRefs nodes refs
  AreRefs _ _ = ⊥

  -- References to all nodes come only where all are members; the state stays.
  abbrev AreMembers : List Node → Outcome (Result (List InstanceRef)) × State → Type 0
  AreMembers nodes (done (ok refs), t) = (t ≡ s) × AreRefs nodes refs × All IsMember nodes
  AreMembers nodes (o, t) = t ≡ s

  cons-AreMembers :
      (node : Node) (nodes : List Node) (ref : InstanceRef)
      (o : Outcome (Result (List InstanceRef))) (t : State)
      → ref_from_provider_id node.provider_id ≡ done (ok ref)
      → IsMember node
      → AreMembers nodes (o, t)
      → AreMembers (node ∷ nodes) (continue o (λ refs. pure (cons_ref svc ng ref refs)) t)
  cons-AreMembers node nodes ref (done (ok refs)) t at m (e, rs, ms) = (e, (at, rs), (m, ms))
  cons-AreMembers node nodes ref (done (err x)) t at m e = e
  cons-AreMembers node nodes ref panicked t at m e = e
  cons-AreMembers node nodes ref exited t at m e = e
  cons-AreMembers node nodes ref unfinished t at m e = e

  module _ (node : Node) (nodes : List Node) (rest : Act (Result (List InstanceRef)))
      (k : AreMembers nodes (rest s)) where
    with_ref-AreMembers :
        (o : Outcome (Result InstanceRef))
        → ref_from_provider_id node.provider_id ≡ o
        → IsMember node
        → AreMembers (node ∷ nodes) (continue o (λ ref. with_ref svc ng ref rest) s)
    with_ref-AreMembers (done (ok ref)) at m =
        cons-AreMembers node nodes ref (rest s).0 (rest s).1 at m k
    with_ref-AreMembers (done (err e)) at m = refl
    with_ref-AreMembers panicked at m = refl
    with_ref-AreMembers exited at m = refl
    with_ref-AreMembers unfinished at m = refl

    if_belongs-AreMembers :
        (o : Outcome (Result Bool)) (t : State)
        → IsAnswer node (o, t)
        → AreMembers (node ∷ nodes) (continue o (λ answer. if_belongs svc ng node answer rest) t)
    if_belongs-AreMembers (done (ok true)) t (e, m) =
        rw e (with_ref-AreMembers (ref_from_provider_id node.provider_id) refl (m tt))
    if_belongs-AreMembers (done (ok false)) t (e, m) = rw (e, here)
    if_belongs-AreMembers (done (err x)) t (e, m) = e
    if_belongs-AreMembers panicked t (e, m) = e
    if_belongs-AreMembers exited t (e, m) = e
    if_belongs-AreMembers unfinished t (e, m) = e

  refs_of_nodes-AreMembers : (nodes : List Node) → AreMembers nodes (refs_of_nodes svc ng nodes s)
  unfolding refs_of_nodes
  refs_of_nodes-AreMembers [] = (refl, tt, tt)
  refs_of_nodes-AreMembers (node ∷ nodes) =
      if_belongs-AreMembers node nodes (refs_of_nodes svc ng nodes) (refs_of_nodes-AreMembers nodes)
        (belongs svc ng node s).0 (belongs svc ng node s).1 (belongs-IsAnswer node)

  -- All are members, and what is left is the deletion of what they name.
  abbrev pub IsDeletion : List Node → Outcome (Option Error) × State → Type 0
  IsDeletion nodes r =
      All IsMember nodes
      × (refs : List InstanceRef) × AreRefs nodes refs
      × (r ≡ manager_delete_instances svc refs s)

  delete_refs-IsDeletion :
      (nodes : List Node) (o : Outcome (Result (List InstanceRef))) (t : State)
      → AreMembers nodes (o, t)
      → (continue o (delete_refs svc ng) t).1.log ≢ s.log
      → IsDeletion nodes (continue o (delete_refs svc ng) t)
  delete_refs-IsDeletion nodes (done (ok refs)) t (e, rs, ms) ne =
      (ms, refs, rs, ap (manager_delete_instances svc refs) e)
  delete_refs-IsDeletion nodes (done (err x)) t e ne = absurd (ne (ap (λ u. u.log) e))
  delete_refs-IsDeletion nodes panicked t e ne = absurd (ne (ap (λ u. u.log) e))
  delete_refs-IsDeletion nodes exited t e ne = absurd (ne (ap (λ u. u.log) e))
  delete_refs-IsDeletion nodes unfinished t e ne = absurd (ne (ap (λ u. u.log) e))

  -- `DeleteNodes` makes a request only if the group is above its least size and every node that it is
  -- given has a provider id of an instance that the cache knows in a group of this group's name. Then
  -- its outcome and its state are those of the manager's deletion of just these instances, in order.
  pub delete_nodes-IsMember :
      (nodes : List Node)
      → (delete_nodes svc ng nodes s).1.log ≢ s.log
      → (a.min_size <ℤ a.cur_size) × IsDeletion nodes (delete_nodes svc ng nodes s)
  unfolding delete_nodes
  delete_nodes-IsMember nodes ne = elim (Bool-cases (leb_ℤ a.cur_size a.min_size)) [
    | inl reached ↦ absurd (ne (rw (here, reached)))
    | inr above ↦ (
      ground arith,
      rw (here, above)
          (delete_refs-IsDeletion nodes (refs_of_nodes svc ng nodes s).0
            (refs_of_nodes svc ng nodes s).1 (refs_of_nodes-AreMembers nodes)
            (rw (here, above) at ne)),
    )
  ]
