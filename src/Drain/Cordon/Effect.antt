-- ===== src/Drain/Cordon/Effect.antt =====
-- What cordoning a node does to the node's object and to the cluster.
use capten_autoscaler.Base.{
  subst, ◌≢◌, Text, Bool, true, false, not, Option, none, some, ◌∷◌, ◌≡◌, refl, ◌⊎◌, inl, inr,
  if◌then◌else◌, arith, Bool-cases,
}
use capten_autoscaler.Cluster.Objects.{Node}
use capten_autoscaler.Cluster.Api.{
  Error, Result, ok, err, patch_node, update_node, History, Env, done, Action, pure, ◌>>=◌,
}
use capten_autoscaler.Cluster.Laws.{bind-eq-done}
use capten_autoscaler.Drain.Filter.{Helper}
use capten_autoscaler.Drain.Cordon.{
  Cordoned, new_cordon_helper, update_if_required, bool_ne, send, with_data, with_old_data,
  patch_or_replace, cordon_error, run_cordon_or_uncordon,
}

-- The node with the wish in place, and nothing else changed.
abbrev pub marked : Node → Bool → Node
marked node desired = record node { unschedulable = desired }

module _ (env : Env) where
  -- The one call of a cordon, which the API server answered without an error: the patch that leads from
  -- the node to the node as wished, or an update to the node as wished where there is no such patch.
  pub data IsCalled (node : Node) (desired : Bool) (old new : Text) (h h' : History) : Type 0 where
    patched :
        (patch : Text)
        → env.merge_patch old new (marked node desired) ≡ ok patch
        → h' ≡ patch_node node.name patch false ∷ h
        → env.on_patch_node h node.name patch false ≡ none
        → IsCalled node desired old new h h'
    replaced :
        (bad : Error)
        → env.merge_patch old new (marked node desired) ≡ err bad
        → h' ≡ update_node (marked node desired) false ∷ h
        → env.on_update_node h (marked node desired) false ≡ none
        → IsCalled node desired old new h h'

  -- A cordon that reached the cluster, with what the node was encoded as before and after.
  pub record IsSent (node : Node) (desired : Bool) (h h' : History) : Type 0 where
    pub old : Text
    pub new : Text
    pub encoded : env.marshal_node node ≡ ok old
    pub encoded_after : env.marshal_node (marked node desired) ≡ ok new
    pub called : IsCalled node desired old new h h'

  module _ (node : Node) (desired : Bool) where
    send_inv :
        (old new : Text) (r : Result Text) (h h' : History) (made : Cordoned)
        → env.merge_patch old new (marked node desired) ≡ r
        → send env (marked node desired) false r h ≡ (done made, h')
        → made.error ≡ none
        → (made.node ≡ marked node desired) × IsCalled node desired old new h h'
    send_inv old new (ok patch) h h' made merged e quiet =
        (ground arith, patched patch merged (ground arith) (ground arith))
    send_inv old new (err bad) h h' made merged e quiet =
        (ground arith, replaced bad merged (ground arith) (ground arith))

    with_data_inv :
        (old : Text) (r : Result Text) (h h' : History) (made : Cordoned)
        → env.marshal_node node ≡ ok old
        → env.marshal_node (marked node desired) ≡ r
        → with_data env (marked node desired) false old r h ≡ (done made, h')
        → made.error ≡ none
        → (made.node ≡ marked node desired) × IsSent node desired h h'
    with_data_inv old (ok new) h h' made before after e quiet =
        let (fits, called) =
          send_inv old new (env.merge_patch old new (marked node desired)) h h' made refl e quiet in
        (
          fits,
          record { old = old; new = new; encoded = before; encoded_after = after; called = called },
        )
    with_data_inv old (err x) h h' made before after e quiet = ground arith

    with_old_data_inv :
        (r : Result Text) (h h' : History) (made : Cordoned)
        → env.marshal_node node ≡ r
        → with_old_data env (record { node = node; desired = desired }) false r h ≡ (done made, h')
        → made.error ≡ none
        → (made.node ≡ marked node desired) × IsSent node desired h h'
    with_old_data_inv (ok old) h h' made before e quiet =
        with_data_inv old (env.marshal_node (marked node desired)) h h' made before refl e quiet
    with_old_data_inv (err x) h h' made before e quiet = ground arith

    cordon_error_inv :
        (n : Node) (e patch_error : Option Error)
        → cordon_error env (record { node = n; error = e; patch_error = patch_error }) ≡ none
        → e ≡ none
    cordon_error_inv n none patch_error eq = refl
    cordon_error_inv n (some x) none eq = cc
    cordon_error_inv n (some x) (some bad) eq = cc

    abbrev report : Cordoned → Action (Node × Option Error)
    report r = pure (r.node, cordon_error env r)

    -- Without a change to make the node is returned as it is and no call is made; with one, the node is
    -- marked and the call is made.
    abbrev pub IsCordoned : History → History → Node → Type 0
    IsCordoned h h' node' =
        ((node.unschedulable ≡ desired) × (node' ≡ node) × (h' ≡ h))
        ⊎ ((node.unschedulable ≢ desired)
            × (node' ≡ marked node desired)
            × IsSent node desired h h')

    required_inv :
        (h h' : History) (node' : Node) (required : Bool)
        → bool_ne node.unschedulable desired ≡ required
        → (if not required
              then pure (node, none)
              else patch_or_replace env (record { node = node; desired = desired }) false
                >>= report)
            h
          ≡ (done (node', none), h')
        → IsCordoned h h' node'
    unfolding patch_or_replace
    required_inv h h' node' false same e = inl (ground arith, ground arith, ground arith)
    required_inv h h' node' true differs e =
        let (r, h1, made, reported) =
          bind-eq-done (patch_or_replace env (record { node = node; desired = desired }) false)
            report h e in
        let (fits, sent) =
          with_old_data_inv (env.marshal_node node) h h1 r refl made
            (cordon_error_inv r.node r.error r.patch_error (ground arith)) in
        inr
          ((λ same. ground arith), ground arith, subst (IsSent node desired h) (ground arith) sent)

  -- When `RunCordonOrUncordon` returns no error, a node whose mark is as wished is returned as it is and
  -- no call was made; a node whose mark is not is returned with the mark as wished and nothing else
  -- changed, and one call was made, which the API server answered without an error: the merge patch
  -- from the node to the marked node, or an update to the marked node where there is no such patch.
  pub run_cordon-IsSent :
      (drainer : Helper) (node : Node) (desired : Bool) (h h' : History) (node' : Node)
      → run_cordon_or_uncordon env drainer node desired h ≡ (done (node', none), h')
      → IsCordoned node desired h h' node'
  unfolding run_cordon_or_uncordon update_if_required new_cordon_helper
  run_cordon-IsSent drainer node desired h h' node' e = elim (Bool-cases drainer.has_ctx) [
    | inl ctx ↦ elim (Bool-cases drainer.has_client) [
      | inl client ↦
          required_inv node desired h h' node' (bool_ne node.unschedulable desired) refl
            (rw client at (rw ctx at e))
      | inr client ↦ ground arith
    ]
    | inr ctx ↦ ground arith
  ]
