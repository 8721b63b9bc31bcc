-- ===== src/Drain/Cordon.antt =====
-- pkg/util/kubernetes/drain/cordon.go, and `RunCordonOrUncordon` of default.go: marking a node
-- unschedulable. `node` is a pointer, and `PatchOrReplace` writes to the object that it points to:
-- the new object is a part of the result.
pub mod Effect
pub mod Calls
pub mod Ends
mod Tests
use capten_autoscaler.Base.{
  ◌++◌, Text, text, Bool, true, false, not, ◌&&◌, ◌||◌, Option, none, some, if◌then◌else◌,
}
use capten_autoscaler.Cluster.Objects.{Node}
use capten_autoscaler.Cluster.Api.{
  Error, failure, wrap, message, Result, ok, err, patch_node, update_node, Env, Action, pure, ask,
  ◌>>=◌,
}
use capten_autoscaler.Drain.Filter.{Helper}

pub record CordonHelper : Type 0 where
  pub node : Node
  pub desired : Bool

unfoldable pub new_cordon_helper : Node → CordonHelper
new_cordon_helper node = record { node = node; desired = true }

-- Of `runtime.Scheme`: the conversion of an object to a version, the type assertion to a node, and the
-- name of an object's type.
pub record Scheme : Type 1 where
  pub Object : Type 0
  pub convert_to_version : Object → (group_version : Text) → Result Object
  pub as_node : Object → Option Node
  pub type_of : Object → Text

module _ (scheme : Scheme) where
  abbrev node_or_error : scheme.Object → Option Node → Result CordonHelper
  node_or_error o none = err (failure (text "unexpected type " ++ scheme.type_of o))
  node_or_error o (some node) = ok (new_cordon_helper node)

  abbrev from_converted : Result scheme.Object → Result CordonHelper
  from_converted (err e) = err e
  from_converted (ok o) = node_or_error o (scheme.as_node o)

  -- `NewCordonHelperFromRuntimeObject`
  unfoldable pub new_cordon_helper_from_runtime_object :
      scheme.Object → (group_version : Text) → Result CordonHelper
  unfolding new_cordon_helper
  new_cordon_helper_from_runtime_object o group_version =
      from_converted (scheme.convert_to_version o group_version)

abbrev bool_ne : Bool → Bool → Bool
bool_ne true b = not b
bool_ne false b = b

-- The helper with its wish, and whether that is a change.
unfoldable pub update_if_required : CordonHelper → Bool → CordonHelper × Bool
update_if_required c desired =
    (record c { desired = desired }, bool_ne c.node.unschedulable desired)

-- `(err, patchErr)` and the node after the call.
pub record Cordoned : Type 0 where
  pub node : Node
  pub error : Option Error
  pub patch_error : Option Error

module _ (env : Env) where
  abbrev send : Node → Bool → Result Text → Action Cordoned
  send node dry_run (ok patch) =
      ask (patch_node node.name patch dry_run) (λ h. env.on_patch_node h node.name patch dry_run)
      >>= λ e. pure (record { node = node; error = e; patch_error = none })
  send node dry_run (err bad) =
      ask (update_node node dry_run) (λ h. env.on_update_node h node dry_run) >>= λ e.
      pure (record { node = node; error = e; patch_error = some bad })

  abbrev with_data : Node → Bool → Text → Result Text → Action Cordoned
  with_data node dry_run old_data (err e) =
      pure (record { node = node; error = some e; patch_error = none })
  with_data node dry_run old_data (ok new_data) =
      send node dry_run (env.merge_patch old_data new_data node)

  abbrev with_old_data : CordonHelper → Bool → Result Text → Action Cordoned
  with_old_data c dry_run (err e) =
      pure (record { node = c.node; error = some e; patch_error = none })
  with_old_data c dry_run (ok old_data) =
      let node = record c.node { unschedulable = c.desired } in
      with_data node dry_run old_data (env.marshal_node node)

  -- `PatchOrReplaceWithContext`; `PatchOrReplace` calls it with a background context.
  unfoldable pub patch_or_replace : CordonHelper → (dry_run : Bool) → Action Cordoned
  patch_or_replace c dry_run = with_old_data c dry_run (env.marshal_node c.node)

  -- `err` is used by its text, `patchErr` is wrapped.
  abbrev cordon_error : Cordoned → Option Error
  cordon_error r = elim r.error [
    | none ↦ none
    | some e ↦ elim r.patch_error [
      | none ↦ some (wrap (text "cordon error: ") e)
      | some bad ↦
          some (wrap (text "cordon error: " ++ (message e ++ text "; merge patch error: ")) bad)
    ]
  ]

  unfoldable pub run_cordon_or_uncordon : Helper → Node → Bool → Action (Node × Option Error)
  unfolding patch_or_replace update_if_required new_cordon_helper
  run_cordon_or_uncordon drainer node desired =
      if not drainer.has_ctx
      then pure (node, some (failure (text "RunCordonOrUncordon error: drainer.Ctx can't be nil")))
      else if not drainer.has_client
      then pure
          (node, some (failure (text "RunCordonOrUncordon error: drainer.Client can't be nil")))
      else let (c, required) = update_if_required (new_cordon_helper node) desired in
        if not required
        then pure (node, none)
        else patch_or_replace c false >>= λ r. pure (r.node, cordon_error r)
