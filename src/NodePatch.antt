-- ===== src/NodePatch.antt =====
-- pkg/util/kubernetes/k8sapi/node.go: marking a node by a JSON patch. The node client is the library's.
use capten_autoscaler.Base.{
  Text, text, join, ◌++◌, Bool, true, false, Option, none, some, List, [], ◌∷◌, map, ◌≡◌, refl,
}
use capten_autoscaler.Cluster.Objects.{Node}
use capten_autoscaler.Cluster.Api.{Error, failure, Result, ok, err}

pub record NodePatchRequest : Type 0 where
  pub op : Text
  pub path : Text
  pub value : Bool

-- `json.Marshal`, on texts that need no escapes.
abbrev pub json_text : Text → Text
json_text t = b'"' ∷ (t ++ (b'"' ∷ []))

abbrev pub json_bool : Bool → Text
json_bool true = text "true"
json_bool false = text "false"

abbrev pub json_request : NodePatchRequest → Text
json_request r =
    text "{\"op\":"
    ++ (json_text r.op
        ++ (text ",\"path\":"
            ++ (json_text r.path ++ (text ",\"value\":" ++ (json_bool r.value ++ text "}")))))

unfoldable pub json_requests : List NodePatchRequest → Text
unfolding join
json_requests rs = text "[" ++ (join (map json_request rs) (text ",") ++ text "]")

abbrev pub payload : List NodePatchRequest
payload = record { op = text "replace"; path = text "/spec/unschedulable"; value = true } ∷ []

abbrev pub unscheduled : Result Node → Option Error
unscheduled (ok node) = none
unscheduled (err e) = some (failure (text "failed to unschedule node"))

-- `CordonAndDrainNode`; `patch` is the client's, for patches of the type `types.JSONPatchType`, by the
-- node's name. The result and the client's state after it.
unfoldable pub cordon_and_drain_node :
    {S : Type 0} → (Text → Text → S → Result Node × S) → Node → S → Option Error × S
unfolding json_requests
cordon_and_drain_node patch node s =
    let r = patch node.name (json_requests payload) s in (unscheduled r.0, r.1)

json_payload :
    json_requests payload
    ≡ text "[{\"op\":\"replace\",\"path\":\"/spec/unschedulable\",\"value\":true}]"
unfolding json_requests join
json_payload = refl
