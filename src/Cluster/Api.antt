-- ===== src/Cluster/Api.antt =====
-- The calls that the program makes to its outside world, and the world's answers. The world is an
-- arbitrary function of the calls made so far, so a statement for every `Env` holds for every
-- cluster, cloud and clock. The record of calls has the newest first.
use capten_autoscaler.Base.{
  Dict, some, none, ℕ, ℤ, Text, Bool, true, false, Option, List, ◌∷◌, ◌++◌,
}
use capten_autoscaler.Cluster.Objects.{Pod, Node, Time}

-- The reasons of an API status that the program asks for.
pub data Reason : Type 0 where
  not_found too_many_requests forbidden other : Reason

pub data Error : Type 0 where
  -- an API status: its reason, whether it has the cause `NamespaceTerminating`, its message
  api : Reason → Bool → Text → Error
  -- `errors.New`, `fmt.Errorf` of a text
  failure : Text → Error
  -- `fmt.Errorf` around another error
  wrap : Text → Error → Error

abbrev pub message : Error → Text
message (api _ _ m) = m
message (failure m) = m
message (wrap m e) = m ++ message e

abbrev pub is_not_found : Error → Bool
is_not_found (api not_found _ _) = true
is_not_found (wrap _ e) = is_not_found e
is_not_found _ = false

abbrev pub is_too_many_requests : Error → Bool
is_too_many_requests (api too_many_requests _ _) = true
is_too_many_requests (wrap _ e) = is_too_many_requests e
is_too_many_requests _ = false

-- `IsForbidden(err) && HasStatusCause(err, NamespaceTerminatingCause)`
abbrev pub is_terminating_namespace : Error → Bool
is_terminating_namespace (api forbidden cause _) = cause
is_terminating_namespace (wrap _ e) = is_terminating_namespace e
is_terminating_namespace _ = false

-- A value and an error, of which Go code uses one.
pub data Result {ℓ} (A : Type ℓ) : Type ℓ where
  ok : A → Result A
  err : Error → Result A

pub record GroupVersion : Type 0 where
  pub group : Text
  pub version : Text

pub record ApiResource : Type 0 where
  pub name : Text
  pub kind : Text
  pub group : Text
  pub version : Text

-- A nil grace period leaves the pod's own.
abbrev pub Grace : Type 0
Grace = Option ℤ

pub record PodAnswer : Type 0 where
  pub found : Option Pod
  pub error : Option Error

pub data Call : Type 0 where
  list_pods list_nodes : Call
  list_node_pods : (selector node_name : Text) → Call
  get_pod get_daemon_set : (namespace name : Text) → Call
  delete_pod : (namespace name : Text) → Grace → Call
  evict_v1 evict_v1beta1 : (namespace name : Text) → Grace → Call
  server_resources : Call
  patch_node : (name patch : Text) → (dry_run : Bool) → Call
  update_node : Node → (dry_run : Bool) → Call
  delete_node : (name : Text) → Call
  scale_up : (count : ℤ) → Call
  scale_down : (node_name : Text) → Call
  ctx_done : Call
  sleep : (seconds : ℕ) → Call

abbrev pub History : Type 0
History = List Call

-- Go code that runs to its end returns; a panic or `log.Fatalf` ends the program. `unfinished` says
-- that a loop without a bound of its own ran out of the rounds that the model gives it.
pub data Outcome {ℓ} (A : Type ℓ) : Type ℓ where
  done : A → Outcome A
  panicked : Outcome A
  exited : Outcome A
  unfinished : Outcome A

-- The answers, each at the calls before it.
pub record Env : Type 0 where
  pub on_list_pods : History → Result (List Pod)
  pub on_list_nodes : History → Result (List Node)
  pub on_list_node_pods : History → (selector node_name : Text) → Result (List Pod)
  -- Go's `(*Pod, error)`: the library may return a pod, an error, or both
  pub on_get_pod : History → (namespace name : Text) → PodAnswer
  pub on_get_daemon_set : History → (namespace name : Text) → Option Error
  pub on_delete_pod : History → (namespace name : Text) → Grace → Option Error
  pub on_evict_v1 : History → (namespace name : Text) → Grace → Option Error
  pub on_evict_v1beta1 : History → (namespace name : Text) → Grace → Option Error
  pub on_server_resources : History → Result (List ApiResource)
  pub on_patch_node : History → (name patch : Text) → Bool → Option Error
  pub on_update_node : History → Node → Bool → Option Error
  pub on_delete_node : History → (name : Text) → Option Error
  -- the cloud provider of the deployment: its code may end the program
  pub on_scale_up : History → ℤ → Outcome (Option Error)
  pub on_scale_down : History → Text → Outcome (Option Error)
  pub on_ctx_done : History → Bool
  pub now : History → Time
  -- `labels.Parse(s)` and then `.String()`
  pub parse_selector : Text → Result Text
  -- `json.Marshal` and `strategicpatch.CreateTwoWayMergePatch`
  pub marshal_node : Node → Result Text
  pub merge_patch : (old_data new_data : Text) → Node → Result Text
  -- `utilerrors.NewAggregate`
  pub new_aggregate : List Error → Option Error
  -- the order in which the results of goroutines arrive on a channel
  pub arrival : History → List Pod → List Pod
  -- the order in which `range` visits a map from messages to pods
  pub range_order : Dict Text (List Text) → Dict Text (List Text)

abbrev pub Action {ℓ} : Type ℓ → Type ℓ
Action A = History → Outcome A × History

module _ {ℓ} {A : Type ℓ} where
  abbrev pub pure : A → Action A
  pure a h = (done a, h)

  abbrev pub panic : Action A
  panic h = (panicked, h)

  -- One call: the world answers, and the call is recorded.
  abbrev pub ask : Call → (History → A) → Action A
  ask c answer h = (done (answer h), c ∷ h)

  -- A call of code that may end the program.
  abbrev pub ask_out : Call → (History → Outcome A) → Action A
  ask_out c answer h = (answer h, c ∷ h)

module _ {ℓ κ} {A : Type ℓ} {B : Type κ} where
  abbrev pub continue : Outcome A → (A → Action B) → Action B
  continue (done a) f h = f a h
  continue panicked f h = (panicked, h)
  continue exited f h = (exited, h)
  continue unfinished f h = (unfinished, h)

  infixl 5 ◌>>=◌ ◌>>◌
  abbrev pub ◌>>=◌ : Action A → (A → Action B) → Action B
  ◌>>=◌ m f h = continue (m h).0 f (m h).1

  abbrev pub ◌>>◌ : Action A → Action B → Action B
  m >> n = m >>= λ _. n

  -- `if err != nil { return err }` after a call with a value, and after one without.
  abbrev pub on_ok : Result A → (A → Action (Result B)) → Action (Result B)
  on_ok (ok a) f = f a
  on_ok (err e) f = pure (err e)

-- A function that returns an error only.
abbrev pub on_nil {ℓ} : {B : Type ℓ} → Option Error → Action (Result B) → Action (Result B)
on_nil none next = next
on_nil (some e) next = pure (err e)

-- The code runs to its end, with a value that has the property.
abbrev pub Returns {ℓ} : {A : Type ℓ} → Outcome A → (A → Type 0) → Type 0
Returns (done a) P = P a
Returns panicked P = ⊥
Returns exited P = ⊥
Returns unfinished P = ⊥
