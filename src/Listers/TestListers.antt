-- ===== src/Listers/TestListers.antt =====
-- pkg/util/kubernetes/k8sapi/testlisters.go: listers of given objects, for tests.
use capten_autoscaler.Base.{
  Text, text, text_Eq, List, [], ◌∷◌, ◌++◌, ◌==◌, if◌then◌else◌, ◌≡◌, refl, In, inl, inr, ap, ◌∙◌,
  true, false, Bool-cases, text_eq, text_eq_iff,
}
use capten_autoscaler.Cluster.Objects.{Pod, Node}
use capten_autoscaler.Cluster.Api.{Error, failure, message, Result, ok, err, pure}
use capten_autoscaler.Listers.Registry.{
  InformerListers, PodLister, PodDisruptionBudgetLister, NodeLister,
}

-- `NewTestPodLister`
unfoldable pub new_test_pod_lister : List Pod → PodLister
new_test_pod_lister pods = record { list = pure (ok pods) }

-- `NewTestPodDisruptionBudgetLister`
unfoldable pub new_test_pod_disruption_budget_lister :
    {Budget : Type 0} → List Budget → PodDisruptionBudgetLister Budget
new_test_pod_disruption_budget_lister budgets = record { list = pure (ok budgets) }

-- `TestNodeLister`, whose methods take it by pointer: a state.
pub record TestNodeLister : Type 0 where
  pub nodes : List Node

abbrev pub node_not_found : Text → Error
node_not_found name = failure (text "Node " ++ (name ++ text " not found"))

-- `TestNodeLister.Get`
unfoldable pub find_node : Text → List Node → Result Node
find_node name [] = err (node_not_found name)
find_node name (node ∷ nodes) = if node.name == name then ok node else find_node name nodes

-- `SetNodes`
abbrev pub set_nodes : List Node → TestNodeLister → TestNodeLister
set_nodes nodes lister = record { nodes = nodes }

-- The lister's two methods at a state.
unfoldable pub test_node_lister : TestNodeLister → NodeLister
unfolding find_node
test_node_lister lister = record {
  list = pure (ok lister.nodes);
  get = λ name. pure (find_node name lister.nodes);
}

-- `NewTestNodeLister`
abbrev pub new_test_node_lister : List Node → TestNodeLister
new_test_node_lister nodes = record { nodes = nodes }

-- An indexer of `k8s.io/client-go`, to which an object of any type is added, and the listers over it.
pub record Indexers (lib : InformerListers) : Type 1 where
  pub Store : Type 0
  pub ConfigMapLister : Type 0
  pub new_indexer : Store
  pub store_add : {X : Type 0} → X → Store → Result Store
  pub new_daemon_set_lister : Store → lib.DaemonSetLister
  pub new_replication_controller_lister : Store → lib.ReplicationControllerLister
  pub new_job_lister : Store → lib.JobLister
  pub new_replica_set_lister : Store → lib.ReplicaSetLister
  pub new_stateful_set_lister : Store → lib.StatefulSetLister
  pub new_config_map_lister : Store → ConfigMapLister

-- The loop of each of the functions below: the objects are added one by one.
unfoldable pub fill_store : {X S : Type 0} → (X → S → Result S) → List X → S → Result S
fill_store add [] store = ok store
fill_store add (x ∷ xs) store = elim (add x store) [
  | ok filled ↦ fill_store add xs filled
  | err e ↦ err (failure (text "Error adding object to cache: " ++ message e))
]

abbrev pub lister_over : {S L : Type 0} → (S → L) → Result S → Result L
lister_over new_lister (ok store) = ok (new_lister store)
lister_over new_lister (err e) = err e

module _ (lib : InformerListers) (indexers : Indexers lib) {X : Type 0} where
  -- `NewTestDaemonSetLister`, for any type of objects
  unfoldable pub new_test_daemon_set_lister : List X → Result lib.DaemonSetLister
  unfolding fill_store
  new_test_daemon_set_lister dss =
      lister_over indexers.new_daemon_set_lister
        (fill_store indexers.store_add dss indexers.new_indexer)

  -- `NewTestReplicationControllerLister`, for any type of objects
  unfoldable pub new_test_replication_controller_lister :
      List X → Result lib.ReplicationControllerLister
  unfolding fill_store
  new_test_replication_controller_lister rcs =
      lister_over indexers.new_replication_controller_lister
        (fill_store indexers.store_add rcs indexers.new_indexer)

  -- `NewTestJobLister`, for any type of objects
  unfoldable pub new_test_job_lister : List X → Result lib.JobLister
  unfolding fill_store
  new_test_job_lister jobs =
      lister_over indexers.new_job_lister (fill_store indexers.store_add jobs indexers.new_indexer)

  -- `NewTestReplicaSetLister`, for any type of objects
  unfoldable pub new_test_replica_set_lister : List X → Result lib.ReplicaSetLister
  unfolding fill_store
  new_test_replica_set_lister rss =
      lister_over indexers.new_replica_set_lister
        (fill_store indexers.store_add rss indexers.new_indexer)

  -- `NewTestStatefulSetLister`, for any type of objects
  unfoldable pub new_test_stateful_set_lister : List X → Result lib.StatefulSetLister
  unfolding fill_store
  new_test_stateful_set_lister sss =
      lister_over indexers.new_stateful_set_lister
        (fill_store indexers.store_add sss indexers.new_indexer)

  -- `NewTestConfigMapLister`, for any type of objects
  unfoldable pub new_test_config_map_lister : List X → Result indexers.ConfigMapLister
  unfolding fill_store
  new_test_config_map_lister cms =
      lister_over indexers.new_config_map_lister
        (fill_store indexers.store_add cms indexers.new_indexer)

-- What `Get` finds is a listed node of the name, and it fails only if there is none.
data IsFound (name : Text) (nodes : List Node) : Result Node → Type 0 where
  found : {node : Node} → In node nodes → node.name ≡ name → IsFound name nodes (ok node)
  missing :
      ((node : Node) → In node nodes → node.name ≡ name → ⊥)
      → IsFound name nodes (err (node_not_found name))

find_node-IsFound : (name : Text) (nodes : List Node) → IsFound name nodes (find_node name nodes)
unfolding find_node
find_node-IsFound name [] = missing (λ node m e. elim m [ ])
find_node-IsFound name (node ∷ nodes) = elim (Bool-cases (node.name == name)) [
  | inl same ↦ rw same (found (inl refl) ((text_eq_iff node.name name).0 same))
  | inr other ↦ rw other (later (find_node-IsFound name nodes) other)
]
  where
    differs : text_eq node.name name ≡ true → text_eq node.name name ≡ false → ⊥
    differs e f = cc

    later :
        {r : Result Node}
        → IsFound name nodes r
        → text_eq node.name name ≡ false
        → IsFound name (node ∷ nodes) r
    later (found m e) other = found (inr m) e
    later (missing none_there) other = missing (λ x m e. elim m [
      | inl same ↦
          differs ((text_eq_iff node.name name).1 (ap (λ (n : Node). n.name) same ∙ e)) other
      | inr rest ↦ none_there x rest e
    ])
