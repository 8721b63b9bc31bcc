-- ===== src/Autoscaler/Workers.antt =====
-- pkg/autoscaler/autoscaler.go, `getWorkerNodes`: where a worker comes from.
use capten_autoscaler.Base.{◌∷◌, Bool-cases, true, List, [], In, All, select, ◌≡◌, refl, inl, inr}
use capten_autoscaler.Cluster.Objects.{Node}
use capten_autoscaler.Cluster.Api.{ok, History, Env}
use capten_autoscaler.Autoscaler.{is_worker}

-- A node as the cluster listed it, which is no control plane.
pub record IsListedWorker (env : Env) (node : Node) : Type 0 where
  pub before : History
  pub nodes : List Node
  pub answered : env.on_list_nodes before ≡ ok nodes
  pub among : In node nodes
  pub works : is_worker node ≡ true

pub workers :
    (env : Env) (before : History) (all : List Node)
    → env.on_list_nodes before ≡ ok all
    → (nodes : List Node) → ((node : Node) → In node nodes → In node all)
    → All (IsListedWorker env) (select is_worker nodes)
workers env before all e [] within = tt
workers env before all e (node ∷ nodes) within =
    let rest = workers env before all e nodes (λ n i. within n (inr i)) in
    elim (Bool-cases (is_worker node)) [
      | inl worker ↦ rw worker (
        record {
          before = before;
          nodes = all;
          answered = e;
          among = within node (inl refl);
          works = worker;
        },
        rest,
      )
      | inr other ↦ rw other rest
    ]
