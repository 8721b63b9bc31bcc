-- ===== src/Deployment/Requests.antt =====
-- What a run of the autoscaler asks of Azure's API.
use capten_autoscaler.Base.{◌≤◌, ℤ, pos_part, ◌+ℤ◌, int64, Text, some, ◌∷◌, ◌≡◌}
use capten_autoscaler.Cluster.Api.{ok, scale_up, scale_down, History, Env}
use capten_autoscaler.Cluster.Laws.{Later}
use capten_autoscaler.Drain.Wait.{Poller}
use capten_autoscaler.Azure.{Vm, Request, update_capacity, delete_vm}
use capten_autoscaler.Azure.Choice.{IsMachine, IsListed}
use capten_autoscaler.Autoscaler.Emptied.{IsEmptied}
use capten_autoscaler.Deployment.{Cloud, with_azure}

module _ (cloud : Cloud) (env : Env) (poll : ℤ → Poller) (most : ℤ) (h : History) where
  abbrev Emptied : Text → History → Type 0
  Emptied = IsEmptied (with_azure cloud env) poll

  -- A request that has its reason in a call that was made on the way to `h`.
  pub data IsWarranted : Request → Type 0 where
    -- a capacity that is the one just read and `most` more at most
    raised :
        (before : History) (old n : ℤ)
        → Later (scale_up n ∷ before) h
        → (cloud before).on_get ≡ ok (some old)
        → pos_part n ≤ pos_part most
        → IsWarranted (update_capacity (int64 (old +ℤ n)))
    -- a machine that was listed, with the name of a worker that was just cordoned and emptied
    removed :
        (before : History) (node_name name : Text) (vm : Vm)
        → Later (scale_down node_name ∷ before) h
        → Emptied node_name before
        → IsListed (cloud before).pages vm
        → IsMachine node_name name vm
        → IsWarranted (delete_vm name)
