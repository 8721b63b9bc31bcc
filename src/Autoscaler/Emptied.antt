-- ===== src/Autoscaler/Emptied.antt =====
-- What stands before every machine that a whole run of `Start` takes away.
use capten_autoscaler.Base.{◌∷◌, ℤ, Text, List, [], In, ◌≡◌}
use capten_autoscaler.Cluster.Objects.{Pod}
use capten_autoscaler.Cluster.Api.{scale_down, History, Env, done}
use capten_autoscaler.Cluster.Keeps.{Keeps}
use capten_autoscaler.Drain.Filter.{PodDelete, pods_to_delete}
use capten_autoscaler.Drain.Wait.{Poller, IsPollImmediate}
use capten_autoscaler.Drain.Evict.Results.{IsCleared}
use capten_autoscaler.Drain.Run.{listed, get_pods_for_deletion}
use capten_autoscaler.Autoscaler.{drain_helper, Float64, NodeInfo}
use capten_autoscaler.Autoscaler.Drained.{IsReady}
use capten_autoscaler.Autoscaler.Workers.{IsListedWorker}

-- Every call that takes a machine away came with what is asked of it and of the calls before it.
abbrev pub AllDown : (Text → History → Type 0) → History → Type 0
AllDown P [] = Unit {0}
AllDown P (scale_down name ∷ h) = P name h × AllDown P h
AllDown P (_ ∷ h) = AllDown P h

module _ (env : Env) (poll : ℤ → Poller) (polls : (timeout : ℤ) → IsPollImmediate (poll timeout))
    (float : Float64) (info : NodeInfo float) where
  abbrev StillPrepared : History → Type 0
  StillPrepared = AllDown (IsReady env poll (IsListedWorker env))

module _ (env : Env) (poll : ℤ → Poller) where
  -- A worker that was got ready, with what the drain of it listed and cleared.
  pub record IsEmptied (name : Text) (h : History) : Type 0 where
    pub ready : IsReady env poll (IsListedWorker env) name h
    pub items : List PodDelete
    pub after : History
    pub chosen :
        get_pods_for_deletion env poll drain_helper ready.node.name ready.cordoned
        ≡ (done (listed items), after)
    pub cleared :
        (pod : Pod) → In pod (pods_to_delete items) → IsCleared env drain_helper after h pod
