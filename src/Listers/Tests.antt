-- ===== src/Listers/Tests.antt =====
-- The classes of the sample's pod.
use capten_autoscaler.Base.{[], ◌∷◌, Text, text, Bool, true, In, Dict}
use capten_autoscaler.Sample.{web_pod}
use capten_autoscaler.Listers.{scheduled_pods, unschedulable_pods, scheduler_unprocessed_pods}
use capten_autoscaler.Listers.Classes.{classes_disjoint}

abbrev bypassed_schedulers : Dict Text Bool
bypassed_schedulers = (text "default-scheduler", true) ∷ []

classes_disjoint_example :
    (In web_pod (scheduled_pods (web_pod ∷ []))
      → In web_pod (unschedulable_pods (web_pod ∷ []))
      → ⊥)
    × (In web_pod (scheduled_pods (web_pod ∷ []))
        → In web_pod (scheduler_unprocessed_pods (web_pod ∷ []) bypassed_schedulers)
        → ⊥)
    × (In web_pod (unschedulable_pods (web_pod ∷ []))
        → In web_pod (scheduler_unprocessed_pods (web_pod ∷ []) bypassed_schedulers)
        → ⊥)
classes_disjoint_example = classes_disjoint (web_pod ∷ []) bypassed_schedulers web_pod
