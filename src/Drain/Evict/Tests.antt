-- ===== src/Drain/Evict/Tests.antt =====
-- Evictions in the sample world.
use capten_autoscaler.Base.{
  ◌*◌, ◌≤◌, ◌++◌, leb, pos_part, text, true, false, [], ◌∷◌, ◌≡◌, arith, append-nil,
}
use capten_autoscaler.Cluster.Api.{GroupVersion, History, Returns}
use capten_autoscaler.Cluster.Laws.{Avoids}
use capten_autoscaler.Sample.{web_pod, world, poll_twice}
use capten_autoscaler.Drain.Evict.{delete_or_evict_pods, evict_loop, rounds_within, global_timeout}
use capten_autoscaler.Drain.Evict.Loop.{
  slept, is_get_pod, IsDeadline, evict_loop-Avoids-is_get_pod, evict_loop-Returns,
}
use capten_autoscaler.Autoscaler.{drain_helper}

abbrev removed : History
removed = (delete_or_evict_pods world poll_twice drain_helper (web_pod ∷ []) []).1

abbrev policy_v1 : GroupVersion
policy_v1 = record { group = text "policy"; version = text "v1" }

evict_loop-Avoids-is_get_pod_example :
    Avoids is_get_pod (evict_loop world 3 drain_helper policy_v1 false web_pod)
evict_loop-Avoids-is_get_pod_example =
    evict_loop-Avoids-is_get_pod world drain_helper policy_v1 3 web_pod

slept-nil : (own : History) → slept (own ++ []) ≡ slept own
slept-nil own = rw (append-nil own)

leb-true : (a b : _) → a ≤ b → leb a b ≡ true
leb-true a b le = ground arith

world-IsDeadline :
    IsDeadline world drain_helper policy_v1 (pos_part (global_timeout drain_helper)) []
unfolding global_timeout
world-IsDeadline own le =
    leb-true 10000000000 (slept (own ++ []) * 1000000000) (omega (arith, le, slept-nil own))

evict_loop-Returns_example :
    Returns
      (evict_loop world
        (rounds_within (global_timeout drain_helper))
        drain_helper
        policy_v1
        false
        web_pod
        []).0
      (λ _. Unit {0})
evict_loop-Returns_example =
    evict_loop-Returns world drain_helper policy_v1 web_pod [] world-IsDeadline
