-- ===== src/Drain/Wait/Tests.antt =====
-- A wait in the sample world.
use capten_autoscaler.Base.{pos, [], ◌∷◌}
use capten_autoscaler.Cluster.Api.{History}
use capten_autoscaler.Sample.{web_pod, world, poll_twice}
use capten_autoscaler.Drain.Wait.{wait_for_delete}

abbrev waited : History
waited = (wait_for_delete world (poll_twice (pos 0)) (pos 0) (web_pod ∷ []) []).1
