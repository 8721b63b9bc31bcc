-- ===== src/Drain/Cordon/Tests.antt =====
-- A cordon in the sample world.
use capten_autoscaler.Base.{true, none, [], ◌≡◌, refl}
use capten_autoscaler.Cluster.Api.{History, done}
use capten_autoscaler.Sample.{worker, world}
use capten_autoscaler.Drain.Cordon.{run_cordon_or_uncordon}
use capten_autoscaler.Drain.Cordon.Effect.{marked, IsCordoned, run_cordon-IsSent}
use capten_autoscaler.Autoscaler.{drain_helper}

abbrev cordoned : History
cordoned = (run_cordon_or_uncordon world drain_helper worker true []).1

cordon_succeeds :
    run_cordon_or_uncordon world drain_helper worker true []
    ≡ (done (marked worker true, none), cordoned)
unfolding run_cordon_or_uncordon
cordon_succeeds = refl

run_cordon-IsSent_example : IsCordoned world worker true [] cordoned (marked worker true)
run_cordon-IsSent_example =
    run_cordon-IsSent world drain_helper worker true [] cordoned (marked worker true)
      cordon_succeeds
