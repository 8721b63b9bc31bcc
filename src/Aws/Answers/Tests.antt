-- ===== src/Aws/Answers/Tests.antt =====
-- Answers of the sample cache.
use capten_autoscaler.Base.{none, true, false, ◌≡◌, refl}
use capten_autoscaler.Cluster.Api.{panicked, done}
use capten_autoscaler.Aws.Answers.{cleanup}

once : cleanup false ≡ (done none, true)
unfolding cleanup
once = refl

twice : cleanup true ≡ (panicked, true)
unfolding cleanup
twice = refl
