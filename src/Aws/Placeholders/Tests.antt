-- ===== src/Aws/Placeholders/Tests.antt =====
-- A group that lacks two of its three instances.
use capten_autoscaler.Base.{pos, none, some, true, List, [], ◌++◌, length, All, ◌≡◌, refl, text}
use capten_autoscaler.Cluster.Api.{done}
use capten_autoscaler.Aws.Types.{Instance}
use capten_autoscaler.Aws.Sample.{service, cache, workers_name, workers_group}
use capten_autoscaler.Aws.Placeholders.{fill_to_desired, is_node_group_available}
use capten_autoscaler.Aws.Placeholders.Filled.{IsFiller, fill_to_desired-IsFiller}

fill_to_desired-IsFiller_example :
    (new : List Instance) × ((fill_to_desired service workers_group cache).0
      ≡ done (record workers_group { instances = workers_group.instances ++ new }))
    × All (IsFiller (some (text "us-east-1a")) []) new
    × (length (workers_group.instances ++ new) ≡ 3)
unfolding is_node_group_available
fill_to_desired-IsFiller_example =
    fill_to_desired-IsFiller service workers_group cache (pos 3) workers_name
      (some (text "us-east-1a")) [] (true, none) refl refl refl refl
