-- ===== src/Aws/Discovery/Tests.antt =====
-- A specification with two tags.
use capten_autoscaler.Base.{text, join, map, [], ◌∷◌, ◌++◌, ◌≡◌, refl}
use capten_autoscaler.Cluster.Api.{ok}
use capten_autoscaler.Aws.Refs.{all_chars}
use capten_autoscaler.Aws.Discovery.{parse_asg_auto_discovery_spec}
use capten_autoscaler.Aws.Discovery.RoundTrip.{
  written, dict_of, parse_asg_auto_discovery_spec-written,
}

parse_asg_auto_discovery_spec-written_example :
    parse_asg_auto_discovery_spec (
      text "asg:tag="
      ++ join
          (map written ((text "enabled", text "true") ∷ (text "team", text "a=b") ∷ []))
          (text ","))
    ≡ ok (dict_of ((text "enabled", text "true") ∷ (text "team", text "a=b") ∷ []) [])
unfolding all_chars
parse_asg_auto_discovery_spec-written_example =
    parse_asg_auto_discovery_spec-written (text "enabled", text "true")
      ((text "team", text "a=b") ∷ []) ((refl, refl), ((refl, refl), tt))
