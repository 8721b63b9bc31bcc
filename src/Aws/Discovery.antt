-- ===== src/Aws/Discovery.antt =====
-- pkg/cloudprovider/aws/manager.go: the specification of auto-discovery, `asg:tag=<key>[=<value>],…`.
-- The errors leave out the parts of the text that they quote.
pub mod RoundTrip
mod Tests
use capten_autoscaler.Base.{
  ℕ, nat_eq, Text, text, is_empty, Bool, true, false, not, Option, none, some, List, [], ◌∷◌, Dict,
  insert, ◌==◌, text_Eq, if◌then◌else◌,
}
use capten_autoscaler.Cluster.Api.{Error, failure, Result, ok, err}
use capten_autoscaler.Aws.Refs.{split}

abbrev pub auto_discoverer_type_asg : Text
auto_discoverer_type_asg = text "asg"

abbrev pub asg_auto_discoverer_key_tag : Text
asg_auto_discoverer_key_tag = text "tag"

abbrev pub cons_before : ℕ → Option (Text × Text) → Option (Text × Text)
cons_before c none = none
cons_before c (some (a, b)) = some (c ∷ a, b)

-- `strings.SplitN(s, sep, 2)`: the texts before and behind the first separator, if there is one.
unfoldable pub cut : ℕ → Text → Option (Text × Text)
cut sep [] = none
cut sep (c ∷ s) = let rest = cut sep s in if nat_eq c sep then some ([], s) else cons_before c rest

abbrev pub add_label : Text → Option (Text × Text) → Dict Text Text → Dict Text Text
add_label label none tags = insert label [] tags
add_label label (some (key, value)) tags = insert key value tags

-- The loop over the labels.
unfoldable pub tags_of : List Text → Dict Text Text → Dict Text Text
unfolding cut
tags_of [] tags = tags
tags_of (label ∷ labels) tags = tags_of labels (add_label label (cut b'=' label) tags)

abbrev pub parse_value : Text → Text → Result (Dict Text Text)
parse_value key value =
    if not (key == asg_auto_discoverer_key_tag)
    then err (failure (text "unsupported parameter key is specified for discoverer"))
    else if is_empty value
    then err (failure (text "tag value not supplied"))
    else ok (tags_of (split b',' value) [])

abbrev pub parse_pair : Option (Text × Text) → Result (Dict Text Text)
parse_pair none = err (failure (text "invalid key=value pair"))
parse_pair (some (key, value)) = parse_value key value

abbrev pub parse_param : Text → Text → Result (Dict Text Text)
parse_param discoverer param =
    if not (discoverer == auto_discoverer_type_asg)
    then err (failure (text "unsupported discoverer specified"))
    else parse_pair (cut b'=' param)

abbrev pub parse_tokens : Option (Text × Text) → Result (Dict Text Text)
parse_tokens none = err (
    failure
      (text "invalid node group auto discovery spec specified via --node-group-auto-discovery"))
parse_tokens (some (discoverer, param)) = parse_param discoverer param

-- `parseASGAutoDiscoverySpec`: the tags of the configuration.
unfoldable pub parse_asg_auto_discovery_spec : Text → Result (Dict Text Text)
unfolding cut tags_of split
parse_asg_auto_discovery_spec spec = parse_tokens (cut b':' spec)
