-- ===== src/Aws/Refs.antt =====
-- pkg/cloudprovider/aws/cloud_provider.go: the ids of providers, with the regular expression written
-- out, and `buildInstanceRefFromAWS` of autoscaling_group.go.
pub mod RoundTrip
mod Tests
use capten_autoscaler.Base.{
  ℕ, zero, suc, nat_eq, leb, Text, text, has_prefix, Bool, true, false, not, ◌&&◌, ◌||◌, Option,
  none, some, List, [], ◌∷◌, ◌++◌, if◌then◌else◌,
}
use capten_autoscaler.Cluster.Api.{Error, failure, Result, ok, err, Outcome, done, panicked}
use capten_autoscaler.Aws.Types.{InstanceRef, Instance}

abbrev pub placeholder_prefix : Text
placeholder_prefix = text "i-placeholder"

abbrev pub scheme : Text
scheme = text "aws:///"

-- `[-0-9a-z]`
abbrev pub is_id_char : ℕ → Bool
is_id_char c = nat_eq c b'-' || ((leb b'0' c && leb c b'9') || (leb b'a' c && leb c b'z'))

-- `[-0-9a-z\.]`
abbrev pub is_dotted_char : ℕ → Bool
is_dotted_char c = is_id_char c || nat_eq c b'.'

-- `.` is any character but a line feed.
abbrev pub is_dot_char : ℕ → Bool
is_dot_char c = not (nat_eq c 10)

unfoldable pub all_chars : (ℕ → Bool) → Text → Bool
all_chars p [] = true
all_chars p (c ∷ s) = p c && all_chars p s

-- What is left of the text behind a prefix, if it has the prefix.
unfoldable pub after_prefix : Text → Text → Option Text
after_prefix [] s = some s
after_prefix (p ∷ ps) [] = none
after_prefix (p ∷ ps) (c ∷ s) = if nat_eq p c then after_prefix ps s else none

-- `[-0-9a-z]*` is followed by a character that it does not match, so its longest match is the one.
unfoldable pub skip_id : Text → Text
skip_id [] = []
skip_id (c ∷ s) = if is_id_char c then skip_id s else c ∷ s

abbrev pub starts_slash : Text → Option Text
starts_slash s = after_prefix (text "/") s

-- `(\/[-0-9a-z\.]*)?$`
abbrev pub matches_tail : Text → Bool
matches_tail [] = true
matches_tail (c ∷ s) = nat_eq c b'/' && all_chars is_dotted_char s

abbrev pub matches_name : Option Text → Bool
matches_name none = false
matches_name (some s) = matches_tail (skip_id s)

abbrev pub matches_zone : Option Text → Bool
matches_zone none = false
matches_zone (some s) = matches_name (starts_slash (skip_id s))

-- `^aws\:\/\/\/[-0-9a-z]*\/[-0-9a-z]*(\/[-0-9a-z\.]*)?$`
unfoldable pub matches_instance : Text → Bool
unfolding skip_id all_chars after_prefix
matches_instance s = matches_zone (after_prefix scheme s)

abbrev pub rest_of_line : Option Text → Bool
rest_of_line none = false
rest_of_line (some s) = all_chars is_dot_char s

abbrev pub matches_mark : Option Text → Bool
matches_mark none = false
matches_mark (some s) = rest_of_line (after_prefix placeholder_prefix s)

abbrev pub matches_place : Option Text → Bool
matches_place none = false
matches_place (some s) = matches_mark (starts_slash (skip_id s))

-- `aws\:\/\/\/[-0-9a-z]*\/i-placeholder.*$`, from the first character on.
unfoldable pub matches_placeholder_here : Text → Bool
unfolding skip_id all_chars after_prefix
matches_placeholder_here s = matches_place (after_prefix scheme s)

-- The second alternative has no `^`: it may start anywhere.
unfoldable pub matches_placeholder : Text → Bool
unfolding matches_placeholder_here
matches_placeholder [] = false
matches_placeholder (c ∷ s) = matches_placeholder_here (c ∷ s) || matches_placeholder s

-- `validAwsRefIdRegex`
unfoldable pub is_valid_id : Text → Bool
unfolding matches_instance matches_placeholder
is_valid_id id = matches_instance id || matches_placeholder id

-- `id[n:]`
unfoldable pub slice_from : ℕ → Text → Outcome Text
slice_from zero s = done s
slice_from (suc n) [] = panicked
slice_from (suc n) (c ∷ s) = slice_from n s

abbrev pub cons_first : ℕ → List Text → List Text
cons_first c [] = (c ∷ []) ∷ []
cons_first c (part ∷ parts) = (c ∷ part) ∷ parts

-- `strings.Split(s, sep)` for a separator of one character.
unfoldable pub split : ℕ → Text → List Text
split sep [] = [] ∷ []
split sep (c ∷ s) = let rest = split sep s in if nat_eq c sep then [] ∷ rest else cons_first c rest

-- `splitted[1]`
abbrev pub second_of : List Text → Outcome Text
second_of [] = panicked
second_of (a ∷ []) = panicked
second_of (a ∷ b ∷ parts) = done b

abbrev pub named_ref : Text → Outcome Text → Outcome (Result InstanceRef)
named_ref id (done name) = done (ok (record { provider_id = id; name = name }))
named_ref id _ = panicked

abbrev pub ref_from_slice : Text → Outcome Text → Outcome (Result InstanceRef)
ref_from_slice id (done s) = named_ref id (second_of (split b'/' s))
ref_from_slice id _ = panicked

-- `AwsRefFromProviderId`
unfoldable pub ref_from_provider_id : Text → Outcome (Result InstanceRef)
unfolding is_valid_id slice_from split
ref_from_provider_id id =
    if not (is_valid_id id)
    then done (err (failure (text "wrong id: expected format aws:///<zone>/<name>, got " ++ id)))
    else ref_from_slice id (slice_from 7 id)

-- `aws.StringValue`
abbrev pub string_value : Option Text → Text
string_value none = []
string_value (some s) = s

-- `buildInstanceRefFromAWS`
unfoldable pub build_instance_ref : Instance → InstanceRef
build_instance_ref i = record {
  provider_id = scheme ++ (string_value i.availability_zone ++ (b'/' ∷ string_value i.instance_id));
  name = string_value i.instance_id;
}
