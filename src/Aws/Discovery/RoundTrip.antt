-- ===== src/Aws/Discovery/RoundTrip.antt =====
-- The specification that a configuration's tags are written as, and what is read from it.
use capten_autoscaler.Base.{
  ℕ, nat_eq, nat_eq_iff, Text, text, text_Eq, text_eq, join, is_empty, not, ◌&&◌, Bool, true, false,
  some, List, [], ◌∷◌, ◌++◌, map, Dict, insert, All, ◌≡◌, refl, ap, arith,
}
use capten_autoscaler.Cluster.Api.{ok}
use capten_autoscaler.Aws.Refs.{all_chars, split}
use capten_autoscaler.Aws.Refs.RoundTrip.{all_chars-cons, other_char, split-part, split-last}
use capten_autoscaler.Aws.Discovery.{cut, tags_of, parse_asg_auto_discovery_spec}

abbrev pub is_key_char : ℕ → Bool
is_key_char c = not (nat_eq c b'=') && not (nat_eq c b',')

abbrev pub is_value_char : ℕ → Bool
is_value_char c = not (nat_eq c b',')

-- A tag with a value, as it is written.
abbrev pub written : Text × Text → Text
written (key, value) = key ++ b'=' ∷ value

abbrev pub IsWritable : Text × Text → Type 0
IsWritable (key, value) =
    (all_chars is_key_char key ≡ true) × (all_chars is_value_char value ≡ true)

-- The map that has the tags, of which a later one overwrites an earlier one with its key.
abbrev pub dict_of : List (Text × Text) → Dict Text Text → Dict Text Text
dict_of [] d = d
dict_of ((key, value) ∷ tags) d = dict_of tags (insert key value d)

cut-first :
    (sep : ℕ) (p : ℕ → Bool) (s t : Text)
    → p sep ≡ false
    → all_chars p s ≡ true
    → cut sep (s ++ sep ∷ t) ≡ some (s, t)
unfolding cut
cut-first sep p [] t none_such h = rw ((nat_eq_iff sep sep).1 refl)
cut-first sep p (c ∷ s) t none_such h =
    let (first, others) = all_chars-cons p c s h in
    rw (other_char p c sep none_such first, cut-first sep p s t none_such others)

-- The text of a tag has no comma, and is cut where its key ends.
all_chars-written :
    (key value : Text)
    → all_chars is_key_char key ≡ true
    → all_chars is_value_char value ≡ true
    → all_chars is_value_char (key ++ b'=' ∷ value) ≡ true
unfolding all_chars
all_chars-written [] value keys values = values
all_chars-written (c ∷ key) value keys values =
    let (first, others) = all_chars-cons is_key_char c key keys in
    rw (all_chars-written key value others values) (ground (arith, first))

written_plain : (tag : Text × Text) → IsWritable tag → all_chars is_value_char (written tag) ≡ true
written_plain (key, value) w = all_chars-written key value w.0 w.1

is_empty-join :
    (tag : Text × Text) (tags : List (Text × Text))
    → is_empty (join (map written (tag ∷ tags)) (text ",")) ≡ false
unfolding join
is_empty-join ([], value) [] = refl
is_empty-join (c ∷ key, value) [] = refl
is_empty-join ([], value) (other ∷ tags) = refl
is_empty-join (c ∷ key, value) (other ∷ tags) = refl

All-written :
    (tags : List (Text × Text)) (d : Dict Text Text)
    → All IsWritable tags
    → tags_of (map written tags) d ≡ dict_of tags d
unfolding tags_of
All-written [] d ws = refl
All-written ((key, value) ∷ tags) d (w, ws) =
    rw (tags_of, cut-first b'=' is_key_char key value refl w.0)
      (All-written tags (insert key value d) ws)

split-join :
    (tag : Text × Text) (tags : List (Text × Text))
    → All IsWritable (tag ∷ tags)
    → split b',' (join (map written (tag ∷ tags)) (text ",")) ≡ map written (tag ∷ tags)
unfolding join
split-join tag [] (w, ws) = split-last is_value_char b',' (written tag) refl (written_plain tag w)
split-join tag (other ∷ tags) (w, ws) = rw (
  split-part is_value_char b',' (written tag) (join (map written (other ∷ tags)) (text ",")) refl
      (written_plain tag w),
  split-join other tags ws,
)

-- Parsing the text `asg:tag=<key>=<value>,…` of at least one tag gives the map of these tags, where no
-- key has an equals sign or a comma, and no value has a comma.
pub parse_asg_auto_discovery_spec-written :
    (tag : Text × Text) (tags : List (Text × Text))
    → All IsWritable (tag ∷ tags)
    → parse_asg_auto_discovery_spec (text "asg:tag=" ++ join (map written (tag ∷ tags)) (text ","))
      ≡ ok (dict_of (tag ∷ tags) [])
unfolding parse_asg_auto_discovery_spec text_eq
parse_asg_auto_discovery_spec-written tag tags ws =
    rw (is_empty-join tag tags, split-join tag tags ws) (ap ok (All-written (tag ∷ tags) [] ws))
