-- ===== src/Aws/Refs/RoundTrip.antt =====
-- The ids of instances: what the cache builds, the regular expression takes, and gives back.
use capten_autoscaler.Base.{
  ℕ, nat_eq, nat_eq_iff, Text, Bool, true, false, not, ◌&&◌, [], ◌∷◌, ◌++◌, ◌⊎◌, ◌≡◌, refl, sym, ap,
  ◌∙◌, inl, inr, Bool-cases, arith,
}
use capten_autoscaler.Cluster.Api.{ok, done}
use capten_autoscaler.Aws.Types.{Instance}
use capten_autoscaler.Aws.Refs.{
  placeholder_prefix, is_dot_char, scheme, is_id_char, all_chars, skip_id, matches_instance,
  matches_placeholder, is_valid_id, split, ref_from_provider_id, string_value, build_instance_ref,
}

&&-both : (a b : Bool) → (a && b) ≡ true → (a ≡ true) × (b ≡ true)
&&-both a b e = ground arith

pub all_chars-cons :
    (p : ℕ → Bool) (c : ℕ) (s : Text)
    → all_chars p (c ∷ s) ≡ true
    → (p c ≡ true) × (all_chars p s ≡ true)
unfolding all_chars
all_chars-cons p c s h = &&-both (p c) (all_chars p s) h

-- The longest run of characters of ids ends where a slash comes.
skip_id-slash : (s t : Text) → all_chars is_id_char s ≡ true → skip_id (s ++ b'/' ∷ t) ≡ b'/' ∷ t
unfolding skip_id
skip_id-slash [] t h = refl
skip_id-slash (c ∷ s) t h =
    let (first, others) = all_chars-cons is_id_char c s h in rw first (skip_id-slash s t others)

skip_id-end : (s : Text) → all_chars is_id_char s ≡ true → skip_id s ≡ []
unfolding skip_id
skip_id-end [] h = refl
skip_id-end (c ∷ s) h =
    let (first, others) = all_chars-cons is_id_char c s h in rw first (skip_id-end s others)

-- A character with a property that another one does not have is not that one.
pub other_char : (p : ℕ → Bool) (c sep : ℕ) → p sep ≡ false → p c ≡ true → nat_eq c sep ≡ false
other_char p c sep none_such has = elim (Bool-cases (nat_eq c sep)) [
  | inl hit ↦ absurd (clash (sym has ∙ ap p ((nat_eq_iff c sep).0 hit) ∙ none_such))
  | inr miss ↦ miss
]
  where
    clash : true ≡ false → ⊥
    clash e = cc

-- A part without the separator, before the first separator and at the end.
pub split-part :
    (p : ℕ → Bool) (sep : ℕ) (s t : Text)
    → p sep ≡ false
    → all_chars p s ≡ true
    → split sep (s ++ sep ∷ t) ≡ s ∷ split sep t
unfolding split
split-part p sep [] t none_such h = rw ((nat_eq_iff sep sep).1 refl)
split-part p sep (c ∷ s) t none_such h =
    let (first, others) = all_chars-cons p c s h in
    rw (other_char p c sep none_such first, split-part p sep s t none_such others)

pub split-last :
    (p : ℕ → Bool) (sep : ℕ) (s : Text)
    → p sep ≡ false
    → all_chars p s ≡ true
    → split sep s ≡ s ∷ []
unfolding split
split-last p sep [] none_such h = refl
split-last p sep (c ∷ s) none_such h =
    let (first, others) = all_chars-cons p c s h in
    rw (other_char p c sep none_such first, split-last p sep s none_such others)

-- The characters of a name of a placeholder.
abbrev pub is_plain_char : ℕ → Bool
is_plain_char c = not (nat_eq c b'/') && not (nat_eq c 10)

pub all_chars-weaken :
    (p q : ℕ → Bool) (s : Text)
    → ((c : ℕ) → p c ≡ true → q c ≡ true)
    → all_chars p s ≡ true
    → all_chars q s ≡ true
unfolding all_chars
all_chars-weaken p q [] w h = refl
all_chars-weaken p q (c ∷ s) w h =
    let (first, others) = all_chars-cons p c s h in rw (w c first, all_chars-weaken p q s w others)

on_line : (s : Text) → all_chars is_plain_char s ≡ true → all_chars is_dot_char s ≡ true
on_line s h =
    all_chars-weaken is_plain_char is_dot_char s
      (λ c e. (&&-both (not (nat_eq c b'/')) (not (nat_eq c 10)) e).1) h

-- The id of an instance, or one of a placeholder.
abbrev pub IsInstanceId : Text → Type 0
IsInstanceId id =
    (all_chars is_id_char id ≡ true)
    ⊎ ((rest : Text) × (id ≡ placeholder_prefix ++ rest) × (all_chars is_plain_char rest ≡ true))

module _ (zone : Text) (in_zone : all_chars is_id_char zone ≡ true) where
  instance_matches :
      (id : Text)
      → all_chars is_id_char id ≡ true
      → matches_instance (scheme ++ (zone ++ b'/' ∷ id)) ≡ true
  unfolding matches_instance
  instance_matches id h = rw (skip_id-slash zone id in_zone, skip_id-end id h)

  placeholder_matches :
      (rest : Text)
      → all_chars is_plain_char rest ≡ true
      → matches_placeholder (scheme ++ (zone ++ b'/' ∷ (placeholder_prefix ++ rest))) ≡ true
  unfolding matches_placeholder
  placeholder_matches rest h =
      rw (skip_id-slash zone (placeholder_prefix ++ rest) in_zone, on_line rest h)

  is_valid_id-build :
      (id : Text) → IsInstanceId id → is_valid_id (scheme ++ (zone ++ b'/' ∷ id)) ≡ true
  unfolding is_valid_id
  is_valid_id-build id (inl h) = rw (instance_matches id h)
  is_valid_id-build id (inr (rest, e, h)) = rw (e, placeholder_matches rest h) (ground arith)

  split-build : (id : Text) → IsInstanceId id → split b'/' (zone ++ b'/' ∷ id) ≡ zone ∷ id ∷ []
  unfolding all_chars
  split-build id (inl h) =
      rw (split-part is_id_char b'/' zone id refl in_zone, split-last is_id_char b'/' id refl h)
  split-build id (inr (rest, e, h)) = rw (
    split-part is_id_char b'/' zone id refl in_zone,
    e,
    split-last is_plain_char b'/' (placeholder_prefix ++ rest) refl h,
  )

-- The provider id that the cache builds for an instance gives back the reference to that instance,
-- where the zone has the characters of zones and the id is one of an instance, or begins as those of
-- placeholders do and has neither a slash nor a line feed.
pub ref_from_provider_id-build_instance_ref :
    (i : Instance)
    → all_chars is_id_char (string_value i.availability_zone) ≡ true
    → IsInstanceId (string_value i.instance_id)
    → ref_from_provider_id (build_instance_ref i).provider_id ≡ done (ok (build_instance_ref i))
unfolding ref_from_provider_id build_instance_ref
ref_from_provider_id-build_instance_ref i in_zone is_id = rw (
  is_valid_id-build (string_value i.availability_zone) in_zone (string_value i.instance_id) is_id,
  split-build (string_value i.availability_zone) in_zone (string_value i.instance_id) is_id,
)
