-- ===== src/Aws/DeepEqual.antt =====
-- `reflect.DeepEqual` on two groups. A nil slice is an empty list here, where `DeepEqual` tells a nil
-- slice from an empty one.
use capten_autoscaler.Base.{
  ap, int_eq, int_eq_iff, Text, text_eq, text_eq_iff, Bool, true, false, ◌&&◌, Option, none, some,
  List, [], ◌∷◌, ◌≡◌, refl, arith,
}
use capten_autoscaler.Aws.Types.{
  LaunchTemplate, InstanceRequirements, TagDescription, MixedInstancesPolicy, Asg,
}

module _ {A : Type 0} (eq : A → A → Bool) where
  unfoldable pub list_eq : List A → List A → Bool
  list_eq [] [] = true
  list_eq (x ∷ xs) (y ∷ ys) = eq x y && list_eq xs ys
  list_eq _ _ = false

  abbrev pub option_eq : Option A → Option A → Bool
  option_eq none none = true
  option_eq (some x) (some y) = eq x y
  option_eq _ _ = false

  module _ (sound : (x y : A) → eq x y ≡ true → x ≡ y) where
    pub list_eq_sound : (xs ys : List A) → list_eq xs ys ≡ true → xs ≡ ys
    unfolding list_eq
    list_eq_sound [] [] e = refl
    list_eq_sound [] (y ∷ ys) e = cc
    list_eq_sound (x ∷ xs) [] e = cc
    list_eq_sound (x ∷ xs) (y ∷ ys) e = ground (arith, sound x y, list_eq_sound xs ys)

    pub option_eq_sound : (x y : Option A) → option_eq x y ≡ true → x ≡ y
    option_eq_sound none none e = refl
    option_eq_sound none (some y) e = cc
    option_eq_sound (some x) none e = cc
    option_eq_sound (some x) (some y) e = ap some (sound x y e)

abbrev template_eq : LaunchTemplate → LaunchTemplate → Bool
template_eq a b = text_eq a.name b.name && text_eq a.version b.version

template_eq_sound : (a b : LaunchTemplate) → template_eq a b ≡ true → a ≡ b
template_eq_sound a b e = ground (arith, text_eq_iff a.name b.name, text_eq_iff a.version b.version)

abbrev requirements_eq : InstanceRequirements → InstanceRequirements → Bool
requirements_eq a b = text_eq a.content b.content

requirements_eq_sound : (a b : InstanceRequirements) → requirements_eq a b ≡ true → a ≡ b
requirements_eq_sound a b e = ground (arith, text_eq_iff a.content b.content)

abbrev tag_eq : TagDescription → TagDescription → Bool
tag_eq a b = text_eq a.content b.content

tag_eq_sound : (a b : TagDescription) → tag_eq a b ≡ true → a ≡ b
tag_eq_sound a b e = ground (arith, text_eq_iff a.content b.content)

text_eq_sound : (a b : Text) → text_eq a b ≡ true → a ≡ b
text_eq_sound a b e = (text_eq_iff a b).0 e

abbrev policy_eq : MixedInstancesPolicy → MixedInstancesPolicy → Bool
policy_eq a b =
    option_eq template_eq a.launch_template b.launch_template
    && (list_eq text_eq a.instance_types_overrides b.instance_types_overrides
        && option_eq requirements_eq a.instance_requirements_overrides
            b.instance_requirements_overrides)

policy_eq_sound : (a b : MixedInstancesPolicy) → policy_eq a b ≡ true → a ≡ b
policy_eq_sound a b e = ground (
  arith,
  option_eq_sound template_eq template_eq_sound a.launch_template b.launch_template,
  list_eq_sound text_eq text_eq_sound a.instance_types_overrides b.instance_types_overrides,
  option_eq_sound requirements_eq requirements_eq_sound a.instance_requirements_overrides
      b.instance_requirements_overrides,
)

unfoldable pub deep_equal : Asg → Asg → Bool
deep_equal a b =
    text_eq a.name b.name
    && (int_eq a.min_size b.min_size
        && (int_eq a.max_size b.max_size
            && (int_eq a.cur_size b.cur_size
                && (int_eq a.last_update_time b.last_update_time
                    && (list_eq text_eq a.availability_zones b.availability_zones
                        && (text_eq a.launch_configuration_name b.launch_configuration_name
                            && (option_eq template_eq a.launch_template b.launch_template
                                && (option_eq policy_eq a.mixed_instances_policy
                                      b.mixed_instances_policy
                                    && list_eq tag_eq a.tags b.tags))))))))

pub deep_equal_sound : (a b : Asg) → deep_equal a b ≡ true → a ≡ b
unfolding deep_equal
deep_equal_sound a b e = ground (
  arith,
  text_eq_iff a.name b.name,
  int_eq_iff a.min_size b.min_size,
  int_eq_iff a.max_size b.max_size,
  int_eq_iff a.cur_size b.cur_size,
  int_eq_iff a.last_update_time b.last_update_time,
  list_eq_sound text_eq text_eq_sound a.availability_zones b.availability_zones,
  text_eq_iff a.launch_configuration_name b.launch_configuration_name,
  option_eq_sound template_eq template_eq_sound a.launch_template b.launch_template,
  option_eq_sound policy_eq policy_eq_sound a.mixed_instances_policy b.mixed_instances_policy,
  list_eq_sound tag_eq tag_eq_sound a.tags b.tags,
)
