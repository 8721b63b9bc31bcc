-- ===== src/Aws/Placeholders/Filled.antt =====
-- What the placeholders make of a group.
use capten_autoscaler.Base.{
  has_prefix-append, decimal, ℕ, zero, suc, ◌+◌, ℤ, pos, pos_part, ◌-ℤ◌, leb_ℤ, Text, Bool, true,
  false, Option, some, List, [], ◌∷◌, ◌++◌, append_assoc, length, length-append, ◌≡◌, refl, ap, ◌∙◌,
  arith, if◌then◌else◌, Bool-cases, inl, inr, append-nil, All,
}
use capten_autoscaler.Cluster.Api.{Error, done}
use capten_autoscaler.Aws.Types.{Instance, Group}
use capten_autoscaler.Aws.State.{Service, State, pure, continue, ◌>>=◌, lift, from_option}
use capten_autoscaler.Aws.Refs.{build_instance_ref}
use capten_autoscaler.Aws.Groups.{is_placeholder_instance, placeholder_instance_name_prefix}
use capten_autoscaler.Aws.Placeholders.{
  placeholder_id, placeholder, fill, health_of, fill_group, fill_named, fill_to_desired,
  is_node_group_available,
}

-- Placeholders from the index `i` on.
abbrev pub placeholders : ℕ → ℕ → Text → Option Text → Text → List Instance
placeholders zero i name z health = []
placeholders (suc n) i name z health =
    placeholder name z health i ∷ placeholders n (suc i) name z health

pub length-placeholders :
    (n i : ℕ) (name : Text) (z : Option Text) (health : Text)
    → length (placeholders n i name z health) ≡ n
length-placeholders zero i name z health = refl
length-placeholders (suc n) i name z health =
    omega (arith, length-placeholders n (suc i) name z health)

fill-placeholders :
    (n i : ℕ) (name : Text) (z : Option Text) (zs : List (Option Text)) (health : Text)
    (instances : List Instance)
    → fill n i name (z ∷ zs) health instances ≡ done (instances ++ placeholders n i name z health)
unfolding fill
fill-placeholders zero i name z zs health instances = rw (append-nil instances)
fill-placeholders (suc n) i name z zs health instances =
    fill-placeholders n (suc i) name z zs health (instances ++ placeholder name z health i ∷ [])
    ∙ ap done (
        append_assoc instances (placeholder name z health i ∷ [])
          (placeholders n (suc i) name z health))

-- An instance that the loop adds: a deletion takes it for a placeholder.
abbrev pub IsFiller : Option Text → Text → Instance → Type 0
IsFiller z health i =
    (is_placeholder_instance (build_instance_ref i) ≡ true)
    × (i.availability_zone ≡ z)
    × (i.health_status ≡ some health)

placeholders-IsFiller :
    (n i : ℕ) (name : Text) (z : Option Text) (health : Text)
    → All (IsFiller z health) (placeholders n i name z health)
unfolding is_placeholder_instance build_instance_ref placeholder_id
placeholders-IsFiller zero i name z health = tt
placeholders-IsFiller (suc n) i name z health = (
  (
    has_prefix-append placeholder_instance_name_prefix (b'-' ∷ (name ++ (b'-' ∷ decimal i))),
    refl,
    refl,
  ),
  placeholders-IsFiller n (suc i) name z health,
)

with_missing : (d : ℤ) (n : ℕ) → leb_ℤ d (pos n) ≡ false → n + pos_part (d -ℤ pos n) ≡ pos_part d
unfolding ◌-ℤ◌
with_missing d n few = ground arith

module _ (svc : Service) (g : Group) (s : State) (desired : ℤ) (name : Text) (z : Option Text)
    (zs : List (Option Text)) (answer : Bool × Option Error) where
  abbrev added : List Instance
  added =
      placeholders (pos_part (desired -ℤ pos (length g.instances))) (length g.instances) name z
        (health_of svc answer)

  filled :
      g.auto_scaling_group_name ≡ some name
      → g.availability_zones ≡ z ∷ zs
      → (is_node_group_available svc g s).0 ≡ done answer
      → ((from_option g.auto_scaling_group_name >>= fill_group svc g desired) s).0
        ≡ done (record g { instances = g.instances ++ added })
  filled named zoned checked =
      ap (λ o. ((from_option o >>= fill_group svc g desired) s).0) named
      ∙ ap
          (λ o.
            (continue o
              (λ a.
                lift (
                  fill (pos_part (desired -ℤ pos (length g.instances))) (length g.instances) name
                    g.availability_zones (health_of svc a) g.instances)
                >>= λ is. pure (record g { instances = is }))
              (is_node_group_available svc g s).1).0)
          checked
      ∙ ap
          (λ l.
            (continue
              (fill (pos_part (desired -ℤ pos (length g.instances))) (length g.instances) name l
                (health_of svc answer) g.instances)
              (λ is. pure (record g { instances = is })) (is_node_group_available svc g s).1).0)
          zoned
      ∙ rw (
          fill-placeholders (pos_part (desired -ℤ pos (length g.instances))) (length g.instances)
            name z zs (health_of svc answer) g.instances)

  -- A group that asks for a capacity gets placeholders for the instances that are missing and keeps
  -- those that it has: where it has a name and a zone, and the check of its scaling activities does not
  -- panic, it has as many instances as it asks for if it had fewer, else it is unchanged. What is added
  -- has the group's first zone and the health of the check, and a deletion takes it for a placeholder.
  pub fill_to_desired-IsFiller :
      g.desired_capacity ≡ some desired
      → g.auto_scaling_group_name ≡ some name
      → g.availability_zones ≡ z ∷ zs
      → (is_node_group_available svc g s).0 ≡ done answer
      → (new : List Instance) × ((fill_to_desired svc g s).0
          ≡ done (record g { instances = g.instances ++ new }))
        × All (IsFiller z (health_of svc answer)) new
        × (length (g.instances ++ new) ≡ (
            if leb_ℤ desired (pos (length g.instances))
            then length g.instances
            else pos_part desired))
  unfolding fill_to_desired
  fill_to_desired-IsFiller wants named zoned checked =
      elim (Bool-cases (leb_ℤ desired (pos (length g.instances)))) [
        | inl enough ↦ (
          [],
          rw (wants, enough, append-nil g.instances),
          tt,
          rw (enough, append-nil g.instances),
        )
        | inr few ↦ (
          added,
          ap (λ o. ((from_option o >>= fill_named svc g) s).0) wants
              ∙ rw few (filled named zoned checked),
          placeholders-IsFiller _ (length g.instances) name z (health_of svc answer),
          rw
              (
                few,
                length-append g.instances added,
                length-placeholders (pos_part (desired -ℤ pos (length g.instances)))
                    (length g.instances) name z (health_of svc answer),
              )
              (with_missing desired (length g.instances) few),
        )
      ]
