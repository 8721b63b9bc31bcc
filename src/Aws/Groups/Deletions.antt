-- ===== src/Aws/Groups/Deletions.antt =====
-- `DeleteInstances`: which requests it can make.
use capten_autoscaler.Base.{
  ◌≢◌, sym, ℕ, nat_eq, nat_eq_iff, Text, true, false, Option, none, some, List, [], ◌∷◌, Dict,
  lookup, ◌≡◌, refl, ap, subst, ◌∙◌, In, inl, inr, All, Bool-cases,
}
use capten_autoscaler.Cluster.Api.{done}
use capten_autoscaler.Aws.Types.{InstanceRef, ref_Eq, Asg}
use capten_autoscaler.Aws.State.{
  set_cell, Log, Request, set_desired_capacity, terminate_instance, Service, State,
}
use capten_autoscaler.Aws.State.Rules.{Does, Extends, Does-pure}
use capten_autoscaler.Aws.Groups.{
  is_placeholder_instance, is_terminating, delete_each, Common, same, differs, compare_to,
  check_common, delete_common, delete_from, delete_instances, refuse,
}
use capten_autoscaler.Aws.Groups.Rounds.{delete_one-Does}
use capten_autoscaler.Aws.Groups.Stable.{IsStable, refuse-Does}

same_asg : (a b : Asg) → some a ≡ some b → a ≡ b
same_asg a b e = cc

-- The group at `p` has the name.
abbrev pub NamesGroup : State → ℕ → Text → Type 0
NamesGroup s p name = (a : Asg) × (s.cell p ≡ some a) × (a.name ≡ name)

module _ (groups : Dict InstanceRef ℕ) (lifecycles : Dict InstanceRef (Option Text)) (p : ℕ)
    (IsGroupName : Text → Type 0) where
  -- The cache's maps of instances, which deletions do not write, and the name of the group at `p`.
  abbrev pub HasMaps : State → Type 0
  HasMaps s =
      (s.instance_to_asg ≡ groups)
      × (s.instance_lifecycle ≡ lifecycles)
      × ((a : Asg) → s.cell p ≡ some a → IsGroupName a.name)

  HasMaps-stored :
      (q : ℕ) (a b : Asg) (s : State)
      → HasMaps s
      → s.cell q ≡ some a
      → b.name ≡ a.name
      → (c : Asg) → set_cell s.cell q b p ≡ some c
      → IsGroupName c.name
  HasMaps-stored q a b s (e, e', named) at kept c there = elim (Bool-cases (nat_eq q p)) [
    | inl hit ↦
        subst IsGroupName (sym kept ∙ ap (λ d. d.name) (same_asg b c (rw hit at there)))
          (named a (subst (λ r. s.cell r ≡ some a) ((nat_eq_iff q p).0 hit) at))
    | inr miss ↦ named c (rw miss at there)
  ]

  HasMaps-IsStable : IsStable HasMaps
  HasMaps-IsStable = record {
    on_log = λ r s i. i;
    on_store = λ q a b s i at kept. (i.0, i.1, HasMaps-stored q a b s i at kept);
  }

  -- An instance that a termination may be asked for.
  abbrev pub IsTerminable : InstanceRef → Type 0
  IsTerminable i =
      (is_placeholder_instance i ≡ false)
      × (l : Option Text) × (lookup i lifecycles ≡ some l)
      × (is_terminating l ≡ done false)

  -- A request that deleting the instances may make, all of them of one group.
  abbrev pub IsAllowed : List InstanceRef → Request → Type 0
  IsAllowed instances (terminate_instance name) =
      (i : InstanceRef) × In i instances × (i.name ≡ name) × IsTerminable i
  IsAllowed instances (set_desired_capacity group capacity) =
      IsGroupName group × (i : InstanceRef) × In i instances × (is_placeholder_instance i ≡ true)
  IsAllowed instances _ = ⊥

module _ (svc : Service) (groups : Dict InstanceRef ℕ) (lifecycles : Dict InstanceRef (Option Text))
    (p : ℕ) (IsGroupName : Text → Type 0) (all : List InstanceRef) where
  delete_each-IsAllowed :
      (instances : List InstanceRef)
      → ((i : InstanceRef) → In i instances → In i all)
      → Does
          (HasMaps groups lifecycles p IsGroupName)
          (IsAllowed groups lifecycles p IsGroupName all)
          (delete_each svc p instances)
  unfolding delete_each
  delete_each-IsAllowed [] sub = Does-pure _ _ none
  delete_each-IsAllowed (i ∷ instances) sub =
      delete_one-Does svc (HasMaps groups lifecycles p IsGroupName)
        (HasMaps-IsStable groups lifecycles p IsGroupName)
        (IsAllowed groups lifecycles p IsGroupName all) p i (delete_each svc p instances)
        (λ e s j a at size. (j.2 a at, i, sub i (inl refl), e))
        (λ e s j l at going. (i, sub i (inl refl), refl, (e, l, rw j.1 at at, going)))
        (delete_each-IsAllowed instances (λ k m. sub k (inr m)))

differs-ne : (o : Option ℕ) → differs o ≡ same → ⊥
differs-ne o e = cc

-- The instances are all of the group at `p`.
check_common-same :
    (groups : Dict InstanceRef ℕ) (p : ℕ) (instances : List InstanceRef)
    → check_common groups p instances ≡ same
    → All (λ i. lookup i groups ≡ some p) instances
unfolding check_common
check_common-same groups p [] e = tt
check_common-same groups p (i ∷ instances) e =
    by_entry (lookup i groups) refl e (check_common-same groups p instances)
  where
    by_entry :
        (o : Option ℕ)
        → lookup i groups ≡ o
        → compare_to p o (check_common groups p instances) ≡ same
        → (check_common groups p instances ≡ same → All (λ j. lookup j groups ≡ some p) instances)
        → (lookup i groups ≡ some p) × All (λ j. lookup j groups ≡ some p) instances
    by_entry none at e rest = cc
    by_entry (some q) at e rest = elim (Bool-cases (nat_eq p q)) [
      | inl hit ↦ (at ∙ ap some (sym ((nat_eq_iff p q).0 hit)), rest (rw hit at e))
      | inr miss ↦ absurd (differs-ne (some q) (rw miss at e))
    ]

Extends-none : (a b : Log) → Extends (λ r. ⊥) a b → b ≡ a
Extends-none a b ([], e, k) = e
Extends-none a b (r ∷ new, e, k) = absurd k.0

Anything : State → Type 0
Anything s = Unit

Anything-IsStable : IsStable Anything
unfolding Anything
Anything-IsStable = record { on_log = λ r s i. tt; on_store = λ p a b s i e same. tt }

refuse_quiet :
    (svc : Service) (p : ℕ) (q : Option ℕ) (instances : List InstanceRef) (s : State)
    → (refuse svc p q instances s).1.log ≡ s.log
unfolding Anything
refuse_quiet svc p q instances s =
    Extends-none s.log (refuse svc p q instances s).1.log
      ((refuse-Does Anything Anything-IsStable (λ r. ⊥) svc p q instances).adds s tt)

-- `DeleteInstances` makes no request at all unless every instance that it is given is known and all
-- are of one group. Then a termination names one of them that is no placeholder and that the cache
-- knows as not terminating, and a new capacity is set only for their group, under its name, and only
-- where one of them is a placeholder; whatever the service answers and however the call ends.
pub delete_instances-IsAllowed :
    (svc : Service) (instances : List InstanceRef) (s : State)
    → (delete_instances svc instances s).1.log ≢ s.log
    → (p : ℕ) × All (λ i. lookup i s.instance_to_asg ≡ some p) instances
      × Extends
          (IsAllowed s.instance_to_asg s.instance_lifecycle p (NamesGroup s p) instances)
          s.log
          (delete_instances svc instances s).1.log
unfolding delete_instances
delete_instances-IsAllowed svc [] s ne = absurd (ne refl)
delete_instances-IsAllowed svc (i ∷ instances) s ne = by_first (lookup i s.instance_to_asg) ne
  where
    by_check :
        (p : ℕ) (c : Common)
        → check_common s.instance_to_asg p (i ∷ instances) ≡ c
        → (delete_common svc p (i ∷ instances) c s).1.log ≢ s.log
        → (q : ℕ) × All (λ i. lookup i s.instance_to_asg ≡ some q) (i ∷ instances)
          × Extends
              (IsAllowed s.instance_to_asg s.instance_lifecycle q (NamesGroup s q) (i ∷ instances))
              s.log
              (delete_common svc p (i ∷ instances) c s).1.log
    by_check p same e ne = (
      p,
      check_common-same s.instance_to_asg p (i ∷ instances) e,
      (delete_each-IsAllowed svc s.instance_to_asg s.instance_lifecycle p (NamesGroup s p)
            (i ∷ instances) (i ∷ instances) (λ j m. m)).adds
          s (refl, refl, λ a at. (a, at, refl)),
    )
    by_check p (differs q) e ne = absurd (ne (refuse_quiet svc p q (i ∷ instances) s))

    by_first :
        (o : Option ℕ)
        → (delete_from svc i (i ∷ instances) o s).1.log ≢ s.log
        → (p : ℕ) × All (λ i. lookup i s.instance_to_asg ≡ some p) (i ∷ instances)
          × Extends
              (IsAllowed s.instance_to_asg s.instance_lifecycle p (NamesGroup s p) (i ∷ instances))
              s.log
              (delete_from svc i (i ∷ instances) o s).1.log
    by_first none ne = absurd (ne refl)
    by_first (some p) ne = by_check p (check_common s.instance_to_asg p (i ∷ instances)) refl ne
