-- ===== src/Events/Keys.antt =====
-- Which events share a key.
use capten_autoscaler.Base.{
  text, text_Eq, text_eq_iff, Bool-cases, inl, inr, ℕ, Text, join, Bool, true, false, List, [], ◌∷◌,
  ◌++◌, map, length, ◌≡◌, ◌↔◌, refl, sym, subst, ap, arith, if◌then◌else◌,
}
use capten_autoscaler.Events.{ObjectReference, Event, elements, is_status, spam_key}

-- The object is the ConfigMap with the autoscaler's status.
abbrev pub IsStatus : ObjectReference → Type 0
IsStatus o =
    (o.name ≡ text "cluster-autoscaler-status")
    × (o.namespace ≡ text "kube-system")
    × (o.kind ≡ text "ConfigMap")

-- Two events that the rate limit counts together: two about the status with the same text, or two
-- others with the same reason, source and object, whatever their texts.
pub data IsSameKind (e f : Event) : Type 0 where
  same_status :
      IsStatus e.involved_object
      → IsStatus f.involved_object
      → e.message ≡ f.message
      → IsSameKind e f
  same_elements :
      (IsStatus e.involved_object → ⊥)
      → (IsStatus f.involved_object → ⊥)
      → e.reason ≡ f.reason
      → e.component ≡ f.component
      → e.host ≡ f.host
      → e.involved_object ≡ f.involved_object
      → IsSameKind e f

is_status-IsStatus : (o : ObjectReference) → is_status o ≡ true → IsStatus o
is_status-IsStatus o e = (
  (text_eq_iff o.name (text "cluster-autoscaler-status")).0 (ground arith),
  (text_eq_iff o.namespace (text "kube-system")).0 (ground arith),
  (text_eq_iff o.kind (text "ConfigMap")).0 (ground arith),
)

IsStatus-is_status : (o : ObjectReference) → IsStatus o → is_status o ≡ true
IsStatus-is_status o (n, s, k) =
    let named = (text_eq_iff o.name (text "cluster-autoscaler-status")).1 n in
    let spaced = (text_eq_iff o.namespace (text "kube-system")).1 s in
    let kinded = (text_eq_iff o.kind (text "ConfigMap")).1 k in ground arith

no_status : (o : ObjectReference) → is_status o ≡ false → IsStatus o → ⊥
no_status o e it = let bad = IsStatus-is_status o it in cc

no_status-is_status : (o : ObjectReference) → (IsStatus o → ⊥) → is_status o ≡ false
no_status-is_status o none_such = elim (Bool-cases (is_status o)) [
  | inl it ↦ absurd (none_such (is_status-IsStatus o it))
  | inr other ↦ other
]

elements-IsSameKind :
    (e f : Event)
    → is_status e.involved_object ≡ false
    → is_status f.involved_object ≡ false
    → elements e ≡ elements f
    → IsSameKind e f
elements-IsSameKind e f a b same =
    same_elements (no_status e.involved_object a) (no_status f.involved_object b) (ground arith)
      (ground arith) (ground arith) (ground arith)

abbrev pub lengths : List Text → List ℕ
lengths parts = map length parts

append-inj : (a b : Text) {c d : Text} → length a ≡ length b → a ++ c ≡ b ++ d → (a ≡ b) × (c ≡ d)
append-inj [] [] e same = (refl, same)
append-inj [] (y ∷ b) e same = absurd (omega (arith, e))
append-inj (x ∷ a) [] e same = absurd (omega (arith, e))
append-inj (x ∷ a) (y ∷ b) {c} {d} e same =
    let (first, rest) = append-inj a b (omega (arith, e)) (tails same) in (heads same first, rest)
  where
    tails : x ∷ (a ++ c) ≡ y ∷ (b ++ d) → a ++ c ≡ b ++ d
    tails same = cc

    heads : x ∷ (a ++ c) ≡ y ∷ (b ++ d) → a ≡ b → x ∷ a ≡ y ∷ b
    heads same first = cc

-- Texts without a separator between them are told apart if their lengths agree.
join-inj : (xs ys : List Text) → lengths xs ≡ lengths ys → join xs [] ≡ join ys [] → xs ≡ ys
unfolding join
join-inj [] [] e same = refl
join-inj [] (y ∷ ys) e same = cc
join-inj (x ∷ xs) [] e same = cc
join-inj (x ∷ []) (y ∷ []) e same = ap (λ t. t ∷ []) same
join-inj (x ∷ []) (y ∷ z ∷ zs) e same = cc
join-inj (x ∷ w ∷ ws) (y ∷ []) e same = cc
join-inj (x ∷ w ∷ ws) (y ∷ z ∷ zs) e same =
    let (first, rest) = append-inj x y (heads e) same in
    let others = join-inj (w ∷ ws) (z ∷ zs) (tails e) rest in cons_eq first others
  where
    heads : lengths (x ∷ w ∷ ws) ≡ lengths (y ∷ z ∷ zs) → length x ≡ length y
    heads e = cc

    tails : lengths (x ∷ w ∷ ws) ≡ lengths (y ∷ z ∷ zs) → lengths (w ∷ ws) ≡ lengths (z ∷ zs)
    tails e = cc

    cons_eq : x ≡ y → w ∷ ws ≡ z ∷ zs → x ∷ w ∷ ws ≡ y ∷ z ∷ zs
    cons_eq p q = cc

abbrev parted : Bool → Event → Text
parted b e = join (if b then e.message ∷ [] else elements e) []

-- Two events share a key exactly if they are of the same kind, where either both or none are about the
-- autoscaler's status, and the parts of two others have the same lengths in turn: without a separator,
-- other lengths could make the same key.
pub spam_key-IsSameKind :
    (e f : Event)
    → is_status e.involved_object ≡ is_status f.involved_object
    → (is_status e.involved_object ≡ false → lengths (elements e) ≡ lengths (elements f))
    → (spam_key e ≡ spam_key f) ↔ IsSameKind e f
unfolding spam_key
spam_key-IsSameKind e f agree measured = (
  (λ same.
      there (is_status e.involved_object) refl (sym agree)
        (subst (λ b. parted (is_status e.involved_object) e ≡ parted b f) (sym agree) same)),
  back,
)
  where
    there :
        (b : Bool)
        → is_status e.involved_object ≡ b
        → is_status f.involved_object ≡ b
        → parted b e ≡ parted b f
        → IsSameKind e f
    there true a b same =
        same_status (is_status-IsStatus e.involved_object a)
          (is_status-IsStatus f.involved_object b) same
    there false a b same =
        elements-IsSameKind e f a b (join-inj (elements e) (elements f) (measured a) same)

    the_same :
        e.reason ≡ f.reason
        → e.component ≡ f.component
        → e.host ≡ f.host
        → e.involved_object ≡ f.involved_object
        → elements e ≡ elements f
    the_same reason component host object = cc

    back : IsSameKind e f → spam_key e ≡ spam_key f
    back (same_status a b m) =
        rw (IsStatus-is_status e.involved_object a, IsStatus-is_status f.involved_object b) m
    back (same_elements a b reason component host object) =
        rw (no_status-is_status e.involved_object a, no_status-is_status f.involved_object b)
          (ap (λ parts. join parts []) (the_same reason component host object))
