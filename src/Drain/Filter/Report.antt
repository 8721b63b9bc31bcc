-- ===== src/Drain/Filter/Report.antt =====
-- What the lists of messages say: `errors` is empty exactly when no pod has an error, and groups the
-- pods by message.
use capten_autoscaler.Base.{
  Text, Bool, true, false, List, [], ◌∷◌, ◌++◌, map, select, any, Dict, lookup, insert,
  lookup-insert, ◌≡◌, ◌≢◌, refl, ◌↔◌, inl, inr, In, ◌==◌, text_Eq, text_eq_iff, Bool-cases,
  append_assoc, append-nil, sym, ◌∙◌, ap, arith, if◌then◌else◌,
}
use capten_autoscaler.Cluster.Api.{Env}
use capten_autoscaler.Cluster.Laws.{IsFaithful}
use capten_autoscaler.Drain.Filter.{
  PodDelete, type_error, full_name, entries, add_name, group_by_message, error_key, errors,
}

abbrev Groups : Type 0
Groups = Dict Text (List Text)

abbrev pub has_reason : Text → PodDelete → Bool
has_reason reason i = i.status.reason == reason

insert-ne-nil : (k : Text) (v : List Text) (m : Groups) → insert k v m ≢ []
unfolding insert
insert-ne-nil k v [] e = cc
insert-ne-nil k v ((j, w) ∷ m) e = ground arith

module _ (reason : Text) (key : Text → Text) where
  group-ne-nil :
      (items : List PodDelete) (m : Groups) → m ≢ [] → group_by_message reason key items m ≢ []
  unfolding group_by_message
  group-ne-nil [] m ne = ne
  group-ne-nil (i ∷ items) m ne = elim (Bool-cases (has_reason reason i)) [
    | inl hit ↦ rw hit (group-ne-nil items _ (insert-ne-nil _ _ m))
    | inr miss ↦ rw miss (group-ne-nil items m ne)
  ]

  group_none :
      (items : List PodDelete) (m : Groups)
      → any (has_reason reason) items ≡ false
      → group_by_message reason key items m ≡ m
  unfolding group_by_message
  group_none [] m quiet = refl
  group_none (i ∷ items) m quiet = elim (Bool-cases (has_reason reason i)) [
    | inl hit ↦ let bad = rw hit at quiet in cc
    | inr miss ↦ rw miss (group_none items m (rw miss at quiet))
  ]

  group_some :
      (items : List PodDelete) (m : Groups)
      → any (has_reason reason) items ≡ true
      → group_by_message reason key items m ≢ []
  unfolding group_by_message
  group_some [] m hit = cc
  group_some (i ∷ items) m found = elim (Bool-cases (has_reason reason i)) [
    | inl hit ↦ rw hit (group-ne-nil items _ (insert-ne-nil _ _ m))
    | inr miss ↦ rw miss (group_some items m (rw miss at found))
  ]

  -- The names of the pods of one reason and key, in the order of the list.
  abbrev pub names_of : Text → List PodDelete → List Text
  names_of k items =
      map (λ i. full_name i.pod)
        (select (λ i. if has_reason reason i then key i.status.message == k else false) items)

  entries-add_name :
      (j k n : Text) (m : Groups)
      → entries (lookup k (add_name j n m))
        ≡ (if j == k then entries (lookup j m) ++ n ∷ [] else entries (lookup k m))
  unfolding add_name
  entries-add_name j k n m = rw lookup-insert (ground arith)

  lookup-group :
      (k : Text) (items : List PodDelete) (m : Groups)
      → entries (lookup k (group_by_message reason key items m))
        ≡ entries (lookup k m) ++ names_of k items
  unfolding group_by_message
  lookup-group k [] m = sym (append-nil _)
  lookup-group k (i ∷ items) m = elim (Bool-cases (has_reason reason i)) [
    | inr miss ↦ rw miss (lookup-group k items m)
    | inl hit ↦ elim (Bool-cases (key i.status.message == k)) [
      | inr differs ↦
          rw (hit, differs)
            (lookup-group k items _
              ∙ ap (λ x. x ++ names_of k items)
                  (entries-add_name (key i.status.message) k (full_name i.pod) m ∙ rw differs))
      | inl same ↦
          rw (hit, same)
            (lookup-group k items _
              ∙ ap (λ x. x ++ names_of k items)
                  (entries-add_name (key i.status.message) k (full_name i.pod) m ∙ rw same)
              ∙ append_assoc (entries (lookup (key i.status.message) m)) (full_name i.pod ∷ [])
                  (names_of k items)
              ∙ ap (λ x. entries (lookup x m) ++ (full_name i.pod ∷ names_of k items))
                  ((text_eq_iff (key i.status.message) k).0 same))
    ]
  ]

-- The maps that `Warnings` and `errors` build hold, under each message, the names of exactly the pods
-- with that message and the reason in question, each once and in the order of the list.
pub group_by_message-names_of :
    (reason : Text) (key : Text → Text) (k : Text) (items : List PodDelete)
    → entries (lookup k (group_by_message reason key items [])) ≡ names_of reason key k items
unfolding lookup
group_by_message-names_of reason key k items = lookup-group reason key k items []

map-nil : {A B : Type 0} (f : A → B) (xs : List A) → map f xs ≡ [] → xs ≡ []
map-nil f [] e = refl
map-nil f (x ∷ xs) e = cc

nil-of-In : {A : Type 0} (xs : List A) → ((x : A) → ¬ In x xs) → xs ≡ []
nil-of-In [] h = refl
nil-of-In (x ∷ xs) h = absurd (h x (inl refl))

module _ (env : Env) (faithful : IsFaithful env) where
  range-nil : (m : Groups) → (env.range_order m ≡ []) ↔ (m ≡ [])
  range-nil m = (
    λ e. nil-of-In m (λ x i. rw e at ((faithful.range_all m x).0 i)),
    λ e. nil-of-In (env.range_order m) (λ x i. rw e at ((faithful.range_all m x).1 i)),
  )

  -- `PodDeleteList.errors` is empty exactly when no item of the list has the reason `Error`, in
  -- whatever order `range` visits the map.
  pub errors-nil :
      (items : List PodDelete)
      → (errors env items ≡ []) ↔ (any (has_reason type_error) items ≡ false)
  unfolding errors
  errors-nil items = (
    λ e.
        let empty =
          (range-nil (group_by_message type_error (error_key env) items [])).0 (map-nil _ _ e) in
        elim (Bool-cases (any (has_reason type_error) items)) [
          | inl found ↦ absurd (group_some type_error (error_key env) items [] found empty)
          | inr quiet ↦ quiet
        ],
    λ quiet. rw (
        (range-nil (group_by_message type_error (error_key env) items [])).1
          (group_none type_error (error_key env) items [] quiet)),
  )
