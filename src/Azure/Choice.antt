-- ===== src/Azure/Choice.antt =====
-- Which machine `ScaleDown` deletes, and when it deletes none.
use capten_autoscaler.Base.{
  ◌∙◌, equal_fold, Text, text, is_empty, Bool, true, false, Option, none, some, List, [], ◌∷◌, ◌++◌,
  ◌≡◌, refl, ◌⊎◌, inl, inr, In, All, arith, Bool-cases,
}
use capten_autoscaler.Cluster.Api.{
  Error, failure, Result, ok, err, Outcome, done, panicked, exited, unfinished,
}
use capten_autoscaler.Azure.{
  OsProfile, VmProperties, has_computer_name, Vm, delete_vm, Sdk, is_machine_of, name_of, choose,
  search_page, go_on, search_pages, delete_found, delete_machine,
}

-- The machine has a profile with a computer name that is the node's name up to case, and the given name
-- of its own.
pub record IsMachine (node_name name : Text) (vm : Vm) : Type 0 where
  pub properties : VmProperties
  pub profile : OsProfile
  pub computer_name : Text
  pub has_properties : vm.properties ≡ some properties
  pub has_profile : properties.os_profile ≡ some profile
  pub is_called : profile.computer_name ≡ some computer_name
  pub names_node : equal_fold computer_name node_name ≡ true
  pub named : vm.name ≡ some name

-- What a match of the loop says of the machine.
match-IsMachine :
    (node_name name : Text) (vm : Vm)
    → is_machine_of node_name vm ≡ done true
    → vm.name ≡ some name
    → IsMachine node_name name vm
unfolding is_machine_of
match-IsMachine node_name name vm hit named = by_properties vm.properties refl hit
  where
    by_name :
        (properties : VmProperties) (profile : OsProfile) (called : Option Text)
        → vm.properties ≡ some properties
        → properties.os_profile ≡ some profile
        → profile.computer_name ≡ called
        → has_computer_name node_name (some (record { computer_name = called })) ≡ done true
        → IsMachine node_name name vm
    by_name properties profile none a b c e = cc
    by_name properties profile (some computer_name) a b c e = record {
      properties = properties;
      profile = profile;
      computer_name = computer_name;
      has_properties = a;
      has_profile = b;
      is_called = c;
      names_node = ground arith;
      named = named;
    }

    by_profile :
        (properties : VmProperties) (profile : Option OsProfile)
        → vm.properties ≡ some properties
        → properties.os_profile ≡ profile
        → has_computer_name node_name profile ≡ done true
        → IsMachine node_name name vm
    by_profile properties none a b e = cc
    by_profile properties (some profile) a b e =
        by_name properties profile profile.computer_name a b refl e

    by_properties :
        (properties : Option VmProperties)
        → vm.properties ≡ properties
        → is_machine_of node_name (record { name = some name; properties = properties }) ≡ done true
        → IsMachine node_name name vm
    by_properties none a e = cc
    by_properties (some properties) a e = by_profile properties properties.os_profile a refl e

abbrev pub IsListed : List (Result (List Vm)) → Vm → Type 0
IsListed [] vm = ⊥
IsListed (ok vms ∷ pages) vm = In vm vms ⊎ IsListed pages vm
IsListed (err e ∷ pages) vm = IsListed pages vm

search_page-IsMachine :
    (node_name before name : Text) (vms : List Vm)
    → search_page node_name before vms ≡ done name
    → (name ≡ before) ⊎ ((vm : Vm) × In vm vms × IsMachine node_name name vm)
unfolding search_page
search_page-IsMachine node_name before name [] e = inl cc
search_page-IsMachine node_name before name (vm ∷ vms) e =
    by_match (is_machine_of node_name vm) refl e (search_page-IsMachine node_name before name vms)
  where
    some_name : {n : Text} → ◌≡◌ {A = Outcome Text} (done n) (done name) → some n ≡ some name
    some_name e = cc

    by_name :
        (n : Option Text)
        → vm.name ≡ n
        → is_machine_of node_name vm ≡ done true
        → name_of n ≡ done name
        → (v : Vm) × In v (vm ∷ vms) × IsMachine node_name name v
    by_name none same hit e = cc
    by_name (some n) same hit e =
        (vm, inl refl, match-IsMachine node_name name vm hit (same ∙ some_name e))

    by_match :
        (o : Outcome Bool)
        → is_machine_of node_name vm ≡ o
        → choose o vm (search_page node_name before vms) ≡ done name
        → (search_page node_name before vms ≡ done name
            → (name ≡ before) ⊎ ((v : Vm) × In v vms × IsMachine node_name name v))
        → (name ≡ before) ⊎ ((v : Vm) × In v (vm ∷ vms) × IsMachine node_name name v)
    by_match (done true) hit e rest = inr (by_name vm.name refl hit e)
    by_match (done false) hit e rest = elim (rest e) [
      | inl same ↦ inl same
      | inr (v, m, is) ↦ inr (v, inr m, is)
    ]
    by_match panicked hit e rest = cc
    by_match exited hit e rest = cc
    by_match unfinished hit e rest = cc

search_pages-IsMachine :
    (node_name before name : Text) (pages : List (Result (List Vm)))
    → search_pages node_name before pages ≡ done name
    → (name ≡ before) ⊎ ((vm : Vm) × IsListed pages vm × IsMachine node_name name vm)
unfolding search_pages
search_pages-IsMachine node_name before name [] e = inl cc
search_pages-IsMachine node_name before name (err x ∷ pages) e = cc
search_pages-IsMachine node_name before name (ok vms ∷ pages) e =
    by_page (search_page node_name before vms) refl e
      (λ found. search_pages-IsMachine node_name found name pages)
  where
    by_page :
        (o : Outcome Text)
        → search_page node_name before vms ≡ o
        → go_on o (λ found. search_pages node_name found pages) ≡ done name
        → ((found : Text)
            → search_pages node_name found pages ≡ done name
            → (name ≡ found) ⊎ ((vm : Vm) × IsListed pages vm × IsMachine node_name name vm))
        → (name ≡ before) ⊎ ((vm : Vm) × IsListed (ok vms ∷ pages) vm × IsMachine node_name name vm)
    by_page (done found) first e rest = elim (rest found e) [
      | inr (vm, m, is) ↦ inr (vm, inr m, is)
      | inl same ↦ elim (search_page-IsMachine node_name before name vms (first ∙ cc)) [
        | inl old ↦ inl old
        | inr (vm, m, is) ↦ inr (vm, inl m, is)
      ]
    ]
    by_page panicked first e rest = cc
    by_page exited first e rest = cc
    by_page unfinished first e rest = cc

named_not_empty : (name : Text) → name ≡ [] → is_empty name ≡ false → ⊥
named_not_empty [] e named = cc
named_not_empty (c ∷ name) e named = cc

same_name :
    (name vm_name : Text)
    → In (delete_vm name) (delete_vm vm_name ∷ [])
    → is_empty vm_name ≡ false
    → (◌≡◌ {A = Outcome Text} (done vm_name) (done name)) × (is_empty name ≡ false)
same_name name vm_name (inl same) found = ground arith
same_name name vm_name (inr none_else) found = elim none_else [ ]

module _ (sdk : Sdk) where
  found_inv :
      (node_name name : Text) (o : Outcome Text)
      → In (delete_vm name) (delete_found sdk node_name o).1
      → (o ≡ done name) × (is_empty name ≡ false)
  found_inv node_name name panicked m = elim m [ ]
  found_inv node_name name exited m = elim m [ ]
  found_inv node_name name unfinished m = elim m [ ]
  found_inv node_name name (done vm_name) m = by_name (Bool-cases (is_empty vm_name)) m
    where
      by_name :
          (is_empty vm_name ≡ true) ⊎ (is_empty vm_name ≡ false)
          → In (delete_vm name) (delete_found sdk node_name (done vm_name)).1
          → (◌≡◌ {A = Outcome Text} (done vm_name) (done name)) × (is_empty name ≡ false)
      by_name (inl none_found) m = elim (rw none_found at m) [ ]
      by_name (inr found) m = same_name name vm_name (rw found at m) found

  -- `ScaleDown` deletes no machine but one that a page lists, with a profile whose computer name is the
  -- node's name up to case, and whose own name is the one in the request.
  pub delete_machine-IsMachine :
      (node_name name : Text)
      → In (delete_vm name) (delete_machine sdk node_name).1
      → (vm : Vm) × IsListed sdk.pages vm × IsMachine node_name name vm
  unfolding delete_machine
  delete_machine-IsMachine node_name name m =
      let (found, named) = found_inv node_name name (search_pages node_name [] sdk.pages) m in
      elim (search_pages-IsMachine node_name [] name sdk.pages found) [
        | inr it ↦ it
        | inl none_found ↦ absurd (named_not_empty name none_found named)
      ]

-- No machine of the page is the node's, and each can be asked for its name.
search_page-none :
    (node_name before : Text) (vms : List Vm)
    → All (λ vm. is_machine_of node_name vm ≡ done false) vms
    → search_page node_name before vms ≡ done before
unfolding search_page
search_page-none node_name before [] k = refl
search_page-none node_name before (vm ∷ vms) k = rw k.0 (search_page-none node_name before vms k.1)

abbrev pub IsUnmatched : Text → Result (List Vm) → Type 0
IsUnmatched node_name (ok vms) = All (λ vm. is_machine_of node_name vm ≡ done false) vms
IsUnmatched node_name (err e) = ⊥

search_pages-none :
    (node_name before : Text) (pages : List (Result (List Vm)))
    → All (IsUnmatched node_name) pages
    → search_pages node_name before pages ≡ done before
unfolding search_pages
search_pages-none node_name before [] k = refl
search_pages-none node_name before (err e ∷ pages) k = absurd k.0
search_pages-none node_name before (ok vms ∷ pages) k =
    rw (search_page-none node_name before vms k.0) (search_pages-none node_name before pages k.1)

-- If every page is answered and no machine of any page has the node's name, `ScaleDown` returns an
-- error and asks for nothing to be deleted.
pub delete_machine-none :
    (sdk : Sdk) (node_name : Text)
    → All (IsUnmatched node_name) sdk.pages
    → (e : Error) × (delete_machine sdk node_name ≡ (done (some e), []))
unfolding delete_machine
delete_machine-none sdk node_name k = (
  failure (text "failed to get the vmName for node: " ++ node_name),
  rw (search_pages-none node_name [] sdk.pages k) refl,
)
