-- ===== src/Azure.antt =====
-- pkg/cloudprovider/azure/azure.go: scaling the set of machines up, and taking one machine away. The
-- SDK's answers are the record `Sdk`; the requests that change something are recorded in order.
pub mod Choice
pub mod New
mod Tests
use capten_autoscaler.Base.{
  ℤ, ◌+ℤ◌, int64, Text, text, equal_fold, is_empty, Bool, true, false, Option, none, some, List, [],
  ◌∷◌, ◌++◌, if◌then◌else◌,
}
use capten_autoscaler.Cluster.Api.{
  Error, failure, wrap, message, Result, ok, err, Outcome, done, panicked, exited, unfinished,
}

-- Of `armcompute`, with the fields that the code reads; a pointer that may be nil is an option.
pub record OsProfile : Type 0 where
  pub computer_name : Option Text

pub record VmProperties : Type 0 where
  pub os_profile : Option OsProfile

pub record Vm : Type 0 where
  pub name : Option Text
  pub properties : Option VmProperties

pub data Request : Type 0 where
  update_capacity : ℤ → Request
  delete_vm : (name : Text) → Request

-- The answers of the SDK's calls.
pub record Sdk : Type 0 where
  -- `Get` of the scale set: `res.SKU.Capacity`, where a pointer on the way may be nil
  pub on_get : Result (Option ℤ)
  pub on_begin_update : ℤ → Option Error
  pub on_update_done : Option Error
  -- what `NextPage` answers in turn, until `More` is false
  pub pages : List (Result (List Vm))
  pub on_begin_delete : Text → Option Error
  pub on_delete_done : Option Error

abbrev pub Run : Type 0
Run = Outcome (Option Error) × List Request

module _ (sdk : Sdk) where
  abbrev pub updated : Option Error → Option Error → Option Error
  updated (some e) last = some (failure (text "failed to update the scale set: " ++ message e))
  updated none (some e) = some (wrap (text "failed to scale up node: ") e)
  updated none none = none

  abbrev pub update_to : ℤ → Run
  update_to capacity = (
    done (updated (sdk.on_begin_update capacity) sdk.on_update_done),
    update_capacity capacity ∷ [],
  )

  -- `*res.SKU.Capacity += count`; an error of `Get` is fatal.
  abbrev pub scale_up_from : ℤ → Result (Option ℤ) → Run
  scale_up_from count (err e) = (exited, [])
  scale_up_from count (ok none) = (panicked, [])
  scale_up_from count (ok (some capacity)) = update_to (int64 (capacity +ℤ count))

  -- `ScaleUp`
  unfoldable pub scale_up_set : ℤ → Run
  scale_up_set count = scale_up_from count sdk.on_get

-- `strings.EqualFold(*v.Properties.OSProfile.ComputerName, nodeName)`, behind the tests for nil.
abbrev pub has_computer_name : Text → Option OsProfile → Outcome Bool
has_computer_name node_name none = done false
has_computer_name node_name (some profile) = elim profile.computer_name [
  | none ↦ panicked
  | some name ↦ done (equal_fold name node_name)
]

unfoldable pub is_machine_of : Text → Vm → Outcome Bool
is_machine_of node_name vm = elim vm.properties [
  | none ↦ done false
  | some properties ↦ has_computer_name node_name properties.os_profile
]

-- `vmName = *v.Name`
abbrev pub name_of : Option Text → Outcome Text
name_of none = panicked
name_of (some name) = done name

abbrev pub choose : Outcome Bool → Vm → Outcome Text → Outcome Text
choose (done true) vm rest = name_of vm.name
choose (done false) vm rest = rest
choose panicked vm rest = panicked
choose exited vm rest = exited
choose unfinished vm rest = unfinished

-- The loop over one page; `break` leaves it at the first match.
unfoldable pub search_page : (node_name vm_name : Text) → List Vm → Outcome Text
unfolding is_machine_of
search_page node_name vm_name [] = done vm_name
search_page node_name vm_name (vm ∷ vms) =
    choose (is_machine_of node_name vm) vm (search_page node_name vm_name vms)

abbrev pub go_on : Outcome Text → (Text → Outcome Text) → Outcome Text
go_on (done vm_name) next = next vm_name
go_on panicked next = panicked
go_on exited next = exited
go_on unfinished next = unfinished

-- The loop over the pages, which goes on after a match. An error of `NextPage` is fatal.
unfoldable pub search_pages : (node_name vm_name : Text) → List (Result (List Vm)) → Outcome Text
unfolding search_page
search_pages node_name vm_name [] = done vm_name
search_pages node_name vm_name (err e ∷ pages) = exited
search_pages node_name vm_name (ok vms ∷ pages) =
    go_on (search_page node_name vm_name vms) (λ found. search_pages node_name found pages)

module _ (sdk : Sdk) where
  abbrev pub deleted : Option Error → Option Error → Option Error
  deleted (some e) last = some (wrap (text "failed to finish the request: ") e)
  deleted none (some e) = some (wrap (text "failed to pull the result: ") e)
  deleted none none = none

  abbrev pub delete_found : Text → Outcome Text → Run
  delete_found node_name panicked = (panicked, [])
  delete_found node_name exited = (exited, [])
  delete_found node_name unfinished = (unfinished, [])
  delete_found node_name (done vm_name) =
      if is_empty vm_name
      then (done (some (failure (text "failed to get the vmName for node: " ++ node_name))), [])
      else (done (deleted (sdk.on_begin_delete vm_name) sdk.on_delete_done), delete_vm vm_name ∷ [])

  -- `ScaleDown`
  unfoldable pub delete_machine : Text → Run
  unfolding search_pages
  delete_machine node_name = delete_found node_name (search_pages node_name [] sdk.pages)
