-- ===== src/Azure/Tests.antt =====
-- A scale set of two machines on two pages.
use capten_autoscaler.Base.{pos, Text, text, false, none, some, [], ◌∷◌, ◌≡◌, refl, inl, equal_fold}
use capten_autoscaler.Cluster.Api.{Error, ok, done}
use capten_autoscaler.Azure.{Vm, delete_vm, Sdk, delete_machine, is_machine_of}
use capten_autoscaler.Azure.Choice.{
  IsMachine, IsListed, delete_machine-IsMachine, delete_machine-none,
}

abbrev machine : Text → Text → Vm
machine name computer_name = record {
  name = some name;
  properties = some (record { os_profile = some (record { computer_name = some computer_name }) });
}

abbrev two_pages : Sdk
two_pages = record {
  on_get = ok (some (pos 2));
  on_begin_update = λ capacity. none;
  on_update_done = none;
  pages =
      ok (machine (text "vm_0") (text "Node-A") ∷ [])
      ∷ ok (machine (text "vm_1") (text "node-b") ∷ [])
      ∷ [];
  on_begin_delete = λ name. none;
  on_delete_done = none;
}

second_deleted : (delete_machine two_pages (text "node-b")).1 ≡ delete_vm (text "vm_1") ∷ []
unfolding delete_machine equal_fold
second_deleted = refl

delete_machine-IsMachine_example :
    (vm : Vm) × IsListed two_pages.pages vm × IsMachine (text "node-b") (text "vm_1") vm
delete_machine-IsMachine_example =
    delete_machine-IsMachine two_pages (text "node-b") (text "vm_1") (rw second_deleted (inl refl))

not_machine_0 : is_machine_of (text "node-c") (machine (text "vm_0") (text "Node-A")) ≡ done false
unfolding is_machine_of equal_fold
not_machine_0 = refl

not_machine_1 : is_machine_of (text "node-c") (machine (text "vm_1") (text "node-b")) ≡ done false
unfolding is_machine_of equal_fold
not_machine_1 = refl

delete_machine-none_example :
    (e : Error) × (delete_machine two_pages (text "node-c") ≡ (done (some e), []))
delete_machine-none_example =
    delete_machine-none two_pages (text "node-c") ((not_machine_0, tt), ((not_machine_1, tt), tt))
