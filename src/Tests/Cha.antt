-- ===== src/Tests/Cha.antt =====
-- A base class A and a class B derived from it. The table of B (global variable 5) holds method 7;
-- that of A (global variable 4) a pure virtual method, function 0.
use tfa_project.Common.{
  ℕ, ◌≡◌, ◌↔◌, ◌⊎◌, refl, true, none, some, List, [], ◌∷◌, mem, nat_eq, list_eq, ◌==◌,
  if◌then◌else◌,
}
use tfa_project.Common.Text.{Text, codes}
use tfa_project.Common.Tables.{get}
use tfa_project.Cha.{Classes, Names, Global, TableStore, func_slot, other_slot, with_prefix}
use tfa_project.Cha.Collect.{do_initialization, do_finalization}
use tfa_project.Cha.Methods.{
  past_end, try_method, try_tables, try_derived, try_all, get_method_name_of_pure_virtual_call,
  do_module_pass,
}
use tfa_project.Cha.Inverse.{Inverse, do_initialization-Inverse}
use tfa_project.Cha.Hierarchy.{Related, do_finalization_iff}
use tfa_project.Cha.Indexed.{Indexed, Maps, do_module_pass-Maps}
use tfa_project.Cha.Bounds.{FullAt, get_method_name_of_pure_virtual_call-past_end}

abbrev names : Names
names = record {
  struct_name = λ ty. if ty == 1 then some (codes "class.A") else some (codes "class.B");
  func_name = λ f. if f == 0 then codes "__cxa_pure_virtual" else codes "_ZN1B1fEv";
  cpp_func_name = λ f. codes "f";
  tail_callees = λ f. [];
}

abbrev store_of : ℕ → TableStore
store_of ty = record { stores_table = true; object_type = none; gep_type = some ty }

abbrev base_type : Global
base_type = record {
  id = 2;
  name = codes "_ZTI1A";
  has_aggregate = true;
  is_struct = true;
  bases = [];
  arrays = [];
  stores = [];
}

abbrev derived_type : Global
derived_type = record {
  id = 3;
  name = codes "_ZTI1B";
  has_aggregate = true;
  is_struct = true;
  bases = codes "_ZTI1A" ∷ [];
  arrays = [];
  stores = [];
}

abbrev base_table : Global
base_table = record {
  id = 4;
  name = codes "_ZTV1A";
  has_aggregate = true;
  is_struct = true;
  bases = [];
  arrays = some (other_slot ∷ other_slot ∷ func_slot 0 ∷ []) ∷ [];
  stores = store_of 1 ∷ [];
}

abbrev derived_table : Global
derived_table = record {
  id = 5;
  name = codes "_ZTV1B";
  has_aggregate = true;
  is_struct = true;
  bases = [];
  arrays = some (other_slot ∷ other_slot ∷ func_slot 7 ∷ []) ∷ [];
  stores = store_of 2 ∷ [];
}

abbrev globals : List Global
globals = base_type ∷ derived_type ∷ base_table ∷ derived_table ∷ []

abbrev empty : Classes
empty = record {
  global_vtable_map = λ v. none;
  global_name_gv_map = λ n. none;
  parent_class_map = λ n. [];
  child_class_map = [];
  class_name_map = λ v. none;
  vtable_map = λ n m. [];
  method_index_map = λ n k. [];
  class_hierarchy_map = λ n. [];
}

-- What the first pass leaves of the two classes.
abbrev collected : Classes
collected = record empty {
  global_vtable_map = λ v. if v == 5 then some ((7 ∷ []) ∷ []) else none;
  global_name_gv_map =
      λ n. if n == codes "_ZTV1B" then some 5 else if n == codes "_ZTV1A" then some 4 else none;
  child_class_map = (codes "_ZTI1A", codes "_ZTI1B" ∷ []) ∷ [];
  class_name_map = λ v. if v == 5 then some (codes "class.B") else some (codes "class.A");
}

empty-Inverse : Inverse empty
unfolding Inverse
empty-Inverse base name = refl

do_initialization-Inverse_example : Inverse (do_initialization names globals empty)
do_initialization-Inverse_example = do_initialization-Inverse names globals empty empty-Inverse

do_finalization_iff_example :
    (mem (codes "class.B") ((do_finalization collected).class_hierarchy_map (codes "class.A"))
      ≡ true)
    ↔ ((mem (codes "class.B") (collected.class_hierarchy_map (codes "class.A")) ≡ true)
        ⊎ Related collected collected.child_class_map (codes "class.A") (codes "class.B"))
do_finalization_iff_example = do_finalization_iff collected (codes "class.A") (codes "class.B")

collected-Indexed : Indexed collected
unfolding Indexed
collected-Indexed cls k m h = cc

do_module_pass-Maps_example : Maps names collected (do_module_pass names globals collected)
do_module_pass-Maps_example = do_module_pass-Maps names globals collected collected-Indexed

reads_past_end : get_method_name_of_pure_virtual_call names collected (codes "_ZTV1A") 1 ≡ past_end
unfolding get_method_name_of_pure_virtual_call try_all try_derived try_tables try_method with_prefix
reads_past_end = refl

get_method_name_of_pure_virtual_call-past_end_example :
    (derived : Text) × (mem derived
        (get collected.child_class_map (with_prefix (codes "_ZTI") (codes "_ZTV1A")))
      ≡ true)
    × FullAt names collected 1 derived
get_method_name_of_pure_virtual_call-past_end_example =
    get_method_name_of_pure_virtual_call-past_end names collected (codes "_ZTV1A") 1 reads_past_end
