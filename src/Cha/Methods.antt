-- ===== src/Cha/Methods.antt =====
-- `CPPVTableMapping` and `getMethodNameOfPureVirtualCall` of CHABuilderTools.cc: the methods of a class
-- by name and by index.
use tfa_project.Common.{
  ℕ, suc, ◌&&◌, not, Option, none, some, List, [], ◌∷◌, insert, update, nat_eq, list_eq, ◌==◌,
  if◌then◌else◌, drop, ltb, get_elem?, length,
}
use tfa_project.Common.Text.{Text, codes, starts_with, is_empty}
use tfa_project.Common.Tables.{get}
use tfa_project.Cha.{Slot, func_slot, alias_slot, other_slot, Global, Classes, Names, with_prefix}
use tfa_project.Cha.Collect.{get_class_name}

-- The search for a method's name: a name (empty if there is none), or a read at the end of a vector
-- or beyond, which C++ leaves undefined.
pub data Lookup : Type 0 where
  named : Text → Lookup
  past_end : Lookup

-- What one derived class gives: go on with the next, or an answer.
pub data Tried : Type 0 where
  go_on : Tried
  answer : Lookup → Tried

-- The first base with the name, counted from `i`.
unfoldable pub index_of_base : ℕ → List Text → Text → Option ℕ
index_of_base i [] name = none
index_of_base i (base ∷ bases) name =
    let rest = index_of_base (suc i) bases name in if base == name then some i else rest

module _ (names : Names) where
  -- The first tail call whose callee has a name.
  unfoldable pub tail_name : List (Option ℕ) → Text
  tail_name [] = []
  tail_name (none ∷ callees) = tail_name callees
  tail_name (some f ∷ callees) =
      let rest = tail_name callees in
      if is_empty (names.cpp_func_name f) then rest else names.cpp_func_name f

  abbrev pub try_name : Text → Tried
  try_name [] = go_on
  try_name (c ∷ cs) = answer (named (c ∷ cs))

  -- `if(index > method_array.size()) continue; method = method_array[index];`
  unfoldable pub try_method : (ℕ → Text) → ℕ → List ℕ → Tried
  try_method name_of index methods =
      if ltb (length methods) index
      then go_on
      else elim (get_elem? methods index) [ none ↦ answer past_end | some f ↦ try_name (name_of f) ]

  -- Case 2: the table that stands at the place of the base.
  unfoldable pub try_bases : Classes → Text → Text → ℕ → List (List ℕ) → Tried
  unfolding try_method tail_name index_of_base
  try_bases c class_type derived_type index tables =
      let bases = c.parent_class_map derived_type in
      if not (length tables == length bases)
      then go_on
      else elim (index_of_base 0 bases class_type) [
        | none ↦ go_on
        | some derived_idx ↦ elim (get_elem? tables derived_idx) [
          | none ↦ answer past_end
          | some methods ↦ try_method (λ f. tail_name (names.tail_callees f)) index methods
        ]
      ]

  unfoldable pub try_tables : Classes → Text → Text → ℕ → List (List ℕ) → Tried
  unfolding try_method try_bases
  try_tables c class_type derived_type index [] = try_bases c class_type derived_type index []
  try_tables c class_type derived_type index (methods ∷ []) =
      try_method names.cpp_func_name index methods
  try_tables c class_type derived_type index (t ∷ u ∷ ts) =
      try_bases c class_type derived_type index (t ∷ u ∷ ts)

  unfoldable pub try_derived : Classes → Text → ℕ → Text → Tried
  unfolding try_tables
  try_derived c class_type index derived_type =
      elim (c.global_name_gv_map (with_prefix (codes "_ZTV") derived_type)) [
        | none ↦ go_on
        | some vt ↦ elim (c.global_vtable_map vt) [
          | none ↦ go_on
          | some tables ↦ try_tables c class_type derived_type index tables
        ]
      ]

  unfoldable pub try_all : Classes → Text → ℕ → List Text → Lookup
  unfolding try_derived
  try_all c class_type index [] = named []
  try_all c class_type index (derived ∷ ds) = elim (try_derived c class_type index derived) [
    | go_on ↦ try_all c class_type index ds
    | answer r ↦ r
  ]

  -- `getMethodNameOfPureVirtualCall(GV, idx)`, with `index` for `idx - 2`.
  unfoldable pub get_method_name_of_pure_virtual_call : Classes → Text → ℕ → Lookup
  unfolding try_all
  get_method_name_of_pure_virtual_call c vtable_name index =
      let class_type = with_prefix (codes "_ZTI") vtable_name in
      try_all c class_type index (get c.child_class_map class_type)

  -- The name under which a slot is kept.
  unfoldable pub slot_name : Global → Classes → ℕ → ℕ → Lookup
  unfolding get_method_name_of_pure_virtual_call
  slot_name gv c index f =
      if names.func_name f == codes "__cxa_pure_virtual"
      then get_method_name_of_pure_virtual_call c gv.name index
      else named (names.cpp_func_name f)

  abbrev pub add_method : Text → ℕ → ℕ → Text → Classes → Classes
  add_method class_name index f method c = record c {
    vtable_map =
        update c.vtable_map class_name
          (update (c.vtable_map class_name) method (insert f (c.vtable_map class_name method)));
    method_index_map = update c.method_index_map class_name (
        update (c.method_index_map class_name) index
          (insert method (c.method_index_map class_name index)));
  }

  -- The slots behind the first two; `index` is `i - 2`, which only a recorded method advances.
  -- `none` is an undefined read.
  unfoldable pub map_slots : Global → Text → ℕ → List Slot → Classes → Option Classes
  unfolding slot_name
  map_slots gv class_name index [] c = some c
  map_slots gv class_name index (func_slot f ∷ slots) c = elim (slot_name gv c index f) [
    | past_end ↦ none
    | named [] ↦ map_slots gv class_name index slots c
    | named (m ∷ ms) ↦
        map_slots gv class_name (suc index) slots (add_method class_name index f (m ∷ ms) c)
  ]
  map_slots gv class_name index (alias_slot f ∷ slots) c = map_slots gv class_name index slots c
  map_slots gv class_name index (other_slot ∷ slots) c = map_slots gv class_name index slots c

  unfoldable pub map_arrays : Global → Text → List (Option (List Slot)) → Classes → Option Classes
  unfolding map_slots
  map_arrays gv class_name [] c = some c
  map_arrays gv class_name (none ∷ arrays) c = map_arrays gv class_name arrays c
  map_arrays gv class_name (some slots ∷ arrays) c =
      elim (map_slots gv class_name 0 (drop 2 slots) c) [
        | none ↦ none
        | some c' ↦ map_arrays gv class_name arrays c'
      ]

  -- `CPPVTableMapping`
  unfoldable pub map_vtable : Global → Classes → Option Classes
  unfolding map_arrays
  map_vtable gv c =
      let class_name = get_class_name names gv.stores [] in
      if starts_with (codes "_ZTV") gv.name
        && (gv.has_aggregate && gv.is_struct)
        && not (is_empty class_name)
      then map_arrays gv class_name gv.arrays c
      else some c

  -- `doModulePass`
  unfoldable pub do_module_pass : List Global → Classes → Option Classes
  unfolding map_vtable
  do_module_pass [] c = some c
  do_module_pass (gv ∷ gvs) c = elim (map_vtable gv c) [
    | none ↦ none
    | some c' ↦ do_module_pass gvs c'
  ]
