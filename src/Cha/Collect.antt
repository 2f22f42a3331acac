-- ===== src/Cha/Collect.antt =====
-- `doInitialization`, `doModulePass` and `doFinalization` of CHABuilder.cc, with the collectors of
-- CHABuilderTools.cc.
use tfa_project.Common.{
  ℕ, ◌&&◌, ◌||◌, not, Option, none, some, List, [], ◌∷◌, ◌++◌, insert, update, nat_eq, list_eq,
  if◌then◌else◌, drop,
}
use tfa_project.Common.Text.{Text, codes, starts_with, is_empty}
use tfa_project.Common.Tables.{Table}
use tfa_project.Cha.{
  Slot, func_slot, alias_slot, other_slot, TableStore, Global, Classes, Names, push, with_prefix,
}

-- `ParentClassMap[…].push_back` and `ChildClassMap[…].push_back` for each base with type information.
unfoldable pub collect_bases : Text → List Text → Classes → Classes
collect_bases name [] c = c
collect_bases name (base ∷ bases) c = collect_bases name bases (
    if starts_with (codes "_ZTI") base
    then record c {
      parent_class_map = update c.parent_class_map name (c.parent_class_map name ++ base ∷ []);
      child_class_map = push c.child_class_map base name;
    }
    else c)

abbrev pub name_global : Global → Classes → Classes
name_global gv c = record c {
  global_name_gv_map = update c.global_name_gv_map gv.name (some gv.id);
}

-- `CPPClassHierarchyRelationCollector`
unfoldable pub collect_relations : Global → Classes → Classes
unfolding collect_bases
collect_relations gv c =
    if starts_with (codes "_ZTI") gv.name && gv.has_aggregate
    then collect_bases gv.name gv.bases (name_global gv c)
    else c

-- The functions of the slots behind the first two.
unfoldable pub table_functions : List Slot → List ℕ
table_functions [] = []
table_functions (func_slot f ∷ slots) = f ∷ table_functions slots
table_functions (alias_slot f ∷ slots) = f ∷ table_functions slots
table_functions (other_slot ∷ slots) = table_functions slots

unfoldable pub tables_of : List (Option (List Slot)) → List (List ℕ)
unfolding table_functions
tables_of [] = []
tables_of (none ∷ arrays) = tables_of arrays
tables_of (some slots ∷ arrays) = table_functions (drop 2 slots) ∷ tables_of arrays

module _ (names : Names) where
  abbrev struct_or : Option ℕ → Text → Text
  struct_or none name = name
  struct_or (some ty) name = elim (names.struct_name ty) [ none ↦ name | some found ↦ found ]

  -- `getClassName`: the last store decides.
  unfoldable pub get_class_name : List TableStore → Text → Text
  get_class_name [] name = name
  get_class_name (s ∷ stores) name =
      get_class_name stores
        (if s.stores_table then struct_or s.gep_type (struct_or s.object_type name) else name)

  -- `CPPVTableBuilder`. A table without arrays has no entry in `GlobalVTableMap`.
  unfoldable pub build_vtable : Global → Classes → Classes
  unfolding get_class_name tables_of
  build_vtable gv c =
      if starts_with (codes "_ZTV") gv.name && gv.has_aggregate
      then (let named = name_global gv c in
          let class_name = get_class_name gv.stores [] in
          if not gv.is_struct || is_empty class_name
          then named
          else (let classed = record named {
            class_name_map = update c.class_name_map gv.id (some class_name);
          } in
              elim (tables_of gv.arrays) [
                | [] ↦ classed
                | t ∷ ts ↦ record classed {
                  global_vtable_map =
                      update c.global_vtable_map gv.id
                        (some (entries (c.global_vtable_map gv.id) ++ t ∷ ts));
                }
              ]))
      else c
    where
      entries : Option (List (List ℕ)) → List (List ℕ)
      entries none = []
      entries (some ts) = ts

  -- `doInitialization`
  unfoldable pub do_initialization : List Global → Classes → Classes
  unfolding collect_relations build_vtable
  do_initialization [] c = c
  do_initialization (gv ∷ gvs) c = do_initialization gvs (build_vtable gv (collect_relations gv c))

-- `doFinalization`: the class names of a base and of those derived from it.
abbrev pub class_of : Classes → Text → Option Text
class_of c rtti_name = elim (c.global_name_gv_map (with_prefix (codes "_ZTV") rtti_name)) [
  | none ↦ none
  | some vt ↦ c.class_name_map vt
]

unfoldable pub add_derived : Text → List Text → Classes → Classes
add_derived vt_class [] c = c
add_derived vt_class (derived ∷ ds) c = add_derived vt_class ds (elim (class_of c derived) [
  | none ↦ c
  | some derived_class ↦ record c {
    class_hierarchy_map =
        update c.class_hierarchy_map vt_class
          (insert derived_class (c.class_hierarchy_map vt_class));
  }
])

unfoldable pub add_classes : Table Text Text → Classes → Classes
unfolding add_derived
add_classes [] c = c
add_classes ((parent, ds) ∷ rows) c =
    add_classes rows
      (elim (class_of c parent) [ none ↦ c | some vt_class ↦ add_derived vt_class ds c ])

-- The first call of `doFinalization`; the flag `analyze_once` lets later calls do nothing.
unfoldable pub do_finalization : Classes → Classes
unfolding add_classes
do_finalization c = add_classes c.child_class_map c
