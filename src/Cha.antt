-- ===== src/Cha.antt =====
-- src/lib/CHABuilder: the class hierarchy and the virtual tables of C++ classes, read off the global
-- variables `_ZTI…` (type information) and `_ZTV…` (virtual tables).
pub mod Collect
pub mod Methods
pub mod Inverse
pub mod Hierarchy
pub mod Indexed
pub mod Bounds
use tfa_project.Common.{
  ℕ, zero, suc, ◌+◌, Bool, true, false, ◌&&◌, ◌||◌, not, Option, none, some, List, [], ◌∷◌, ◌++◌,
  mem, insert, update, nat_eq, list_eq, ◌==◌, if◌then◌else◌, drop, is_some, Eq,
}
use tfa_project.Common.Text.{Text, codes, starts_with, is_empty}
use tfa_project.Common.Tables.{Table, get}

-- A slot of a virtual table: a cast of a function, a cast of an alias of a function, or neither.
pub data Slot : Type 0 where
  func_slot : ℕ → Slot
  alias_slot : ℕ → Slot
  other_slot : Slot

-- A store that the casts of the GEPs of a virtual table lead to: whether it stores the cast, the type
-- that an `alloca` or a global variable gives its pointer, and the source type of a GEP there.
pub record TableStore : Type 0 where
  pub stores_table : Bool
  pub object_type : Option ℕ
  pub gep_type : Option ℕ

-- A global variable: `bases` are the names of the global variables that the operands of its
-- initialiser are casts of, `arrays` the operands that are arrays (`none` for another operand), and
-- `stores` comes in the order of the loops of `getClassName`.
pub record Global : Type 0 where
  pub id : ℕ
  pub name : Text
  pub has_aggregate : Bool
  pub is_struct : Bool
  pub bases : List Text
  pub arrays : List (Option (List Slot))
  pub stores : List TableStore

-- The maps of `CHABuilderPass`, and those of `GlobalContext` that it fills.
pub record Classes : Type 0 where
  pub global_vtable_map : ℕ → Option (List (List ℕ))
  pub global_name_gv_map : Text → Option ℕ
  pub parent_class_map : Text → List Text
  pub child_class_map : Table Text Text
  pub class_name_map : ℕ → Option Text
  -- `Global_VTable_Map`, `Global_Class_Method_Index_Map` and `GlobalClassHierarchyMap`
  pub vtable_map : Text → Text → List ℕ
  pub method_index_map : Text → ℕ → List Text
  pub class_hierarchy_map : Text → List Text

-- What LLVM and the demangler know.
pub record Names : Type 0 where
  -- The name of a struct type; `none` for other types.
  pub struct_name : ℕ → Option Text
  pub func_name : ℕ → Text
  -- `getCPPFuncName`
  pub cpp_func_name : ℕ → Text
  -- The called functions of the tail calls of a function; `none` for an indirect one.
  pub tail_callees : ℕ → List (Option ℕ)

-- `push_back` to the entry of a key.
unfoldable pub push {ℓ} : {K : Type ℓ} ⦃e : Eq K⦄ → Table K K → K → K → Table K K
push [] key x = (key, x ∷ []) ∷ []
push ((k, xs) ∷ rows) key x =
    let rest = push rows key x in if key == k then (k, xs ++ x ∷ []) ∷ rows else (k, xs) ∷ rest

-- `replace(0, 4, prefix)`
unfoldable pub with_prefix : Text → Text → Text
with_prefix prefix name = prefix ++ drop 4 name
