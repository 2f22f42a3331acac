-- ===== src/CallGraph/Virtual.antt =====
-- CPPHandler.cc: is a called value loaded from a virtual table (`getCPPVirtualFunc`), and which
-- methods a virtual call may reach (`getTargetsInDerivedClass`).
pub mod Derived
pub mod Search
pub mod Targets
use tfa_project.Common.{
  ℕ, zero, suc, Bool, true, false, not, ◌&&◌, ◌||◌, Option, none, some, List, [], ◌∷◌, ◌==◌, mem,
  union, if◌then◌else◌, length, nat_eq, list_eq, is_some,
}
use tfa_project.Common.Text.{Text, is_empty}
use tfa_project.Worklist.{Step, go, Outcome, finished, stopped, out_of_fuel, run, enough}
use tfa_project.CallGraph.{Llvm, StructInfo}

-- The C++ `int` of an index, -1 included.
pub data ℤ : Type 0 where
  pos : ℕ → ℤ
  negsuc : ℕ → ℤ

unfoldable pub is_nonneg : ℤ → Bool
is_nonneg (pos n) = true
is_nonneg (negsuc n) = false

-- The tests on a `Value`, in the order of the code. A `GlobalVariable` of a type is no instruction.
pub data CalledKind : Type 0 where
  gep :
      (source_type result_type : Option ℕ) (all_constant : Bool) (num_indices base : ℕ) → CalledKind
  load : (pointer : ℕ) → CalledKind
  bit_cast : (operand : ℕ) → CalledKind
  alloca : (allocated_type : Option ℕ) (operand : ℕ) → CalledKind
  unary : (operand : ℕ) → CalledKind
  global_variable : (value_type : Option ℕ) → CalledKind
  other : CalledKind

-- The answer and the two reference parameters.
pub record VirtualFunc : Type 0 where
  pub found : Bool
  pub idx : ℤ
  pub sty : Option ℕ

-- What is left to follow: the operand, or the answer.
pub data Next : Type 0 where
  follow : ℕ → Next
  answer : Bool → Option ℕ → Next

abbrev struct_with_elements : Llvm → Option ℕ → Option ℕ
struct_with_elements llvm none = none
struct_with_elements llvm (some ty) = elim (llvm.struct_of ty) [
  | none ↦ none
  | some sty ↦ if length sty.elements == 0 then none else some ty
]

-- `srctoTy` of the operand of a bit cast.
unfoldable pub source_type_of : Llvm → CalledKind → Option ℕ
source_type_of llvm (gep source result constant num base) = struct_with_elements llvm source
source_type_of llvm (alloca ty operand) = struct_with_elements llvm ty
source_type_of llvm (global_variable ty) = struct_with_elements llvm ty
source_type_of llvm kind = none

abbrev pub holds : (ℕ → Bool) → Option ℕ → Bool
holds p none = false
holds p (some ty) = p ty

module _ (llvm : Llvm) (is_function_or_pointer : ℕ → Bool) (kind_of : ℕ → CalledKind) where
  -- A type that is a struct with at least one element.
  unfoldable pub virtual_step : CalledKind → ℤ → Option ℕ → Next
  unfolding is_nonneg source_type_of
  virtual_step (gep source result constant num base) idx sty =
      if holds is_function_or_pointer result && constant && (num == 1)
      then follow base
      else answer false sty
  virtual_step (load pointer) idx sty = follow pointer
  virtual_step (bit_cast operand) idx sty = elim (source_type_of llvm (kind_of operand)) [
    | some ty ↦ answer (is_nonneg idx) (some ty)
    | none ↦ follow operand
  ]
  virtual_step (alloca ty operand) idx sty = follow operand
  virtual_step (unary operand) idx sty = follow operand
  virtual_step kind idx sty = answer false sty

  -- `none` is out of fuel.
  unfoldable pub get_cpp_virtual_func : ℕ → ℕ → ℤ → Option ℕ → Option VirtualFunc
  unfolding virtual_step
  get_cpp_virtual_func zero v idx sty = none
  get_cpp_virtual_func (suc fuel) v idx sty = elim (virtual_step (kind_of v) idx sty) [
    | follow operand ↦ get_cpp_virtual_func fuel operand idx sty
    | answer found sty' ↦ some record { found = found; idx = idx; sty = sty' }
  ]

-- `Global_Class_Method_Index_Map`, `Global_VTable_Map` and `GlobalClassHierarchyMap`, with the keys
-- of the last.
pub record Classes : Type 0 where
  pub method_index_map : Text → Option (ℤ → List Text)
  pub vtable_map : Text → Option (Text → List ℕ)
  pub hierarchy_map : List (Text × List Text)

abbrev pub derived_in : List (Text × List Text) → Text → List Text
derived_in [] name = []
derived_in ((parent, derived) ∷ rest) name =
    if name == parent then derived else derived_in rest name

abbrev pub parents_in : List (Text × List Text) → List Text
parents_in [] = []
parents_in ((parent, derived) ∷ rest) = parent ∷ parents_in rest

module _ (classes : Classes) (is_function : ℕ → Bool) where
  -- The classes that the loop goes on with: a class without methods or without a table is passed
  -- over together with the classes derived from it.
  unfoldable pub next_classes : Text → List Text
  next_classes name =
      if is_some (classes.method_index_map name) && is_some (classes.vtable_map name)
      then derived_in classes.hierarchy_map name
      else []

  abbrev only_functions : List ℕ → List ℕ
  only_functions [] = []
  only_functions (v ∷ vs) = let rest = only_functions vs in if is_function v then v ∷ rest else rest

  abbrev functions_of : (Text → List ℕ) → List Text → List ℕ
  functions_of table [] = []
  functions_of table (method ∷ methods) =
      union (functions_of table methods) (only_functions (table method))

  -- What a class adds to `FS`.
  unfoldable pub class_targets : List Text → Text → List ℕ
  class_targets methods name = elim (classes.method_index_map name) [
    | none ↦ []
    | some index ↦ elim (classes.vtable_map name) [
      | none ↦ []
      | some table ↦ functions_of table methods
    ]
  ]

  unfoldable pub get_targets_in_derived_class : Text → ℤ → List ℕ → Option (List ℕ)
  unfolding next_classes class_targets
  get_targets_in_derived_class name idx fs =
      if is_empty name then some fs else elim (classes.method_index_map name) [
        | none ↦ some fs
        | some index ↦
            elim (run next_classes
              (λ current found. go (union found (class_targets (index idx) current)))
              (enough next_classes (name ∷ []) (parents_in classes.hierarchy_map)) (name ∷ []) []
              fs) [
                | finished visited found ↦ some found
                | stopped found ↦ some found
                | out_of_fuel ↦ none
              ]
      ]
