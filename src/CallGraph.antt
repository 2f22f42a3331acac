-- ===== src/CallGraph.antt =====
-- src/lib/CallGraph: the state of the type analysis (CallGraph.h, TypeAnalysis.cc), the hashes that
-- index it (utils/Common.cc) and the operations on sets of functions (CallGraphTools.cc).
-- `Type*`, `Function*` and `CallInst*` are addresses. What LLVM and the standard library know of
-- them is the parameter `Llvm`.
pub mod FuncSets
pub mod TwoLayer
pub mod Verdict
pub mod Mlta
pub mod Confine
pub mod Layers
pub mod OneLayer
pub mod Virtual
use tfa_project.Common.{
  ℕ, zero, suc, ◌+◌, ◌%◌, ◌^◌, Bool, true, false, ◌||◌, ◌&&◌, not, Option, none, some, List, [],
  ◌∷◌, mem, insert, union, nat_eq, list_eq, ◌==◌, if◌then◌else◌, drop, is_some,
}
use tfa_project.Common.Text.{Text, codes, contains, remove_spaces, is_empty}
use tfa_project.Common.Tables.{Table, get}
use mathlib.Core.Option

-- A struct type: literal or identified, its name and the types of its elements.
pub record StructInfo : Type 0 where
  pub is_literal : Bool
  pub name : Text
  pub elements : List ℕ

pub record Llvm : Type 0 where
  -- `dyn_cast<StructType>`
  pub struct_of : ℕ → Option StructInfo
  pub is_array : ℕ → Bool
  pub print_type : ℕ → Text
  -- `std::hash<string>` and `to_string` of an index.
  pub string_hash : Text → ℕ
  pub show_idx : ℕ → Text
  pub func_name : ℕ → Text
  -- `funcHash(F, false)` and `callHash(CI)`: hashes of a printed signature.
  pub func_hash : ℕ → ℕ
  pub call_hash : ℕ → ℕ

-- The tables of `CallGraphPass` and `GlobalContext` that the analysis of one call reads.
pub record Tables : Type 0 where
  pub type_funcs_map : ℕ → List ℕ
  pub type_transit_map : Table ℕ ℕ
  pub type_confine_map : Table ℕ ℕ
  pub type_escape_set : List ℕ
  pub hash_type_map : ℕ → Option ℕ
  pub hash_id_type_map : ℕ → Option ℕ × ℕ
  -- `Global_Literal_Struct_Map`
  pub literal_struct_map : ℕ → Text
  -- `Global_EmptyTy_Funcs`
  pub empty_ty_funcs : ℕ → List ℕ

abbrev pub size_mod : ℕ
size_mod = 2 ^ 64

-- `parseIdentifiedStructName`: the name behind "struct.", "union." or "class.".
unfoldable pub parse_identified_struct_name : Text → Text
parse_identified_struct_name str_name =
    if contains (codes "struct.") str_name
    then drop 7 str_name
    else if contains (codes "union.") str_name
    then drop 6 str_name
    else if contains (codes "class.") str_name
    then drop 6 str_name
    else []

module _ (llvm : Llvm) where
  unfoldable pub type_hash : ℕ → ℕ
  type_hash ty = llvm.string_hash (remove_spaces (llvm.print_type ty))

  unfoldable pub hash_idx_hash : ℕ → ℕ → ℕ
  hash_idx_hash hs idx = (hs + llvm.string_hash (llvm.show_idx idx)) % size_mod

  unfoldable pub type_idx_hash : ℕ → ℕ → ℕ
  type_idx_hash ty idx = hash_idx_hash (type_hash ty) idx

  unfoldable pub type_name_idx_hash : Text → ℕ → ℕ
  type_name_idx_hash name idx = hash_idx_hash (llvm.string_hash name) idx

  -- The name under which a struct type is kept: the recorded one of a literal struct, the parsed one
  -- of an identified struct; `none` for other types (and for a null type).
  unfoldable pub layer_name : Tables → Option ℕ → Option Text
  layer_name tabs none = none
  layer_name tabs (some ty) = elim (llvm.struct_of ty) [
    | none ↦ none
    | some sty ↦ some (
        if sty.is_literal
        then tabs.literal_struct_map (type_hash ty)
        else parse_identified_struct_name sty.name)
  ]

  -- The key under which `isEscape(Type*, int, CallInst*)` looks a type up.
  unfoldable pub escape_key : Tables → Option ℕ → ℕ → Option ℕ
  escape_key tabs ty idx = Option.map (λ name. type_name_idx_hash name idx) (layer_name tabs ty)

  -- `isEscape`
  unfoldable pub is_escape : Tables → Option ℕ → ℕ → Bool
  unfolding escape_key
  is_escape tabs ty idx = elim (escape_key tabs ty idx) [
    | none ↦ false
    | some key ↦ mem key tabs.type_escape_set
  ]

  -- The update of `escapedTypesInTypeAnalysisSet` by `isEscape`.
  unfoldable pub note_escape : Tables → Option ℕ → ℕ → List ℕ → List ℕ
  unfolding escape_key
  note_escape tabs ty idx escaped = elim (escape_key tabs ty idx) [
    | none ↦ escaped
    | some key ↦ if mem key tabs.type_escape_set then insert key escaped else escaped
  ]
