-- ===== src/Tests/Confine.antt =====
-- A module that stores function 7 to field 0 of a struct, and has it in the initialiser of global
-- variable 0. The values are those of the layer types with value 0 for the function.
use tfa_project.Common.{
  ℕ, ◌+◌, ◌%◌, ◌^◌, ◌<◌, ◌≤◌, ◌≡◌, ◌↔◌, ◌⊎◌, refl, true, false, none, some, List, [], ◌∷◌, mem,
  nat_eq, pair_eq, ◌==◌, if◌then◌else◌, arith,
}
use tfa_project.Common.Text.{codes}
use tfa_project.Tests.CallGraph.{llvm}
use tfa_project.Tests.Layers.{vals, vals-ValuesBelow, no_names}
use tfa_project.CallGraph.Layers.{Layer, precise}
use tfa_project.CallGraph.Layers.Total.{unvisited_le}
use tfa_project.CallGraph.Confine.{Collected, Functions, func_set}
use tfa_project.CallGraph.Confine.Stores.{
  Operands, layer_types, store_function, get_base_function, get_base_type, bit_cast_operand,
}
use tfa_project.CallGraph.Confine.Initializers.{
  Constants, is_used_list, type_confine_in_initializer,
}
use tfa_project.CallGraph.Confine.Casts.{CastInfo}
use tfa_project.CallGraph.Confine.Module.{store_inst, FunctionBody, ModuleInput, do_initialization}
use tfa_project.CallGraph.Confine.Grows.{Grows}
use tfa_project.CallGraph.Confine.Kept.{InField, OfUnknownType, store_function_lem}
use tfa_project.CallGraph.Confine.BaseTypes.{
  Answers, CastOf, get_base_type-Answers, get_base_function_iff,
}
use tfa_project.CallGraph.Confine.Total.{Collects, Sound, store_function-Collects}
use tfa_project.CallGraph.Confine.Fields.{FieldsIn, Nested, type_confine_in_initializer_lem}
use tfa_project.CallGraph.Confine.Modules.{ModuleBelow, StoresBelow, do_initialization-Collects}

abbrev empty : Collected
empty = record {
  type_funcs_map = λ k. [];
  sig_funcs_map = λ k. [];
  empty_ty_funcs = λ k. [];
  type_confine_map = λ k. [];
  type_transit_map = λ k. [];
  type_str_cast_map = λ k. [];
  type_escape_set = [];
  escaped_store_map = λ k. [];
  func_init_map = λ k f. [];
  hash_type_map = λ k. none;
  hash_id_type_map = λ k. none;
  literal_names = no_names;
  union_set = [];
  escape_func_set = [];
  address_taken_funcs = [];
  unified_func_map = λ k. none;
  unified_func_set = [];
  num_local_info_name = 0;
  num_empty_name_with_debuginfo = 0;
  num_empty_name_without_debuginfo = 0;
  num_have_layer_struct_name = 0;
  num_array_prelayer = 0;
  num_escape_store = 0;
}

abbrev funcs : Functions
funcs = record {
  is_declaration = λ f. false;
  is_intrinsic = λ f. false;
  by_name = λ f. [];
  by_info = λ h. none;
  full_hash = λ f. f;
  arg_casts = λ f. [];
}

-- Type 9 is the pointer type.
abbrev ops : Operands
ops = record {
  vals = vals;
  count = 4;
  type_of = λ v. if v == 5 then 0 else 9;
  element_type = λ v. none;
  is_pointer_ty = λ ty. ty == 9;
  is_function_ty = λ ty. false;
  is_vector_ty = λ ty. false;
  has_pointer_scalars = λ ty. false;
  is_function = λ v. v == 0;
  strip_pointer_casts = λ v. v;
  vector_elements = λ v. none;
}

abbrev consts : Constants
consts = record {
  operands = λ u. if u == 1 then 0 ∷ [] else [];
  is_null_pointer = λ v. false;
  initializer = λ gv. 1;
  is_aggregate = λ v. true;
  global_name = λ gv. codes "table";
}

abbrev info : CastInfo
info = record { type_str = λ ty. []; function_type = λ v. none; cast_operand = λ v. none }

sound : Sound llvm ops
sound = record { below = vals-ValuesBelow; apart = λ ty h. refl }

no_casts : (v o : ℕ) → bit_cast_operand (vals.shape v) ≡ some o → o < v
no_casts v o h = ground arith

get_base_function_iff_example :
    (get_base_function llvm funcs ops 1 0 ≡ some 0) ↔ CastOf llvm funcs ops 0 0
get_base_function_iff_example = get_base_function_iff llvm funcs ops no_casts 1 0 0 (omega arith)

get_base_type-Answers_example : Answers llvm funcs ops [] (get_base_type llvm funcs ops 5 3 [])
get_base_type-Answers_example =
    get_base_type-Answers llvm funcs ops 4 no_names (vals-ValuesBelow no_names) 5 3 [] (omega arith)
      (omega (arith, unvisited_le 4))

one_store : Collects empty (store_function llvm funcs ops 0 1 0 9 empty)
one_store = store_function-Collects llvm funcs ops sound 0 1 0 9 empty (omega arith)

in_set : mem 0 (func_set funcs 0) ≡ true
unfolding func_set
in_set = refl

store_function_lem_example :
    ((layers : List Layer) × (layer_types llvm funcs ops precise 1 empty ≡ some (true, layers))
      × ((ty idx : ℕ)
          → mem (ty, idx) layers ≡ true
          → InField llvm funcs ty ((idx + 0) % 2 ^ 32) 0 one_store.0))
    ⊎ ((layers : List Layer) × (layer_types llvm funcs ops precise 1 empty ≡ some (false, layers))
        × OfUnknownType llvm funcs 0 one_store.0)
store_function_lem_example =
    store_function_lem llvm funcs ops 0 1 0 9 empty one_store.0 one_store.1 0 in_set

no_operands_above : (u : ℕ) → 4 ≤ u → consts.operands u ≡ []
no_operands_above u h = ground arith

name_is_used : is_used_list llvm funcs ops consts (codes "table") ≡ false
unfolding is_used_list
name_is_used = refl

type_confine_in_initializer_lem_example :
    (d : Collected) × (type_confine_in_initializer llvm funcs ops consts 0 empty ≡ some (true, d))
    × Grows empty d
    × ((u : ℕ) → Nested llvm funcs ops consts 0 u → FieldsIn llvm funcs ops consts u d)
type_confine_in_initializer_lem_example =
    type_confine_in_initializer_lem llvm funcs ops consts 0 empty no_operands_above refl
      name_is_used

abbrev body : FunctionBody
body = record { func = 0; has_address_taken = true; insts = store_inst 9 0 1 ∷ []; bit_casts = [] }

abbrev input : ModuleInput
input = record { globals = (0, true) ∷ []; functions = body ∷ [] }

input-ModuleBelow : ModuleBelow llvm funcs ops consts info (body ∷ [])
unfolding ModuleBelow StoresBelow
input-ModuleBelow = ((((omega arith, omega arith)), tt), tt)

do_initialization-Collects_example :
    Collects empty (do_initialization llvm funcs ops consts info input empty)
do_initialization-Collects_example =
    do_initialization-Collects llvm funcs ops consts info sound no_operands_above input empty
      input-ModuleBelow
