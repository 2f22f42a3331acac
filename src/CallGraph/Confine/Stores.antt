-- ===== src/CallGraph/Confine/Stores.antt =====
-- What a store records (`propagateType`, `getBaseType` and `getBaseFunction` of LayerAnalysis.cc,
-- and the parts of `typeConfineInStore_new` of CallGraph.cc). `none` is out of fuel.
use tfa_project.Common.{
  ℕ, zero, suc, ◌+◌, ◌%◌, ◌^◌, Bool, true, false, ◌&&◌, ◌||◌, not, Option, none, some, List, [],
  ◌∷◌, mem, update, nat_eq, pair_eq, ◌==◌, if◌then◌else◌, is_some,
}
use tfa_project.Common.Text.{Text}
use tfa_project.CallGraph.{Llvm, type_name_idx_hash}
use tfa_project.CallGraph.Layers.{Layer, Shape, Values, Mode, precise, recall, next_layer_base_type}
use tfa_project.CallGraph.Confine.{
  Collected, Functions, add_to, func_set, mark_empty_ty, record_funcs, note_type, read_name,
  escape_type,
}

-- What the handlers ask LLVM of values and of their types, beside their shapes.
pub record Operands : Type 0 where
  pub vals : Values
  -- The values are the numbers below `count`.
  pub count : ℕ
  pub type_of : ℕ → ℕ
  -- The type that an `alloca` allocates, a global variable holds, a GEP instruction starts from or
  -- a load yields.
  pub element_type : ℕ → Option ℕ
  pub is_pointer_ty : ℕ → Bool
  pub is_function_ty : ℕ → Bool
  pub is_vector_ty : ℕ → Bool
  -- `getScalarType()->isPointerTy()`
  pub has_pointer_scalars : ℕ → Bool
  pub is_function : ℕ → Bool
  pub strip_pointer_casts : ℕ → ℕ
  -- `getOperand(i)` of a `ConstantVector`, each with its pointer casts stripped.
  pub vector_elements : ℕ → Option (List ℕ)

-- What a composite type can be.
unfoldable pub is_composite_type : Llvm → Operands → ℕ → Bool
is_composite_type llvm ops ty =
    is_some (llvm.struct_of ty) || llvm.is_array ty || ops.is_vector_ty ty

abbrev pub bit_cast_operand : Shape → Option ℕ
bit_cast_operand (Shape.bit_cast v) = some v
bit_cast_operand _ = none

abbrev pub incoming_values : Shape → List ℕ
incoming_values (Shape.phi vs) = vs
incoming_values _ = []

abbrev pub is_phi : Shape → Bool
is_phi (Shape.phi vs) = true
is_phi _ = false

abbrev pub name_or_empty : Option Text → Text
name_or_empty none = []
name_or_empty (some name) = name

module _ (llvm : Llvm) (funcs : Functions) (ops : Operands) where
  -- A function that is no intrinsic.
  unfoldable pub is_plain_function : ℕ → Bool
  is_plain_function v = ops.is_function v && not (funcs.is_intrinsic v)

  -- `getBaseFunction`, down the casts.
  unfoldable pub get_base_function : ℕ → ℕ → Option ℕ
  unfolding is_plain_function
  get_base_function zero v = none
  get_base_function (suc fuel) v =
      if is_plain_function v then some v else elim (bit_cast_operand (ops.vals.shape v)) [
        | none ↦ none
        | some o ↦ get_base_function fuel o
      ]

  -- `getBaseFunction(V->stripPointerCasts())`; an operand of a cast is numbered below it.
  unfoldable pub base_function : ℕ → Option ℕ
  unfolding get_base_function
  base_function v =
      let stripped = ops.strip_pointer_casts v in get_base_function (suc stripped) stripped

  -- The composite type of a value itself, or of what a pointer is known to point to.
  unfoldable pub own_base_type : ℕ → Option ℕ
  unfolding is_composite_type
  own_base_type v =
      let ty = ops.type_of v in
      if is_composite_type llvm ops ty
      then some ty
      else if not (ops.is_pointer_ty ty)
      then none
      else elim (ops.element_type v) [
        | none ↦ none
        | some e ↦ if is_composite_type llvm ops e then some e else none
      ]

  -- `getPhiBaseType`: the first incoming value with a base type. `visit` is the recursive call.
  unfoldable pub get_phi_base_type :
      (ℕ → List ℕ → Option (Option ℕ × List ℕ)) → List ℕ → List ℕ → Option (Option ℕ × List ℕ)
  get_phi_base_type visit [] visited = some (none, visited)
  get_phi_base_type visit (v ∷ vs) visited = elim (visit v visited) [
    | none ↦ none
    | some (some ty, visited') ↦ some (some ty, visited')
    | some (none, visited') ↦ get_phi_base_type visit vs visited'
  ]

  -- Where `getBaseType` goes on.
  unfoldable pub base_type_of_shape :
      (ℕ → List ℕ → Option (Option ℕ × List ℕ)) → Shape → List ℕ → Option (Option ℕ × List ℕ)
  unfolding get_phi_base_type
  base_type_of_shape visit (Shape.bit_cast v) visited = visit v visited
  base_type_of_shape visit (Shape.select tv fv) visited = visit tv visited
  base_type_of_shape visit (Shape.phi vs) visited = get_phi_base_type visit vs visited
  base_type_of_shape visit (Shape.load lpo) visited = visit lpo visited
  base_type_of_shape visit _ visited = some (none, visited)

  -- `getBaseType`
  unfoldable pub get_base_type : ℕ → ℕ → List ℕ → Option (Option ℕ × List ℕ)
  unfolding base_type_of_shape own_base_type
  get_base_type zero v visited = none
  get_base_type (suc fuel) v visited =
      if mem v visited then some (none, visited) else elim (own_base_type v) [
        | some ty ↦ some (some ty, v ∷ visited)
        | none ↦ base_type_of_shape (get_base_type fuel) (ops.vals.shape v) (v ∷ visited)
      ]

  -- A search for the layer types of a value, with more rounds than there are values.
  unfoldable pub layer_types : Mode → ℕ → Collected → Option (Bool × List Layer)
  layer_types mode v c =
      elim (next_layer_base_type llvm c.literal_names ops.vals (suc ops.count) mode v
        (record { ty_list = []; visited = [] })) [
          | none ↦ none
          | some (ok, s) ↦ some (ok, s.ty_list)
        ]

  -- One target of `propagateType`: the field of the target is confined to that of the source.
  unfoldable pub confine : Layer → Layer → Collected → Collected
  confine (to_ty, to_idx) (from_ty, from_idx) c =
      if (to_ty == from_ty) && (to_idx == from_idx)
      then c
      else (let (to_name, c1) = read_name llvm to_ty c in
          let (from_name, c2) = read_name llvm from_ty c1 in
          let to_key = type_name_idx_hash llvm (name_or_empty to_name) to_idx in
          let from_key = type_name_idx_hash llvm (name_or_empty from_name) from_idx in
          let to_map = update c2.hash_id_type_map to_key (some (to_ty, to_idx)) in
          record c2 {
            type_confine_map = add_to c2.type_confine_map to_key from_key;
            hash_id_type_map = update to_map from_key (some (from_ty, from_idx));
          })

  unfoldable pub confine_all : List Layer → Layer → Collected → Collected
  unfolding confine
  confine_all [] from c = c
  confine_all (to ∷ tos) from c = confine_all tos from (confine to from c)

  -- `propagateType(ToV, FromTy, FromIdx, SI)`
  unfoldable pub propagate_type : ℕ → Layer → Collected → Option Collected
  unfolding layer_types confine_all
  propagate_type to_v from c = elim (layer_types recall to_v c) [
    | none ↦ none
    | some (ok, tos) ↦ some (confine_all tos from c)
  ]

  unfoldable pub propagate_types : ℕ → List Layer → Collected → Option Collected
  unfolding propagate_type
  propagate_types to_v [] c = some c
  propagate_types to_v (from ∷ froms) c = elim (propagate_type to_v from c) [
    | none ↦ none
    | some c' ↦ propagate_types to_v froms c'
  ]

  -- `escapeType(SI, …)` and `num_escape_store++` for each layer type.
  unfoldable pub escape_all : ℕ → List Layer → Collected → Collected
  escape_all si [] c = c
  escape_all si ((ty, idx) ∷ layers) c =
      let escaped = escape_type llvm si ty idx c in
      escape_all si layers (record escaped { num_escape_store = suc escaped.num_escape_store })

  unfoldable pub escape_target : ℕ → ℕ → Collected → Option Collected
  unfolding layer_types escape_all
  escape_target si po c = elim (layer_types recall po c) [
    | none ↦ none
    | some (ok, layers) ↦ some (escape_all si layers c)
  ]

  -- Each layer type is noted, also when there is no function to record.
  -- `int Idx = CT.second + i`: a number of at least 2^31 stands for the negative `int` of its bits.
  unfoldable pub record_layers : List ℕ → ℕ → List Layer → ℕ → Collected → Collected
  record_layers fs offset [] si c = c
  record_layers fs offset ((ty, idx) ∷ layers) si c = record_layers fs offset layers si (
      record_funcs llvm funcs fs ty ((idx + offset) % 2 ^ 32) (some si)
        (note_type llvm ty ((idx + offset) % 2 ^ 32) c))

  -- Without layer types the functions escape: they are kept by signature only.
  unfoldable pub mark_unknown : List ℕ → Collected → Collected
  mark_unknown [] c = c
  mark_unknown (f ∷ fs) c = mark_unknown fs (
      mark_empty_ty llvm f
        (record c { sig_funcs_map = add_to c.sig_funcs_map (llvm.func_hash f) f }))

  -- A function `f` is stored to `po`, or as the element `offset` of a vector.
  unfoldable pub store_function : ℕ → ℕ → ℕ → ℕ → Collected → Option Collected
  unfolding layer_types record_layers mark_unknown
  store_function f po offset si c =
      let fs = func_set funcs f in
      elim (layer_types precise po c) [
        | none ↦ none
        | some (true, layers) ↦ some (record_layers fs offset layers si c)
        | some (false, layers) ↦ some (mark_unknown fs c)
      ]
