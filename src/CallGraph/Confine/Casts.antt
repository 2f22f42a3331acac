-- ===== src/CallGraph/Confine/Casts.antt =====
-- What a cast records (`typeConfineInCast` and `handleIndirectCast` of CallGraph.cc): the struct
-- types that flow into other types.
use tfa_project.Common.{
  ℕ, Bool, true, false, ◌&&◌, ◌||◌, not, Option, none, some, List, ◌∷◌, insert, update, nat_eq,
  list_eq, ◌==◌, if◌then◌else◌, is_some, length,
}
use tfa_project.Common.Text.{Text}
use tfa_project.CallGraph.{Llvm}
use tfa_project.CallGraph.OneLayer.{FuncType}
use tfa_project.CallGraph.Confine.{Collected, transit_type}
use tfa_project.CallGraph.Confine.Stores.{Operands, is_composite_type}

-- What a cast asks beside its types.
pub record CastInfo : Type 0 where
  -- `getTypeStr`
  pub type_str : ℕ → Text
  pub function_type : ℕ → Option FuncType
  -- `getOperand(0)` of a constant expression that is a `bitcast`, `ptrtoint` or `inttoptr`.
  pub cast_operand : ℕ → Option ℕ

module _ (llvm : Llvm) (ops : Operands) (info : CastInfo) where
  -- `typeConfineInCast(FromTy, ToTy)`
  unfoldable pub type_confine_in_cast : (from_ty to_ty : ℕ) → Collected → Bool × Collected
  type_confine_in_cast from_ty to_ty c =
      if is_composite_type llvm ops from_ty
      then (true, transit_type llvm to_ty from_ty c)
      else if not (ops.is_pointer_ty from_ty) || not (ops.is_pointer_ty to_ty)
      then (false, c)
      else (
        false,
        record c {
          type_str_cast_map =
              update c.type_str_cast_map (info.type_str to_ty)
                (insert (info.type_str from_ty) (c.type_str_cast_map (info.type_str to_ty)));
        },
      )

  abbrev pub is_struct : ℕ → Bool
  is_struct ty = is_some (llvm.struct_of ty)

  -- A type that flows into another when both are structs and differ.
  unfoldable pub transit_structs : (from_ty to_ty : ℕ) → Collected → Collected
  transit_structs from_ty to_ty c =
      if not (from_ty == to_ty) && (is_struct from_ty && is_struct to_ty)
      then transit_type llvm to_ty from_ty c
      else c

  unfoldable pub transit_params : List ℕ → List ℕ → Collected → Collected
  unfolding transit_structs
  transit_params (from_ty ∷ from_tys) (to_ty ∷ to_tys) c =
      transit_params from_tys to_tys (transit_structs from_ty to_ty c)
  transit_params _ _ c = c

  -- `getFuncTypeFromValue`
  unfoldable pub func_type_from_value : ℕ → Option FuncType
  func_type_from_value v =
      let stripped = ops.strip_pointer_casts v in
      elim (info.function_type stripped) [
        | some ty ↦ some ty
        | none ↦ elim (info.cast_operand stripped) [ none ↦ none | some o ↦ info.function_type o ]
      ]

  unfoldable pub transit_func_types : FuncType → FuncType → Collected → Collected
  unfolding transit_structs transit_params
  transit_func_types from_fty to_fty c =
      let c' = transit_structs from_fty.return_type to_fty.return_type c in
      if length from_fty.params == length to_fty.params
      then transit_params from_fty.params to_fty.params c'
      else c'

  -- `handleIndirectCast(FromTy, ToTy, FromV, ToV)`
  unfoldable pub handle_indirect_cast : (from_ty to_ty from_v to_v : ℕ) → Collected → Collected
  unfolding func_type_from_value transit_func_types
  handle_indirect_cast from_ty to_ty from_v to_v c =
      if not (ops.is_pointer_ty from_ty) || not (ops.is_pointer_ty to_ty)
      then c
      else elim (func_type_from_value from_v) [
        | none ↦ c
        | some from_fty ↦ elim (func_type_from_value to_v) [
          | none ↦ c
          | some to_fty ↦ transit_func_types from_fty to_fty c
        ]
      ]
