-- ===== src/CallGraph/OneLayer.antt =====
-- The first layer of the type analysis: the functions whose signature fits a call
-- (`getOneLayerResult` of TypeAnalysis.cc), function types with variable parameters included
-- (`resolveVariableParameters` of CPPHandler.cc).
pub mod Casts
pub mod Fits
pub mod Result
use tfa_project.Common.{
  Eq, ℕ, ◌-◌, Bool, true, false, ◌&&◌, ◌||◌, Option, none, some, List, [], ◌∷◌, ◌==◌, mem, union,
  if◌then◌else◌, length, drop, leb, nat_eq, list_eq, is_some,
}
use tfa_project.Common.Text.{Text, codes}
use tfa_project.Common.Tables.{Table, get, keys}
use tfa_project.Worklist.{Step, go, stop, Outcome, finished, stopped, out_of_fuel, run, enough}
use tfa_project.CallGraph.{Llvm, Tables, type_hash, layer_name}

-- `endsWith`
unfoldable pub ends_with : Text → Text → Bool
ends_with str suffix =
    leb (length suffix) (length str) && (drop (length str - length suffix) str == suffix)

pub record FuncType : Type 0 where
  pub return_type : ℕ
  pub params : List ℕ
  pub type_str : Text

-- What the analysis asks of the call, of functions and of types.
pub record Signatures : Type 0 where
  pub call_type : ℕ → FuncType
  pub func_type : ℕ → Option FuncType
  pub type_id : ℕ → ℕ

unfoldable pub add_funcs : Table ℕ ℕ → ℕ → List ℕ → Table ℕ ℕ
add_funcs [] key fs = (key, fs) ∷ []
add_funcs ((k, gs) ∷ rows) key fs =
    let rest = add_funcs rows key fs in if key == k then (k, union gs fs) ∷ rows else (k, gs) ∷ rest

abbrev pub holds_just {ℓ} : {A : Type ℓ} ⦃e : Eq A⦄ → Option A → A → Bool
holds_just none a = false
holds_just (some b) a = b == a

module _ (llvm : Llvm) (tabs : Tables) (sigs : Signatures) where
  -- `Hty == f_check_ty`, or a struct of the same name. A null `Hty`, which C++ dereferences, is no
  -- match here.
  unfoldable pub is_cast_target : ℕ → Text → ℕ → Bool
  is_cast_target f_ty f_name h =
      holds_just (tabs.hash_type_map h) f_ty
      || holds_just (layer_name llvm tabs (tabs.hash_type_map h)) f_name

  abbrev any_target : ℕ → Text → List ℕ → Bool
  any_target f_ty f_name [] = false
  any_target f_ty f_name (h ∷ hs) = is_cast_target f_ty f_name h || any_target f_ty f_name hs

  abbrev pub visit_cast : ℕ → Text → ℕ → ℕ → Step ℕ
  visit_cast f_ty f_name key s =
      if any_target f_ty f_name (get tabs.type_transit_map key) then stop s else go s

  -- The loop stops at the first key with such a target among its transits.
  unfoldable pub found_cast : ℕ → ℕ → Text → Bool
  unfolding is_cast_target
  found_cast ci_ty f_ty f_name =
      elim (run (get tabs.type_transit_map) (visit_cast f_ty f_name)
        (enough (get tabs.type_transit_map) (type_hash llvm ci_ty ∷ [])
          (keys tabs.type_transit_map))
        (type_hash llvm ci_ty ∷ []) [] 0) [
          | finished visited s ↦ false
          | stopped s ↦ true
          | out_of_fuel ↦ false
        ]

  -- A type of the call's signature against the type at its place in the function's.
  unfoldable pub type_fits : ℕ → ℕ → Bool
  unfolding found_cast
  type_fits ci_ty f_ty =
      (ci_ty == f_ty)
      || (sigs.type_id ci_ty == sigs.type_id f_ty) && (elim (layer_name llvm tabs (some ci_ty)) [
        | none ↦ false
        | some ci_name ↦ elim (layer_name llvm tabs (some f_ty)) [
          | none ↦ false
          | some f_name ↦ (ci_name == f_name) || found_cast ci_ty f_ty f_name
        ]
      ])

  -- The check lists; the function's is at least as long.
  unfoldable pub types_fit : List ℕ → List ℕ → Bool
  unfolding type_fits
  types_fit [] f_tys = true
  types_fit (c ∷ cs) [] = false
  types_fit (c ∷ cs) (f ∷ fs) = type_fits c f && types_fit cs fs

  unfoldable pub signature_fits : FuncType → FuncType → Bool
  unfolding types_fit
  signature_fits ci_ty f_ty =
      leb (length ci_ty.params) (length f_ty.params)
      && types_fit (ci_ty.return_type ∷ ci_ty.params) (f_ty.return_type ∷ f_ty.params)

  -- The functions of one entry of `sigFuncsMap` that the call takes over: all or none.
  unfoldable pub fitting_row : FuncType → List ℕ → List ℕ
  unfolding signature_fits
  fitting_row ci_ty [] = []
  fitting_row ci_ty (f ∷ fs) = elim (sigs.func_type f) [
    | none ↦ []
    | some f_ty ↦ if signature_fits ci_ty f_ty then f ∷ fs else []
  ]

  unfoldable pub fitting_funcs : FuncType → Table ℕ ℕ → List ℕ
  unfolding fitting_row
  fitting_funcs ci_ty [] = []
  fitting_funcs ci_ty ((k, fs) ∷ rows) = union (fitting_funcs ci_ty rows) (fitting_row ci_ty fs)

  -- `resolveVariableParameters(CI, FS, enable)`: the new `sigFuncsMap`, of which `FS` is the call's
  -- entry afterwards.
  unfoldable pub resolve_variable_parameters : ℕ → Bool → Table ℕ ℕ → Table ℕ ℕ
  unfolding ends_with add_funcs fitting_funcs
  resolve_variable_parameters ci enable sig_funcs =
      if ends_with (sigs.call_type ci).type_str (codes ", ...)") || enable
      then add_funcs sig_funcs (llvm.call_hash ci) (fitting_funcs (sigs.call_type ci) sig_funcs)
      else sig_funcs

  abbrev pub cast_funcs : Table ℕ ℕ → List ℕ → List ℕ → List ℕ
  cast_funcs sig_funcs [] fs = fs
  cast_funcs sig_funcs (h ∷ hs) fs = cast_funcs sig_funcs hs (union fs (get sig_funcs h))

  -- Only a call without functions has its variable parameters resolved.
  unfoldable pub resolved_funcs : ℕ → Table ℕ ℕ → Table ℕ ℕ
  unfolding resolve_variable_parameters
  resolved_funcs ci sig_funcs = elim (get sig_funcs (llvm.call_hash ci)) [
    | [] ↦ resolve_variable_parameters ci false sig_funcs
    | f ∷ fs ↦ sig_funcs
  ]

  -- `FS` and the new `sigFuncsMap`.
  unfoldable pub get_one_layer_result :
      (ℕ → List ℕ) → (ℕ → Option (List ℕ)) → ℕ → Table ℕ ℕ → List ℕ × Table ℕ ℕ
  unfolding resolved_funcs
  get_one_layer_result func_type_cast_map one_layer_funcs_map ci sig_funcs =
      let key = llvm.call_hash ci in
      let resolved = resolved_funcs ci sig_funcs in
      elim (one_layer_funcs_map key) [
        | some fs ↦ (fs, resolved)
        | none ↦ (cast_funcs resolved (func_type_cast_map key) (get resolved key), resolved)
      ]
