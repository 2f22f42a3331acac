-- ===== src/CallGraph/Confine/Initializers.antt =====
-- `typeConfineInInitializer` of InitinGlobal.cc: the functions in the initialiser of a global
-- variable, down its nested composite constants.
use tfa_project.Common.{
  ℕ, suc, Bool, true, false, ◌&&◌, ◌||◌, not, Option, none, some, List, [], ◌∷◌, nat_eq, list_eq,
  ◌==◌, if◌then◌else◌,
}
use tfa_project.Common.Text.{Text, codes}
use tfa_project.Worklist.{Step, go, finished, stopped, out_of_fuel, run, enough}
use tfa_project.CallGraph.{Llvm}
use tfa_project.CallGraph.Confine.{Collected, Functions, func_set, record_funcs}
use tfa_project.CallGraph.Confine.Stores.{Operands, is_composite_type, bit_cast_operand}
use tfa_project.CallGraph.Confine.Handlers.{values_below}

-- What LLVM says of constants and of global variables.
pub record Constants : Type 0 where
  pub operands : ℕ → List ℕ
  pub is_null_pointer : ℕ → Bool
  pub initializer : ℕ → ℕ
  pub is_aggregate : ℕ → Bool
  pub global_name : ℕ → Text

module _ (llvm : Llvm) (funcs : Functions) (ops : Operands) (consts : Constants) where
  -- The function that an operand is, or is a cast of; composite operands are entered instead.
  unfoldable pub operand_function : ℕ → Option ℕ
  operand_function o =
      if ops.is_function o
      then some o
      else if is_composite_type llvm ops (ops.type_of o)
      then none
      else if not (ops.is_pointer_ty (ops.type_of o)) || consts.is_null_pointer o
      then none
      else elim (bit_cast_operand (ops.vals.shape o)) [
        | none ↦ none
        | some v ↦ if ops.is_function v then some v else none
      ]

  -- Operand number `i` of `u`.
  unfoldable pub visit_operand : (gv u i o : ℕ) → Collected → Collected
  unfolding operand_function
  visit_operand gv u i o c = elim (operand_function o) [
    | none ↦ c
    | some f ↦ record_funcs llvm funcs (func_set funcs f) (ops.type_of u) i (some gv) c
  ]

  -- The operands of `u` from number `i` on.
  unfoldable pub visit_operands : (gv u i : ℕ) → List ℕ → Collected → Collected
  unfolding visit_operand
  visit_operands gv u i [] c = c
  visit_operands gv u i (o ∷ os) c = visit_operands gv u (suc i) os (visit_operand gv u i o c)

  unfoldable pub composite_operands : List ℕ → List ℕ
  composite_operands [] = []
  composite_operands (o ∷ os) =
      let rest = composite_operands os in
      if not (ops.is_function o) && is_composite_type llvm ops (ops.type_of o)
      then o ∷ rest
      else rest

  abbrev pub nested : ℕ → List ℕ
  nested u = composite_operands (consts.operands u)

  abbrev pub visit_user : ℕ → ℕ → Collected → Step Collected
  visit_user gv u c = go (visit_operands gv u 0 (consts.operands u) c)

  unfoldable pub is_used_list : Text → Bool
  is_used_list name = (name == codes "llvm.used") || (name == codes "llvm.compiler.used")

  -- `typeConfineInInitializer(GV)`; `none` is out of fuel.
  unfoldable pub type_confine_in_initializer : ℕ → Collected → Option (Bool × Collected)
  unfolding values_below is_used_list
  type_confine_in_initializer gv c =
      let ini = consts.initializer gv in
      if not (consts.is_aggregate ini)
      then some (false, c)
      else if is_used_list (consts.global_name gv)
      then some (false, c)
      else elim (run nested (visit_user gv) (enough nested (ini ∷ []) (values_below ops.count))
          (ini ∷ []) [] c) [
            | finished visited c' ↦ some (true, c')
            | stopped c' ↦ some (true, c')
            | out_of_fuel ↦ none
          ]
