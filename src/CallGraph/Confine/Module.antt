-- ===== src/CallGraph/Confine/Module.antt =====
-- `CallGraphPass::doInitialization` of CallGraph.cc: one module's initialisers, stores, casts and
-- functions are recorded in the tables.
use tfa_project.Common.{
  ℕ, Bool, true, false, ◌&&◌, ◌||◌, not, Option, none, some, List, [], ◌∷◌, insert, union, update,
  nat_eq, list_eq, ◌==◌, if◌then◌else◌,
}
use tfa_project.Common.Text.{Text, codes, contains, starts_with}
use tfa_project.CallGraph.{Llvm}
use tfa_project.CallGraph.Confine.{Collected, Functions, add_to, func_set, get_global_funcs}
use tfa_project.CallGraph.Confine.Stores.{Operands}
use tfa_project.CallGraph.Confine.Handlers.{type_confine_in_store}
use tfa_project.CallGraph.Confine.Initializers.{Constants, type_confine_in_initializer}
use tfa_project.CallGraph.Confine.Casts.{CastInfo, type_confine_in_cast, handle_indirect_cast}

-- A cast: the value, its operand and their types.
pub record Cast : Type 0 where
  pub value : ℕ
  pub operand : ℕ
  pub from_ty : ℕ
  pub to_ty : ℕ

pub data Inst : Type 0 where
  store_inst : (si vo po : ℕ) → Inst
  cast_inst : Cast → Inst
  other_inst : Inst

-- A function of the module: `bit_casts` are the casts among the operands of its instructions
-- (`CastSet`, in some order).
pub record FunctionBody : Type 0 where
  pub func : ℕ
  pub has_address_taken : Bool
  pub insts : List Inst
  pub bit_casts : List Cast

-- A global variable has an initialiser or not.
pub record ModuleInput : Type 0 where
  pub globals : List (ℕ × Bool)
  pub functions : List FunctionBody

module _ (llvm : Llvm) (funcs : Functions) (ops : Operands) (consts : Constants)
    (info : CastInfo) where
  -- Strings and the tables of C++ classes are passed over.
  unfoldable pub skips_global : Text → Bool
  skips_global name =
      contains (codes ".str.") name
      || starts_with (codes "_ZTV") name
      || starts_with (codes "_ZN") name
      || starts_with (codes "_ZTI") name

  unfoldable pub collect_globals : List (ℕ × Bool) → Collected → Option Collected
  unfolding skips_global
  collect_globals [] c = some c
  collect_globals ((gv, has_initializer) ∷ gvs) c =
      if not has_initializer || skips_global (consts.global_name gv)
      then collect_globals gvs c
      else elim (type_confine_in_initializer llvm funcs ops consts gv c) [
        | none ↦ none
        | some (confined, c') ↦ collect_globals gvs c'
      ]

  unfoldable pub collect_inst : Inst → Collected → Option Collected
  collect_inst (store_inst si vo po) c = type_confine_in_store llvm funcs ops si vo po c
  collect_inst (cast_inst cast) c =
      let (confined, c') = type_confine_in_cast llvm ops info cast.from_ty cast.to_ty c in
      some (handle_indirect_cast llvm ops info cast.from_ty cast.to_ty cast.operand cast.value c')
  collect_inst other_inst c = some c

  unfoldable pub collect_insts : List Inst → Collected → Option Collected
  unfolding collect_inst
  collect_insts [] c = some c
  collect_insts (i ∷ is) c = elim (collect_inst i c) [ none ↦ none | some c' ↦ collect_insts is c' ]

  -- A function that is cast to `i8*` escapes.
  unfoldable pub escape_cast : Cast → Collected → Collected
  escape_cast cast c =
      if (info.type_str cast.to_ty == codes "i8*") && ops.is_function cast.operand
      then record c { escape_func_set = union c.escape_func_set (func_set funcs cast.operand) }
      else c

  unfoldable pub collect_bit_cast : Cast → Collected → Collected
  unfolding escape_cast
  collect_bit_cast cast c =
      let noted =
        if ops.is_pointer_ty cast.to_ty && ops.is_pointer_ty cast.from_ty
        then handle_indirect_cast llvm ops info cast.from_ty cast.to_ty cast.operand cast.value
            (escape_cast cast c)
        else c in
      (type_confine_in_cast llvm ops info cast.from_ty cast.to_ty noted).1

  unfoldable pub collect_bit_casts : List Cast → Collected → Collected
  unfolding collect_bit_cast
  collect_bit_casts [] c = c
  collect_bit_casts (cast ∷ casts) c = collect_bit_casts casts (collect_bit_cast cast c)

  abbrev add_sig : ℕ → Collected → Collected
  add_sig f c = record c { sig_funcs_map = add_to c.sig_funcs_map (llvm.func_hash f) f }

  -- "Collect address-taken functions"
  unfoldable pub take_address : Bool → ℕ → Collected → Collected
  take_address false f c = c
  take_address true f c =
      add_sig f (record c { address_taken_funcs = insert f c.address_taken_funcs })

  -- "Keep a single copy for same functions"
  unfoldable pub unify_function : Bool → ℕ → Collected → Collected
  unify_function address_taken f c = elim (c.unified_func_map (funcs.full_hash f)) [
    | some g ↦ c
    | none ↦
        let unified = record c {
          unified_func_map = update c.unified_func_map (funcs.full_hash f) (some f);
          unified_func_set = insert f c.unified_func_set;
        } in
        if address_taken then add_sig f unified else unified
  ]

  -- A declared function whose address is taken stands for its definitions.
  unfoldable pub collect_declaration : Bool → ℕ → Collected → Collected
  collect_declaration false f c = c
  collect_declaration true f c = record c {
    sig_funcs_map =
        update c.sig_funcs_map (llvm.func_hash f)
          (union (c.sig_funcs_map (llvm.func_hash f)) (get_global_funcs funcs f));
    address_taken_funcs = insert f c.address_taken_funcs;
  }

  unfoldable pub collect_function : FunctionBody → Collected → Option Collected
  unfolding collect_declaration collect_insts collect_bit_casts take_address unify_function
  collect_function body c =
      if funcs.is_declaration body.func
      then some (collect_declaration body.has_address_taken body.func c)
      else elim (collect_insts body.insts c) [
        | none ↦ none
        | some c' ↦ some (
            unify_function body.has_address_taken body.func
              (take_address body.has_address_taken body.func (collect_bit_casts body.bit_casts c')))
      ]

  unfoldable pub collect_functions : List FunctionBody → Collected → Option Collected
  unfolding collect_function
  collect_functions [] c = some c
  collect_functions (body ∷ bodies) c = elim (collect_function body c) [
    | none ↦ none
    | some c' ↦ collect_functions bodies c'
  ]

  -- `doInitialization`
  unfoldable pub do_initialization : ModuleInput → Collected → Option Collected
  unfolding collect_globals collect_functions
  do_initialization input c = elim (collect_globals input.globals c) [
    | none ↦ none
    | some c' ↦ collect_functions input.functions c'
  ]
