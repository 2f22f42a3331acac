-- ===== src/Alias/Insts.antt =====
-- src/lib/AliasAnalysis/InstHandler.cc, and `analyzeFunction` of InterAliasAnalysis.cc: what each
-- instruction does to the alias graph. Every handler threads the context; `none` means that a merge
-- or the descent through constant operators ran out of fuel.
pub mod Functions
pub mod Handlers
pub mod Moves
pub mod Nodes
pub mod Total
pub mod Returns
use tfa_project.Common.{
  ℕ, zero, suc, Bool, true, false, ◌||◌, ◌&&◌, not, Option, none, some, List, [], ◌∷◌, mem, insert,
  update, nat_eq, list_eq, ◌==◌, if◌then◌else◌, is_some, ◌≡◌, ◌<◌, get_elem?,
}
use mathlib.Core.Option
use tfa_project.Tbaa.{MdStore, may_alias_by_tbaa}
use tfa_project.Alias.{AliasContext, get_node, get_or_new_node, join_node, tag_if_unset, set_edge}
use tfa_project.Alias.Graph.{merge_node, check_node_connectivity}

infixl 5 ◌>>=◌
abbrev pub ◌>>=◌ : Option AliasContext → (AliasContext → Option AliasContext) → Option AliasContext
none >>= f = none
some c >>= f = f c

-- What LLVM says of a value: the class that `dyn_cast` finds, with the operands that the handlers
-- read. `gep`, `bit_cast` and `ptr_to_int` stand for the instruction and for the constant expression.
pub data Kind : Type 0 where
  alloca : Kind
  load : ℕ → Option ℕ → Kind
  store : (value pointer : ℕ) → Option ℕ → Kind
  gep : ℕ → Kind
  bit_cast : ℕ → Kind
  ptr_to_int : ℕ → Kind
  other_cast : ℕ → Kind
  phi : List ℕ → Kind
  select : (true_value false_value : ℕ) → Kind
  call : Kind
  ret : Option ℕ → Kind
  constant_data : Kind
  function : Kind
  other_value : Kind

-- The program under analysis, as LLVM and the tables of `GlobalContext` present it.
pub record Program : Type 0 where
  pub kind : ℕ → Kind
  -- `getOperand(i)` of an instruction; for a call the arguments come first.
  pub operands : ℕ → List ℕ
  pub called_func_name : ℕ → List ℕ
  -- The string that `symbol_get_hander` reads off a call of `__symbol_get`; empty if there is none.
  pub symbol_string : ℕ → List ℕ
  pub instructions : ℕ → List ℕ
  pub debug_funcs : List (List ℕ)
  pub copy_funcs : List (List ℕ)
  pub symbol_get_name : List ℕ
  -- `GlobalFuncs` with `Global_Unique_Func_Map`: the functions of a name, if the name has an entry.
  pub global_funcs : List ℕ → Option (List ℕ)

abbrev pub is_constant_data : Kind → Bool
is_constant_data constant_data = true
is_constant_data _ = false

abbrev pub is_function : Kind → Bool
is_function function = true
is_function _ = false

-- The operand that `HandleOperator` goes on with.
abbrev pub operator_base : Kind → Option ℕ
operator_base (gep base) = some base
operator_base (bit_cast v) = some v
operator_base (ptr_to_int v) = some v
operator_base _ = none

-- `getReturnValue()` of a `ReturnInst`.
abbrev pub returned_value : Kind → Option ℕ
returned_value (ret v) = v
returned_value _ = none

abbrev pub is_call : Kind → Bool
is_call call = true
is_call _ = false

-- `isUselessInst`: calls of debug functions.
unfoldable pub is_useless_inst : Program → ℕ → Bool
is_useless_inst prog i = is_call (prog.kind i) && mem (prog.called_func_name i) prog.debug_funcs

module _ (md : MdStore) where
  -- A merge with one round for each allocated node.
  unfoldable pub merge : ℕ → ℕ → AliasContext → Option AliasContext
  merge n1 n2 c = merge_node md (suc c.next) n1 n2 c

  -- The nodes of a move, once both are there.
  unfoldable pub move_nodes : ℕ → ℕ → AliasContext → Option AliasContext
  move_nodes node1 node2 c =
      if node1 == node2
      then some c
      else if check_node_connectivity (some node1) (some node2) c
      then some c
      else merge node1 node2 c

  -- `HandleMove`: v1 = v2
  unfoldable pub handle_move : ℕ → ℕ → AliasContext → Option AliasContext
  handle_move v1 v2 c =
      let (node2, c2) = get_or_new_node v2 c in
      elim (get_node v1 c2) [
        | none ↦ some (join_node v1 node2 c2)
        | some node1 ↦ move_nodes node1 node2 c2
      ]

  unfoldable pub handle_gep : ℕ → ℕ → AliasContext → Option AliasContext
  handle_gep v pointer_operand c = handle_move v pointer_operand c

  unfoldable pub handle_alloc : ℕ → AliasContext → AliasContext
  handle_alloc ali c = (get_or_new_node ali c).1

  -- The end of a load or store: `node2` points to `node1`.
  pub link_nodes : ℕ → ℕ → AliasContext → Option AliasContext
  link_nodes node1 node2 c = elim (c.to_node_map node2) [
    | some node2_to ↦ merge node1 node2_to c
    | none ↦ elim (c.from_node_map node1) [
      | some node1_from ↦ merge node1_from node2 c
      | none ↦ some (set_edge node2 node1 c)
    ]
  ]

  tag_both : ℕ → ℕ → Option ℕ → AliasContext → AliasContext
  tag_both node1 node2 none c = c
  tag_both node1 node2 (some tag) c = tag_if_unset node1 tag (tag_if_unset node2 tag c)

  -- `HandleLoad`: v1 = *v2
  pub handle_load : ℕ → ℕ → Option ℕ → AliasContext → Option AliasContext
  handle_load li op tag c =
      let (node1, c1) = get_or_new_node li c in
      let (node2, c2) = get_or_new_node op c1 in
      link_nodes node1 node2 (tag_both node1 node2 tag c2)

  -- The tag of a stored function: set at the first store, cleared when two stores are disjoint.
  tag_func_node : ℕ → ℕ → AliasContext → AliasContext
  tag_func_node func_node tag c = elim (c.tbaa_tag func_node) [
    | none ↦ record c { tbaa_tag = update c.tbaa_tag func_node (some tag) }
    | some old ↦
        if not (old == tag) && not (may_alias_by_tbaa md (some old) (some tag))
        then record c { tbaa_tag = update c.tbaa_tag func_node none }
        else c
  ]

  tag_store : Bool → ℕ → ℕ → Option ℕ → AliasContext → AliasContext
  tag_store is_func vop node2 none c = c
  tag_store is_func vop node2 (some tag) c =
      let tagged = tag_if_unset node2 tag c in
      if is_func
      then (let (func_node, c') = get_or_new_node vop tagged in tag_func_node func_node tag c')
      else tagged

  -- "Under test": nothing is linked between nodes of one cluster.
  store_nodes : ℕ → ℕ → AliasContext → Option AliasContext
  store_nodes node1 node2 c =
      if check_node_connectivity (some node1) (some node2) c
      then some c
      else link_nodes node1 node2 c

  -- The two forms of `HandleStore`, *v2 = v1: of an instruction, and of a value and a pointer.
  pub handle_store_inst : Program → ℕ → ℕ → Option ℕ → AliasContext → Option AliasContext
  handle_store_inst prog vop pop tag c =
      if is_constant_data (prog.kind vop)
      then some c
      else (let (node1, c1) = get_or_new_node vop c in
          let (node2, c2) = get_or_new_node pop c1 in
          store_nodes node1 node2 (tag_store (is_function (prog.kind vop)) vop node2 tag c2))

  pub handle_store : Program → ℕ → ℕ → AliasContext → Option AliasContext
  handle_store prog vop pop c =
      if is_constant_data (prog.kind vop)
      then some c
      else (let (node1, c1) = get_or_new_node vop c in
          let (node2, c2) = get_or_new_node pop c1 in store_nodes node1 node2 c2)

  -- `HandleOperator`, down the constant operators.
  unfoldable pub handle_operator : Program → ℕ → ℕ → AliasContext → Option AliasContext
  handle_operator prog zero v c = none
  handle_operator prog (suc fuel) v c = elim (operator_base (prog.kind v)) [
    | none ↦ some c
    | some base ↦ elim (handle_move v base c) [
      | none ↦ none
      | some c' ↦ handle_operator prog fuel base c'
    ]
  ]

  unfoldable pub handle_operators : Program → List ℕ → AliasContext → Option AliasContext
  handle_operators prog [] c = some c
  handle_operators prog (op ∷ ops) c = do
    c ← handle_operator prog (suc op) op c
    handle_operators prog ops c

  -- `HandleMove(I, IV)` for each incoming value.
  pub handle_moves_to : ℕ → List ℕ → AliasContext → Option AliasContext
  handle_moves_to v [] c = some c
  handle_moves_to v (w ∷ ws) c = do c ← handle_move v w c; handle_moves_to v ws c

  new_nodes : List ℕ → AliasContext → AliasContext
  new_nodes [] c = c
  new_nodes (v ∷ vs) c = new_nodes vs (get_or_new_node v c).1

  symbol_moves : ℕ → List ℕ → List ℕ → AliasContext → Option AliasContext
  symbol_moves cai symbol [] c = some c
  symbol_moves cai symbol (f ∷ fs) c = do
    c ← handle_move cai f c
    symbol_moves cai symbol fs
        (record c { global_symbol_get_func_set = insert symbol c.global_symbol_get_func_set })

  -- `HandleMove(CAI->getArgOperand(0), CAI->getArgOperand(1))`. Without two arguments nothing moves
  -- (the source reads past the end there).
  copy_move : List ℕ → AliasContext → Option AliasContext
  copy_move [] c = some c
  copy_move (dst ∷ []) c = some c
  copy_move (dst ∷ src ∷ args) c = handle_move dst src c

  -- The functions that a symbol's name stands for, if the call names one.
  symbol_funcs : Program → List ℕ → AliasContext → ℕ → Option AliasContext
  symbol_funcs prog [] c cai = some c
  symbol_funcs prog (k ∷ ks) c cai = elim (prog.global_funcs (k ∷ ks)) [
    | none ↦ some c
    | some fs ↦ symbol_moves cai (k ∷ ks) fs c
  ]

  -- `HandleCai`
  pub handle_cai : Program → ℕ → AliasContext → Option AliasContext
  handle_cai prog cai c =
      let c1 = new_nodes (prog.operands cai) (get_or_new_node cai c).1 in
      if mem (prog.called_func_name cai) prog.copy_funcs
      then copy_move (prog.operands cai) c1
      else if prog.called_func_name cai == prog.symbol_get_name
      then symbol_funcs prog (prog.symbol_string cai) c1 cai
      else some c1

  -- `HandleReturn`: the returned values of `f` go to the call.
  pub return_values : Program → List ℕ → List ℕ
  return_values prog [] = []
  return_values prog (i ∷ is) = elim (returned_value (prog.kind i)) [
    | none ↦ return_values prog is
    | some v ↦ v ∷ return_values prog is
  ]

  pub moves_from : ℕ → List ℕ → AliasContext → Option AliasContext
  moves_from cai [] c = some c
  moves_from cai (v ∷ vs) c = do c ← handle_move v cai c; moves_from cai vs c

  pub handle_return : Program → ℕ → ℕ → AliasContext → Option AliasContext
  handle_return prog f cai c = moves_from cai (return_values prog (prog.instructions f)) c

  -- The part of `HandleInst` behind the operands, by the class of the instruction.
  unfoldable pub handle_kind : Program → ℕ → Kind → AliasContext → Option AliasContext
  handle_kind prog i alloca c = some (handle_alloc i c)
  handle_kind prog i (store vop pop tag) c = handle_store_inst prog vop pop tag c
  handle_kind prog i (load op tag) c = handle_load i op tag c
  handle_kind prog i (gep base) c = handle_gep i base c
  handle_kind prog i (bit_cast v) c = handle_move i v c
  handle_kind prog i (ptr_to_int v) c = handle_move i v c
  handle_kind prog i (other_cast v) c = handle_move i v c
  handle_kind prog i (phi vs) c = handle_moves_to i vs c
  handle_kind prog i (select tv fv) c = do c ← handle_move i tv c; handle_move i fv c
  handle_kind prog i call c = handle_cai prog i c
  handle_kind prog i (ret none) c = some c
  handle_kind prog i (ret (some v)) c =
      if is_constant_data (prog.kind v) then some c else handle_move i v c
  handle_kind prog i constant_data c = some c
  handle_kind prog i function c = some c
  handle_kind prog i other_value c = some c

  unfoldable pub handle_inst : Program → ℕ → AliasContext → Option AliasContext
  handle_inst prog i c =
      if is_useless_inst prog i
      then some c
      else (do c ← handle_operators prog (prog.operands i) c; handle_kind prog i (prog.kind i) c)

  unfoldable pub handle_insts : Program → List ℕ → AliasContext → Option AliasContext
  handle_insts prog [] c = some c
  handle_insts prog (i ∷ is) c = do c ← handle_inst prog i c; handle_insts prog is c

  unfoldable pub analyze_function : Program → ℕ → AliasContext → Option AliasContext
  analyze_function prog f c = if mem f c.analyzed_func_set then some c else (do
    c ← handle_insts prog (prog.instructions f) c
    some (record c { analyzed_func_set = insert f c.analyzed_func_set }))
