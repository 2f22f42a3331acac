-- ===== src/Alias/Insts/Returns.antt =====
-- `HandleCai`, `HandleReturn` and the instructions behind `HandleInst` return and extend the context.
use tfa_project.Common.{
  ℕ, refl, inl, inr, none, some, List, [], ◌∷◌, mem, nat_eq, list_eq, ◌==◌, Option-cases,
}
use tfa_project.Tbaa.{MdStore}
use tfa_project.Alias.{AliasContext, IsWellFormed}
use tfa_project.Alias.Graph.Keeps.{Keeps-edges}
use tfa_project.Alias.Insts.{
  Program, Kind, handle_gep, handle_alloc, handle_moves_to, new_nodes, symbol_moves, copy_move,
  symbol_funcs, handle_cai, moves_from, handle_return, handle_kind, is_constant_data,
}
use tfa_project.Alias.Insts.Nodes.{
  Extends, Extends-trans, Extends-refl, Extends-of_Keeps, get_or_new_node-HasNode,
}
use tfa_project.Alias.Insts.Total.{Total, Total-some, Total-here, Total-after, Total-if, Total->>=}
use tfa_project.Alias.Insts.Handlers.{handle_move-Total, handle_load-Total, handle_store_inst-Total}

module _ (md : MdStore) where
  handle_moves_to-Total :
      (v : ℕ) (ws : List ℕ) (c : AliasContext)
      → IsWellFormed c
      → Total c (handle_moves_to md v ws c)
  unfolding handle_moves_to
  handle_moves_to-Total v [] c w = Total-here c w
  handle_moves_to-Total v (x ∷ xs) c w =
      Total->>= c _ _ (handle_move-Total md v x c w) (handle_moves_to-Total v xs)

  moves_from-Total :
      (cai : ℕ) (vs : List ℕ) (c : AliasContext) → IsWellFormed c → Total c (moves_from md cai vs c)
  unfolding moves_from
  moves_from-Total cai [] c w = Total-here c w
  moves_from-Total cai (v ∷ vs) c w =
      Total->>= c _ _ (handle_move-Total md v cai c w) (moves_from-Total cai vs)

  new_nodes-Extends :
      (vs : List ℕ) (c : AliasContext) → IsWellFormed c → Extends c (new_nodes md vs c)
  unfolding new_nodes
  new_nodes-Extends [] c w = Extends-refl c w
  new_nodes-Extends (v ∷ vs) c w =
      let x = (get_or_new_node-HasNode v c w).extends in
      Extends-trans x (new_nodes-Extends vs _ x.well_formed)

  symbol_moves-Total :
      (cai : ℕ) (symbol fs : List ℕ) (c : AliasContext)
      → IsWellFormed c
      → Total c (symbol_moves md cai symbol fs c)
  unfolding symbol_moves
  symbol_moves-Total cai symbol [] c w = Total-here c w
  symbol_moves-Total cai symbol (f ∷ fs) c w =
      Total->>= c _ _ (handle_move-Total md cai f c w) (λ d wd.
        let x = Extends-of_Keeps (Keeps-edges d _ wd refl refl refl wd.to_lt wd.from_lt) in
        Total-after d _ _ x (symbol_moves-Total cai symbol fs _ x.well_formed))

  copy_move-Total :
      (args : List ℕ) (c : AliasContext) → IsWellFormed c → Total c (copy_move md args c)
  unfolding copy_move
  copy_move-Total [] c w = Total-here c w
  copy_move-Total (dst ∷ []) c w = Total-here c w
  copy_move-Total (dst ∷ src ∷ args) c w = handle_move-Total md dst src c w

  module _ (prog : Program) where
    symbol_funcs-Total :
        (symbol : List ℕ) (c : AliasContext) (cai : ℕ)
        → IsWellFormed c
        → Total c (symbol_funcs md prog symbol c cai)
    unfolding symbol_funcs
    symbol_funcs-Total [] c cai w = Total-here c w
    symbol_funcs-Total (k ∷ ks) c cai w = elim (Option-cases (prog.global_funcs (k ∷ ks))) [
      | inl e ↦ rw (e, symbol_funcs) (Total-here c w)
      | inr (fs, e) ↦ rw (e, symbol_funcs) (symbol_moves-Total cai (k ∷ ks) fs c w)
    ]

    handle_cai-Total :
        (cai : ℕ) (c : AliasContext) → IsWellFormed c → Total c (handle_cai md prog cai c)
    unfolding handle_cai
    handle_cai-Total cai c w =
        let x = (get_or_new_node-HasNode cai c w).extends in
        let y = new_nodes-Extends (prog.operands cai) _ x.well_formed in
        let z = Extends-trans x y in
        Total-if c (mem (prog.called_func_name cai) prog.copy_funcs) _ _
          (Total-after c _ _ z (copy_move-Total (prog.operands cai) _ z.well_formed))
          (Total-if c (prog.called_func_name cai == prog.symbol_get_name) _ _
            (Total-after c _ _ z (symbol_funcs-Total (prog.symbol_string cai) _ cai z.well_formed))
            (Total-some c _ z))

    pub handle_return-Total :
        (f cai : ℕ) (c : AliasContext) → IsWellFormed c → Total c (handle_return md prog f cai c)
    unfolding handle_return
    handle_return-Total f cai c w = moves_from-Total cai _ c w

    pub handle_kind-Total :
        (i : ℕ) (k : Kind) (c : AliasContext) → IsWellFormed c → Total c (handle_kind md prog i k c)
    unfolding handle_kind handle_gep handle_alloc
    handle_kind-Total i Kind.alloca c w = Total-some c _ (get_or_new_node-HasNode i c w).extends
    handle_kind-Total i (Kind.store v p tag) c w = handle_store_inst-Total md prog v p tag c w
    handle_kind-Total i (Kind.load op tag) c w = handle_load-Total md i op tag c w
    handle_kind-Total i (Kind.gep base) c w = handle_move-Total md i base c w
    handle_kind-Total i (Kind.bit_cast v) c w = handle_move-Total md i v c w
    handle_kind-Total i (Kind.ptr_to_int v) c w = handle_move-Total md i v c w
    handle_kind-Total i (Kind.other_cast v) c w = handle_move-Total md i v c w
    handle_kind-Total i (Kind.phi vs) c w = handle_moves_to-Total i vs c w
    handle_kind-Total i (Kind.select tv fv) c w =
        Total->>= c _ _ (handle_move-Total md i tv c w) (handle_move-Total md i fv)
    handle_kind-Total i Kind.call c w = handle_cai-Total i c w
    handle_kind-Total i (Kind.ret none) c w = Total-here c w
    handle_kind-Total i (Kind.ret (some v)) c w =
        Total-if c (is_constant_data (prog.kind v)) _ _ (Total-here c w)
          (handle_move-Total md i v c w)
    handle_kind-Total i Kind.constant_data c w = Total-here c w
    handle_kind-Total i Kind.function c w = Total-here c w
    handle_kind-Total i Kind.other_value c w = Total-here c w
