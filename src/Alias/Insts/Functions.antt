-- ===== src/Alias/Insts/Functions.antt =====
-- Whole instructions and functions: `HandleOperator`, `HandleCai`, `HandleReturn`, `HandleInst` and
-- `analyzeFunction` extend the context.
use tfa_project.Common.{
  ◌<◌, arith, ℕ, zero, suc, ◌≡◌, refl, inl, inr, some, List, [], ◌∷◌, mem, nat_eq, list_eq,
  Option-cases,
}
use tfa_project.Tbaa.{MdStore}
use tfa_project.Alias.{AliasContext, IsWellFormed}
use tfa_project.Alias.Graph.Keeps.{Keeps-edges}
use tfa_project.Alias.Insts.{
  Program, handle_operator, handle_operators, handle_inst, handle_insts, analyze_function,
  operator_base, is_useless_inst,
}
use tfa_project.Alias.Insts.Nodes.{Extends-of_Keeps}
use tfa_project.Alias.Insts.Total.{Total, Total-some, Total-here, Total-after, Total-if, Total->>=}
use tfa_project.Alias.Insts.Handlers.{handle_move-Total}
use tfa_project.Alias.Insts.Returns.{handle_kind-Total}

-- The operands of constant operators are numbered below them: they are made before them.
abbrev pub OperandsBelow : Program → Type 0
OperandsBelow prog = (v b : ℕ) → operator_base (prog.kind v) ≡ some b → b < v

module _ (md : MdStore) (prog : Program) (below : OperandsBelow prog) where
  handle_operator-Total :
      (fuel v : ℕ) (c : AliasContext)
      → IsWellFormed c
      → v < fuel
      → Total c (handle_operator md prog fuel v c)
  unfolding handle_operator
  handle_operator-Total zero v c w h = ground (arith, h)
  handle_operator-Total (suc fuel) v c w h = elim (Option-cases (operator_base (prog.kind v))) [
    | inl e ↦ rw (e, handle_operator) (Total-here c w)
    | inr (base, e) ↦
        let (d, ran, x) = handle_move-Total md v base c w in
        rw (e, ran, handle_operator)
          (Total-after c d _ x
            (handle_operator-Total fuel base d x.well_formed (omega (arith, h, below v base e))))
  ]

  handle_operators-Total :
      (ops : List ℕ) (c : AliasContext) → IsWellFormed c → Total c (handle_operators md prog ops c)
  unfolding handle_operators
  handle_operators-Total [] c w = Total-here c w
  handle_operators-Total (op ∷ ops) c w =
      Total->>= c _ _ (handle_operator-Total (suc op) op c w (omega arith))
        (handle_operators-Total ops)

  handle_inst-Total :
      (i : ℕ) (c : AliasContext) → IsWellFormed c → Total c (handle_inst md prog i c)
  unfolding handle_inst
  handle_inst-Total i c w = Total-if c (is_useless_inst prog i) _ _ (Total-here c w) (
      Total->>= c _ _ (handle_operators-Total (prog.operands i) c w)
        (handle_kind-Total md prog i (prog.kind i)))

  handle_insts-Total :
      (is : List ℕ) (c : AliasContext) → IsWellFormed c → Total c (handle_insts md prog is c)
  unfolding handle_insts
  handle_insts-Total [] c w = Total-here c w
  handle_insts-Total (i ∷ is) c w =
      Total->>= c _ _ (handle_inst-Total i c w) (handle_insts-Total is)

  -- When the operands of constant operators are numbered below them, the analysis of any function
  -- returns from any well-formed context, and the result is well formed, keeps every value in a
  -- node and separates no values that had one node.
  pub analyze_function-Total :
      (f : ℕ) (c : AliasContext) → IsWellFormed c → Total c (analyze_function md prog f c)
  unfolding analyze_function
  analyze_function-Total f c w = Total-if c (mem f c.analyzed_func_set) _ _ (Total-here c w) (
      Total->>= c _ _ (handle_insts-Total (prog.instructions f) c w) (λ e we.
        Total-some e _ (Extends-of_Keeps (Keeps-edges e _ we refl refl refl we.to_lt we.from_lt))))
