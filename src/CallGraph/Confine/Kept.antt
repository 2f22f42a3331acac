-- ===== src/CallGraph/Confine/Kept.antt =====
-- What a recorded function is found under: the field of the type that it was stored to, or its
-- signature when that type is unknown.
use tfa_project.Common.{
  ℕ, ◌+◌, ◌%◌, ◌^◌, ◌≡◌, ◌⊎◌, inl, inr, true, false, ◌&&◌, Option, some, List, [], ◌∷◌, mem, nat_eq,
  pair_eq, ◌==◌, arith, Bool-cases, Option-cases,
}
use mathlib.Core.Option
use tfa_project.CallGraph.{Llvm, type_idx_hash}
use tfa_project.CallGraph.Layers.{Layer, precise}
use tfa_project.CallGraph.Confine.{
  Collected, Functions, add_to, add_sigs, enter_type, func_set, mark_empty_ty, record_func,
  record_funcs,
}
use tfa_project.CallGraph.Confine.Stores.{
  Operands, layer_types, record_layers, mark_unknown, store_function,
}
use tfa_project.CallGraph.Confine.Grows.{
  Grows, Grows-refl, Grows-trans, mem-add_to, add_sig-Grows, add_sigs-Grows, mark_empty_ty-Grows,
  update_struct_info-Grows, record_funcs-Grows, note_type-Grows,
}

module _ (llvm : Llvm) (funcs : Functions) where
  -- A function is recorded in a field of a type, and for its signature.
  abbrev pub InField : ℕ → ℕ → ℕ → Collected → Type 0
  InField ty idx f c =
      (mem f (c.type_funcs_map (type_idx_hash llvm ty idx)) ≡ true)
      × (mem f (c.sig_funcs_map (llvm.func_hash f)) ≡ true)

  -- A function is recorded as one that no type analysis finds, and for its signature.
  abbrev pub OfUnknownType : ℕ → Collected → Type 0
  OfUnknownType f c =
      (mem f (c.empty_ty_funcs (llvm.func_hash f)) ≡ true)
      × (mem f (c.sig_funcs_map (llvm.func_hash f)) ≡ true)

  pub InField-Grows :
      (ty idx f : ℕ) (c d : Collected) → Grows c d → InField ty idx f c → InField ty idx f d
  InField-Grows ty idx f c d g (typed, signed) = (g.funcs_kept _ f typed, g.sigs_kept _ f signed)

  OfUnknownType-Grows :
      (f : ℕ) (c d : Collected) → Grows c d → OfUnknownType f c → OfUnknownType f d
  OfUnknownType-Grows f c d g (unknown, signed) =
      (g.unknown_kept _ f unknown, g.sigs_kept _ f signed)

  record_func-InField :
      (f ty idx : ℕ) (context : Option ℕ) (c : Collected)
      → InField ty idx f (record_func llvm funcs f ty idx context c)
  unfolding record_func add_sigs enter_type
  record_func-InField f ty idx context c =
      let entered = enter_type llvm f ty idx c in
      InField-Grows ty idx f
        (record entered { sig_funcs_map = add_to entered.sig_funcs_map (llvm.func_hash f) f }) _
        (Grows-trans (add_sigs-Grows llvm (funcs.arg_casts f) f _)
          (update_struct_info-Grows llvm f ty idx context _))
        (
          mem-add_to c.type_funcs_map (type_idx_hash llvm ty idx) f,
          mem-add_to c.sig_funcs_map (llvm.func_hash f) f,
        )

  pub record_funcs-InField :
      (fs : List ℕ) (f ty idx : ℕ) (context : Option ℕ) (c : Collected)
      → mem f fs ≡ true
      → InField ty idx f (record_funcs llvm funcs fs ty idx context c)
  unfolding record_funcs
  record_funcs-InField [] f ty idx context c h = cc
  record_funcs-InField (g ∷ gs) f ty idx context c h = elim (Bool-cases (f == g)) [
    | inl e ↦
        let same : f ≡ g = ground arith in
        InField-Grows ty idx f _ _ (record_funcs-Grows llvm funcs gs ty idx context _)
          (rw same (record_func-InField g ty idx context c))
    | inr e ↦ record_funcs-InField gs f ty idx context _ (ground arith)
  ]

  pub mark_unknown-Grows :
      (ops : Operands) (fs : List ℕ) (c : Collected) → Grows c (mark_unknown llvm funcs ops fs c)
  unfolding mark_unknown
  mark_unknown-Grows ops [] c = Grows-refl c
  mark_unknown-Grows ops (f ∷ fs) c =
      Grows-trans
        (Grows-trans (add_sig-Grows llvm (llvm.func_hash f) f c) (mark_empty_ty-Grows llvm f _))
        (mark_unknown-Grows ops fs _)

  mark_unknown-OfUnknownType :
      (ops : Operands) (fs : List ℕ) (f : ℕ) (c : Collected)
      → mem f fs ≡ true
      → OfUnknownType f (mark_unknown llvm funcs ops fs c)
  unfolding mark_unknown mark_empty_ty
  mark_unknown-OfUnknownType ops [] f c h = cc
  mark_unknown-OfUnknownType ops (g ∷ gs) f c h = elim (Bool-cases (f == g)) [
    | inl e ↦
        let same : f ≡ g = ground arith in
        OfUnknownType-Grows f _ _ (mark_unknown-Grows ops gs _) (
          rw same (
            mem-add_to c.empty_ty_funcs (llvm.func_hash g) g,
            mem-add_to c.sig_funcs_map (llvm.func_hash g) g,
          ))
    | inr e ↦ mark_unknown-OfUnknownType ops gs f _ (ground arith)
  ]

  -- The layers of a store, each with the function in its field.
  pub record_layers-Grows :
      (ops : Operands) (fs : List ℕ) (offset : ℕ) (layers : List Layer) (si : ℕ) (c : Collected)
      → Grows c (record_layers llvm funcs ops fs offset layers si c)
  unfolding record_layers
  record_layers-Grows ops fs offset [] si c = Grows-refl c
  record_layers-Grows ops fs offset ((ty, idx) ∷ layers) si c =
      Grows-trans
        (Grows-trans (note_type-Grows llvm ty ((idx + offset) % 2 ^ 32) c)
          (record_funcs-Grows llvm funcs fs ty ((idx + offset) % 2 ^ 32) (some si) _))
        (record_layers-Grows ops fs offset layers si _)

  record_layers-InField :
      (ops : Operands) (fs : List ℕ) (offset : ℕ) (layers : List Layer) (si : ℕ) (c : Collected)
      (f ty idx : ℕ)
      → mem f fs ≡ true
      → mem (ty, idx) layers ≡ true
      → InField ty ((idx + offset) % 2 ^ 32) f (record_layers llvm funcs ops fs offset layers si c)
  unfolding record_layers
  record_layers-InField ops fs offset [] si c f ty idx h k = cc
  record_layers-InField ops fs offset ((ty', idx') ∷ layers) si c f ty idx h k =
      elim (Bool-cases ((ty == ty') && (idx == idx'))) [
        | inr e ↦ record_layers-InField ops fs offset layers si _ f ty idx h (ground arith)
        | inl e ↦
            let same_ty : ty ≡ ty' = ground arith in
            let same_idx : idx ≡ idx' = ground arith in
            rw (same_ty, same_idx)
              (InField-Grows ty' ((idx' + offset) % 2 ^ 32) f _ _
                (record_layers-Grows ops fs offset layers si _)
                (record_funcs-InField fs f ty' ((idx' + offset) % 2 ^ 32) (some si) _ h))
      ]

  -- When the store of a function to `po`, or of element `offset` of a vector, returns: with layer
  -- types for `po` in precise mode, each function that it stands for is found in that field of each
  -- of these types and by its signature; without, as one of unknown type and by its signature.
  pub store_function_lem :
      (ops : Operands) (f po offset si : ℕ) (c d : Collected)
      → store_function llvm funcs ops f po offset si c ≡ some d
      → (g : ℕ) → mem g (func_set funcs f) ≡ true
      → ((layers : List Layer) × (layer_types llvm funcs ops precise po c ≡ some (true, layers))
          × ((ty idx : ℕ) → mem (ty, idx) layers ≡ true → InField ty ((idx + offset) % 2 ^ 32) g d))
        ⊎ ((layers : List Layer) × (layer_types llvm funcs ops precise po c ≡ some (false, layers))
            × OfUnknownType g d)
  unfolding store_function
  store_function_lem ops f po offset si c d h g m =
      elim (Option-cases (layer_types llvm funcs ops precise po c)) [
        | inl e ↦ cc (rw (e, store_function) at h)
        | inr ((ok, layers), e) ↦ elim (Bool-cases ok) [
          | inl found ↦
              let e' : layer_types llvm funcs ops precise po c ≡ some (true, layers) =
                rw found at e in
              let same = Option.some-injective _ d (rw (e', store_function) at h) in
              inl (
                layers,
                e',
                λ ty idx k.
                    rw (← same) (
                      record_layers-InField ops (func_set funcs f) offset layers si c g ty idx m k),
              )
          | inr missing ↦
              let e' : layer_types llvm funcs ops precise po c ≡ some (false, layers) =
                rw missing at e in
              let same = Option.some-injective _ d (rw (e', store_function) at h) in
              inr
                (layers, e', rw (← same) (mark_unknown-OfUnknownType ops (func_set funcs f) g c m))
        ]
      ]
