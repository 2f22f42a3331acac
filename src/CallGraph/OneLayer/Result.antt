-- ===== src/CallGraph/OneLayer/Result.antt =====
-- The functions of the first layer.
use tfa_project.Common.{
  ℕ, ◌≡◌, ◌↔◌, ◌⊎◌, inl, inr, true, false, ◌||◌, ◌&&◌, Option, none, List, [], ◌∷◌, mem, mem-union,
  union, nat_eq, ◌==◌, Bool-cases, List-cases, Option-cases, some, refl, arith,
}
use mathlib.Core.Option
use tfa_project.Common.Text.{codes}
use tfa_project.Common.Tables.{Table, get}
use tfa_project.CallGraph.{Llvm, Tables}
use tfa_project.CallGraph.OneLayer.{
  FuncType, Signatures, ends_with, add_funcs, fitting_row, fitting_funcs,
  resolve_variable_parameters, resolved_funcs, cast_funcs, get_one_layer_result,
}
use tfa_project.CallGraph.OneLayer.Fits.{FittingRow, fitting_row_iff}

get-add_funcs :
    (table : Table ℕ ℕ) (key k : ℕ) (fs : List ℕ) (f : ℕ)
    → mem f (get (add_funcs table key fs) k) ≡ (mem f (get table k) || k == key && mem f fs)
unfolding add_funcs
get-add_funcs [] key k fs f = ground arith
get-add_funcs ((j, gs) ∷ rows) key k fs f = ground (
  arith,
  get-add_funcs rows key k fs f,
  mem-union f gs fs,
  nat_eq.beq_iff k key,
  nat_eq.beq_iff k j,
  nat_eq.beq_iff key j,
)

module _ (llvm : Llvm) (tabs : Tables) (sigs : Signatures) where
  -- An entry of the table whose first function has a fitting signature contains the function.
  pub data InFittingRow (ci_ty : FuncType) (f : ℕ) : Table ℕ ℕ → Type 0 where
    in_row :
        {k : ℕ} {fs : List ℕ} {rows : Table ℕ ℕ}
        → FittingRow llvm tabs sigs ci_ty f fs
        → InFittingRow ci_ty f ((k, fs) ∷ rows)
    in_rest :
        {k : ℕ} {fs : List ℕ} {rows : Table ℕ ℕ}
        → InFittingRow ci_ty f rows
        → InFittingRow ci_ty f ((k, fs) ∷ rows)

  fitting_funcs_sound :
      (ci_ty : FuncType) (f : ℕ) (table : Table ℕ ℕ)
      → mem f (fitting_funcs llvm tabs sigs ci_ty table) ≡ true
      → InFittingRow ci_ty f table
  unfolding fitting_funcs
  fitting_funcs_sound ci_ty f [] m = cc
  fitting_funcs_sound ci_ty f ((k, fs) ∷ rows) m =
      elim (Bool-cases (mem f (fitting_row llvm tabs sigs ci_ty fs))) [
        | inl this ↦ in_row ((fitting_row_iff llvm tabs sigs ci_ty f fs).0 this)
        | inr that ↦ in_rest (
            fitting_funcs_sound ci_ty f rows (
              ground (
                arith,
                mem-union f (fitting_funcs llvm tabs sigs ci_ty rows)
                    (fitting_row llvm tabs sigs ci_ty fs),
              )))
      ]

  fitting_funcs_complete :
      (ci_ty : FuncType) (f : ℕ) (table : Table ℕ ℕ)
      → InFittingRow ci_ty f table
      → mem f (fitting_funcs llvm tabs sigs ci_ty table) ≡ true
  unfolding fitting_funcs
  fitting_funcs_complete ci_ty f [] i = elim i [ ]
  fitting_funcs_complete ci_ty f ((k, fs) ∷ rows) (in_row m) = ground (
    arith,
    (fitting_row_iff llvm tabs sigs ci_ty f fs).1 m,
    mem-union f (fitting_funcs llvm tabs sigs ci_ty rows) (fitting_row llvm tabs sigs ci_ty fs),
  )
  fitting_funcs_complete ci_ty f ((k, fs) ∷ rows) (in_rest i) = ground (
    arith,
    fitting_funcs_complete ci_ty f rows i,
    mem-union f (fitting_funcs llvm tabs sigs ci_ty rows) (fitting_row llvm tabs sigs ci_ty fs),
  )

  -- A call whose type has variable parameters is given the functions of the entries with a fitting
  -- signature, besides its own; the other entries stay as they are.
  pub resolve_variable_parameters_iff :
      (ci : ℕ) (sig_funcs : Table ℕ ℕ)
      → ends_with (sigs.call_type ci).type_str (codes ", ...)") ≡ true
      → (k f : ℕ)
      → (mem f (get (resolve_variable_parameters llvm tabs sigs ci false sig_funcs) k) ≡ true) ↔ (
          (mem f (get sig_funcs k) ≡ true)
          ⊎ (k ≡ llvm.call_hash ci) × InFittingRow (sigs.call_type ci) f sig_funcs)
  unfolding resolve_variable_parameters
  resolve_variable_parameters_iff ci sig_funcs variable k f =
      rw (variable, resolve_variable_parameters) (to, from)
    where
      key : ℕ
      key = llvm.call_hash ci

      new : List ℕ
      new = fitting_funcs llvm tabs sigs (sigs.call_type ci) sig_funcs

      to :
          mem f (get (add_funcs sig_funcs key new) k) ≡ true
          → (mem f (get sig_funcs k) ≡ true)
            ⊎ (k ≡ key) × InFittingRow (sigs.call_type ci) f sig_funcs
      to m = elim (Bool-cases (mem f (get sig_funcs k))) [
        | inl old ↦ inl old
        | inr fresh ↦ inr (
          ground (arith, get-add_funcs sig_funcs key k new f, nat_eq.beq_iff k key),
          fitting_funcs_sound (sigs.call_type ci) f sig_funcs
              (ground (arith, get-add_funcs sig_funcs key k new f)),
        )
      ]

      from :
          (mem f (get sig_funcs k) ≡ true)
            ⊎ (k ≡ key) × InFittingRow (sigs.call_type ci) f sig_funcs
          → mem f (get (add_funcs sig_funcs key new) k) ≡ true
      from (inl old) = ground (arith, get-add_funcs sig_funcs key k new f)
      from (inr (e, row)) = ground (
        arith,
        get-add_funcs sig_funcs key k new f,
        nat_eq.beq_iff k key,
        fitting_funcs_complete (sigs.call_type ci) f sig_funcs row,
      )

  cast_funcs_iff :
      (sig_funcs : Table ℕ ℕ) (hs fs : List ℕ) (f : ℕ)
      → (mem f (cast_funcs llvm tabs sigs sig_funcs hs fs) ≡ true)
        ↔ ((mem f fs ≡ true) ⊎ (h : ℕ) × (mem h hs ≡ true) × (mem f (get sig_funcs h) ≡ true))
  cast_funcs_iff sig_funcs [] fs f = (λ m. inl m, λ e. elim e [ inl m ↦ m | inr (h, m, o) ↦ cc ])
  cast_funcs_iff sig_funcs (x ∷ hs) fs f =
      let rest = cast_funcs_iff sig_funcs hs (union fs (get sig_funcs x)) f in (to rest, from rest)
    where
      to :
          ((mem f (cast_funcs llvm tabs sigs sig_funcs hs (union fs (get sig_funcs x))) ≡ true) ↔ (
            (mem f (union fs (get sig_funcs x)) ≡ true)
            ⊎ (h : ℕ) × (mem h hs ≡ true) × (mem f (get sig_funcs h) ≡ true)))
          → mem f (cast_funcs llvm tabs sigs sig_funcs hs (union fs (get sig_funcs x))) ≡ true
          → (mem f fs ≡ true) ⊎ (h : ℕ) × (mem h (x ∷ hs) ≡ true) × (mem f (get sig_funcs h) ≡ true)
      to rest m = elim (rest.0 m) [
        | inl in_first ↦ elim (Bool-cases (mem f fs)) [
          | inl old ↦ inl old
          | inr fresh ↦ inr (
            x,
            ground (arith, nat_eq.beq_iff x x),
            ground (arith, mem-union f fs (get sig_funcs x)),
          )
        ]
        | inr (h, n, o) ↦ inr (h, ground arith, o)
      ]

      from :
          ((mem f (cast_funcs llvm tabs sigs sig_funcs hs (union fs (get sig_funcs x))) ≡ true) ↔ (
            (mem f (union fs (get sig_funcs x)) ≡ true)
            ⊎ (h : ℕ) × (mem h hs ≡ true) × (mem f (get sig_funcs h) ≡ true)))
          → (mem f fs ≡ true) ⊎ (h : ℕ) × (mem h (x ∷ hs) ≡ true) × (mem f (get sig_funcs h) ≡ true)
          → mem f (cast_funcs llvm tabs sigs sig_funcs hs (union fs (get sig_funcs x))) ≡ true
      from rest (inl m) = rest.1 (inl (ground (arith, mem-union f fs (get sig_funcs x))))
      from rest (inr (h, n, o)) = elim (Bool-cases (h == x)) [
        | inl same ↦
            let q : h ≡ x = ground (arith, nat_eq.beq_iff h x) in
            let o' = rw q at o in rest.1 (inl (ground (arith, mem-union f fs (get sig_funcs x))))
        | inr differs ↦ rest.1 (inr (h, ground arith, o))
      ]

  -- The functions under a key once variable parameters are resolved: those that were there, and for
  -- a call without functions, whose type has variable parameters, those of the entries that fit.
  pub Resolved : ℕ → Table ℕ ℕ → ℕ → ℕ → Type 0
  Resolved ci sig_funcs k f =
      (mem f (get sig_funcs k) ≡ true)
      ⊎ (get sig_funcs (llvm.call_hash ci) ≡ [])
        × (ends_with (sigs.call_type ci).type_str (codes ", ...)") ≡ true)
        × (k ≡ llvm.call_hash ci)
        × InFittingRow (sigs.call_type ci) f sig_funcs

  resolved_funcs_iff :
      (ci : ℕ) (sig_funcs : Table ℕ ℕ) (k f : ℕ)
      → (mem f (get (resolved_funcs llvm tabs sigs ci sig_funcs) k) ≡ true)
        ↔ Resolved ci sig_funcs k f
  unfolding resolved_funcs Resolved
  resolved_funcs_iff ci sig_funcs k f = elim (List-cases (get sig_funcs (llvm.call_hash ci))) [
    | inr (g, gs, e) ↦
        rw (e, resolved_funcs) (inl, λ h. elim h [ inl m ↦ m | inr (empty, _, _, _) ↦ cc ])
    | inl e ↦ elim (Bool-cases (ends_with (sigs.call_type ci).type_str (codes ", ...)"))) [
      | inl variable ↦
          let resolved = resolve_variable_parameters_iff ci sig_funcs variable k f in
          rw (e, resolved_funcs)
            (
              λ h. elim (resolved.0 h) [
                | inl m ↦ inl m
                | inr (at, row) ↦ inr (refl, variable, at, row)
              ],
              λ h. elim h [
                | inl m ↦ resolved.1 (inl m)
                | inr (_, _, at, row) ↦ resolved.1 (inr (at, row))
              ],
            )
      | inr fixed ↦
          rw (e, fixed, resolved_funcs, resolve_variable_parameters)
            (inl, λ h. elim h [ inl m ↦ m | inr (_, variable, _, _) ↦ cc ])
    ]
  ]

  -- A call with an entry in `oneLayerFuncsMap` has exactly the functions of this entry. Any other has
  -- exactly the functions of its hash and of the hashes that this one is cast to, where a call
  -- without functions has its variable parameters resolved first.
  pub get_one_layer_result_iff :
      (func_type_cast_map : ℕ → List ℕ) (one_layer_funcs_map : ℕ → Option (List ℕ)) (ci : ℕ)
      (sig_funcs : Table ℕ ℕ) (f : ℕ)
      → (mem f
            (get_one_layer_result llvm tabs sigs func_type_cast_map one_layer_funcs_map ci
              sig_funcs).0
          ≡ true)
        ↔ (((fs : List ℕ) × (one_layer_funcs_map (llvm.call_hash ci) ≡ some fs) × (mem f fs ≡ true))
            ⊎ (one_layer_funcs_map (llvm.call_hash ci) ≡ none)
              × (Resolved ci sig_funcs (llvm.call_hash ci) f
                  ⊎ (h : ℕ) × (mem h (func_type_cast_map (llvm.call_hash ci)) ≡ true)
                    × Resolved ci sig_funcs h f))
  unfolding get_one_layer_result
  get_one_layer_result_iff func_type_cast_map one_layer_funcs_map ci sig_funcs f =
      elim (Option-cases (one_layer_funcs_map key)) [
        | inr (fs, e) ↦
            rw (e, get_one_layer_result)
              (
                λ m. inl (fs, refl, m),
                λ h. elim h [
                  | inl (gs, same, m) ↦ rw (Option.some-injective fs gs same) m
                  | inr (none_kept, _) ↦ cc
                ],
              )
        | inl e ↦
            let folded =
              cast_funcs_iff (resolved_funcs llvm tabs sigs ci sig_funcs) (func_type_cast_map key)
                (get (resolved_funcs llvm tabs sigs ci sig_funcs) key) f in
            rw (e, get_one_layer_result)
              (
                λ m. inr (
                  refl,
                  elim (folded.0 m) [
                    | inl own ↦ inl ((resolved key).0 own)
                    | inr (h, at, cast) ↦ inr (h, at, (resolved h).0 cast)
                  ],
                ),
                λ h. elim h [
                  | inl (gs, same, m) ↦ cc
                  | inr (_, inl own) ↦ folded.1 (inl ((resolved key).1 own))
                  | inr (_, inr (h, at, cast)) ↦ folded.1 (inr (h, at, (resolved h).1 cast))
                ],
              )
      ]
    where
      key : ℕ
      key = llvm.call_hash ci

      resolved :
          (k : ℕ)
          → (mem f (get (resolved_funcs llvm tabs sigs ci sig_funcs) k) ≡ true)
            ↔ Resolved ci sig_funcs k f
      resolved k = resolved_funcs_iff ci sig_funcs k f
