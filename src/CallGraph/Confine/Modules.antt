-- ===== src/CallGraph/Confine/Modules.antt =====
-- `doInitialization` of CallGraph.cc handles a whole module to the end, and what one module records
-- stays when the next is read.
use tfa_project.Common.{
  ℕ, ◌<◌, ◌≤◌, ◌≡◌, refl, inl, inr, Bool, true, false, ◌||◌, ◌&&◌, not, some, List, [], ◌∷◌,
  mem-union, nat_eq, list_eq, ◌==◌, arith, Bool-cases, Option-cases, length,
}
use tfa_project.Common.Text.{codes}
use tfa_project.CallGraph.{Llvm}
use tfa_project.CallGraph.OneLayer.{FuncType}
use tfa_project.CallGraph.Confine.{Collected, Functions, get_global_funcs}
use tfa_project.CallGraph.Confine.Stores.{Operands, is_composite_type}
use tfa_project.CallGraph.Confine.Initializers.{
  Constants, is_used_list, type_confine_in_initializer,
}
use tfa_project.CallGraph.Confine.Casts.{
  CastInfo, is_struct, type_confine_in_cast, transit_structs, transit_params, transit_func_types,
  func_type_from_value, handle_indirect_cast,
}
use tfa_project.CallGraph.Confine.Module.{
  Cast, Inst, store_inst, cast_inst, other_inst, FunctionBody, ModuleInput, skips_global,
  collect_globals, collect_inst, collect_insts, escape_cast, collect_bit_cast, collect_bit_casts,
  take_address, unify_function, collect_declaration, collect_function, collect_functions,
  do_initialization,
}
use tfa_project.CallGraph.Confine.Grows.{
  Grows, Grows-refl, Grows-trans, Grows-same, add_sig-Grows, transit_type-Grows,
}
use tfa_project.CallGraph.Confine.Total.{
  Collects, Collects-after, Sound, type_confine_in_store-Collects,
}
use tfa_project.CallGraph.Confine.Fields.{type_confine_in_initializer_lem}

module _ (llvm : Llvm) (ops : Operands) (info : CastInfo) where
  type_confine_in_cast-Grows :
      (from_ty to_ty : ℕ) (c : Collected)
      → Grows c (type_confine_in_cast llvm ops info from_ty to_ty c).1
  unfolding type_confine_in_cast
  type_confine_in_cast-Grows from_ty to_ty c =
      elim (Bool-cases (is_composite_type llvm ops from_ty)) [
        | inl e ↦ rw (e, type_confine_in_cast) (transit_type-Grows llvm to_ty from_ty c)
        | inr e ↦
            elim (Bool-cases (not (ops.is_pointer_ty from_ty) || not (ops.is_pointer_ty to_ty))) [
              | inl p ↦ rw (e, p, type_confine_in_cast) (Grows-refl c)
              | inr p ↦
                  rw (e, p, type_confine_in_cast)
                    (Grows-same c _ refl refl refl refl refl refl refl)
            ]
      ]

  transit_structs-Grows :
      (from_ty to_ty : ℕ) (c : Collected) → Grows c (transit_structs llvm ops info from_ty to_ty c)
  unfolding transit_structs
  transit_structs-Grows from_ty to_ty c =
      elim (Bool-cases (
        not (from_ty == to_ty)
        && (is_struct llvm ops info from_ty && is_struct llvm ops info to_ty))) [
          | inl e ↦ rw (e, transit_structs) (transit_type-Grows llvm to_ty from_ty c)
          | inr e ↦ rw (e, transit_structs) (Grows-refl c)
        ]

  transit_params-Grows :
      (from_tys to_tys : List ℕ) (c : Collected)
      → Grows c (transit_params llvm ops info from_tys to_tys c)
  unfolding transit_params
  transit_params-Grows [] to_tys c = Grows-refl c
  transit_params-Grows (from_ty ∷ from_tys) [] c = Grows-refl c
  transit_params-Grows (from_ty ∷ from_tys) (to_ty ∷ to_tys) c =
      Grows-trans (transit_structs-Grows from_ty to_ty c) (transit_params-Grows from_tys to_tys _)

  transit_func_types-Grows :
      (from_fty to_fty : FuncType) (c : Collected)
      → Grows c (transit_func_types llvm ops info from_fty to_fty c)
  unfolding transit_func_types
  transit_func_types-Grows from_fty to_fty c =
      let g = transit_structs-Grows from_fty.return_type to_fty.return_type c in
      elim (Bool-cases (length from_fty.params == length to_fty.params)) [
        | inl e ↦
            rw (e, transit_func_types)
              (Grows-trans g (transit_params-Grows from_fty.params to_fty.params _))
        | inr e ↦ rw (e, transit_func_types) g
      ]

  pub handle_indirect_cast-Grows :
      (from_ty to_ty from_v to_v : ℕ) (c : Collected)
      → Grows c (handle_indirect_cast llvm ops info from_ty to_ty from_v to_v c)
  unfolding handle_indirect_cast
  handle_indirect_cast-Grows from_ty to_ty from_v to_v c =
      elim (Bool-cases (not (ops.is_pointer_ty from_ty) || not (ops.is_pointer_ty to_ty))) [
        | inl p ↦ rw (p, handle_indirect_cast) (Grows-refl c)
        | inr p ↦ elim (Option-cases (func_type_from_value llvm ops info from_v)) [
          | inl e ↦ rw (p, e, handle_indirect_cast) (Grows-refl c)
          | inr (from_fty, e) ↦ elim (Option-cases (func_type_from_value llvm ops info to_v)) [
            | inl e' ↦ rw (p, e, e', handle_indirect_cast) (Grows-refl c)
            | inr (to_fty, e') ↦
                rw (p, e, e', handle_indirect_cast) (transit_func_types-Grows from_fty to_fty c)
          ]
        ]
      ]

module _ (llvm : Llvm) (funcs : Functions) (ops : Operands) (consts : Constants)
    (info : CastInfo) where
  escape_cast-Grows :
      (cast : Cast) (c : Collected) → Grows c (escape_cast llvm funcs ops consts info cast c)
  unfolding escape_cast
  escape_cast-Grows cast c =
      elim (Bool-cases
        ((info.type_str cast.to_ty == codes "i8*") && ops.is_function cast.operand)) [
          | inl e ↦ rw (e, escape_cast) (Grows-same c _ refl refl refl refl refl refl refl)
          | inr e ↦ rw (e, escape_cast) (Grows-refl c)
        ]

  collect_bit_cast-Grows :
      (cast : Cast) (c : Collected) → Grows c (collect_bit_cast llvm funcs ops consts info cast c)
  unfolding collect_bit_cast
  collect_bit_cast-Grows cast c =
      elim (Bool-cases (ops.is_pointer_ty cast.to_ty && ops.is_pointer_ty cast.from_ty)) [
        | inl e ↦
            rw (e, collect_bit_cast)
              (Grows-trans
                (Grows-trans (escape_cast-Grows cast c) (
                  handle_indirect_cast-Grows llvm ops info cast.from_ty cast.to_ty cast.operand
                    cast.value _))
                (type_confine_in_cast-Grows llvm ops info cast.from_ty cast.to_ty _))
        | inr e ↦
            rw (e, collect_bit_cast)
              (type_confine_in_cast-Grows llvm ops info cast.from_ty cast.to_ty c)
      ]

  collect_bit_casts-Grows :
      (casts : List Cast) (c : Collected)
      → Grows c (collect_bit_casts llvm funcs ops consts info casts c)
  unfolding collect_bit_casts
  collect_bit_casts-Grows [] c = Grows-refl c
  collect_bit_casts-Grows (cast ∷ casts) c =
      Grows-trans (collect_bit_cast-Grows cast c) (collect_bit_casts-Grows casts _)

  take_address-Grows :
      (taken : Bool) (f : ℕ) (c : Collected)
      → Grows c (take_address llvm funcs ops consts info taken f c)
  unfolding take_address
  take_address-Grows false f c = Grows-refl c
  take_address-Grows true f c =
      Grows-trans (Grows-same c _ refl refl refl refl refl refl refl)
        (add_sig-Grows llvm (llvm.func_hash f) f _)

  unify_function-Grows :
      (taken : Bool) (f : ℕ) (c : Collected)
      → Grows c (unify_function llvm funcs ops consts info taken f c)
  unfolding unify_function
  unify_function-Grows taken f c = elim (Option-cases (c.unified_func_map (funcs.full_hash f))) [
    | inr (g, e) ↦ rw (e, unify_function) (Grows-refl c)
    | inl e ↦ elim (Bool-cases taken) [
      | inl t ↦
          rw (e, t, unify_function)
            (Grows-trans (Grows-same c _ refl refl refl refl refl refl refl)
              (add_sig-Grows llvm (llvm.func_hash f) f _))
      | inr t ↦ rw (e, t, unify_function) (Grows-same c _ refl refl refl refl refl refl refl)
    ]
  ]

  collect_declaration-Grows :
      (taken : Bool) (f : ℕ) (c : Collected)
      → Grows c (collect_declaration llvm funcs ops consts info taken f c)
  unfolding collect_declaration
  collect_declaration-Grows false f c = Grows-refl c
  collect_declaration-Grows true f c = record {
    funcs_kept = λ k x h. h;
    sigs_kept = λ k x h.
        ground (arith, mem-union x (c.sig_funcs_map (llvm.func_hash f)) (get_global_funcs funcs f));
    unknown_kept = λ k x h. h;
    confined_kept = λ k x h. h;
    transits_kept = λ k x h. h;
    stores_kept = λ k x h. h;
    escapes_kept = λ k h. h;
  }

  -- The stores of a module are between its values.
  unfoldable pub StoreBelow : Inst → Type 0
  StoreBelow (store_inst si vo po) = (vo < ops.count) × (po < ops.count)
  StoreBelow _ = Unit {0}

  unfoldable pub StoresBelow : List Inst → Type 0
  unfolding StoreBelow
  StoresBelow [] = Unit {0}
  StoresBelow (i ∷ is) = StoreBelow i × StoresBelow is

  unfoldable pub ModuleBelow : List FunctionBody → Type 0
  unfolding StoresBelow
  ModuleBelow [] = Unit {0}
  ModuleBelow (body ∷ bodies) = StoresBelow body.insts × ModuleBelow bodies

  module _ (sound : Sound llvm ops)
      (none_above : (u : ℕ) → ops.count ≤ u → consts.operands u ≡ []) where
    collect_inst-Collects :
        (i : Inst) (c : Collected)
        → StoreBelow i
        → Collects c (collect_inst llvm funcs ops consts info i c)
    unfolding collect_inst StoreBelow
    collect_inst-Collects (store_inst si vo po) c (lt, lt') =
        type_confine_in_store-Collects llvm funcs ops sound si vo po c lt lt'
    collect_inst-Collects (cast_inst cast) c b = (
      _,
      refl,
      Grows-trans (type_confine_in_cast-Grows llvm ops info cast.from_ty cast.to_ty c) (
          handle_indirect_cast-Grows llvm ops info cast.from_ty cast.to_ty cast.operand cast.value
            _),
    )
    collect_inst-Collects other_inst c b = (c, refl, Grows-refl c)

    collect_insts-Collects :
        (is : List Inst) (c : Collected)
        → StoresBelow is
        → Collects c (collect_insts llvm funcs ops consts info is c)
    unfolding collect_insts StoresBelow
    collect_insts-Collects [] c b = (c, refl, Grows-refl c)
    collect_insts-Collects (i ∷ is) c (b, bs) =
        let (d, ran, g) = collect_inst-Collects i c b in
        rw (ran, collect_insts) (Collects-after c d _ g (collect_insts-Collects is d bs))

    collect_function-Collects :
        (body : FunctionBody) (c : Collected)
        → StoresBelow body.insts
        → Collects c (collect_function llvm funcs ops consts info body c)
    unfolding collect_function
    collect_function-Collects body c b = elim (Bool-cases (funcs.is_declaration body.func)) [
      | inl e ↦
          rw (e, collect_function)
            (_, refl, collect_declaration-Grows body.has_address_taken body.func c)
      | inr e ↦
          let (d, ran, g) = collect_insts-Collects body.insts c b in
          rw (e, ran, collect_function)
            (
              _,
              refl,
              Grows-trans g (
                  Grows-trans (collect_bit_casts-Grows body.bit_casts d) (
                    Grows-trans (take_address-Grows body.has_address_taken body.func _)
                      (unify_function-Grows body.has_address_taken body.func _))),
            )
    ]

    collect_functions-Collects :
        (bodies : List FunctionBody) (c : Collected)
        → ModuleBelow bodies
        → Collects c (collect_functions llvm funcs ops consts info bodies c)
    unfolding collect_functions ModuleBelow
    collect_functions-Collects [] c b = (c, refl, Grows-refl c)
    collect_functions-Collects (body ∷ bodies) c (b, bs) =
        let (d, ran, g) = collect_function-Collects body c b in
        rw (ran, collect_functions)
          (Collects-after c d _ g (collect_functions-Collects bodies d bs))

    initializer-Collects :
        (gv : ℕ) (c : Collected)
        → (r : Bool) × (d : Collected) × (type_confine_in_initializer llvm funcs ops consts gv c
            ≡ some (r, d))
          × Grows c d
    unfolding type_confine_in_initializer
    initializer-Collects gv c = elim (Bool-cases (consts.is_aggregate (consts.initializer gv))) [
      | inr e ↦ rw (e, type_confine_in_initializer) (false, c, refl, Grows-refl c)
      | inl e ↦ elim (Bool-cases (is_used_list llvm funcs ops consts (consts.global_name gv))) [
        | inl u ↦ rw (e, u, type_confine_in_initializer) (false, c, refl, Grows-refl c)
        | inr u ↦
            let (d, ran, g, _) =
              type_confine_in_initializer_lem llvm funcs ops consts gv c none_above e u in
            (true, d, ran, g)
      ]
    ]

    collect_globals-Collects :
        (gvs : List (ℕ × Bool)) (c : Collected)
        → Collects c (collect_globals llvm funcs ops consts info gvs c)
    unfolding collect_globals
    collect_globals-Collects [] c = (c, refl, Grows-refl c)
    collect_globals-Collects ((gv, has_initializer) ∷ gvs) c =
        elim (Bool-cases (
          not has_initializer || skips_global llvm funcs ops consts info (consts.global_name gv))) [
            | inl e ↦ rw (e, collect_globals) (collect_globals-Collects gvs c)
            | inr e ↦
                let (r, d, ran, g) = initializer-Collects gv c in
                rw (e, ran, collect_globals)
                  (Collects-after c d _ g (collect_globals-Collects gvs d))
          ]

    -- When the values of the program are below `count`, users from there on have no operands, no
    -- type is both a pointer and a function type, and the module's stores are between its values:
    -- the collection of the module returns, and the tables still hold every function, confinement,
    -- transit and escape that they held before.
    pub do_initialization-Collects :
        (input : ModuleInput) (c : Collected)
        → ModuleBelow input.functions
        → Collects c (do_initialization llvm funcs ops consts info input c)
    unfolding do_initialization
    do_initialization-Collects input c below =
        let (d, ran, g) = collect_globals-Collects input.globals c in
        rw (ran, do_initialization)
          (Collects-after c d _ g (collect_functions-Collects input.functions d below))
