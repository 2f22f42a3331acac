-- ===== src/CallGraph/Confine/Total.antt =====
-- Every store is handled to the end, and the tables only grow.
use tfa_project.Common.{
  ℕ, suc, ◌<◌, ◌≡◌, refl, inl, inr, Bool, true, false, ◌&&◌, Option, some, List, [], ◌∷◌, nat_eq,
  ◌==◌, arith, Bool-cases, Option-cases,
}
use tfa_project.Common.Text.{Text}
use tfa_project.CallGraph.{Llvm}
use tfa_project.CallGraph.Layers.{Layer, Mode, precise, recall}
use tfa_project.CallGraph.Layers.Total.{ValuesBelow, unvisited_le, next_layer_base_type-Answers}
use tfa_project.CallGraph.Confine.{Collected, Functions, func_set, add_to}
use tfa_project.CallGraph.Confine.Stores.{
  Operands, layer_types, confine, confine_all, propagate_type, propagate_types, escape_all,
  escape_target, store_function, base_function,
}
use tfa_project.CallGraph.Confine.Handlers.{
  store_elements, store_composite, store_plain, store_untyped, store_typed, store_by_layers,
  type_confine_in_store, track_func_pointer-false,
}
use tfa_project.CallGraph.Confine.Grows.{
  Grows, Grows-refl, Grows-trans, Grows-same, add_to-Includes, read_name-Grows, escape_type-Grows,
}
use tfa_project.CallGraph.Confine.Kept.{record_layers-Grows, mark_unknown-Grows}
use tfa_project.CallGraph.Confine.BaseTypes.{get_base_type-Answers}

-- A handler returns, and its result holds all that was recorded before.
abbrev pub Collects : Collected → Option Collected → Type 0
Collects c o = (d : Collected) × (o ≡ some d) × Grows c d

pub Collects-after :
    (c d : Collected) (o : Option Collected) → Grows c d → Collects d o → Collects c o
Collects-after c d o g (e, ran, h) = (e, ran, Grows-trans g h)

-- What the analysis relies on: the values of the program are below `count`, and no type is both a
-- pointer type and a function type.
pub record Sound (llvm : Llvm) (ops : Operands) : Type 0 where
  pub below : (names : ℕ → Option Text) → ValuesBelow llvm names ops.vals ops.count
  pub apart : (ty : ℕ) → ops.is_pointer_ty ty ≡ true → ops.is_function_ty ty ≡ false

module _ (llvm : Llvm) (funcs : Functions) (ops : Operands) (sound : Sound llvm ops) where
  layer_types-returns :
      (mode : Mode) (v : ℕ) (c : Collected)
      → v < ops.count
      → (ok : Bool) × (layers : List Layer) × (layer_types llvm funcs ops mode v c
          ≡ some (ok, layers))
  unfolding layer_types
  layer_types-returns mode v c lt =
      let (ok, s, ran, _) =
        next_layer_base_type-Answers llvm c.literal_names ops.vals ops.count
          (sound.below c.literal_names) (suc ops.count) mode v
          (record { ty_list = []; visited = [] }) lt (omega (arith, unvisited_le ops.count)) in
      (ok, s.ty_list, rw (ran, layer_types) refl)

  confine-Grows : (to from : Layer) (c : Collected) → Grows c (confine llvm funcs ops to from c)
  unfolding confine
  confine-Grows (to_ty, to_idx) (from_ty, from_idx) c =
      elim (Bool-cases ((to_ty == from_ty) && (to_idx == from_idx))) [
        | inl e ↦ rw (e, confine) (Grows-refl c)
        | inr e ↦
            rw (e, confine)
              (Grows-trans
                (Grows-trans (read_name-Grows llvm to_ty c) (read_name-Grows llvm from_ty _))
                (confined _ _ _ _))
      ]
    where
      confined :
          (to_key from_key : ℕ) (ids : ℕ → Option (ℕ × ℕ)) (c : Collected)
          → Grows c (record c {
            type_confine_map = add_to c.type_confine_map to_key from_key;
            hash_id_type_map = ids;
          })
      confined to_key from_key ids c = record {
        funcs_kept = λ k x h. h;
        sigs_kept = λ k x h. h;
        unknown_kept = λ k x h. h;
        confined_kept = add_to-Includes c.type_confine_map to_key from_key;
        transits_kept = λ k x h. h;
        stores_kept = λ k x h. h;
        escapes_kept = λ k h. h;
      }

  confine_all-Grows :
      (tos : List Layer) (from : Layer) (c : Collected)
      → Grows c (confine_all llvm funcs ops tos from c)
  unfolding confine_all
  confine_all-Grows [] from c = Grows-refl c
  confine_all-Grows (to ∷ tos) from c =
      Grows-trans (confine-Grows to from c) (confine_all-Grows tos from _)

  propagate_types-Collects :
      (to_v : ℕ) (froms : List Layer) (c : Collected)
      → to_v < ops.count
      → Collects c (propagate_types llvm funcs ops to_v froms c)
  unfolding propagate_types propagate_type
  propagate_types-Collects to_v [] c lt = (c, refl, Grows-refl c)
  propagate_types-Collects to_v (from ∷ froms) c lt =
      let (ok, tos, ran) = layer_types-returns recall to_v c lt in
      rw (ran, propagate_types)
        (Collects-after c _ _ (confine_all-Grows tos from c)
          (propagate_types-Collects to_v froms _ lt))

  escape_all-Grows :
      (si : ℕ) (layers : List Layer) (c : Collected)
      → Grows c (escape_all llvm funcs ops si layers c)
  unfolding escape_all
  escape_all-Grows si [] c = Grows-refl c
  escape_all-Grows si ((ty, idx) ∷ layers) c = Grows-trans (escape_type-Grows llvm si ty idx c) (
      Grows-trans (Grows-same _ _ refl refl refl refl refl refl refl)
        (escape_all-Grows si layers _))

  escape_target-Collects :
      (si po : ℕ) (c : Collected)
      → po < ops.count
      → Collects c (escape_target llvm funcs ops si po c)
  unfolding escape_target
  escape_target-Collects si po c lt =
      let (ok, layers, ran) = layer_types-returns recall po c lt in
      rw (ran, escape_target) (_, refl, escape_all-Grows si layers c)

  pub store_function-Collects :
      (f po offset si : ℕ) (c : Collected)
      → po < ops.count
      → Collects c (store_function llvm funcs ops f po offset si c)
  unfolding store_function
  store_function-Collects f po offset si c lt =
      let (ok, layers, ran) = layer_types-returns precise po c lt in
      elim (Bool-cases ok) [
        | inl e ↦
            rw (ran, e, store_function)
              (_, refl, record_layers-Grows llvm funcs ops (func_set funcs f) offset layers si c)
        | inr e ↦
            rw (ran, e, store_function)
              (_, refl, mark_unknown-Grows llvm funcs ops (func_set funcs f) c)
      ]

  store_elements-Collects :
      (vs : List ℕ) (i po si : ℕ) (c : Collected)
      → po < ops.count
      → Collects c (store_elements llvm funcs ops vs i po si c)
  unfolding store_elements
  store_elements-Collects [] i po si c lt = (c, refl, Grows-refl c)
  store_elements-Collects (v ∷ vs) i po si c lt =
      elim (Option-cases (base_function llvm funcs ops v)) [
        | inl e ↦ rw (e, store_elements) (store_elements-Collects vs (suc i) po si c lt)
        | inr (f, e) ↦
            let (d, ran, g) = store_function-Collects f po i si c lt in
            rw (e, ran, store_elements)
              (Collects-after c d _ g (store_elements-Collects vs (suc i) po si d lt))
      ]

  store_composite-Collects :
      (ty vo po si : ℕ) (c : Collected)
      → po < ops.count
      → Collects c (store_composite llvm funcs ops ty vo po si c)
  unfolding store_composite
  store_composite-Collects ty vo po si c lt =
      elim (Bool-cases (ops.is_vector_ty ty && ops.has_pointer_scalars ty)) [
        | inr e ↦ rw (e, store_composite) (c, refl, Grows-refl c)
        | inl e ↦ elim (Option-cases (ops.vector_elements vo)) [
          | inl n ↦ rw (e, n, store_composite) (c, refl, Grows-refl c)
          | inr (vs, n) ↦ rw (e, n, store_composite) (store_elements-Collects vs 0 po si c lt)
        ]
      ]

  store_plain-Collects :
      (vo po si : ℕ) (c : Collected)
      → po < ops.count
      → Collects c (store_plain llvm funcs ops vo po si c)
  unfolding store_plain
  store_plain-Collects vo po si c lt = elim (Option-cases (base_function llvm funcs ops vo)) [
    | inr (f, e) ↦ rw (e, store_plain) (store_function-Collects f po 0 si c lt)
    | inl e ↦ elim (Bool-cases (ops.is_pointer_ty (ops.type_of vo))) [
      | inr p ↦ rw (e, p, store_plain) (c, refl, Grows-refl c)
      | inl p ↦
          rw (e, track_func_pointer-false llvm funcs ops vo po si c sound.apart, p, store_plain)
            (escape_target-Collects si po c lt)
    ]
  ]

  store_untyped-Collects :
      (vo po si : ℕ) (c : Collected)
      → vo < ops.count
      → po < ops.count
      → Collects c (store_untyped llvm funcs ops vo po si c)
  unfolding store_untyped
  store_untyped-Collects vo po si c lt lt' =
      let (found, visited, ran, _, _) =
        get_base_type-Answers llvm funcs ops ops.count c.literal_names (sound.below c.literal_names)
          (suc ops.count) vo [] lt (omega (arith, unvisited_le ops.count)) in
      elim (Option-cases found) [
        | inl e ↦ rw (ran, e, store_untyped) (store_plain-Collects vo po si c lt')
        | inr (ty, e) ↦ rw (ran, e, store_untyped) (store_composite-Collects ty vo po si c lt')
      ]

  store_typed-Collects :
      (ok : Bool) (froms : List Layer) (po si : ℕ) (c : Collected)
      → po < ops.count
      → Collects c (store_typed llvm funcs ops ok froms po si c)
  unfolding store_typed
  store_typed-Collects ok froms po si c lt =
      let (d, ran, g) = propagate_types-Collects po froms c lt in
      elim (Bool-cases ok) [
        | inl e ↦ rw (ran, e, store_typed) (d, refl, g)
        | inr e ↦
            rw (ran, e, store_typed) (Collects-after c d _ g (escape_target-Collects si po d lt))
      ]

  store_by_layers-Collects :
      (ok : Bool) (froms : List Layer) (vo po si : ℕ) (c : Collected)
      → vo < ops.count
      → po < ops.count
      → Collects c (store_by_layers llvm funcs ops ok froms vo po si c)
  unfolding store_by_layers
  store_by_layers-Collects true froms vo po si c lt lt' =
      store_typed-Collects true froms po si c lt'
  store_by_layers-Collects false [] vo po si c lt lt' = store_untyped-Collects vo po si c lt lt'
  store_by_layers-Collects false (f ∷ fs) vo po si c lt lt' =
      store_typed-Collects false (f ∷ fs) po si c lt'

  -- When the values of the program are below `count` and no type is both a pointer and a function
  -- type: the handling of any store between them returns, and the tables still hold every
  -- function, confinement, transit and escape that they held.
  pub type_confine_in_store-Collects :
      (si vo po : ℕ) (c : Collected)
      → vo < ops.count
      → po < ops.count
      → Collects c (type_confine_in_store llvm funcs ops si vo po c)
  unfolding type_confine_in_store
  type_confine_in_store-Collects si vo po c lt lt' =
      let (ok, froms, ran) = layer_types-returns recall vo c lt in
      elim (Bool-cases (ops.vals.is_constant_data vo)) [
        | inl e ↦ rw (e, type_confine_in_store) (c, refl, Grows-refl c)
        | inr e ↦
            rw (e, ran, type_confine_in_store) (store_by_layers-Collects ok froms vo po si c lt lt')
      ]
