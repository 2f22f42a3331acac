-- ===== src/CallGraph/Confine/BaseTypes.antt =====
-- `getBaseType` of LayerAnalysis.cc ends, and gives a composite type or none. `getBaseFunction` goes
-- down the casts to the first function.
use tfa_project.Common.{
  ℕ, zero, suc, ◌<◌, ◌≡◌, ◌↔◌, refl, inl, inr, true, false, Option, none, some, List, [], ◌∷◌, mem,
  nat_eq, arith, Bool-cases, Option-cases, beq_refl,
}
use mathlib.Core.Option
use tfa_project.Common.Text.{Text}
use tfa_project.CallGraph.{Llvm}
use tfa_project.CallGraph.Layers.{Shape}
use tfa_project.CallGraph.Layers.Total.{
  next_of_shape, ValuesBelow, unvisited, unvisited-Grows, unvisited-visit,
}
use tfa_project.CallGraph.Confine.{Functions}
use tfa_project.CallGraph.Confine.Stores.{
  Operands, is_composite_type, own_base_type, get_phi_base_type, base_type_of_shape, get_base_type,
  get_base_function, is_plain_function, bit_cast_operand,
}

module _ (llvm : Llvm) (funcs : Functions) (ops : Operands) where
  abbrev Composite : Option ℕ → Type 0
  Composite o = (ty : ℕ) → o ≡ some ty → is_composite_type llvm ops ty ≡ true

  -- A search returns a composite type or none, and forgets no visit.
  abbrev pub Answers : List ℕ → Option (Option ℕ × List ℕ) → Type 0
  Answers visited o =
      (ty : Option ℕ) × (visited' : List ℕ) × (o ≡ some (ty, visited'))
      × Composite ty
      × ((v : ℕ) → mem v visited ≡ true → mem v visited' ≡ true)

  own_base_type-Composite : (v : ℕ) → Composite (own_base_type llvm funcs ops v)
  unfolding own_base_type
  own_base_type-Composite v ty h = elim (Bool-cases (is_composite_type llvm ops (ops.type_of v))) [
    | inl e ↦ let same = Option.some-injective _ ty (rw (e, own_base_type) at h) in rw (← same) e
    | inr e ↦ elim (Bool-cases (ops.is_pointer_ty (ops.type_of v))) [
      | inr p ↦ cc (rw (e, p, own_base_type) at h)
      | inl p ↦ elim (Option-cases (ops.element_type v)) [
        | inl n ↦ cc (rw (e, p, n, own_base_type) at h)
        | inr (el, n) ↦ elim (Bool-cases (is_composite_type llvm ops el)) [
          | inr x ↦ cc (rw (e, p, n, x, own_base_type) at h)
          | inl x ↦
              let same = Option.some-injective el ty (rw (e, p, n, x, own_base_type) at h) in
              rw (← same) x
        ]
      ]
    ]
  ]

  abbrev Searches : ℕ → ℕ → (ℕ → List ℕ → Option (Option ℕ × List ℕ)) → Type 0
  Searches n fuel visit =
      (v : ℕ) (visited : List ℕ)
      → v < n
      → unvisited n visited < fuel
      → Answers visited (visit v visited)

  module _ (n fuel : ℕ) (visit : ℕ → List ℕ → Option (Option ℕ × List ℕ))
      (ih : Searches n fuel visit) where
    get_phi_base_type-Answers :
        (vs visited : List ℕ)
        → ((v : ℕ) → mem v vs ≡ true → v < n)
        → unvisited n visited < fuel
        → Answers visited (get_phi_base_type llvm funcs ops visit vs visited)
    unfolding get_phi_base_type
    get_phi_base_type-Answers [] visited lt few = (none, visited, refl, λ ty h. cc, λ v h. h)
    get_phi_base_type-Answers (v ∷ vs) visited lt few =
        let (found, visited', ran, composite, g) =
          ih v visited (lt v (ground (arith, beq_refl v))) few in
        let (found', visited'', ran', composite', g') =
          get_phi_base_type-Answers vs visited' (λ x h. lt x (ground arith))
            (omega (arith, few, unvisited-Grows n visited visited' g)) in
        elim (Option-cases found) [
          | inr (ty, e) ↦
              rw (ran, e, get_phi_base_type)
                (some ty, visited', refl, λ t h. composite t (rw e h), g)
          | inl e ↦
              rw (ran, e, ran', get_phi_base_type)
                (found', visited'', refl, composite', λ x h. g' x (g x h))
        ]

    module _ (names : ℕ → Option Text) where
      base_type_of_shape-Answers :
          (shape : Shape) (visited : List ℕ)
          → ((v : ℕ) → mem v (next_of_shape llvm names ops.vals shape) ≡ true → v < n)
          → unvisited n visited < fuel
          → Answers visited (base_type_of_shape llvm funcs ops visit shape visited)
      unfolding base_type_of_shape next_of_shape
      base_type_of_shape-Answers (Shape.bit_cast v) visited lt few =
          ih v visited (lt v (ground (arith, beq_refl v))) few
      base_type_of_shape-Answers (Shape.load lpo) visited lt few =
          ih lpo visited (lt lpo (ground (arith, beq_refl lpo))) few
      base_type_of_shape-Answers (Shape.phi vs) visited lt few =
          get_phi_base_type-Answers vs visited lt few
      base_type_of_shape-Answers (Shape.select tv fv) visited lt few =
          ih tv visited (lt tv (ground (arith, beq_refl tv))) few
      base_type_of_shape-Answers Shape.unresolved visited lt few =
          (none, visited, refl, λ ty h. cc, λ v h. h)
      base_type_of_shape-Answers (Shape.gep g) visited lt few =
          (none, visited, refl, λ ty h. cc, λ v h. h)
      base_type_of_shape-Answers (Shape.unary w) visited lt few =
          (none, visited, refl, λ ty h. cc, λ v h. h)
      base_type_of_shape-Answers Shape.other visited lt few =
          (none, visited, refl, λ ty h. cc, λ v h. h)

  -- When operands and stored values are among n values: with more rounds than there are values not
  -- visited, the search for the base type of one of them returns, and what it finds is a struct, an
  -- array or a vector type.
  pub get_base_type-Answers :
      (n : ℕ) (names : ℕ → Option Text) (below : ValuesBelow llvm names ops.vals n) (fuel v : ℕ)
      (visited : List ℕ)
      → v < n
      → unvisited n visited < fuel
      → Answers visited (get_base_type llvm funcs ops fuel v visited)
  unfolding get_base_type
  get_base_type-Answers n names below zero v visited lt few = ground (arith, few)
  get_base_type-Answers n names below (suc fuel) v visited lt few =
      elim (Bool-cases (mem v visited)) [
        | inl seen ↦ rw (seen, get_base_type) (none, visited, refl, λ ty h. cc, λ x h. h)
        | inr unseen ↦ elim (Option-cases (own_base_type llvm funcs ops v)) [
          | inr (ty, e) ↦
              rw (unseen, e, get_base_type)
                (
                  some ty,
                  v ∷ visited,
                  refl,
                  λ t h. own_base_type-Composite v t (rw e h),
                  λ x h. ground arith,
                )
          | inl e ↦
              let (ty, visited', ran, composite, g) =
                base_type_of_shape-Answers n fuel (get_base_type llvm funcs ops fuel)
                  (get_base_type-Answers n names below fuel) names (ops.vals.shape v) (v ∷ visited)
                  (below v) (omega (arith, few, unvisited-visit n v visited lt unseen)) in
              rw (unseen, e, ran, get_base_type)
                (ty, visited', refl, composite, λ x h. g x (ground arith))
        ]
      ]

  -- A value that is a function, or a cast of such a value; intrinsics do not count.
  pub data CastOf (f : ℕ) : ℕ → Type 0 where
    itself : is_plain_function llvm funcs ops f ≡ true → CastOf f f
    cast :
        (v o : ℕ)
        → is_plain_function llvm funcs ops v ≡ false
        → bit_cast_operand (ops.vals.shape v) ≡ some o
        → CastOf f o
        → CastOf f v

  -- When the operand of a cast is numbered below it, `getBaseFunction` with more rounds than the
  -- number of a value finds the function f just when the value is f or a cast of f, with no
  -- function before f.
  pub get_base_function_iff :
      (below : (v o : ℕ) → bit_cast_operand (ops.vals.shape v) ≡ some o → o < v) (fuel v f : ℕ)
      → v < fuel
      → (get_base_function llvm funcs ops fuel v ≡ some f) ↔ CastOf f v
  unfolding get_base_function
  get_base_function_iff below zero v f lt = ground (arith, lt)
  get_base_function_iff below (suc fuel) v f lt =
      elim (Bool-cases (is_plain_function llvm funcs ops v)) [
        | inl plain ↦
            rw (plain, get_base_function)
              (
                λ h. let same = Option.some-injective v f h in rw (← same) (itself plain),
                at_function v f plain,
              )
        | inr other ↦ elim (Option-cases (bit_cast_operand (ops.vals.shape v))) [
          | inl e ↦ rw (other, e, get_base_function) (λ h. cc, at_end v f other e)
          | inr (o, e) ↦
              let behind = get_base_function_iff below fuel o f (omega (arith, lt, below v o e)) in
              rw (other, e, get_base_function)
                (λ h. cast v o other e (behind.0 h), λ k. behind.1 (at_cast v f o other e k))
        ]
      ]
    where
      at_function :
          (v f : ℕ) → is_plain_function llvm funcs ops v ≡ true → CastOf f v → some v ≡ some f
      at_function v _ plain (itself p) = refl
      at_function v f plain (cast _ o other e k) = cc

      at_end :
          (v f : ℕ)
          → is_plain_function llvm funcs ops v ≡ false
          → bit_cast_operand (ops.vals.shape v) ≡ none
          → CastOf f v
          → none ≡ some f
      at_end v _ other e (itself p) = cc
      at_end v f other e (cast _ o p e' k) = cc

      at_cast :
          (v f o : ℕ)
          → is_plain_function llvm funcs ops v ≡ false
          → bit_cast_operand (ops.vals.shape v) ≡ some o
          → CastOf f v
          → CastOf f o
      at_cast v _ o other e (itself p) = cc
      at_cast v f o other e (cast _ o' p e' k) =
          let same = Option.some-injective o' o (cc (e, e')) in rw (← same) k
