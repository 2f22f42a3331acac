-- ===== src/CallGraph/Layers/Total.antt =====
-- The recursion of `nextLayerBaseType_new` ends: each call goes on from a value that it has just put
-- into `VisitedSet`, so it is at most as deep as there are values.
use tfa_project.Common.{
  ℕ, zero, suc, ◌+◌, ◌≤◌, ◌<◌, ◌≡◌, refl, inl, inr, Bool, true, false, not, Option, some, List, [],
  ◌∷◌, mem, nat_eq, ◌==◌, arith, Bool-cases, Option-cases, sum_below, bit, sum_below_mono,
  sum_below-one, beq_refl, ◌&&◌, sum_below-point, sum_below-add, if◌then◌else◌,
}
use tfa_project.Common.Text.{Text}
use tfa_project.CallGraph.{Llvm}
use tfa_project.CallGraph.Layers.{
  Values, Shape, Mode, fails_now, Search, search_all, search_load, search_shape, stored_values,
  next_layer_base_type, get_gep_layer_types, is_unresolved,
}

-- The values below n that are not visited.
abbrev pub unvisited : ℕ → List ℕ → ℕ
unvisited n visited = sum_below n (λ v. bit (not (mem v visited)))

abbrev pub Grows : List ℕ → List ℕ → Type 0
Grows xs ys = (v : ℕ) → mem v xs ≡ true → mem v ys ≡ true

pub unvisited_le : (n : ℕ) → unvisited n [] ≤ n
unvisited_le n = sum_below-one n _ (λ v. omega arith)

pub unvisited-Grows : (n : ℕ) (xs ys : List ℕ) → Grows xs ys → unvisited n ys ≤ unvisited n xs
unvisited-Grows n xs ys g = sum_below_mono n _ _ (λ v. ground (arith, g v))

pub unvisited-visit :
    (n v : ℕ) (xs : List ℕ) → v < n → mem v xs ≡ false → unvisited n (v ∷ xs) + 1 ≤ unvisited n xs
unvisited-visit n v xs lt unseen =
    let total =
      sum_below_mono n (λ a. bit (not (mem a (v ∷ xs))) + (if a == v then 1 else 0))
        (λ a. bit (not (mem a xs))) (λ a. ground arith) in
    omega (
      arith,
      total,
      sum_below-add n (λ a. bit (not (mem a (v ∷ xs)))) (λ a. if a == v then 1 else 0),
      sum_below-point n v 1 lt,
    )

module _ (llvm : Llvm) (literal_names : ℕ → Option Text) (vals : Values) where
  -- What the search goes into from a value.
  unfoldable pub next_of_shape : Shape → List ℕ
  next_of_shape Shape.unresolved = []
  next_of_shape (Shape.gep g) = []
  next_of_shape (Shape.bit_cast v) = v ∷ []
  next_of_shape (Shape.load lpo) = lpo ∷ stored_values llvm literal_names vals lpo (vals.users lpo)
  next_of_shape (Shape.phi vs) = vs
  next_of_shape (Shape.select tv fv) = tv ∷ fv ∷ []
  next_of_shape (Shape.unary v) = v ∷ []
  next_of_shape Shape.other = []

  abbrev pub next_of : ℕ → List ℕ
  next_of v = next_of_shape (vals.shape v)

  -- A search returns, and forgets no visit.
  abbrev pub Answers : Search → Option (Bool × Search) → Type 0
  Answers s o = (ok : Bool) × (s' : Search) × (o ≡ some (ok, s')) × Grows s.visited s'.visited

  abbrev Searches : ℕ → ℕ → (ℕ → Search → Option (Bool × Search)) → Type 0
  Searches n fuel search =
      (v : ℕ) (s : Search) → v < n → unvisited n s.visited < fuel → Answers s (search v s)

  module _ (n fuel : ℕ) (visit : ℕ → Search → Option (Bool × Search)) (ih : Searches n fuel visit)
      (mode : Mode) where
    search_all-Answers :
        (vs : List ℕ) (s : Search)
        → ((v : ℕ) → mem v vs ≡ true → v < n)
        → unvisited n s.visited < fuel
        → Answers s (search_all llvm literal_names vals visit mode vs s)
    unfolding search_all
    search_all-Answers [] s lt few = (true, s, refl, λ v h. h)
    search_all-Answers (v ∷ vs) s lt few =
        let (ok, s', ran, g) = ih v s (lt v (ground (arith, beq_refl v))) few in
        let (ok', s'', ran', g') =
          search_all-Answers vs s' (λ x h. lt x (ground arith))
            (omega (arith, few, unvisited-Grows n s.visited s'.visited g)) in
        elim (Bool-cases (fails_now mode ok)) [
          | inl now ↦ rw (ran, now, search_all) (false, s', refl, g)
          | inr later ↦
              rw (ran, later, ran', search_all) (ok && ok', s'', refl, λ x h. g' x (g x h))
        ]

    search_load-Answers :
        (lpo : ℕ) (s : Search)
        → ((v : ℕ) → mem v (next_of_shape (Shape.load lpo)) ≡ true → v < n)
        → unvisited n s.visited < fuel
        → Answers s (search_load llvm literal_names vals visit mode lpo s)
    unfolding search_load next_of_shape
    search_load-Answers lpo s lt few =
        let (ok, s', ran, g) = ih lpo s (lt lpo (ground (arith, beq_refl lpo))) few in
        let (ok', s'', ran', g') =
          search_all-Answers (stored_values llvm literal_names vals lpo (vals.users lpo)) s'
            (λ x h. lt x (ground arith))
            (omega (arith, few, unvisited-Grows n s.visited s'.visited g)) in
        elim (Bool-cases (fails_now mode ok)) [
          | inl now ↦ rw (ran, now, search_load) (false, s', refl, g)
          | inr later ↦ rw (ran, later, ran', search_load) (ok', s'', refl, λ x h. g' x (g x h))
        ]

    search_shape-Answers :
        (shape : Shape) (s : Search)
        → ((v : ℕ) → mem v (next_of_shape shape) ≡ true → v < n)
        → unvisited n s.visited < fuel
        → Answers s (search_shape llvm literal_names vals visit mode shape s)
    unfolding search_shape next_of_shape
    search_shape-Answers Shape.unresolved s lt few = (false, s, refl, λ v h. h)
    search_shape-Answers (Shape.gep g) s lt few =
        elim (Option-cases (get_gep_layer_types llvm literal_names g)) [
          | inl e ↦ rw (e, search_shape) (false, s, refl, λ v h. h)
          | inr (layer, e) ↦ rw (e, search_shape) (true, _, refl, λ v h. h)
        ]
    search_shape-Answers (Shape.bit_cast v) s lt few =
        ih v s (lt v (ground (arith, beq_refl v))) few
    search_shape-Answers (Shape.load lpo) s lt few = search_load-Answers lpo s lt few
    search_shape-Answers (Shape.phi vs) s lt few = search_all-Answers vs s lt few
    search_shape-Answers (Shape.select tv fv) s lt few = search_all-Answers (tv ∷ fv ∷ []) s lt few
    search_shape-Answers (Shape.unary v) s lt few = ih v s (lt v (ground (arith, beq_refl v))) few
    search_shape-Answers Shape.other s lt few = (false, s, refl, λ v h. h)

  -- All values of the program are below n.
  abbrev pub ValuesBelow : ℕ → Type 0
  ValuesBelow n = (v w : ℕ) → mem w (next_of v) ≡ true → w < n

  -- When all operands and stored values are among n values, the search from one of them returns in
  -- either mode with more rounds than there are values not visited, and keeps what was visited.
  pub next_layer_base_type-Answers :
      (n : ℕ) (below : ValuesBelow n) (fuel : ℕ) (mode : Mode) (v : ℕ) (s : Search)
      → v < n
      → unvisited n s.visited < fuel
      → Answers s (next_layer_base_type llvm literal_names vals fuel mode v s)
  unfolding next_layer_base_type
  next_layer_base_type-Answers n below zero mode v s lt few = ground (arith, few)
  next_layer_base_type-Answers n below (suc fuel) mode v s lt few =
      elim (Bool-cases (is_unresolved llvm literal_names vals (vals.shape v))) [
        | inl e ↦ rw (e, next_layer_base_type) (false, s, refl, λ v h. h)
        | inr e ↦ elim (Bool-cases (mem v s.visited)) [
          | inl seen ↦ rw (e, seen, next_layer_base_type) (true, s, refl, λ v h. h)
          | inr unseen ↦
              let (ok, s', ran, g) =
                search_shape-Answers n fuel (next_layer_base_type llvm literal_names vals fuel mode)
                  (next_layer_base_type-Answers n below fuel mode) mode (vals.shape v)
                  (record s { visited = v ∷ s.visited }) (below v)
                  (omega (arith, few, unvisited-visit n v s.visited lt unseen)) in
              rw (e, unseen, ran, next_layer_base_type) (ok, s', refl, λ x h. g x (ground arith))
        ]
      ]
