-- ===== src/CallGraph/Layers/Bounds.antt =====
-- The types and indices that `getGEPLayerTypes` pushes are in range: the index fits an `int` and is
-- not negative, and the type is a struct with a usable name.
use tfa_project.Common.{
  ℕ, ◌<◌, ◌^◌, ◌≡◌, refl, inl, inr, true, Option, some, List, [], ◌∷◌, ◌++◌, ap, arith, Bool-cases,
  Option-cases,
}
use mathlib.Core.Option
use tfa_project.Common.Text.{Text}
use tfa_project.CallGraph.{Llvm}
use tfa_project.CallGraph.Virtual.{ℤ, pos, negsuc}
use tfa_project.CallGraph.Layers.{
  Gep, to_int, index_of, is_zero, split_last, indices_of, get_layer_two_type,
  check_valid_struct_name, inner_type, struct_layer, get_gep_layer_types,
}

index_of-lt : (i : ℤ) (n : ℕ) → index_of i ≡ some n → n < 2 ^ 31
unfolding index_of to_int
index_of-lt (pos k) n h = ground arith
index_of-lt (negsuc k) n h = ground arith

split_last-append : (i : ℤ) (is : List ℤ) → i ∷ is ≡ (split_last i is).0 ++ (split_last i is).1 ∷ []
unfolding split_last
split_last-append i [] = refl
split_last-append i (j ∷ js) = ap (λ xs. i ∷ xs) (split_last-append j js)

module _ (llvm : Llvm) (literal_names : ℕ → Option Text) where
  -- The way from a struct type to the type of a layer: the indices behind the first lead down the
  -- elements to a struct, and the last is the index of the layer.
  pub record LayerOf (ty : ℕ) (is : List ℤ) (t i : ℕ) : Type 0 where
    pub first : ℤ
    pub before : List ℤ
    pub last : ℤ
    pub ids : List ℕ
    pub parts : is ≡ first ∷ (before ++ last ∷ [])
    pub first_zero : is_zero first ≡ true
    pub path : indices_of before ≡ some ids
    pub leads : get_layer_two_type llvm ty ids ≡ some t
    pub valid_base : check_valid_struct_name llvm literal_names ty ≡ true
    pub valid : check_valid_struct_name llvm literal_names t ≡ true
    pub at_last : index_of last ≡ some i
    pub in_range : i < 2 ^ 31

  valid-struct :
      (ty : ℕ)
      → check_valid_struct_name llvm literal_names ty ≡ true
      → get_layer_two_type llvm ty [] ≡ some ty
  unfolding check_valid_struct_name get_layer_two_type
  valid-struct ty h = elim (Option-cases (llvm.struct_of ty)) [
    | inl e ↦ cc (rw (e, check_valid_struct_name) at h)
    | inr (sty, e) ↦ rw (e, get_layer_two_type) refl
  ]

  -- The indices before the last lead from a valid struct to a valid struct.
  inner_type_lem :
      (ty t : ℕ) (before : List ℤ)
      → check_valid_struct_name llvm literal_names ty ≡ true
      → inner_type llvm literal_names ty before ≡ some t
      → (ids : List ℕ) × (indices_of before ≡ some ids)
        × (get_layer_two_type llvm ty ids ≡ some t)
        × (check_valid_struct_name llvm literal_names t ≡ true)
  unfolding inner_type indices_of
  inner_type_lem ty t [] valid h =
      let same = Option.some-injective ty t h in
      ([], refl, rw (← same) (valid-struct ty valid), rw (← same) valid)
  inner_type_lem ty t (j ∷ js) valid h = elim (Option-cases (indices_of (j ∷ js))) [
    | inl e ↦ cc (rw (e, inner_type) at h)
    | inr (ids, e) ↦ elim (Option-cases (get_layer_two_type llvm ty ids)) [
      | inl e' ↦ cc (rw (e, e', inner_type) at h)
      | inr (result_ty, e') ↦
          elim (Bool-cases (check_valid_struct_name llvm literal_names result_ty)) [
            | inr bad ↦ cc (rw (e, e', bad, inner_type) at h)
            | inl good ↦
                let same = Option.some-injective result_ty t (rw (e, e', good, inner_type) at h) in
                (ids, e, rw (← same) e', rw (← same) good)
          ]
    ]
  ]

  struct_layer-LayerOf :
      (ty : ℕ) (is : List ℤ) (t i : ℕ)
      → struct_layer llvm literal_names ty is ≡ some (t, i)
      → LayerOf ty is t i
  unfolding struct_layer
  struct_layer-LayerOf ty [] t i h = cc
  struct_layer-LayerOf ty (first ∷ []) t i h = cc
  struct_layer-LayerOf ty (first ∷ j ∷ js) t i h =
      let last = (split_last j js).1 in
      let before = (split_last j js).0 in
      elim (Option-cases (index_of last)) [
        | inl e ↦ cc (rw (e, struct_layer) at h)
        | inr (idx, e) ↦ elim (Bool-cases (check_valid_struct_name llvm literal_names ty)) [
          | inr bad ↦ cc (rw (e, bad, struct_layer) at h)
          | inl good ↦ elim (Bool-cases (is_zero first)) [
            | inr bad ↦ cc (rw (e, good, bad, struct_layer) at h)
            | inl zero_first ↦ elim (Option-cases (inner_type llvm literal_names ty before)) [
              | inl e' ↦ cc (rw (e, good, zero_first, e', struct_layer) at h)
              | inr (u, e') ↦
                  let pushed : some (u, idx) ≡ some (t, i) =
                    rw (e, good, zero_first, e', struct_layer) at h in
                  let same = Option.some-injective (u, idx) (t, i) pushed in
                  let same_ty : u ≡ t = ap (λ p. p.0) same in
                  let same_idx : idx ≡ i = ap (λ p. p.1) same in
                  let (ids, path, leads, valid) = inner_type_lem ty u before good e' in
                  record {
                    first = first;
                    before = before;
                    last = last;
                    ids = ids;
                    parts = ap (λ xs. first ∷ xs) (split_last-append j js);
                    first_zero = zero_first;
                    path = path;
                    leads = rw (← same_ty) leads;
                    valid_base = good;
                    valid = rw (← same_ty) valid;
                    at_last = rw (← same_idx) e;
                    in_range = index_of-lt last i (rw (← same_idx) e);
                  }
            ]
          ]
        ]
      ]

  -- A pair (t, i) that `getGEPLayerTypes` pushes comes from constant indices that lead from the
  -- source type to the struct t, both with usable names; i is the last index, not negative and
  -- below 2^31.
  pub get_gep_layer_types-LayerOf :
      (g : Gep) (t i : ℕ)
      → get_gep_layer_types llvm literal_names g ≡ some (t, i)
      → (is : List ℤ) × (g.indices ≡ some is) × LayerOf g.source_type is t i
  unfolding get_gep_layer_types
  get_gep_layer_types-LayerOf g t i h = elim (Bool-cases g.base_is_pointer) [
    | inr nope ↦ cc (rw (nope, get_gep_layer_types) at h)
    | inl ptr ↦ elim (Option-cases (llvm.struct_of g.source_type)) [
      | inl e ↦ cc (rw (ptr, e, get_gep_layer_types) at h)
      | inr (sty, e) ↦ elim (Option-cases g.indices) [
        | inl e' ↦ cc (rw (ptr, e, e', get_gep_layer_types) at h)
        | inr (is, e') ↦ (
          is,
          e',
          struct_layer-LayerOf g.source_type is t i (rw (ptr, e, e', get_gep_layer_types) at h),
        )
      ]
    ]
  ]
