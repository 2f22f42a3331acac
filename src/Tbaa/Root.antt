-- ===== src/Tbaa/Root.antt =====
-- `getTBAARootFromTag`: the root above the access type of a tag.
use tfa_project.Common.{
  ℕ, zero, suc, ◌<◌, ◌≡◌, ◌⊎◌, ◌↔◌, inl, inr, refl, true, false, some, arith, length, get_elem?,
  Bool-cases, Option-cases, ltb, List, [], ◌∷◌,
}
use mathlib.Core.Option
use tfa_project.Tbaa.{
  MdStore, Older, Operand, as_node, is_string, is_root_node, is_scalar_desc, root_loop,
  get_tbaa_root_from_tag,
}
use tfa_project.Tbaa.Parent.{parent_at-Below}

module _ (md : MdStore) where
  -- A node without operands, or with a name as its only one.
  pub IsRoot : ℕ → Type 0
  IsRoot n = (length (md n) ≡ 0) ⊎ (length (md n) ≡ 1) × (is_string (get_elem? (md n) 0) ≡ true)

  -- Two or three operands: a name, the parent, and perhaps a number.
  pub HasParent : ℕ → ℕ → Type 0
  HasParent n p =
      ((length (md n) ≡ 2) ⊎ (length (md n) ≡ 3))
      × (is_string (get_elem? (md n) 0) ≡ true)
      × (as_node (get_elem? (md n) 1) ≡ some p)

  -- Parents lead from a node to the root `r`.
  pub data RootOf (r : ℕ) : ℕ → Type 0 where
    at_root : IsRoot r → RootOf r r
    above : {n p : ℕ} → HasParent n p → RootOf r p → RootOf r n

  is_root_node_iff : (n : ℕ) → (is_root_node md (some n) ≡ true) ↔ IsRoot n
  unfolding is_root_node IsRoot
  is_root_node_iff n = ground arith

  is_scalar_desc_iff :
      (n p : ℕ)
      → as_node (get_elem? (md n) 1) ≡ some p
      → (is_scalar_desc md (some n) ≡ true) ↔ HasParent n p
  unfolding is_scalar_desc HasParent
  is_scalar_desc_iff n p e = ground arith

  not-IsRoot : (n p : ℕ) → HasParent n p → is_root_node md (some n) ≡ false
  unfolding is_root_node HasParent
  not-IsRoot n p h = ground arith

  HasParent-as_node : (n p : ℕ) → HasParent n p → as_node (get_elem? (md n) 1) ≡ some p
  unfolding HasParent
  HasParent-as_node n p (_, _, e) = e

  RootOf-root_loop : (f n r : ℕ) → root_loop md f n ≡ some r → RootOf r n
  unfolding root_loop
  RootOf-root_loop zero n r h = cc
  RootOf-root_loop (suc f) n r h = elim (Bool-cases (is_root_node md (some n))) [
    | inl root ↦
        let same : n ≡ r = Option.some-injective n r (rw (root, root_loop) at h) in
        rw same (at_root (rw (← same) ((is_root_node_iff n).0 root)))
    | inr below ↦ elim (Bool-cases (is_scalar_desc md (some n))) [
      | inr odd ↦ cc (rw (below, odd, root_loop) at h)
      | inl scalar ↦ elim (Option-cases (as_node (get_elem? (md n) 1))) [
        | inl top ↦ cc (rw (below, scalar, top, root_loop) at h)
        | inr (p, e) ↦
            above ((is_scalar_desc_iff n p e).0 scalar)
              (RootOf-root_loop f p r (rw (below, scalar, e, root_loop) at h))
      ]
    ]
  ]

  root_loop-RootOf : (f n r : ℕ) → Older md → n < f → RootOf r n → root_loop md f n ≡ some r
  unfolding root_loop
  root_loop-RootOf zero n r older h k = absurd (omega arith)
  root_loop-RootOf (suc f) n r older h (at_root root) =
      let found = (is_root_node_iff n).1 root in rw (found, root_loop) refl
  root_loop-RootOf (suc f) n r older h (above {p = p} up k) =
      let e = HasParent-as_node n p up in
      let lt : p < n = parent_at-Below n 1 (md n) p (older n) e in
      rw (not-IsRoot n p up, (is_scalar_desc_iff n p e).1 up, e, root_loop)
        (root_loop-RootOf f p r older (omega arith) k)

  two_operands :
      (ops : List Operand) (p : ℕ) → as_node (get_elem? ops 1) ≡ some p → ltb (length ops) 2 ≡ false
  two_operands [] p h = cc
  two_operands (x ∷ []) p h = cc
  two_operands (x ∷ y ∷ ops) p h = ground arith

  -- When descriptors form no cycle, the tag has the root `r` exactly when its second operand is a
  -- node from which parents lead to `r`: each has a name and a parent, and the root has no operand
  -- or a name only.
  pub get_tbaa_root_from_tag_iff :
      (tag r : ℕ)
      → Older md
      → (get_tbaa_root_from_tag md (some tag) ≡ some r)
        ↔ ((access : ℕ) × (as_node (get_elem? (md tag) 1) ≡ some access) × RootOf r access)
  unfolding get_tbaa_root_from_tag
  get_tbaa_root_from_tag_iff tag r older = (to, from)
    where
      to :
          get_tbaa_root_from_tag md (some tag) ≡ some r
          → (access : ℕ) × (as_node (get_elem? (md tag) 1) ≡ some access) × RootOf r access
      to h = elim (Option-cases (as_node (get_elem? (md tag) 1))) [
        | inl absent ↦ elim (Bool-cases (ltb (length (md tag)) 2)) [
          | inl short ↦ cc (rw (short, get_tbaa_root_from_tag) at h)
          | inr long ↦ cc (rw (long, absent, get_tbaa_root_from_tag) at h)
        ]
        | inr (access, e) ↦
            let long = two_operands (md tag) access e in
            (
              access,
              e,
              RootOf-root_loop (suc access) access r (rw (long, e, get_tbaa_root_from_tag) at h),
            )
      ]

      from :
          (access : ℕ) × (as_node (get_elem? (md tag) 1) ≡ some access) × RootOf r access
          → get_tbaa_root_from_tag md (some tag) ≡ some r
      from (access, e, k) =
          let long = two_operands (md tag) access e in
          rw (long, e, get_tbaa_root_from_tag)
            (root_loop-RootOf (suc access) access r older (omega arith) k)
