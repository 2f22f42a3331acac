-- ===== src/Tbaa.antt =====
-- src/lib/utils/TBAATools.cc: the struct-path TBAA test of two access tags.
-- A metadata node is a number (its address), `MdStore` gives its operands, and `none` is `nullptr`.
-- `Older` states what LLVM documents of type descriptors: they form no cycle. The nodes are numbered
-- so that an operand has a smaller number, and the two loops over parents get `suc n` rounds at `n`.
pub mod Chains
pub mod Parent
pub mod Root
pub mod Spec
use tfa_project.Common.{
  ℕ, zero, suc, ◌-◌, ◌%◌, ◌<◌, Bool, true, false, ◌&&◌, ◌||◌, not, Option, none, some, List, [],
  ◌∷◌, ◌==◌, ltb, if◌then◌else◌, mem, length, get_elem?, is_some, pair_eq, nat_eq,
}
use mathlib.Core.Option

pub data Operand : Type 0 where
  md_string : Operand
  md_node : ℕ → Operand
  const_int : ℕ → Operand
  other : Operand

abbrev pub MdStore : Type 0
MdStore = ℕ → List Operand

abbrev pub is_string : Option Operand → Bool
is_string (some md_string) = true
is_string _ = false

-- `dyn_cast<MDNode>`
abbrev pub as_node : Option Operand → Option ℕ
as_node (some (md_node n)) = some n
as_node _ = none

-- `mdconst::dyn_extract<ConstantInt>`, then `getZExtValue`
abbrev pub as_int : Option Operand → Option ℕ
as_int (some (const_int k)) = some k
as_int _ = none

abbrev pub NodesBelow : ℕ → List Operand → Type 0
NodesBelow n [] = Unit
NodesBelow n (md_node m ∷ ops) = (m < n) × NodesBelow n ops
NodesBelow n (md_string ∷ ops) = NodesBelow n ops
NodesBelow n (const_int k ∷ ops) = NodesBelow n ops
NodesBelow n (other ∷ ops) = NodesBelow n ops

abbrev pub Older : MdStore → Type 0
Older md = (n : ℕ) → NodesBelow n (md n)

-- The loop over the fields of a struct descriptor: the last field at or before `offset`,
-- fields that are no (type, offset) pair skipped, and an end at the first field behind `offset`.
pub choose_field : List Operand → ℕ → Option (ℕ × ℕ) → Option (ℕ × ℕ)
choose_field [] offset chosen = chosen
choose_field (t ∷ []) offset chosen = chosen
choose_field (t ∷ o ∷ ops) offset chosen = elim (as_node (some t)) [
  | none ↦ choose_field ops offset chosen
  | some field_ty ↦ elim (as_int (some o)) [
    | none ↦ choose_field ops offset chosen
    | some field_off ↦ elim (ltb offset field_off) [
      | true ↦ chosen
      | false ↦ choose_field ops offset (some (field_ty, field_off))
    ]
  ]
]

abbrev pub tail : List Operand → List Operand
tail [] = []
tail (x ∷ ops) = ops

module _ (md : MdStore) where
  pub is_root_node : Option ℕ → Bool
  is_root_node none = false
  is_root_node (some n) =
      length (md n) == 0 || (length (md n) == 1 && is_string (get_elem? (md n) 0))

  pub is_scalar_desc : Option ℕ → Bool
  is_scalar_desc none = false
  is_scalar_desc (some n) =
      (length (md n) == 2 || length (md n) == 3)
      && is_string (get_elem? (md n) 0)
      && is_some (as_node (get_elem? (md n) 1))

  pub is_struct_desc : Option ℕ → Bool
  is_struct_desc none = false
  is_struct_desc (some n) =
      ltb 1 (length (md n)) && length (md n) % 2 == 1 && is_string (get_elem? (md n) 0)

  -- Base type and offset of an access tag, `none` where it is malformed.
  pub get_base_and_offset_from_tag : Option ℕ → Option (ℕ × ℕ)
  get_base_and_offset_from_tag none = none
  get_base_and_offset_from_tag (some tag) =
      if ltb (length (md tag)) 3 then none else elim (as_node (get_elem? (md tag) 0)) [
        | none ↦ none
        | some base ↦ Option.map (λ offset. (base, offset)) (as_int (get_elem? (md tag) 2))
      ]

  -- `while (Cur && !isRootNode(Cur))`: up the scalar parents.
  pub root_loop : ℕ → ℕ → Option ℕ
  root_loop zero cur = none
  root_loop (suc fuel) cur = elim (is_root_node (some cur)) [
    | true ↦ some cur
    | false ↦ elim (is_scalar_desc (some cur)) [
      | false ↦ none
      | true ↦ elim (as_node (get_elem? (md cur) 1)) [
        | none ↦ none
        | some parent ↦ root_loop fuel parent
      ]
    ]
  ]

  pub get_tbaa_root_from_tag : Option ℕ → Option ℕ
  get_tbaa_root_from_tag none = none
  get_tbaa_root_from_tag (some tag) =
      if ltb (length (md tag)) 2 then none else elim (as_node (get_elem? (md tag) 1)) [
        | none ↦ none
        | some access_ty ↦ root_loop (suc access_ty) access_ty
      ]

  pub immediate_parent : Option ℕ → ℕ → Option (ℕ × ℕ)
  immediate_parent none offset = none
  immediate_parent (some base_ty) offset =
      if is_scalar_desc (some base_ty)
      then (if offset == 0
          then Option.map (λ parent. (parent, 0)) (as_node (get_elem? (md base_ty) 1))
          else none)
      else if is_struct_desc (some base_ty)
      then Option.map (λ (ty, field_off). (ty, offset - field_off))
          (choose_field (tail (md base_ty)) offset none)
      else none

  -- `ChainA` and `ChainB`: the pairs met on the way up.
  pub chain : ℕ → ℕ → ℕ → List (ℕ × ℕ)
  chain zero base off = []
  chain (suc fuel) base off = (base, off) ∷ elim (immediate_parent (some base) off) [
    | none ↦ []
    | some (parent_base, parent_off) ↦ chain fuel parent_base parent_off
  ]

  -- From the bases and offsets of two tags on.
  pub compare_accesses : ℕ → ℕ → ℕ × ℕ → ℕ × ℕ → Bool
  compare_accesses a b (base_a, off_a) (base_b, off_b) =
      if base_a == base_b && not (off_a == off_b)
      then false
      else elim (get_tbaa_root_from_tag (some a)) [
        | none ↦ true
        | some root_a ↦ elim (get_tbaa_root_from_tag (some b)) [
          | none ↦ true
          | some root_b ↦
              if not (root_a == root_b)
              then false
              else mem (base_a, off_a) (chain (suc base_b) base_b off_b)
                || mem (base_b, off_b) (chain (suc base_a) base_a off_a)
        ]
      ]

  -- `false` is a proof that the two accesses are disjoint, `true` is "may alias, or unknown".
  pub may_alias_by_tbaa : Option ℕ → Option ℕ → Bool
  may_alias_by_tbaa none b = true
  may_alias_by_tbaa (some a) none = true
  may_alias_by_tbaa (some a) (some b) =
      if a == b then true else elim (get_base_and_offset_from_tag (some a)) [
        | none ↦ true
        | some pa ↦ elim (get_base_and_offset_from_tag (some b)) [
          | none ↦ true
          | some pb ↦ compare_accesses a b pa pb
        ]
      ]
