-- ===== src/Tests/Tbaa.antt =====
-- Descriptors: 0 is the root, 1 `char`, 2 `int`, 3 a struct of two `int`; 4 and 5 are the tags of
-- its fields and 6 is the tag of a plain `int`.
use tfa_project.Common.{
  ℕ, get_elem?, zero, suc, ◌-◌, ◌≡◌, ◌↔◌, refl, true, false, some, [], ◌∷◌, mem, arith, nat_eq,
  pair_eq,
}
use tfa_project.Tbaa.{
  md_string, md_node, const_int, MdStore, Older, chain, as_node, get_tbaa_root_from_tag,
  immediate_parent, may_alias_by_tbaa,
}
use tfa_project.Tbaa.Chains.{Within, mem-chain_iff}
use tfa_project.Tbaa.Root.{RootOf, get_tbaa_root_from_tag_iff}
use tfa_project.Tbaa.Parent.{immediate_parent-field}
use tfa_project.Tbaa.Spec.{NoAlias, may_alias-false_iff, may_alias_comm}

abbrev pub tags : MdStore
tags zero = md_string ∷ []
tags (suc zero) = md_string ∷ md_node 0 ∷ const_int 0 ∷ []
tags (suc (suc zero)) = md_string ∷ md_node 1 ∷ const_int 0 ∷ []
tags (suc (suc (suc zero))) = md_string ∷ md_node 2 ∷ const_int 0 ∷ md_node 2 ∷ const_int 4 ∷ []
tags (suc (suc (suc (suc zero)))) = md_node 3 ∷ md_node 2 ∷ const_int 0 ∷ []
tags (suc (suc (suc (suc (suc zero))))) = md_node 3 ∷ md_node 2 ∷ const_int 4 ∷ []
tags (suc (suc (suc (suc (suc (suc zero)))))) = md_node 2 ∷ md_node 2 ∷ const_int 0 ∷ []
tags (suc (suc (suc (suc (suc (suc (suc n))))))) = []

tags-Older : Older tags
tags-Older zero = tt
tags-Older (suc zero) = (omega arith, tt)
tags-Older (suc (suc zero)) = (omega arith, tt)
tags-Older (suc (suc (suc zero))) = (omega arith, (omega arith, tt))
tags-Older (suc (suc (suc (suc zero)))) = (omega arith, (omega arith, tt))
tags-Older (suc (suc (suc (suc (suc zero))))) = (omega arith, (omega arith, tt))
tags-Older (suc (suc (suc (suc (suc (suc zero)))))) = (omega arith, (omega arith, tt))
tags-Older (suc (suc (suc (suc (suc (suc (suc n))))))) = tt

may_alias-false_iff_example : (may_alias_by_tbaa tags (some 4) (some 5) ≡ false) ↔ NoAlias tags 4 5
may_alias-false_iff_example = may_alias-false_iff tags 4 5 tags-Older

may_alias_comm_example :
    may_alias_by_tbaa tags (some 4) (some 6) ≡ may_alias_by_tbaa tags (some 6) (some 4)
may_alias_comm_example = may_alias_comm tags (some 4) (some 6)

mem-chain_iff_example : (mem (2, 0) (chain tags 4 3 4) ≡ true) ↔ Within tags 3 4 2 0
mem-chain_iff_example = mem-chain_iff tags 3 4 2 0 tags-Older

get_tbaa_root_from_tag_iff_example :
    (get_tbaa_root_from_tag tags (some 6) ≡ some 0)
    ↔ ((access : ℕ) × (as_node (get_elem? (tags 6) 1) ≡ some access) × RootOf tags 0 access)
get_tbaa_root_from_tag_iff_example = get_tbaa_root_from_tag_iff tags 6 0 tags-Older

immediate_parent-field_example : immediate_parent tags (some 3) 6 ≡ some (2, 6 - 4)
immediate_parent-field_example =
    immediate_parent-field tags 3 6 2 4 ((2, 0) ∷ []) [] refl (omega arith) (omega arith, tt)
      (omega arith) tt
