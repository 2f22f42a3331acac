-- ===== src/Tbaa/Spec.antt =====
-- What `mayAliasByTBAA` decides: it says "no alias" exactly for the pairs of access tags that the
-- struct-path rules separate, and it is symmetric.
use tfa_project.Common.{
  ℕ, ◌≡◌, refl, ◌↔◌, ◌≢◌, inl, inr, false, Option, none, some, ◌==◌, pair_eq, nat_eq, arith,
  Bool-cases, Option-cases, ◌&&◌, not,
}
use tfa_project.Tbaa.{
  MdStore, Older, compare_accesses, get_base_and_offset_from_tag, get_tbaa_root_from_tag,
  may_alias_by_tbaa,
}
use tfa_project.Tbaa.Chains.{Within, mem-chain_iff}

-- Two access tags that cannot name the same memory.
pub data NoAlias (md : MdStore) (a b : ℕ) : Type 0 where
  other_offset :
      {base oa ob : ℕ}
      → a ≢ b
      → get_base_and_offset_from_tag md (some a) ≡ some (base, oa)
      → get_base_and_offset_from_tag md (some b) ≡ some (base, ob)
      → oa ≢ ob
      → NoAlias md a b
  other_root :
      {ba oa bb ob ra rb : ℕ}
      → a ≢ b
      → get_base_and_offset_from_tag md (some a) ≡ some (ba, oa)
      → get_base_and_offset_from_tag md (some b) ≡ some (bb, ob)
      → get_tbaa_root_from_tag md (some a) ≡ some ra
      → get_tbaa_root_from_tag md (some b) ≡ some rb
      → ra ≢ rb
      → NoAlias md a b
  unrelated :
      {ba oa bb ob r : ℕ}
      → a ≢ b
      → get_base_and_offset_from_tag md (some a) ≡ some (ba, oa)
      → get_base_and_offset_from_tag md (some b) ≡ some (bb, ob)
      → get_tbaa_root_from_tag md (some a) ≡ some r
      → get_tbaa_root_from_tag md (some b) ≡ some r
      → ¬ Within md bb ob ba oa
      → ¬ Within md ba oa bb ob
      → NoAlias md a b

module _ (md : MdStore) where
  -- The test of two tags does not depend on their order.
  pub may_alias_comm : (a b : Option ℕ) → may_alias_by_tbaa md a b ≡ may_alias_by_tbaa md b a
  unfolding may_alias_by_tbaa compare_accesses
  may_alias_comm none none = refl
  may_alias_comm none (some b) = refl
  may_alias_comm (some a) none = refl
  may_alias_comm (some a) (some b) = ground arith

  NoAlias-of_compare :
      (a b ba oa bb ob : ℕ)
      → Older md
      → a ≢ b
      → get_base_and_offset_from_tag md (some a) ≡ some (ba, oa)
      → get_base_and_offset_from_tag md (some b) ≡ some (bb, ob)
      → compare_accesses md a b (ba, oa) (bb, ob) ≡ false
      → NoAlias md a b
  unfolding compare_accesses
  NoAlias-of_compare a b ba oa bb ob older ne pa pb h =
      elim (Bool-cases (ba == bb && not (oa == ob))) [
        | inl offsets ↦
            let base : bb ≡ ba = ground arith in other_offset ne pa (rw base at pb) (ground arith)
        | inr no_offsets ↦ elim (Option-cases (get_tbaa_root_from_tag md (some a))) [
          | inl no_root ↦ absurd (ground arith)
          | inr (ra, ea) ↦ elim (Option-cases (get_tbaa_root_from_tag md (some b))) [
            | inl no_root ↦ absurd (ground arith)
            | inr (rb, eb) ↦ elim (Bool-cases (ra == rb)) [
              | inl same ↦
                  let root : rb ≡ ra = ground arith in
                  unrelated ne pa pb ea (rw root at eb)
                    (λ w. ground (arith, (mem-chain_iff md bb ob ba oa older).1 w))
                    (λ w. ground (arith, (mem-chain_iff md ba oa bb ob older).1 w))
              | inr apart ↦ other_root ne pa pb ea eb (ground arith)
            ]
          ]
        ]
      ]

  NoAlias-of_false :
      (a b : ℕ) → Older md → may_alias_by_tbaa md (some a) (some b) ≡ false → NoAlias md a b
  unfolding may_alias_by_tbaa
  NoAlias-of_false a b older h = elim (Option-cases (get_base_and_offset_from_tag md (some a))) [
    | inl malformed ↦ absurd (ground arith)
    | inr ((ba, oa), pa) ↦ elim (Option-cases (get_base_and_offset_from_tag md (some b))) [
      | inl malformed ↦ absurd (ground arith)
      | inr ((bb, ob), pb) ↦
          NoAlias-of_compare a b ba oa bb ob older (ground arith) pa pb (ground arith)
    ]
  ]

  false_of_NoAlias :
      (a b : ℕ) → Older md → NoAlias md a b → may_alias_by_tbaa md (some a) (some b) ≡ false
  unfolding may_alias_by_tbaa compare_accesses
  false_of_NoAlias a b older (other_offset ne pa pb off) = ground arith
  false_of_NoAlias a b older (other_root ne pa pb ra rb root) = ground arith
  false_of_NoAlias a b older (unrelated {ba} {oa} {bb} {ob} ne pa pb ra rb left right) =
      ground (arith, mem-chain_iff md bb ob ba oa older, mem-chain_iff md ba oa bb ob older)

  -- When descriptors form no cycle, the test of two tags answers "no alias" exactly when the rules
  -- for struct-path tags separate the accesses: one base with two offsets, two roots, or one root
  -- and neither access lies within the other.
  pub may_alias-false_iff :
      (a b : ℕ) → Older md → (may_alias_by_tbaa md (some a) (some b) ≡ false) ↔ NoAlias md a b
  may_alias-false_iff a b older = (NoAlias-of_false a b older, false_of_NoAlias a b older)
