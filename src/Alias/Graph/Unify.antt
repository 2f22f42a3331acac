-- ===== src/Alias/Graph/Unify.antt =====
-- `mergeNode` joins the two classes, unless TBAA blocks the merge, which changes nothing but the
-- counter.
use tfa_project.Common.{
  ℕ, zero, suc, ◌+◌, ◌<◌, ◌≡◌, ◌≢◌, sym, ◌∙◌, ◌⊎◌, inl, inr, true, false, some, nat_eq, ◌==◌, arith,
  Bool-cases,
}
use mathlib.Core.Option
use tfa_project.Tbaa.{MdStore}
use tfa_project.Alias.{AliasContext, IsWellFormed, Aliased, should_merge_by_tbaa}
use tfa_project.Alias.Graph.{inherit_tag, merge_open, merge_node}
use tfa_project.Alias.Graph.Absorb.{absorb-node_map}
use tfa_project.Alias.Graph.Merge.{merge_rest-Keeps, merge_node-Keeps, inherit_tag-Keeps}

-- A blocked merge leaves everything but the statistics alone.
abbrev pub Blocked : AliasContext → AliasContext
Blocked c = record c { num_tbaa_blocked_merges = c.num_tbaa_blocked_merges + 1 }

inherit_tag-node_map :
    (n1 n2 : ℕ) (c : AliasContext) (v : ℕ) → (inherit_tag n1 n2 c).node_map v ≡ c.node_map v
unfolding inherit_tag
inherit_tag-node_map n1 n2 c v = ground arith

module _ (md : MdStore) where
  merge_open_unifies :
      (fuel n1 n2 : ℕ) (c d : AliasContext) (v u : ℕ)
      → IsWellFormed c
      → n2 < c.next
      → merge_open (merge_node md fuel) n1 n2 c ≡ some d
      → c.node_map v ≡ some n1
      → c.node_map u ≡ some n2
      → Aliased d v u
  unfolding merge_open
  merge_open_unifies fuel n1 n2 c d v u w known h at_v at_u = elim (Bool-cases (n1 == n2)) [
    | inl same ↦
        let e : n1 ≡ n2 = ground arith in
        let stays : c ≡ d = Option.some-injective c d (rw (same, merge_open) at h) in
        rw (← stays) (n2, rw (← e) at_v, at_u)
    | inr differ ↦
        let apart : n1 ≢ n2 = ground arith in
        let map_at = absorb-node_map n1 n2 c apart w known in
        let k =
          merge_rest-Keeps (merge_node md fuel) (merge_node-Keeps md fuel) n1 n2 c d w known apart
            h in
        (
          k.renames.rename n2,
          k.renames.renamed v n2 (ground (arith, map_at v, w.map_iff v n1)),
          k.renames.renamed u n2 (ground (arith, map_at u, w.map_iff u n2)),
        )
  ]

  -- When a merge of a well-formed context, into an allocated node, returns: either TBAA had
  -- separated the two nodes and nothing has changed but the counter, or TBAA had not and every
  -- value of the first node shares a node with every value of the second.
  pub merge_node_unifies :
      (fuel n1 n2 : ℕ) (c d : AliasContext)
      → IsWellFormed c
      → n2 < c.next
      → merge_node md fuel n1 n2 c ≡ some d
      → (should_merge_by_tbaa md c (some n1) (some n2) ≡ false) × (d ≡ Blocked c)
        ⊎ (should_merge_by_tbaa md c (some n1) (some n2) ≡ true)
          × ((v u : ℕ) → c.node_map v ≡ some n1 → c.node_map u ≡ some n2 → Aliased d v u)
  unfolding merge_node
  merge_node_unifies zero n1 n2 c d w known h = cc
  merge_node_unifies (suc fuel) n1 n2 c d w known h =
      elim (Bool-cases (should_merge_by_tbaa md c (some n1) (some n2))) [
        | inr blocked ↦
            inl (blocked, sym (Option.some-injective (Blocked c) d (rw (blocked, merge_node) at h)))
        | inl passed ↦
            let k = inherit_tag-Keeps n1 n2 c w in
            inr (
              passed,
              λ v u at_v at_u.
                  merge_open_unifies fuel n1 n2 (inherit_tag n1 n2 c) d v u k.well_formed
                    (omega (arith, k.next_same)) (rw (passed, merge_node) at h)
                    (inherit_tag-node_map n1 n2 c v ∙ at_v) (inherit_tag-node_map n1 n2 c u ∙ at_u),
            )
      ]
