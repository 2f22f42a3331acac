-- ===== src/Alias/Graph/Merge.antt =====
-- `mergeNode` keeps the partition of the values, and never separates values: whatever the edges
-- are, and also where TBAA blocks a merge further down.
use tfa_project.Common.{
  ℕ, zero, suc, ◌<◌, ◌≡◌, ◌≢◌, refl, inl, inr, Option, none, some, nat_eq, ◌==◌, arith, Bool-cases,
  false, Option-cases,
}
use mathlib.Core.Option
use tfa_project.Tbaa.{MdStore}
use tfa_project.Alias.{AliasContext, IsWellFormed, should_merge_by_tbaa, set_edge}
use tfa_project.Alias.Graph.{
  drop_to, drop_from, cut_to, cut_from, inherit_tag, absorb, merge_to, merge_from, merge_open,
  merge_node,
}
use tfa_project.Alias.Graph.Keeps.{
  Keeps, Keeps-refl, Keeps-eq, Keeps-trans, Keeps-edges, drop_to-Keeps, drop_from-Keeps,
  cut_to-Keeps, cut_from-Keeps, set_edge-Keeps,
}
use tfa_project.Alias.Graph.Absorb.{absorb-Keeps}

-- The recursive call of a merge, as far as this file needs it.
abbrev pub Recursive : (ℕ → ℕ → AliasContext → Option AliasContext) → Type 0
Recursive merge =
    (a b : ℕ) (c d : AliasContext) → IsWellFormed c → b < c.next → merge a b c ≡ some d → Keeps c d

-- One step that keeps, the recursive merge, and one edge.
edge_after :
    (c mid d e : AliasContext) (n2 n1 : ℕ)
    → Keeps c mid
    → Keeps mid d
    → n1 < c.next
    → n2 < c.next
    → set_edge n2 n1 d ≡ e
    → Keeps c e
edge_after c mid d e n2 n1 k l h1 h2 same =
    let both = Keeps-trans k l in
    rw (← same) (
      Keeps-trans both (
        set_edge-Keeps n2 n1 d l.well_formed (omega (arith, both.next_same))
          (omega (arith, both.next_same))))

map-some-inv :
    (o : Option AliasContext) (f : AliasContext → AliasContext) (d : AliasContext)
    → Option.map f o ≡ some d
    → (a : AliasContext) × (o ≡ some a) × (f a ≡ d)
map-some-inv none f d h = cc
map-some-inv (some a) f d h = (a, refl, Option.some-injective (f a) d h)

module _ (merge : ℕ → ℕ → AliasContext → Option AliasContext) (ih : Recursive merge) where
  pub merge_to-Keeps :
      (n1 n2 : ℕ) (c d : AliasContext)
      → IsWellFormed c
      → n2 < c.next
      → merge_to merge n1 n2 c ≡ some d
      → Keeps c d
  unfolding merge_to
  merge_to-Keeps n1 n2 c d w known h = elim (Option-cases (c.to_node_map n1)) [
    | inl no_t1 ↦ Keeps-eq c d w (Option.some-injective c d (rw (no_t1, merge_to) at h))
    | inr (t1, e1) ↦ elim (Option-cases (c.to_node_map n2)) [
      | inl no_t2 ↦
          let k = drop_to-Keeps c w n1 in
          edge_after c (drop_to n1 c) (drop_to n1 c) d n2 t1 k (Keeps-refl _ k.well_formed)
            (w.to_lt n1 t1 e1).1 known (Option.some-injective _ d (rw (e1, no_t2, merge_to) at h))
      | inr (t2, e2) ↦ elim (Bool-cases (t1 == t2)) [
        | inl same ↦ Keeps-eq c d w (Option.some-injective c d (rw (e1, e2, same, merge_to) at h))
        | inr differ ↦
            let (a, ran, edge) =
              map-some-inv _ (set_edge n2 t2) d (rw (e1, e2, differ, merge_to) at h) in
            let k = cut_to-Keeps c w n1 n2 t1 t2 in
            let t2_lt = (w.to_lt n2 t2 e2).1 in
            edge_after c (cut_to n1 n2 t1 t2 c) a d n2 t2 k
              (ih t1 t2 (cut_to n1 n2 t1 t2 c) a k.well_formed (omega (arith, k.next_same)) ran)
              t2_lt known edge
      ]
    ]
  ]

  pub merge_from-Keeps :
      (n1 n2 : ℕ) (c d : AliasContext)
      → IsWellFormed c
      → n2 < c.next
      → merge_from merge n1 n2 c ≡ some d
      → Keeps c d
  unfolding merge_from
  merge_from-Keeps n1 n2 c d w known h = elim (Option-cases (c.from_node_map n1)) [
    | inl no_f1 ↦ Keeps-eq c d w (Option.some-injective c d (rw (no_f1, merge_from) at h))
    | inr (f1, e1) ↦ elim (Option-cases (c.from_node_map n2)) [
      | inl no_f2 ↦
          let k = drop_from-Keeps c w n1 in
          edge_after c (drop_from n1 c) (drop_from n1 c) d f1 n2 k (Keeps-refl _ k.well_formed)
            known (w.from_lt n1 f1 e1).1
            (Option.some-injective _ d (rw (e1, no_f2, merge_from) at h))
      | inr (f2, e2) ↦ elim (Bool-cases (f1 == f2)) [
        | inl same ↦ Keeps-eq c d w (Option.some-injective c d (rw (e1, e2, same, merge_from) at h))
        | inr differ ↦
            let (a, ran, edge) =
              map-some-inv _ (set_edge f2 n2) d (rw (e1, e2, differ, merge_from) at h) in
            let k = cut_from-Keeps c w n1 n2 f1 f2 in
            let f2_lt = (w.from_lt n2 f2 e2).1 in
            edge_after c (cut_from n1 n2 f1 f2 c) a d f2 n2 k
              (ih f1 f2 (cut_from n1 n2 f1 f2 c) a k.well_formed (omega (arith, k.next_same)) ran)
              known f2_lt edge
      ]
    ]
  ]

  -- What follows the move of the values.
  pub merge_rest-Keeps :
      (n1 n2 : ℕ) (c d : AliasContext)
      → IsWellFormed c
      → n2 < c.next
      → n1 ≢ n2
      → merge_open merge n1 n2 c ≡ some d
      → Keeps (absorb n1 n2 c) d
  unfolding merge_open
  merge_rest-Keeps n1 n2 c d w known apart h =
      let differ : (n1 == n2) ≡ false = ground arith in
      let k = absorb-Keeps n1 n2 c apart w known in
      elim (Option-cases (merge_to merge n1 n2 (absorb n1 n2 c))) [
        | inl nothing ↦ cc (rw (differ, nothing, merge_open) at h)
        | inr (a, ran) ↦
            let l =
              merge_to-Keeps n1 n2 (absorb n1 n2 c) a k.well_formed (omega (arith, k.next_same))
                ran in
            Keeps-trans l (
              merge_from-Keeps n1 n2 a d l.well_formed (omega (arith, k.next_same, l.next_same))
                (rw (differ, ran, merge_open) at h))
      ]

  -- Behind the gate: the values of `n1` end in the node of those of `n2`.
  merge_open-Keeps :
      (n1 n2 : ℕ) (c d : AliasContext)
      → IsWellFormed c
      → n2 < c.next
      → merge_open merge n1 n2 c ≡ some d
      → Keeps c d
  unfolding merge_open
  merge_open-Keeps n1 n2 c d w known h = elim (Bool-cases (n1 == n2)) [
    | inl same ↦ Keeps-eq c d w (Option.some-injective c d (rw (same, merge_open) at h))
    | inr differ ↦
        let apart : n1 ≢ n2 = ground arith in
        Keeps-trans (absorb-Keeps n1 n2 c apart w known)
          (merge_rest-Keeps n1 n2 c d w known apart h)
  ]

pub inherit_tag-Keeps :
    (n1 n2 : ℕ) (c : AliasContext) → IsWellFormed c → Keeps c (inherit_tag n1 n2 c)
unfolding inherit_tag
inherit_tag-Keeps n1 n2 c w = elim (Option-cases (c.tbaa_tag n2)) [
  | inr (t, e) ↦ rw (e, inherit_tag) (Keeps-refl c w)
  | inl e ↦ elim (Option-cases (c.tbaa_tag n1)) [
    | inl e' ↦ rw (e, e', inherit_tag) (Keeps-refl c w)
    | inr (t, e') ↦ rw (e, e', inherit_tag) (Keeps-edges c _ w refl refl refl w.to_lt w.from_lt)
  ]
]

module _ (md : MdStore) where
  -- When a merge of a well-formed context, into an allocated node, returns, the context is well
  -- formed, every value still has a node, and values that had one node before have one node after:
  -- merging only ever joins alias classes.
  pub merge_node-Keeps :
      (fuel n1 n2 : ℕ) (c d : AliasContext)
      → IsWellFormed c
      → n2 < c.next
      → merge_node md fuel n1 n2 c ≡ some d
      → Keeps c d
  unfolding merge_node
  merge_node-Keeps zero n1 n2 c d w known h = cc
  merge_node-Keeps (suc fuel) n1 n2 c d w known h =
      elim (Bool-cases (should_merge_by_tbaa md c (some n1) (some n2))) [
        | inr blocked ↦
            rw (← Option.some-injective _ d (rw (blocked, merge_node) at h))
              (Keeps-edges c _ w refl refl refl w.to_lt w.from_lt)
        | inl open_gate ↦
            let k = inherit_tag-Keeps n1 n2 c w in
            Keeps-trans k (
              merge_open-Keeps (merge_node md fuel) (λ a b. merge_node-Keeps fuel a b) n1 n2
                (inherit_tag n1 n2 c) d k.well_formed (omega (arith, k.next_same))
                (rw (open_gate, merge_node) at h))
      ]
