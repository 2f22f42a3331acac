-- ===== src/Alias/Graph/Totality.antt =====
-- `mergeNode` always returns: every recursive call is made with two edges fewer, so a merge makes
-- at most as many calls inside one another as the graph has nodes.
use tfa_project.Common.{
  ℕ, zero, suc, ◌+◌, ◌*◌, ◌≤◌, ◌<◌, ◌≡◌, ◌≢◌, refl, inl, inr, Option, some, nat_eq, ◌==◌, arith,
  Bool-cases, Option-cases,
}
use tfa_project.Tbaa.{MdStore}
use tfa_project.Alias.{AliasContext, IsWellFormed, should_merge_by_tbaa, set_edge}
use tfa_project.Alias.Graph.{
  cut_to, cut_from, inherit_tag, absorb, merge_to, merge_from, merge_open, merge_node,
}
use tfa_project.Alias.Graph.Edges.{
  count, set_edge-count, drop_to-count, drop_from-count, cut_to-count, cut_from-count,
}
use tfa_project.Alias.Graph.Keeps.{cut_to-Keeps, cut_from-Keeps}
use tfa_project.Alias.Graph.Absorb.{absorb-Keeps, absorb-edges}
use tfa_project.Alias.Graph.Merge.{Recursive, merge_to-Keeps, inherit_tag-Keeps, merge_node-Keeps}

-- A step returns, and the graph has no more edges among its first n nodes than before.
abbrev pub Returns : ℕ → AliasContext → Option AliasContext → Type 0
Returns n c o = (d : AliasContext) × (o ≡ some d) × (count n d ≤ count n c)

-- A recursive call returns as long as the graph has fewer than k edges.
abbrev RecursiveReturns : ℕ → ℕ → (ℕ → ℕ → AliasContext → Option AliasContext) → Type 0
RecursiveReturns n k merge =
    (a b : ℕ) (c : AliasContext)
    → IsWellFormed c
    → c.next ≡ n
    → a < n
    → b < n
    → count n c < k
    → Returns n c (merge a b c)

absorb-count :
    (n n1 n2 : ℕ) (c : AliasContext)
    → n1 ≢ n2
    → IsWellFormed c
    → n2 < c.next
    → count n (absorb n1 n2 c) ≡ count n c
absorb-count n n1 n2 c apart w known =
    let (to_same, from_same) = absorb-edges n1 n2 c apart w known in rw (to_same, from_same) refl

module _ (n k : ℕ) (merge : ℕ → ℕ → AliasContext → Option AliasContext)
    (ret : RecursiveReturns n k merge) where
  module _ (n1 n2 : ℕ) (apart : n1 ≢ n2) (h1 : n1 < n) (h2 : n2 < n) (c : AliasContext)
      (w : IsWellFormed c) (size : c.next ≡ n) (few : count n c < k + 2) where
    merge_to-Returns : Returns n c (merge_to merge n1 n2 c)
    unfolding merge_to
    merge_to-Returns = elim (Option-cases (c.to_node_map n1)) [
      | inl no_t1 ↦ rw (no_t1, merge_to) (c, refl, omega arith)
      | inr (t1, e1) ↦ elim (Option-cases (c.to_node_map n2)) [
        | inl no_t2 ↦
            rw (e1, no_t2, merge_to)
              (
                _,
                refl,
                drop_to-count n c n1 n2 t1 h1 h2 (omega (arith, size, w.to_lt n1 t1 e1)) apart e1,
              )
        | inr (t2, e2) ↦ elim (Bool-cases (t1 == t2)) [
          | inl same ↦ rw (e1, e2, same, merge_to) (c, refl, omega arith)
          | inr differ ↦
              let k1 : t1 < n = omega (arith, size, w.to_lt n1 t1 e1) in
              let k2 : t2 < n = omega (arith, size, w.to_lt n2 t2 e2) in
              let less = cut_to-count n c n1 n2 t1 t2 h1 h2 k1 k2 apart e1 e2 in
              let keeps = cut_to-Keeps c w n1 n2 t1 t2 in
              let (a, ran, le) =
                ret t1 t2 (cut_to n1 n2 t1 t2 c) keeps.well_formed
                  (omega (arith, keeps.next_same, size)) k1 k2 (omega (arith, less, few)) in
              rw (e1, e2, differ, ran, merge_to)
                (set_edge n2 t2 a, refl, omega (arith, less, le, set_edge-count n a n2 t2 k2 h2))
        ]
      ]
    ]

    merge_from-Returns : Returns n c (merge_from merge n1 n2 c)
    unfolding merge_from
    merge_from-Returns = elim (Option-cases (c.from_node_map n1)) [
      | inl no_f1 ↦ rw (no_f1, merge_from) (c, refl, omega arith)
      | inr (f1, e1) ↦ elim (Option-cases (c.from_node_map n2)) [
        | inl no_f2 ↦
            rw (e1, no_f2, merge_from)
              (
                _,
                refl,
                drop_from-count n c n1 n2 f1 h1 h2 (omega (arith, size, w.from_lt n1 f1 e1)) apart
                    e1,
              )
        | inr (f2, e2) ↦ elim (Bool-cases (f1 == f2)) [
          | inl same ↦ rw (e1, e2, same, merge_from) (c, refl, omega arith)
          | inr differ ↦
              let k1 : f1 < n = omega (arith, size, w.from_lt n1 f1 e1) in
              let k2 : f2 < n = omega (arith, size, w.from_lt n2 f2 e2) in
              let less = cut_from-count n c n1 n2 f1 f2 h1 h2 k1 k2 apart e1 e2 in
              let keeps = cut_from-Keeps c w n1 n2 f1 f2 in
              let (a, ran, le) =
                ret f1 f2 (cut_from n1 n2 f1 f2 c) keeps.well_formed
                  (omega (arith, keeps.next_same, size)) k1 k2 (omega (arith, less, few)) in
              rw (e1, e2, differ, ran, merge_from)
                (set_edge f2 n2 a, refl, omega (arith, less, le, set_edge-count n a f2 n2 h2 k2))
        ]
      ]
    ]

  merge_open-Returns :
      (ih : Recursive merge) (n1 n2 : ℕ) (c : AliasContext)
      → IsWellFormed c
      → c.next ≡ n
      → n1 < n
      → n2 < n
      → count n c < k + 2
      → Returns n c (merge_open merge n1 n2 c)
  unfolding merge_open
  merge_open-Returns ih n1 n2 c w size h1 h2 few = elim (Bool-cases (n1 == n2)) [
    | inl same ↦ rw (same, merge_open) (c, refl, omega arith)
    | inr differ ↦
        let apart : n1 ≢ n2 = ground arith in
        let known : n2 < c.next = omega (arith, size) in
        let moved = absorb-Keeps n1 n2 c apart w known in
        let same = absorb-count n n1 n2 c apart w known in
        let (a, ran, le) =
          merge_to-Returns n1 n2 apart h1 h2 (absorb n1 n2 c) moved.well_formed
            (omega (arith, moved.next_same, size)) (omega (arith, same, few)) in
        let l =
          merge_to-Keeps merge ih n1 n2 (absorb n1 n2 c) a moved.well_formed
            (omega (arith, moved.next_same, size)) ran in
        let (d, ran', le') =
          merge_from-Returns n1 n2 apart h1 h2 a l.well_formed
            (omega (arith, l.next_same, moved.next_same, size)) (omega (arith, same, few, le)) in
        rw (differ, ran, merge_open) (d, ran', omega (arith, same, le, le'))
  ]

inherit_tag-count : (n n1 n2 : ℕ) (c : AliasContext) → count n (inherit_tag n1 n2 c) ≡ count n c
unfolding inherit_tag
inherit_tag-count n n1 n2 c = elim (Option-cases (c.tbaa_tag n2)) [
  | inr (t, e) ↦ rw (e, inherit_tag) refl
  | inl e ↦ elim (Option-cases (c.tbaa_tag n1)) [
    | inl e' ↦ rw (e, e', inherit_tag) refl
    | inr (t, e') ↦ rw (e, e', inherit_tag) refl
  ]
]

module _ (md : MdStore) (n : ℕ) where
  -- In a well-formed context with n nodes, a merge of two allocated nodes returns when twice the
  -- fuel is more than the number of points-to edges, and leaves no more of them than there were.
  pub merge_node-Returns :
      (fuel n1 n2 : ℕ) (c : AliasContext)
      → IsWellFormed c
      → c.next ≡ n
      → n1 < n
      → n2 < n
      → count n c < 2 * fuel
      → Returns n c (merge_node md fuel n1 n2 c)
  unfolding merge_node
  merge_node-Returns zero n1 n2 c w size h1 h2 few = ground (arith, few)
  merge_node-Returns (suc fuel) n1 n2 c w size h1 h2 few =
      elim (Bool-cases (should_merge_by_tbaa md c (some n1) (some n2))) [
        | inr blocked ↦ rw (blocked, merge_node) (_, refl, omega arith)
        | inl open_gate ↦
            let k = inherit_tag-Keeps n1 n2 c w in
            let same = inherit_tag-count n n1 n2 c in
            let (d, ran, le) =
              merge_open-Returns n (2 * fuel) (merge_node md fuel)
                (λ a b x. merge_node-Returns fuel a b x) (λ a b. merge_node-Keeps md fuel a b) n1 n2
                (inherit_tag n1 n2 c) k.well_formed (omega (arith, k.next_same, size)) h1 h2
                (omega (arith, same, few)) in
            rw (open_gate, merge_node) (d, ran, omega (arith, same, le))
      ]
