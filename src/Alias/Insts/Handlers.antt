-- ===== src/Alias/Insts/Handlers.antt =====
-- The handlers of InstHandler.cc return and extend the context: they keep the invariant, drop no
-- value, and never separate values that have one node.
use tfa_project.Common.{
  refl, ℕ, suc, ◌<◌, inl, inr, Bool, true, false, Option, none, some, nat_eq, list_eq, ◌==◌, arith,
  Bool-cases, Option-cases, not, ◌&&◌,
}
use tfa_project.Tbaa.{MdStore, may_alias_by_tbaa}
use tfa_project.Alias.{AliasContext, IsWellFormed, get_node, get_or_new_node, tag_if_unset}
use tfa_project.Alias.Graph.{check_node_connectivity}
use tfa_project.Alias.Graph.Keeps.{set_edge-Keeps}
use tfa_project.Alias.Graph.Edges.{count_le}
use tfa_project.Alias.Graph.Totality.{merge_node-Returns}
use tfa_project.Alias.Graph.Merge.{merge_node-Keeps}
use tfa_project.Alias.Insts.{
  Program, merge, move_nodes, handle_move, link_nodes, tag_both, handle_load, tag_func_node,
  tag_store, store_nodes, handle_store_inst, handle_store, is_constant_data, is_function,
}
use tfa_project.Alias.Insts.Nodes.{
  Extends, Extends-trans, Extends-refl, Extends-of_Keeps, get_or_new_node-HasNode, known_lt,
  join_node-Extends, retagged, tag_if_unset-Extends,
}
use tfa_project.Alias.Insts.Total.{Total, Total-some, Total-here, Total-after, Total-if}

module _ (md : MdStore) where
  -- In a well-formed context, a merge of two allocated nodes returns with the fuel given to it, and
  -- the result is well formed, has no node fewer, keeps every value in a node and separates no
  -- values.
  pub merge-Total :
      (n1 n2 : ℕ) (c : AliasContext)
      → IsWellFormed c
      → n1 < c.next
      → n2 < c.next
      → Total c (merge md n1 n2 c)
  unfolding merge
  merge-Total n1 n2 c w h1 h2 =
      let (d, ran, _) =
        merge_node-Returns md c.next (suc c.next) n1 n2 c w refl h1 h2
          (omega (arith, count_le c.next c)) in
      (d, ran, Extends-of_Keeps (merge_node-Keeps md (suc c.next) n1 n2 c d w h2 ran))

  move_nodes-Total :
      (n1 n2 : ℕ) (c : AliasContext)
      → IsWellFormed c
      → n1 < c.next
      → n2 < c.next
      → Total c (move_nodes md n1 n2 c)
  unfolding move_nodes
  move_nodes-Total n1 n2 c w h1 h2 = Total-if c (n1 == n2) _ _ (Total-here c w) (
      Total-if c (check_node_connectivity (some n1) (some n2) c) _ _ (Total-here c w)
        (merge-Total n1 n2 c w h1 h2))

  -- In a well-formed context, v1 = v2 returns and extends the context.
  pub handle_move-Total :
      (v1 v2 : ℕ) (c : AliasContext) → IsWellFormed c → Total c (handle_move md v1 v2 c)
  unfolding handle_move get_node
  handle_move-Total v1 v2 c w =
      let node = get_or_new_node-HasNode v2 c w in
      let n = (get_or_new_node v2 c).0 in
      let c2 = (get_or_new_node v2 c).1 in
      let w2 = node.extends.well_formed in
      let lt = known_lt c2 w2 v2 n node.at_node in
      elim (Option-cases (c2.node_map v1)) [
        | inl unknown ↦
            rw (unknown, handle_move)
              (Total-some c _
                (Extends-trans node.extends (join_node-Extends c2 w2 v1 n unknown lt)))
        | inr (n1, known) ↦
            rw (known, handle_move)
              (Total-after c c2 _ node.extends
                (move_nodes-Total n1 n c2 w2 (known_lt c2 w2 v1 n1 known) lt))
      ]

  link_nodes-Total :
      (n1 n2 : ℕ) (c : AliasContext)
      → IsWellFormed c
      → n1 < c.next
      → n2 < c.next
      → Total c (link_nodes md n1 n2 c)
  unfolding link_nodes
  link_nodes-Total n1 n2 c w h1 h2 = elim (Option-cases (c.to_node_map n2)) [
    | inr (t, e) ↦ rw (e, link_nodes) (merge-Total n1 t c w h1 (w.to_lt n2 t e).1)
    | inl e ↦ elim (Option-cases (c.from_node_map n1)) [
      | inr (f, e') ↦ rw (e, e', link_nodes) (merge-Total f n2 c w (w.from_lt n1 f e').1 h2)
      | inl e' ↦
          rw (e, e', link_nodes)
            (Total-some c _ (Extends-of_Keeps (set_edge-Keeps n2 n1 c w h1 h2)))
    ]
  ]

  tag_both-Extends :
      (n1 n2 : ℕ) (tag : Option ℕ) (c : AliasContext)
      → IsWellFormed c
      → Extends c (tag_both md n1 n2 tag c)
  unfolding tag_both
  tag_both-Extends n1 n2 none c w = Extends-refl c w
  tag_both-Extends n1 n2 (some tag) c w =
      let x = tag_if_unset-Extends n2 tag c w in
      Extends-trans x (tag_if_unset-Extends n1 tag _ x.well_formed)

  tag_func_node-Extends :
      (n tag : ℕ) (c : AliasContext) → IsWellFormed c → Extends c (tag_func_node md n tag c)
  unfolding tag_func_node
  tag_func_node-Extends n tag c w = elim (Option-cases (c.tbaa_tag n)) [
    | inl e ↦ rw (e, tag_func_node) (retagged c _ w)
    | inr (old, e) ↦
        elim (Bool-cases (not (old == tag) && not (may_alias_by_tbaa md (some old) (some tag)))) [
          | inl clash ↦ rw (e, clash, tag_func_node) (retagged c _ w)
          | inr fine ↦ rw (e, fine, tag_func_node) (Extends-refl c w)
        ]
  ]

  tag_store-Extends :
      (is_func : Bool) (vop n2 : ℕ) (tag : Option ℕ) (c : AliasContext)
      → IsWellFormed c
      → Extends c (tag_store md is_func vop n2 tag c)
  unfolding tag_store
  tag_store-Extends is_func vop n2 none c w = Extends-refl c w
  tag_store-Extends false vop n2 (some tag) c w = tag_if_unset-Extends n2 tag c w
  tag_store-Extends true vop n2 (some tag) c w =
      let x = tag_if_unset-Extends n2 tag c w in
      let node = get_or_new_node-HasNode vop (tag_if_unset n2 tag c) x.well_formed in
      Extends-trans (Extends-trans x node.extends)
        (tag_func_node-Extends _ tag _ node.extends.well_formed)

  -- Two values get their nodes, the tags change, and a step on the two nodes follows.
  two_nodes-Total :
      (v1 v2 : ℕ) (c : AliasContext)
      → IsWellFormed c
      → (retag : AliasContext → AliasContext)
      → ((d : AliasContext) → IsWellFormed d → Extends d (retag d))
      → (step : ℕ → ℕ → AliasContext → Option AliasContext)
      → ((n1 n2 : ℕ) (d : AliasContext)
          → IsWellFormed d
          → n1 < d.next
          → n2 < d.next
          → Total d (step n1 n2 d))
      → Total c (
          step
            (get_or_new_node v1 c).0
            (get_or_new_node v2 (get_or_new_node v1 c).1).0
            (retag (get_or_new_node v2 (get_or_new_node v1 c).1).1))
  two_nodes-Total v1 v2 c w retag keeps step safe =
      let node1 = get_or_new_node-HasNode v1 c w in
      let c1 = (get_or_new_node v1 c).1 in
      let w1 = node1.extends.well_formed in
      let node2 = get_or_new_node-HasNode v2 c1 w1 in
      let c2 = (get_or_new_node v2 c1).1 in
      let w2 = node2.extends.well_formed in
      let tags = keeps c2 w2 in
      let lt1 = known_lt c1 w1 v1 _ node1.at_node in
      let lt2 = known_lt c2 w2 v2 _ node2.at_node in
      Total-after c (retag c2) _ (Extends-trans (Extends-trans node1.extends node2.extends) tags) (
        safe _ _ (retag c2) tags.well_formed
          (omega (arith, lt1, node2.extends.next_le, tags.next_le))
          (omega (arith, lt2, tags.next_le)))

  pub handle_load-Total :
      (li op : ℕ) (tag : Option ℕ) (c : AliasContext)
      → IsWellFormed c
      → Total c (handle_load md li op tag c)
  unfolding handle_load
  handle_load-Total li op tag c w =
      let n1 = (get_or_new_node li c).0 in
      let n2 = (get_or_new_node op (get_or_new_node li c).1).0 in
      two_nodes-Total li op c w (tag_both md n1 n2 tag) (tag_both-Extends n1 n2 tag) (link_nodes md)
        link_nodes-Total

  store_nodes-Total :
      (n1 n2 : ℕ) (c : AliasContext)
      → IsWellFormed c
      → n1 < c.next
      → n2 < c.next
      → Total c (store_nodes md n1 n2 c)
  unfolding store_nodes
  store_nodes-Total n1 n2 c w h1 h2 =
      Total-if c (check_node_connectivity (some n1) (some n2) c) _ _ (Total-here c w)
        (link_nodes-Total n1 n2 c w h1 h2)

  module _ (prog : Program) where
    pub handle_store_inst-Total :
        (vop pop : ℕ) (tag : Option ℕ) (c : AliasContext)
        → IsWellFormed c
        → Total c (handle_store_inst md prog vop pop tag c)
    unfolding handle_store_inst
    handle_store_inst-Total vop pop tag c w =
        let n2 = (get_or_new_node pop (get_or_new_node vop c).1).0 in
        let is_func = is_function (prog.kind vop) in
        Total-if c (is_constant_data (prog.kind vop)) _ _ (Total-here c w) (
          two_nodes-Total vop pop c w (tag_store md is_func vop n2 tag)
            (tag_store-Extends is_func vop n2 tag) (store_nodes md) store_nodes-Total)

    pub handle_store-Total :
        (vop pop : ℕ) (c : AliasContext) → IsWellFormed c → Total c (handle_store md prog vop pop c)
    unfolding handle_store
    handle_store-Total vop pop c w =
        Total-if c (is_constant_data (prog.kind vop)) _ _ (Total-here c w)
          (two_nodes-Total vop pop c w (λ d. d) Extends-refl (store_nodes md) store_nodes-Total)
