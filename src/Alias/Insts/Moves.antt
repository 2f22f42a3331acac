-- ===== src/Alias/Insts/Moves.antt =====
-- What `HandleMove` of InstHandler.cc achieves: v1 = v2 puts both values into one node, unless their
-- nodes are in one cluster already or TBAA separates them.
use tfa_project.Common.{
  ℕ, suc, ◌≡◌, ◌⊎◌, inl, inr, false, some, nat_eq, sym, ◌==◌, arith, Bool-cases, Option-cases,
}
use mathlib.Core.Option
use tfa_project.Tbaa.{MdStore}
use tfa_project.Alias.{
  AliasContext, IsWellFormed, Aliased, should_merge_by_tbaa, get_node, get_or_new_node, join_node,
}
use tfa_project.Alias.Graph.{check_node_connectivity}
use tfa_project.Alias.Graph.Search.{Connected, check_node_connectivity_iff}
use tfa_project.Alias.Graph.Unify.{Blocked, merge_node_unifies}
use tfa_project.Alias.Insts.{merge, move_nodes, handle_move}
use tfa_project.Alias.Insts.Nodes.{Extends, get_or_new_node-HasNode, known_lt}
use tfa_project.Alias.Insts.Handlers.{handle_move-Total}

-- Two values in two nodes of `c`, and the context `d` that a move makes of it: it stays as it is when
-- the nodes are in one cluster, and only the counter moves when TBAA separates them.
abbrev pub KeptApart : MdStore → AliasContext → AliasContext → ℕ → ℕ → Type 0
KeptApart md c d v1 v2 =
    (n1 : ℕ) × (n2 : ℕ) × (c.node_map v1 ≡ some n1)
    × (c.node_map v2 ≡ some n2)
    × (Connected c n1 n2 × (d ≡ c)
        ⊎ (should_merge_by_tbaa md c (some n1) (some n2) ≡ false) × (d ≡ Blocked c))

module _ (md : MdStore) where
  move_nodes_lem :
      (v1 v2 n1 n2 : ℕ) (c d : AliasContext)
      → IsWellFormed c
      → c.node_map v1 ≡ some n1
      → c.node_map v2 ≡ some n2
      → move_nodes md n1 n2 c ≡ some d
      → Aliased d v1 v2 ⊎ KeptApart md c d v1 v2
  unfolding move_nodes merge
  move_nodes_lem v1 v2 n1 n2 c d w e1 e2 h = elim (Bool-cases (n1 == n2)) [
    | inl same ↦
        let e : n1 ≡ n2 = ground arith in
        let stays : c ≡ d = Option.some-injective c d (rw (same, move_nodes) at h) in
        inl (rw (← stays) (n2, rw (← e) e1, e2))
    | inr differ ↦ elim (Bool-cases (check_node_connectivity (some n1) (some n2) c)) [
      | inl yes_there ↦
          let stays = Option.some-injective c d (rw (differ, yes_there, move_nodes) at h) in
          inr (n1, n2, e1, e2, inl ((check_node_connectivity_iff c w n1 n2).0 yes_there, sym stays))
      | inr apart ↦
          elim (merge_node_unifies md (suc c.next) n1 n2 c d w (known_lt c w v2 n2 e2)
            (rw (differ, apart, move_nodes) at h)) [
              | inl blocked ↦ inr (n1, n2, e1, e2, inr blocked)
              | inr (_, joins) ↦ inl (joins v1 v2 e1 e2)
            ]
    ]
  ]

  handle_move-result :
      (v1 v2 : ℕ) (c d : AliasContext)
      → IsWellFormed c
      → handle_move md v1 v2 c ≡ some d
      → Aliased d v1 v2 ⊎ KeptApart md (get_or_new_node v2 c).1 d v1 v2
  unfolding handle_move get_node join_node
  handle_move-result v1 v2 c d w h =
      let node = get_or_new_node-HasNode v2 c w in
      let n = (get_or_new_node v2 c).0 in
      let c2 = (get_or_new_node v2 c).1 in
      let w2 = node.extends.well_formed in
      elim (Option-cases (c2.node_map v1)) [
        | inl unknown ↦
            let stays =
              Option.some-injective (join_node v1 n c2) d (rw (unknown, handle_move) at h) in
            let at2 = node.at_node in inl (rw (← stays) (n, ground arith, ground arith))
        | inr (n1, known) ↦
            move_nodes_lem v1 v2 n1 n c2 d w2 known node.at_node (rw (known, handle_move) at h)
      ]

  -- In a well-formed context, v1 = v2 returns a context that extends it. There the two values share a
  -- node, or both had a node once v2 was in the graph, and either entries of `ToNodeMap` and
  -- `FromNodeMap` lead from the one to the other and nothing else has changed, or TBAA separates
  -- them and only the counter has changed.
  pub handle_move_lem :
      (v1 v2 : ℕ) (c : AliasContext)
      → IsWellFormed c
      → (d : AliasContext) × (handle_move md v1 v2 c ≡ some d)
        × Extends c d
        × (Aliased d v1 v2 ⊎ KeptApart md (get_or_new_node v2 c).1 d v1 v2)
  handle_move_lem v1 v2 c w =
      let (d, ran, ext) = handle_move-Total md v1 v2 c w in
      (d, ran, ext, handle_move-result v1 v2 c d w ran)
