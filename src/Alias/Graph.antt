-- ===== src/Alias/Graph.antt =====
-- src/lib/AliasAnalysis/AliasAnalysisTools.cc and the cluster search of InterAliasAnalysis.cc: the
-- merge of two nodes, and the searches along the edges.
pub mod Absorb
pub mod Keeps
pub mod Edges
pub mod Merge
pub mod Search
pub mod Totality
pub mod Unify
pub mod Cluster
use tfa_project.Common.{
  ℕ, zero, suc, ◌+◌, Bool, true, false, Option, none, some, List, [], ◌∷◌, ◌++◌, mem, insert, union,
  update, nat_eq, ◌==◌, ltb, if◌then◌else◌,
}
use mathlib.Core.Option
use tfa_project.Tbaa.{MdStore}
use tfa_project.Worklist.{Step, go, stop, Outcome, finished, stopped, out_of_fuel, run, enough}
use tfa_project.Alias.{AliasContext, should_merge_by_tbaa, join_node, set_edge, get_node}

-- "If n2 has no TBAA tag but n1 does, let n2 inherit it."
unfoldable pub inherit_tag : ℕ → ℕ → AliasContext → AliasContext
inherit_tag n1 n2 c = elim (c.tbaa_tag n2) [
  | some tag ↦ c
  | none ↦ elim (c.tbaa_tag n1) [
    | none ↦ c
    | some tag ↦ record c { tbaa_tag = update c.tbaa_tag n2 (some tag) }
  ]
]

-- The loop over `n1->aliasclass`.
unfoldable pub move_values : List ℕ → ℕ → AliasContext → AliasContext
move_values [] n2 c = c
move_values (v ∷ vs) n2 c = move_values vs n2 (join_node v n2 c)

-- "First merge node values", and `n1->aliasclass.clear()`.
unfoldable pub absorb : ℕ → ℕ → AliasContext → AliasContext
absorb n1 n2 c =
    let moved = move_values (c.aliasclass n1) n2 c in
    record moved { aliasclass = update moved.aliasclass n1 [] }

-- The `erase` calls before an edge is set or the recursive merge is made.
unfoldable pub drop_to : ℕ → AliasContext → AliasContext
drop_to n1 c = record c { to_node_map = update c.to_node_map n1 none }

unfoldable pub drop_from : ℕ → AliasContext → AliasContext
drop_from n1 c = record c { from_node_map = update c.from_node_map n1 none }

unfoldable pub cut_to : (n1 n2 t1 t2 : ℕ) → AliasContext → AliasContext
cut_to n1 n2 t1 t2 c = record c {
  to_node_map = update (update c.to_node_map n1 none) n2 none;
  from_node_map = update (update c.from_node_map t1 none) t2 none;
}

unfoldable pub cut_from : (n1 n2 f1 f2 : ℕ) → AliasContext → AliasContext
cut_from n1 n2 f1 f2 c = record c {
  from_node_map = update (update c.from_node_map n1 none) n2 none;
  to_node_map = update (update c.to_node_map f1 none) f2 none;
}

-- "Then change edges": the nodes that n1 and n2 point to. `merge` is the recursive call.
unfoldable pub merge_to :
    (ℕ → ℕ → AliasContext → Option AliasContext) → ℕ → ℕ → AliasContext → Option AliasContext
merge_to merge n1 n2 c = elim (c.to_node_map n1) [
  | none ↦ some c
  | some t1 ↦ elim (c.to_node_map n2) [
    | none ↦ some (set_edge n2 t1 (drop_to n1 c))
    | some t2 ↦
        if t1 == t2
        then some c
        else Option.map (set_edge n2 t2) (merge t1 t2 (cut_to n1 n2 t1 t2 c))
  ]
]

-- "Check which node points to n1".
unfoldable pub merge_from :
    (ℕ → ℕ → AliasContext → Option AliasContext) → ℕ → ℕ → AliasContext → Option AliasContext
merge_from merge n1 n2 c = elim (c.from_node_map n1) [
  | none ↦ some c
  | some f1 ↦ elim (c.from_node_map n2) [
    | none ↦ some (set_edge f1 n2 (drop_from n1 c))
    | some f2 ↦
        if f1 == f2
        then some c
        else Option.map (set_edge f2 n2) (merge f1 f2 (cut_from n1 n2 f1 f2 c))
  ]
]

-- The body of `mergeNode(n1, n2, aliasCtx)` behind the TBAA gate.
unfoldable pub merge_open :
    (ℕ → ℕ → AliasContext → Option AliasContext) → ℕ → ℕ → AliasContext → Option AliasContext
merge_open merge n1 n2 c =
    if n1 == n2 then some c else elim (merge_to merge n1 n2 (absorb n1 n2 c)) [
      | none ↦ none
      | some c' ↦ merge_from merge n1 n2 c'
    ]

module _ (md : MdStore) where
  -- `mergeNode(n1, n2, aliasCtx)`; `none` means that the fuel ran out.
  unfoldable pub merge_node : ℕ → ℕ → ℕ → AliasContext → Option AliasContext
  merge_node zero n1 n2 c = none
  merge_node (suc fuel) n1 n2 c = elim (should_merge_by_tbaa md c (some n1) (some n2)) [
    | false ↦ some (record c { num_tbaa_blocked_merges = c.num_tbaa_blocked_merges + 1 })
    | true ↦ merge_open (merge_node fuel) n1 n2 (inherit_tag n1 n2 c)
  ]

abbrev pub to_list {ℓ} : {A : Type ℓ} → Option A → List A
to_list none = []
to_list (some a) = a ∷ []

-- What the searches push at a node.
unfoldable pub neighbours : AliasContext → ℕ → List ℕ
neighbours c n = to_list (c.to_node_map n) ++ to_list (c.from_node_map n)

pub below : ℕ → List ℕ
below zero = []
below (suc n) = n ∷ below n

-- Rounds for a search from one node: all edges leave allocated nodes.
pub search_fuel : AliasContext → ℕ → ℕ
unfolding below
search_fuel c n = enough (neighbours c) (n ∷ []) (below c.next)

abbrev pub is_stopped {ℓ κ} : {A : Type ℓ} {S : Type κ} → Outcome A S → Bool
is_stopped (finished visited s) = false
is_stopped (stopped s) = true
is_stopped out_of_fuel = false

abbrev pub stop_at : ℕ → ℕ → Unit {0} → Step (Unit {0})
stop_at target x s = if x == target then stop tt else go tt

-- `checkNodeConnectivity`; `none` is a null node.
pub check_node_connectivity : Option ℕ → Option ℕ → AliasContext → Bool
unfolding search_fuel
check_node_connectivity none node2 c = false
check_node_connectivity (some node1) none c = false
check_node_connectivity (some node1) (some node2) c =
    is_stopped (run (neighbours c) (stop_at node2) (search_fuel c node1) (node1 ∷ []) [] tt)

-- `getClusterNodes`: each neighbour goes into the set when it is pushed.
abbrev pub collect : AliasContext → ℕ → List ℕ → Step (List ℕ)
collect c x node_set = go (union node_set (neighbours c x))

pub get_cluster_nodes : Option ℕ → List ℕ → AliasContext → Outcome ℕ (List ℕ)
unfolding search_fuel
get_cluster_nodes none node_set c = finished [] node_set
get_cluster_nodes (some start) node_set c =
    run (neighbours c) (collect c) (search_fuel c start) (start ∷ []) [] (insert start node_set)

pub merge_classes : AliasContext → List ℕ → List ℕ → List ℕ
merge_classes c [] value_set = value_set
merge_classes c (n ∷ ns) value_set = merge_classes c ns (union value_set (c.aliasclass n))

-- `getClusterValues`: the values of the cluster of `v`; a value without a node leaves the set alone.
pub get_cluster_values : ℕ → List ℕ → AliasContext → Option (List ℕ)
unfolding merge_classes
get_cluster_values v value_set c = elim (get_node v c) [
  | none ↦ some value_set
  | some n ↦ elim (get_cluster_nodes (some n) [] c) [
    | finished visited nodes ↦ some (merge_classes c nodes [])
    | stopped nodes ↦ none
    | out_of_fuel ↦ none
  ]
]
