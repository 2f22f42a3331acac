-- ===== src/Tests/Alias.antt =====
-- Value 1 is an `alloca` and value 2 a cast of it, the instructions of function 0.
use tfa_project.Common.{
  ℕ, ◌≡◌, ◌<◌, ◌↔◌, ◌⊎◌, refl, true, false, Option, none, some, List, [], ◌∷◌, mem, arith, nat_eq,
  ◌==◌, if◌then◌else◌,
}
use tfa_project.Tests.Tbaa.{tags}
use tfa_project.Alias.{
  AliasContext, empty_context, IsWellFormed, Aliased, get_node, new_node, get_or_new_node,
  join_node, should_merge_by_tbaa,
}
use tfa_project.Alias.Graph.{
  get_cluster_values, inherit_tag, move_values, absorb, merge_to, merge_from, merge_open,
  merge_node,
}
use tfa_project.Alias.Graph.Keeps.{Keeps}
use tfa_project.Alias.Graph.Merge.{merge_node-Keeps}
use tfa_project.Alias.Graph.Unify.{Blocked, merge_node_unifies}
use tfa_project.Alias.Graph.Search.{Connected}
use tfa_project.Alias.Graph.Cluster.{get_cluster_values_lem}
use tfa_project.Alias.Insts.{Kind, Program, handle_move, analyze_function}
use tfa_project.Alias.Insts.Nodes.{Extends, get_or_new_node-HasNode}
use tfa_project.Alias.Insts.Moves.{KeptApart, handle_move_lem}
use tfa_project.Alias.Insts.Functions.{OperandsBelow, analyze_function-Total}
use tfa_project.Alias.Insts.Total.{Total}
use tfa_project.Alias.Graph.Totality.{Returns, merge_node-Returns}
use tfa_project.Alias.Graph.Edges.{count_le}

empty_context-IsWellFormed : IsWellFormed empty_context
empty_context-IsWellFormed = record {
  map_iff = λ v n. (λ h. cc, λ h. cc);
  fresh = λ n h. refl;
  to_lt = λ n m h. cc;
  from_lt = λ n m h. cc;
}

-- Values 1 and 2 in the nodes 0 and 1.
abbrev one_node : AliasContext
one_node = (get_or_new_node 1 empty_context).1

abbrev two_nodes : AliasContext
two_nodes = (get_or_new_node 2 one_node).1

one_node-IsWellFormed : IsWellFormed one_node
one_node-IsWellFormed =
    (get_or_new_node-HasNode 1 empty_context empty_context-IsWellFormed).extends.well_formed

two_nodes-IsWellFormed : IsWellFormed two_nodes
two_nodes-IsWellFormed =
    (get_or_new_node-HasNode 2 one_node one_node-IsWellFormed).extends.well_formed

abbrev result : Option AliasContext → AliasContext
result none = empty_context
result (some c) = c

abbrev merged : AliasContext
merged = result (merge_node tags 2 1 0 two_nodes)

merge-returns : merge_node tags 2 1 0 two_nodes ≡ some merged
unfolding get_or_new_node get_node new_node merge_node merge_open merge_to merge_from absorb
    move_values inherit_tag should_merge_by_tbaa join_node
merge-returns = refl

node_1 : 0 < two_nodes.next
unfolding get_or_new_node get_node new_node
node_1 = omega arith

merge_node-Keeps_example : Keeps two_nodes merged
merge_node-Keeps_example =
    merge_node-Keeps tags 2 1 0 two_nodes merged two_nodes-IsWellFormed node_1 merge-returns

merge_node_unifies_example :
    (should_merge_by_tbaa tags two_nodes (some 1) (some 0) ≡ false) × (merged ≡ Blocked two_nodes)
    ⊎ (should_merge_by_tbaa tags two_nodes (some 1) (some 0) ≡ true)
      × ((v u : ℕ)
          → two_nodes.node_map v ≡ some 1
          → two_nodes.node_map u ≡ some 0
          → Aliased merged v u)
merge_node_unifies_example =
    merge_node_unifies tags 2 1 0 two_nodes merged two_nodes-IsWellFormed node_1 merge-returns

at_node_0 : two_nodes.node_map 1 ≡ some 0
unfolding get_or_new_node get_node new_node
at_node_0 = refl

get_cluster_values_lem_example :
    (values : List ℕ) × (get_cluster_values 1 [] two_nodes ≡ some values)
    × ((u : ℕ)
        → (mem u values ≡ true)
          ↔ ((m : ℕ) × (two_nodes.node_map u ≡ some m) × Connected two_nodes 0 m))
get_cluster_values_lem_example =
    get_cluster_values_lem two_nodes 1 0 [] two_nodes-IsWellFormed at_node_0

handle_move_lem_example :
    (d : AliasContext) × (handle_move tags 2 1 empty_context ≡ some d)
    × Extends empty_context d
    × (Aliased d 2 1 ⊎ KeptApart tags (get_or_new_node 1 empty_context).1 d 2 1)
handle_move_lem_example = handle_move_lem tags 2 1 empty_context empty_context-IsWellFormed

abbrev prog : Program
prog = record {
  kind = λ v. if v == 1 then Kind.alloca else if v == 2 then Kind.bit_cast 1 else Kind.other_value;
  operands = λ v. if v == 2 then 1 ∷ [] else [];
  called_func_name = λ v. [];
  symbol_string = λ v. [];
  instructions = λ f. 1 ∷ 2 ∷ [];
  debug_funcs = [];
  copy_funcs = [];
  symbol_get_name = 1 ∷ [];
  global_funcs = λ name. none;
}

two_nodes-next : two_nodes.next ≡ 2
unfolding get_or_new_node get_node new_node
two_nodes-next = refl

merge_node-Returns_example : Returns 2 two_nodes (merge_node tags 3 1 0 two_nodes)
merge_node-Returns_example =
    merge_node-Returns tags 2 3 1 0 two_nodes two_nodes-IsWellFormed two_nodes-next (omega arith)
      (omega arith) (omega (arith, count_le 2 two_nodes))

prog-OperandsBelow : OperandsBelow prog
prog-OperandsBelow v b h = ground arith

analyze_function-Total_example : Total empty_context (analyze_function tags prog 0 empty_context)
analyze_function-Total_example =
    analyze_function-Total tags prog prog-OperandsBelow 0 empty_context empty_context-IsWellFormed
