-- ===== src/Alias.antt =====
-- src/lib/AliasAnalysis/AliasAnalysis.h: alias nodes and the context of one analysis.
-- `Value*` and `AliasNode*` are addresses (numbers); `new AliasNode()` takes the address `next`, and
-- the fields of the nodes are maps from addresses. A map entry that is absent is `none`.
pub mod Graph
pub mod Insts
use tfa_project.Common.{
  ℕ, zero, suc, ◌+◌, ◌<◌, ◌≤◌, ◌≡◌, ◌↔◌, Bool, true, false, Option, none, some, List, [], ◌∷◌, mem,
  insert, update, nat_eq,
}
use tfa_project.Tbaa.{MdStore, may_alias_by_tbaa}

pub record AliasContext : Type 0 where
  pub node_map : ℕ → Option ℕ
  pub to_node_map : ℕ → Option ℕ
  pub from_node_map : ℕ → Option ℕ
  pub aliasclass : ℕ → List ℕ
  pub tbaa_tag : ℕ → Option ℕ
  pub next : ℕ
  pub num_tbaa_blocked_merges : ℕ
  pub analyzed_func_set : List ℕ
  pub global_symbol_get_func_set : List (List ℕ)

abbrev pub empty_context : AliasContext
empty_context = record {
  node_map = λ v. none;
  to_node_map = λ n. none;
  from_node_map = λ n. none;
  aliasclass = λ n. [];
  tbaa_tag = λ n. none;
  next = 0;
  num_tbaa_blocked_merges = 0;
  analyzed_func_set = [];
  global_symbol_get_func_set = [];
}

-- `NodeMap` and the classes say the same: each value lies in the class of its node and in no other.
-- Nodes that are not allocated yet have no values and no edges.
pub record IsWellFormed (c : AliasContext) : Type 0 where
  pub map_iff : (v n : ℕ) → (c.node_map v ≡ some n) ↔ (mem v (c.aliasclass n) ≡ true)
  pub fresh : (n : ℕ) → c.next ≤ n → c.aliasclass n ≡ []
  pub to_lt : (n m : ℕ) → c.to_node_map n ≡ some m → (n < c.next) × (m < c.next)
  pub from_lt : (n m : ℕ) → c.from_node_map n ≡ some m → (n < c.next) × (m < c.next)

-- Every value that has a node keeps one, and values of one node stay together:
-- the context `d` only renames the nodes of `c` and adds values.
pub record Renames (c d : AliasContext) : Type 0 where
  pub rename : ℕ → ℕ
  pub renamed : (v n : ℕ) → c.node_map v ≡ some n → d.node_map v ≡ some (rename n)

-- The two values have one node.
abbrev pub Aliased : AliasContext → ℕ → ℕ → Type 0
Aliased c v w = (n : ℕ) × (c.node_map v ≡ some n) × (c.node_map w ≡ some n)

-- `getNode`; `NULL` is `none`.
unfoldable pub get_node : ℕ → AliasContext → Option ℕ
get_node v c = c.node_map v

-- `new AliasNode()`, `insert(V)`, `NodeMap[V] = node`.
unfoldable pub new_node : ℕ → AliasContext → AliasContext
new_node v c = record c {
  aliasclass = update c.aliasclass c.next (v ∷ []);
  node_map = update c.node_map v (some c.next);
  next = suc c.next;
}

-- `node = getNode(V); if(node == NULL) { … }`, with the node that results.
unfoldable pub get_or_new_node : ℕ → AliasContext → ℕ × AliasContext
unfolding get_node new_node
get_or_new_node v c = elim (get_node v c) [ some n ↦ (n, c) | none ↦ (c.next, new_node v c) ]

-- Adds a value to the class of a node that is there.
unfoldable pub join_node : ℕ → ℕ → AliasContext → AliasContext
join_node v n c = record c {
  aliasclass = update c.aliasclass n (insert v (c.aliasclass n));
  node_map = update c.node_map v (some n);
}

-- `if (!node->TBAATag) node->TBAATag = tag;`
unfoldable pub tag_if_unset : ℕ → ℕ → AliasContext → AliasContext
tag_if_unset n tag c = elim (c.tbaa_tag n) [
  | some old ↦ c
  | none ↦ record c { tbaa_tag = update c.tbaa_tag n (some tag) }
]

-- `ToNodeMap[n2] = n1; FromNodeMap[n1] = n2;`
unfoldable pub set_edge : ℕ → ℕ → AliasContext → AliasContext
set_edge n2 n1 c = record c {
  to_node_map = update c.to_node_map n2 (some n1);
  from_node_map = update c.from_node_map n1 (some n2);
}

-- TBAATools.cc: the two gates on the tags of nodes; `none` is a null node.
module _ (md : MdStore) (c : AliasContext) where
  unfoldable pub should_merge_by_tbaa : Option ℕ → Option ℕ → Bool
  should_merge_by_tbaa none b = true
  should_merge_by_tbaa (some a) none = true
  should_merge_by_tbaa (some a) (some b) = elim (c.tbaa_tag a) [
    | none ↦ true
    | some ta ↦ elim (c.tbaa_tag b) [
      | none ↦ true
      | some tb ↦ may_alias_by_tbaa md (some ta) (some tb)
    ]
  ]

  unfoldable pub tbaa_compatible_for_icall : Option ℕ → Option ℕ → Bool
  tbaa_compatible_for_icall none func_node = true
  tbaa_compatible_for_icall (some icall_node) none = true
  tbaa_compatible_for_icall (some icall_node) (some func_node) = elim (c.tbaa_tag icall_node) [
    | none ↦ true
    | some call_tag ↦ elim (c.tbaa_tag func_node) [
      | none ↦ true
      | some func_tag ↦ may_alias_by_tbaa md (some call_tag) (some func_tag)
    ]
  ]
