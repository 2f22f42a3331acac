-- ===== src/Alias/Insts/Nodes.antt =====
-- Adding values to the graph: `Extends` is what an instruction may do to a context, and the node of
-- a value exists behind `getNode` with `new AliasNode()`.
use tfa_project.Common.{
  ℕ, ◌≤◌, ◌<◌, ◌≡◌, refl, ◌↔◌, inl, inr, Option, none, some, mem, mem-insert, nat_eq, arith,
  Option-cases, true,
}
use tfa_project.Alias.{
  AliasContext, IsWellFormed, Renames, new_node, get_node, get_or_new_node, join_node, tag_if_unset,
}
use tfa_project.Alias.Graph.Keeps.{Keeps, Keeps-refl, Keeps-edges, Renames-trans}

-- The invariant holds after the step, nodes are only renamed, and allocated ones stay allocated.
pub record Extends (c d : AliasContext) : Type 0 where
  pub well_formed : IsWellFormed d
  pub renames : Renames c d
  pub next_le : c.next ≤ d.next

pub Extends-trans : {c d e : AliasContext} → Extends c d → Extends d e → Extends c e
Extends-trans r s = record {
  well_formed = s.well_formed;
  renames = Renames-trans r.renames s.renames;
  next_le = omega (arith, r.next_le, s.next_le);
}

pub Extends-of_Keeps : {c d : AliasContext} → Keeps c d → Extends c d
Extends-of_Keeps k = record {
  well_formed = k.well_formed;
  renames = k.renames;
  next_le = omega (arith, k.next_same);
}

pub Extends-refl : (c : AliasContext) → IsWellFormed c → Extends c c
Extends-refl c w = Extends-of_Keeps (Keeps-refl c w)

module _ (c : AliasContext) (w : IsWellFormed c) where
  new_node-map_iff :
      (v u n : ℕ)
      → c.node_map v ≡ none
      → ((new_node v c).node_map u ≡ some n) ↔ (mem u ((new_node v c).aliasclass n) ≡ true)
  unfolding new_node
  new_node-map_iff v u n unknown =
      ground (arith, w.map_iff u n, w.map_iff v n, w.map_iff u c.next, w.fresh c.next)

  new_node-Extends : (v : ℕ) → c.node_map v ≡ none → Extends c (new_node v c)
  unfolding new_node
  new_node-Extends v unknown = record {
    well_formed = record {
      map_iff = λ u n. new_node-map_iff v u n unknown;
      fresh = λ n h. ground (arith, w.fresh n);
      to_lt = λ n m e. omega (arith, w.to_lt n m e);
      from_lt = λ n m e. omega (arith, w.from_lt n m e);
    };
    renames = record { rename = λ n. n; renamed = λ u n e. ground arith };
    next_le = omega arith;
  }

  join_node-map_iff :
      (v k u n : ℕ)
      → c.node_map v ≡ none
      → ((join_node v k c).node_map u ≡ some n) ↔ (mem u ((join_node v k c).aliasclass n) ≡ true)
  unfolding join_node
  join_node-map_iff v k u n unknown =
      ground (arith, w.map_iff u n, w.map_iff v n, mem-insert u v (c.aliasclass k))

  pub join_node-Extends : (v k : ℕ) → c.node_map v ≡ none → k < c.next → Extends c (join_node v k c)
  unfolding join_node
  join_node-Extends v k unknown known = record {
    well_formed = record {
      map_iff = λ u n. join_node-map_iff v k u n unknown;
      fresh = λ n h. ground (arith, w.fresh n);
      to_lt = w.to_lt;
      from_lt = w.from_lt;
    };
    renames = record { rename = λ n. n; renamed = λ u n e. ground arith };
    next_le = omega arith;
  }

  -- A value in the map has an allocated node.
  pub known_lt : (v n : ℕ) → c.node_map v ≡ some n → n < c.next
  known_lt v n e = ground (arith, w.map_iff v n, w.fresh n)

-- The node of a value that was looked up or made.
pub record HasNode (v : ℕ) (c : AliasContext) (r : ℕ × AliasContext) : Type 0 where
  pub extends : Extends c r.1
  pub at_node : (r.1).node_map v ≡ some r.0

pub get_or_new_node-HasNode :
    (v : ℕ) (c : AliasContext) → IsWellFormed c → HasNode v c (get_or_new_node v c)
unfolding get_or_new_node get_node new_node
get_or_new_node-HasNode v c w = elim (Option-cases (c.node_map v)) [
  | inl unknown ↦
      rw (unknown, get_or_new_node)
        (record { extends = new_node-Extends c w v unknown; at_node = ground arith })
  | inr (n, known) ↦
      rw (known, get_or_new_node) (record { extends = Extends-refl c w; at_node = known })
]

-- Tags have no part in the invariant.
pub retagged :
    (c : AliasContext) (tags : ℕ → Option ℕ)
    → IsWellFormed c
    → Extends c (record c { tbaa_tag = tags })
retagged c tags w = Extends-of_Keeps (Keeps-edges c _ w refl refl refl w.to_lt w.from_lt)

pub tag_if_unset-Extends :
    (n tag : ℕ) (c : AliasContext) → IsWellFormed c → Extends c (tag_if_unset n tag c)
unfolding tag_if_unset
tag_if_unset-Extends n tag c w = elim (Option-cases (c.tbaa_tag n)) [
  | inl e ↦ rw (e, tag_if_unset) (retagged c _ w)
  | inr (t, e) ↦ rw (e, tag_if_unset) (Extends-refl c w)
]
