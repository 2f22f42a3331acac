-- ===== src/Alias/Graph/Absorb.antt =====
-- The first part of `mergeNode`: the values of n1 move to n2.
use tfa_project.Common.{
  ℕ, ◌<◌, ◌≡◌, ◌≢◌, refl, ◌↔◌, true, ◌||◌, some, List, [], ◌∷◌, mem, mem-insert, nat_eq, ◌==◌,
  if◌then◌else◌, arith,
}
use tfa_project.Alias.{AliasContext, IsWellFormed, join_node}
use tfa_project.Alias.Graph.{move_values, absorb}
use tfa_project.Alias.Graph.Keeps.{Keeps}

move_values-node_map :
    (vs : List ℕ) (n2 : ℕ) (c : AliasContext) (v : ℕ)
    → (move_values vs n2 c).node_map v ≡ (if mem v vs then some n2 else c.node_map v)
unfolding move_values join_node
move_values-node_map [] n2 c v = refl
move_values-node_map (w ∷ vs) n2 c v =
    ground (arith, move_values-node_map vs n2 (join_node w n2 c) v)

move_values-class :
    (vs : List ℕ) (n2 : ℕ) (c : AliasContext) (v n : ℕ)
    → mem v ((move_values vs n2 c).aliasclass n)
      ≡ (if n == n2 then mem v vs || mem v (c.aliasclass n) else mem v (c.aliasclass n))
unfolding move_values join_node
move_values-class [] n2 c v n = ground arith
move_values-class (w ∷ vs) n2 c v n =
    ground (arith, move_values-class vs n2 (join_node w n2 c) v n, mem-insert v w (c.aliasclass n2))

move_values-next : (vs : List ℕ) (n2 : ℕ) (c : AliasContext) → (move_values vs n2 c).next ≡ c.next
unfolding move_values join_node
move_values-next [] n2 c = refl
move_values-next (w ∷ vs) n2 c = move_values-next vs n2 (join_node w n2 c)

move_values-edges :
    (vs : List ℕ) (n2 : ℕ) (c : AliasContext)
    → ((move_values vs n2 c).to_node_map ≡ c.to_node_map)
      × ((move_values vs n2 c).from_node_map ≡ c.from_node_map)
unfolding move_values join_node
move_values-edges [] n2 c = (refl, refl)
move_values-edges (w ∷ vs) n2 c = move_values-edges vs n2 (join_node w n2 c)

move_values-other :
    (vs : List ℕ) (n2 : ℕ) (c : AliasContext) (n : ℕ)
    → n ≢ n2
    → (move_values vs n2 c).aliasclass n ≡ c.aliasclass n
unfolding move_values join_node
move_values-other [] n2 c n h = refl
move_values-other (w ∷ vs) n2 c n h = ground (arith, move_values-other vs n2 (join_node w n2 c) n h)

module _ (n1 n2 : ℕ) (c : AliasContext) (apart : n1 ≢ n2) (p : IsWellFormed c)
    (known : n2 < c.next) where
  pub absorb-node_map :
      (v : ℕ)
      → (absorb n1 n2 c).node_map v ≡ (if mem v (c.aliasclass n1) then some n2 else c.node_map v)
  unfolding absorb
  absorb-node_map v = move_values-node_map (c.aliasclass n1) n2 c v

  absorb-map_iff :
      (v n : ℕ)
      → ((absorb n1 n2 c).node_map v ≡ some n) ↔ (mem v ((absorb n1 n2 c).aliasclass n) ≡ true)
  unfolding absorb
  absorb-map_iff v n = ground (
    arith,
    move_values-node_map (c.aliasclass n1) n2 c v,
    move_values-class (c.aliasclass n1) n2 c v n,
    p.map_iff v n,
    p.map_iff v n1,
  )

  pub absorb-edges :
      ((absorb n1 n2 c).to_node_map ≡ c.to_node_map)
      × ((absorb n1 n2 c).from_node_map ≡ c.from_node_map)
  unfolding absorb
  absorb-edges = move_values-edges (c.aliasclass n1) n2 c

  pub absorb-Keeps : Keeps c (absorb n1 n2 c)
  unfolding absorb
  absorb-Keeps =
      let same_next = move_values-next (c.aliasclass n1) n2 c in
      record {
        well_formed = record {
          map_iff = absorb-map_iff;
          fresh = λ n h.
              ground (arith, move_values-other (c.aliasclass n1) n2 c n, p.fresh n, same_next);
          to_lt = λ n m h. rw same_next (p.to_lt n m (rw absorb-edges.0 at h));
          from_lt = λ n m h. rw same_next (p.from_lt n m (rw absorb-edges.1 at h));
        };
        renames = record {
          rename = λ n. if n == n1 then n2 else n;
          renamed = λ v n h. ground (arith, absorb-node_map v, p.map_iff v n, p.map_iff v n1);
        };
        next_same = same_next;
      }
