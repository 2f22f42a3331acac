-- ===== src/Alias/Graph/Cluster.antt =====
-- `getClusterNodes` and `getClusterValues` of InterAliasAnalysis.cc end, and give exactly the nodes
-- that are connected to a value's node, and the values in those nodes.
use tfa_project.Common.{
  ℕ, ◌≡◌, refl, ◌↔◌, ◌⊎◌, inl, inr, true, some, List, [], ◌∷◌, mem, mem-union, mem-insert, insert,
  union, nat_eq, ◌==◌, arith, Bool-cases,
}
use tfa_project.Worklist.{Outcome, finished, stopped, out_of_fuel}
use tfa_project.Worklist.Reach.{here, step}
use tfa_project.Worklist.Correct.{Post, all_visited, left_early, goes, run-Post}
use tfa_project.Alias.{AliasContext, IsWellFormed, get_node}
use tfa_project.Alias.Graph.{
  neighbours, below, search_fuel, collect, get_cluster_nodes, get_cluster_values, merge_classes,
}
use tfa_project.Alias.Graph.Search.{Connected, Searched, Searched-Connected, neighbours-Covers}

module _ (c : AliasContext) where
  record Cluster (start : ℕ) (visited nodes : List ℕ) : Type 0 where
    sound : (x : ℕ) → mem x nodes ≡ true → Searched c start x
    has_start : mem start nodes ≡ true
    pushed : (x y : ℕ) → mem x visited ≡ true → mem y (neighbours c x) ≡ true → mem y nodes ≡ true

  Cluster-visit :
      (start x : ℕ) (visited s : List ℕ)
      → Searched c start x
      → Cluster start visited s
      → Cluster start (x ∷ visited) (union s (neighbours c x))
  Cluster-visit start x visited s r p = record {
    sound = λ y m. elim (Bool-cases (mem y s)) [
      | inl old ↦ p.sound y old
      | inr fresh ↦ step r (ground (arith, mem-union y s (neighbours c x)))
    ];
    has_start = ground (arith, mem-union start s (neighbours c x), p.has_start);
    pushed = λ y z m n. elim (Bool-cases (mem y visited)) [
      | inl old ↦ ground (arith, mem-union z s (neighbours c x), p.pushed y z old n)
      | inr fresh ↦
          let e : y ≡ x = ground arith in
          let at_x : mem z (neighbours c x) ≡ true = rw e at n in
          ground (arith, mem-union z s (neighbours c x))
    ];
  }

  Cluster-start : (start : ℕ) → Cluster start [] (insert start [])
  Cluster-start start = record {
    sound = λ x m. here (ground (arith, mem-insert x start []));
    has_start = ground (arith, mem-insert start start []);
    pushed = λ x y m n. cc;
  }

  complete :
      (start : ℕ) (visited nodes : List ℕ)
      → Cluster start visited nodes
      → ((x : ℕ) → (mem x visited ≡ true) ↔ Searched c start x)
      → {x : ℕ} → Searched c start x
      → mem x nodes ≡ true
  complete start visited nodes k iff (here {x} m) =
      let e : x ≡ start = ground arith in rw e k.has_start
  complete start visited nodes k iff (step {x} {y} r m) = k.pushed x y ((iff x).1 r) m

  -- The set of nodes that the search returns, and that it returns one.
  abbrev Found : ℕ → Outcome ℕ (List ℕ) → Type 0
  Found start o =
      (visited : List ℕ) × (nodes : List ℕ) × (o ≡ finished visited nodes)
      × ((x : ℕ) → (mem x nodes ≡ true) ↔ Searched c start x)

  found :
      (start : ℕ) (o : Outcome ℕ (List ℕ))
      → Post (neighbours c) (start ∷ []) (Cluster start) (λ _. ⊥) o
      → Found start o
  found start (finished visited nodes) (all_visited k iff) =
      (visited, nodes, refl, λ x. (k.sound x, complete start visited nodes k iff))
  found start (stopped s) (left_early q) = absurd q
  found start out_of_fuel p = elim p [ ]

  -- The search for the cluster of a node ends with exactly the nodes that it leads to.
  pub get_cluster_nodes_lem :
      (start : ℕ) → IsWellFormed c → Found start (get_cluster_nodes (some start) [] c)
  unfolding get_cluster_nodes
  get_cluster_nodes_lem start w = found start _ (
      run-Post (neighbours c) (collect c) (below c.next) (start ∷ []) (Cluster start) (λ _. ⊥)
        (neighbours-Covers c w) (λ x visited s r new p. goes (Cluster-visit start x visited s r p))
        (search_fuel c start) (insert start []) (omega arith) (Cluster-start start))

  merge_classes_sound :
      (v : ℕ) (ns vs : List ℕ)
      → mem v (merge_classes c ns vs) ≡ true
      → (mem v vs ≡ true) ⊎ ((n : ℕ) × (mem n ns ≡ true) × (mem v (c.aliasclass n) ≡ true))
  unfolding merge_classes
  merge_classes_sound v [] vs h = inl h
  merge_classes_sound v (k ∷ ks) vs h =
      elim (merge_classes_sound v ks (union vs (c.aliasclass k)) h) [
        | inr (n, m, q) ↦ inr (n, ground arith, q)
        | inl u ↦ elim (Bool-cases (mem v vs)) [
          | inl old ↦ inl old
          | inr fresh ↦ inr (k, ground arith, ground (arith, mem-union v vs (c.aliasclass k)))
        ]
      ]

  merge_classes_keeps :
      (v : ℕ) (ns vs : List ℕ) → mem v vs ≡ true → mem v (merge_classes c ns vs) ≡ true
  unfolding merge_classes
  merge_classes_keeps v [] vs h = h
  merge_classes_keeps v (k ∷ ks) vs h =
      merge_classes_keeps v ks _ (ground (arith, mem-union v vs (c.aliasclass k)))

  merge_classes_complete :
      (v n : ℕ) (ns vs : List ℕ)
      → mem n ns ≡ true
      → mem v (c.aliasclass n) ≡ true
      → mem v (merge_classes c ns vs) ≡ true
  unfolding merge_classes
  merge_classes_complete v n [] vs h q = cc
  merge_classes_complete v n (k ∷ ks) vs h q = elim (Bool-cases (n == k)) [
    | inl same ↦
        let e : n ≡ k = ground arith in
        let q' : mem v (c.aliasclass k) ≡ true = rw e at q in
        merge_classes_keeps v ks _ (ground (arith, mem-union v vs (c.aliasclass k)))
    | inr other ↦ merge_classes_complete v n ks _ (ground arith) q
  ]

  -- In a well-formed context, for a value with a node, the search for the values of its cluster
  -- ends with exactly those whose node is connected to it by entries of `ToNodeMap` and
  -- `FromNodeMap`.
  pub get_cluster_values_lem :
      (v n : ℕ) (value_set : List ℕ)
      → IsWellFormed c
      → c.node_map v ≡ some n
      → (values : List ℕ) × (get_cluster_values v value_set c ≡ some values)
        × ((u : ℕ) → (mem u values ≡ true) ↔ ((m : ℕ) × (c.node_map u ≡ some m) × Connected c n m))
  unfolding get_cluster_values get_node
  get_cluster_values_lem v n value_set w e =
      let (visited, nodes, ran, iff) = get_cluster_nodes_lem n w in
      (
        merge_classes c nodes [],
        rw (e, ran, get_cluster_values),
        λ u. (
          λ h. elim (merge_classes_sound u nodes [] h) [
            | inl none_yet ↦ cc
            | inr (m, i, q) ↦ (m, (w.map_iff u m).1 q, (Searched-Connected c n m).0 ((iff m).0 i))
          ],
          λ (m, i, r).
              merge_classes_complete u m nodes [] ((iff m).1 ((Searched-Connected c n m).1 r))
                ((w.map_iff u m).0 i),
        ),
      )
