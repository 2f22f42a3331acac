-- ===== src/Alias/Graph/Keeps.antt =====
-- What a step of the alias analysis may do to the values: `Keeps`, its composition, and the steps
-- that change edges only.
use tfa_project.Common.{ℕ, ◌<◌, ◌≡◌, refl, sym, ◌∙◌, some, nat_eq, arith}
use tfa_project.Alias.{AliasContext, IsWellFormed, Renames, set_edge}
use tfa_project.Alias.Graph.{drop_to, drop_from, cut_to, cut_from}

pub Renames-refl : (c d : AliasContext) → c.node_map ≡ d.node_map → Renames c d
Renames-refl c d e = record { rename = λ n. n; renamed = λ v n h. rw (← e) h }

pub Renames-trans : {c d e : AliasContext} → Renames c d → Renames d e → Renames c e
Renames-trans r s = record {
  rename = λ n. s.rename (r.rename n);
  renamed = λ v n h. s.renamed v (r.rename n) (r.renamed v n h);
}

-- What a step may do to the values: keep the invariant, and only rename nodes.
pub record Keeps (c d : AliasContext) : Type 0 where
  pub well_formed : IsWellFormed d
  pub renames : Renames c d
  pub next_same : d.next ≡ c.next

pub Keeps-trans : {c d e : AliasContext} → Keeps c d → Keeps d e → Keeps c e
Keeps-trans k l = record {
  well_formed = l.well_formed;
  renames = Renames-trans k.renames l.renames;
  next_same = l.next_same ∙ k.next_same;
}

pub Keeps-refl : (c : AliasContext) → IsWellFormed c → Keeps c c
Keeps-refl c w = record { well_formed = w; renames = Renames-refl c c refl; next_same = refl }

pub Keeps-eq : (c d : AliasContext) → IsWellFormed c → c ≡ d → Keeps c d
Keeps-eq c d w e = rw (← e) (Keeps-refl c w)

-- A step that leaves the values alone, and whose edges stay among the allocated nodes.
pub Keeps-edges :
    (c d : AliasContext)
    → IsWellFormed c
    → c.node_map ≡ d.node_map
    → c.aliasclass ≡ d.aliasclass
    → c.next ≡ d.next
    → ((n m : ℕ) → d.to_node_map n ≡ some m → (n < c.next) × (m < c.next))
    → ((n m : ℕ) → d.from_node_map n ≡ some m → (n < c.next) × (m < c.next))
    → Keeps c d
Keeps-edges c d w em ec en to_lt from_lt = record {
  well_formed = record {
    map_iff = λ v n. rw (← em, ← ec) (w.map_iff v n);
    fresh = λ n h. rw (← ec) (w.fresh n (omega arith));
    to_lt = λ n m h. rw (← en) (to_lt n m h);
    from_lt = λ n m h. rw (← en) (from_lt n m h);
  };
  renames = Renames-refl c d em;
  next_same = sym en;
}

-- The edges among allocated nodes, as the two steps of a merge change them.
pub set_edge-Keeps :
    (n2 n1 : ℕ) (c : AliasContext)
    → IsWellFormed c
    → n1 < c.next
    → n2 < c.next
    → Keeps c (set_edge n2 n1 c)
unfolding set_edge
set_edge-Keeps n2 n1 c w h k =
    Keeps-edges c _ w refl refl refl (λ n m e. ground (arith, w.to_lt n m))
      (λ n m e. ground (arith, w.from_lt n m))

module _ (c : AliasContext) (w : IsWellFormed c) where
  pub drop_to-Keeps : (n : ℕ) → Keeps c (drop_to n c)
  unfolding drop_to
  drop_to-Keeps n =
      Keeps-edges c _ w refl refl refl (λ a b e. ground (arith, w.to_lt a b)) w.from_lt

  pub drop_from-Keeps : (n : ℕ) → Keeps c (drop_from n c)
  unfolding drop_from
  drop_from-Keeps n =
      Keeps-edges c _ w refl refl refl w.to_lt (λ a b e. ground (arith, w.from_lt a b))

  pub cut_to-Keeps : (n1 n2 t1 t2 : ℕ) → Keeps c (cut_to n1 n2 t1 t2 c)
  unfolding cut_to
  cut_to-Keeps n1 n2 t1 t2 =
      Keeps-edges c _ w refl refl refl (λ a b e. ground (arith, w.to_lt a b))
        (λ a b e. ground (arith, w.from_lt a b))

  pub cut_from-Keeps : (n1 n2 f1 f2 : ℕ) → Keeps c (cut_from n1 n2 f1 f2 c)
  unfolding cut_from
  cut_from-Keeps n1 n2 f1 f2 =
      Keeps-edges c _ w refl refl refl (λ a b e. ground (arith, w.to_lt a b))
        (λ a b e. ground (arith, w.from_lt a b))
