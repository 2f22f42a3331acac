-- ===== src/Alias/Graph/Edges.antt =====
-- How many points-to edges a context has, and how each step of `mergeNode` changes that number.
use tfa_project.Common.{
  ℕ, ◌+◌, ◌*◌, ◌≤◌, ◌<◌, ◌≡◌, ◌≢◌, some, nat_eq, arith, ◌||◌, sum_pairs, sum_pairs_mono,
  sum_pairs-add, sum_pairs-pair_at, sum_rows, sum_columns, pair_at, hits, bit,
}
use tfa_project.Alias.{AliasContext, set_edge}
use tfa_project.Alias.Graph.{drop_to, drop_from, cut_to, cut_from}

-- An edge from a to b, by either of the two maps.
abbrev pub edge : AliasContext → ℕ → ℕ → ℕ
edge c a b = bit (hits (c.to_node_map a) b || hits (c.from_node_map b) a)

-- The edges among the first n nodes.
abbrev pub count : ℕ → AliasContext → ℕ
count n c = sum_pairs n (edge c)

pub count_le : (n : ℕ) (c : AliasContext) → count n c ≤ 2 * n
count_le n c =
    let total =
      sum_pairs_mono n (edge c)
        (λ a b. bit (hits (c.to_node_map a) b) + bit (hits (c.from_node_map b) a))
        (λ a b. ground arith) in
    omega (
      arith,
      total,
      sum_pairs-add n (λ a b. bit (hits (c.to_node_map a) b))
          (λ a b. bit (hits (c.from_node_map b) a)),
      sum_rows n c.to_node_map,
      sum_columns n c.from_node_map,
    )

module _ (n : ℕ) where
  sum_one :
      (f g : ℕ → ℕ → ℕ) (x y : ℕ)
      → x < n
      → y < n
      → ((a b : ℕ) → f a b ≤ g a b + pair_at n x y a b)
      → sum_pairs n f ≤ sum_pairs n g + 1
  sum_one f g x y hx hy h = omega (
    arith,
    sum_pairs_mono n f _ h,
    sum_pairs-add n g (pair_at n x y),
    sum_pairs-pair_at n x y hx hy,
  )

  pub set_edge-count :
      (c : AliasContext) (n2 n1 : ℕ) → n1 < n → n2 < n → count n (set_edge n2 n1 c) ≤ count n c + 1
  unfolding set_edge
  set_edge-count c n2 n1 h1 h2 =
      sum_one (edge (set_edge n2 n1 c)) (edge c) n2 n1 h2 h1 (λ a b. ground arith)

  pub drop_to-count :
      (c : AliasContext) (n1 n2 t1 : ℕ)
      → n1 < n
      → n2 < n
      → t1 < n
      → n1 ≢ n2
      → c.to_node_map n1 ≡ some t1
      → count n (set_edge n2 t1 (drop_to n1 c)) ≤ count n c
  unfolding set_edge drop_to
  drop_to-count c n1 n2 t1 h1 h2 ht apart e =
      let total =
        sum_pairs_mono n (λ a b. edge (set_edge n2 t1 (drop_to n1 c)) a b + pair_at n n1 t1 a b)
          (λ a b. edge c a b + pair_at n n2 t1 a b) (λ a b. ground arith) in
      omega (
        arith,
        total,
        sum_pairs-add n (edge (set_edge n2 t1 (drop_to n1 c))) (pair_at n n1 t1),
        sum_pairs-add n (edge c) (pair_at n n2 t1),
        sum_pairs-pair_at n n1 t1 h1 ht,
        sum_pairs-pair_at n n2 t1 h2 ht,
      )

  pub cut_to-count :
      (c : AliasContext) (n1 n2 t1 t2 : ℕ)
      → n1 < n
      → n2 < n
      → t1 < n
      → t2 < n
      → n1 ≢ n2
      → c.to_node_map n1 ≡ some t1
      → c.to_node_map n2 ≡ some t2
      → count n (cut_to n1 n2 t1 t2 c) + 2 ≤ count n c
  unfolding cut_to
  cut_to-count c n1 n2 t1 t2 h1 h2 k1 k2 apart e1 e2 =
      let total =
        sum_pairs_mono n
          (λ a b. edge (cut_to n1 n2 t1 t2 c) a b + pair_at n n1 t1 a b + pair_at n n2 t2 a b)
          (edge c) (λ a b. ground arith) in
      omega (
        arith,
        total,
        sum_pairs-add n (edge (cut_to n1 n2 t1 t2 c)) (pair_at n n1 t1),
        sum_pairs-add n (λ a b. edge (cut_to n1 n2 t1 t2 c) a b + pair_at n n1 t1 a b)
            (pair_at n n2 t2),
        sum_pairs-pair_at n n1 t1 h1 k1,
        sum_pairs-pair_at n n2 t2 h2 k2,
      )

  pub drop_from-count :
      (c : AliasContext) (n1 n2 f1 : ℕ)
      → n1 < n
      → n2 < n
      → f1 < n
      → n1 ≢ n2
      → c.from_node_map n1 ≡ some f1
      → count n (set_edge f1 n2 (drop_from n1 c)) ≤ count n c
  unfolding set_edge drop_from
  drop_from-count c n1 n2 f1 h1 h2 hf apart e =
      let total =
        sum_pairs_mono n (λ a b. edge (set_edge f1 n2 (drop_from n1 c)) a b + pair_at n f1 n1 a b)
          (λ a b. edge c a b + pair_at n f1 n2 a b) (λ a b. ground arith) in
      omega (
        arith,
        total,
        sum_pairs-add n (edge (set_edge f1 n2 (drop_from n1 c))) (pair_at n f1 n1),
        sum_pairs-add n (edge c) (pair_at n f1 n2),
        sum_pairs-pair_at n f1 n1 hf h1,
        sum_pairs-pair_at n f1 n2 hf h2,
      )

  pub cut_from-count :
      (c : AliasContext) (n1 n2 f1 f2 : ℕ)
      → n1 < n
      → n2 < n
      → f1 < n
      → f2 < n
      → n1 ≢ n2
      → c.from_node_map n1 ≡ some f1
      → c.from_node_map n2 ≡ some f2
      → count n (cut_from n1 n2 f1 f2 c) + 2 ≤ count n c
  unfolding cut_from
  cut_from-count c n1 n2 f1 f2 h1 h2 k1 k2 apart e1 e2 =
      let total =
        sum_pairs_mono n
          (λ a b. edge (cut_from n1 n2 f1 f2 c) a b + pair_at n f1 n1 a b + pair_at n f2 n2 a b)
          (edge c) (λ a b. ground arith) in
      omega (
        arith,
        total,
        sum_pairs-add n (edge (cut_from n1 n2 f1 f2 c)) (pair_at n f1 n1),
        sum_pairs-add n (λ a b. edge (cut_from n1 n2 f1 f2 c) a b + pair_at n f1 n1 a b)
            (pair_at n f2 n2),
        sum_pairs-pair_at n f1 n1 k1 h1,
        sum_pairs-pair_at n f2 n2 k2 h2,
      )
