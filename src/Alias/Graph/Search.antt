-- ===== src/Alias/Graph/Search.antt =====
-- `checkNodeConnectivity` and `getClusterNodes` follow the entries of `ToNodeMap` and
-- `FromNodeMap`.
use tfa_project.Common.{
  ℕ, zero, suc, ◌≤◌, ◌≡◌, refl, ◌↔◌, inl, inr, true, false, some, List, [], ◌∷◌, mem, nat_eq, ◌==◌,
  arith, Bool-cases, Option-cases, Bool, Option, none, ◌||◌, ◌⊎◌, mem-append,
}
use mathlib.Core.Option
use tfa_project.Worklist.{Outcome, finished, stopped, out_of_fuel}
use tfa_project.Worklist.Reach.{Reach, here, step}
use tfa_project.Worklist.Correct.{
  Post, all_visited, left_early, Visit, goes, stops, Covers, run-Post,
}
use tfa_project.Alias.{AliasContext, IsWellFormed}
use tfa_project.Alias.Graph.{
  neighbours, to_list, below, search_fuel, is_stopped, stop_at, check_node_connectivity,
}

-- Entries of `ToNodeMap` and `FromNodeMap` lead from node `a` to a node.
pub data Connected (c : AliasContext) (a : ℕ) : ℕ → Type 0 where
  same_node : Connected c a a
  along_to : {x y : ℕ} → Connected c a x → c.to_node_map x ≡ some y → Connected c a y
  along_from : {x y : ℕ} → Connected c a x → c.from_node_map x ≡ some y → Connected c a y

-- What the searches visit.
abbrev pub Searched : AliasContext → ℕ → ℕ → Type 0
Searched c a b = Reach (neighbours c) (a ∷ []) b

mem-to_list : (o : Option ℕ) (x : ℕ) → (mem x (to_list o) ≡ true) ↔ (o ≡ some x)
mem-to_list none x = (λ h. cc, λ h. cc)
mem-to_list (some y) x = (
  λ h. let same : y ≡ x = ground arith in rw same refl,
  λ h. let same = Option.some-injective y x h in rw same (ground arith),
)

mem-neighbours_iff :
    (c : AliasContext) (x y : ℕ)
    → (mem y (neighbours c x) ≡ true) ↔ ((c.to_node_map x ≡ some y) ⊎ (c.from_node_map x ≡ some y))
unfolding neighbours
mem-neighbours_iff c x y =
    either (mem-append y (to_list (c.to_node_map x)) (to_list (c.from_node_map x)))
      (mem-to_list (c.to_node_map x) y) (mem-to_list (c.from_node_map x) y)
  where
    either :
        {b d e : Bool} {P Q : Type 0}
        → b ≡ (d || e)
        → ((d ≡ true) ↔ P)
        → ((e ≡ true) ↔ Q)
        → (b ≡ true) ↔ (P ⊎ Q)
    either h k l = ground arith

Connected-of_Searched : (c : AliasContext) (a b : ℕ) → Searched c a b → Connected c a b
Connected-of_Searched c a b (here m) = let same : b ≡ a = ground arith in rw same same_node
Connected-of_Searched c a b (step {x} r m) = elim ((mem-neighbours_iff c x b).0 m) [
  | inl e ↦ along_to (Connected-of_Searched c a x r) e
  | inr e ↦ along_from (Connected-of_Searched c a x r) e
]

Searched-of_Connected : (c : AliasContext) (a b : ℕ) → Connected c a b → Searched c a b
Searched-of_Connected c a b same_node = here (ground arith)
Searched-of_Connected c a b (along_to {x} r e) =
    step (Searched-of_Connected c a x r) ((mem-neighbours_iff c x b).1 (inl e))
Searched-of_Connected c a b (along_from {x} r e) =
    step (Searched-of_Connected c a x r) ((mem-neighbours_iff c x b).1 (inr e))

pub Searched-Connected : (c : AliasContext) (a b : ℕ) → Searched c a b ↔ Connected c a b
Searched-Connected c a b = (Connected-of_Searched c a b, Searched-of_Connected c a b)

mem-below : (n x : ℕ) → mem x (below n) ≡ false → n ≤ x
unfolding below
mem-below zero x h = omega arith
mem-below (suc n) x h = ground (arith, mem-below n x)

module _ (c : AliasContext) (w : IsWellFormed c) where
  pub neighbours-Covers : Covers (neighbours c) (below c.next)
  unfolding neighbours
  neighbours-Covers x out =
      let far = mem-below c.next x out in
      elim (Option-cases (c.to_node_map x)) [
        | inr (m, e) ↦ absurd (omega (arith, w.to_lt x m e))
        | inl e ↦ elim (Option-cases (c.from_node_map x)) [
          | inr (m, e') ↦ absurd (omega (arith, w.from_lt x m e'))
          | inl e' ↦ rw (e, e')
        ]
      ]

  abbrev Missed : ℕ → List ℕ → Unit {0} → Type 0
  Missed target visited s = mem target visited ≡ false

  Visit-keep :
      (a target x : ℕ) (visited : List ℕ) (s : Unit {0})
      → Searched c a x
      → mem x visited ≡ false
      → Missed target visited s
      → Visit (Missed target) (λ _. Searched c a target) (x ∷ visited) (stop_at target x s)
  Visit-keep a target x visited s r new p = elim (Bool-cases (x == target)) [
    | inl hit ↦ let e : x ≡ target = ground arith in rw (hit, stop_at) (stops (rw e at r))
    | inr miss ↦ rw (miss, stop_at) (goes (ground arith))
  ]

  decide :
      (a target : ℕ) (o : Outcome ℕ (Unit {0}))
      → Post (neighbours c) (a ∷ []) (Missed target) (λ _. Searched c a target) o
      → (is_stopped o ≡ true) ↔ Searched c a target
  decide a target (finished visited s) (all_visited p iff) =
      (λ h. cc, λ r. ground (arith, (iff target).1 r))
  decide a target (stopped s) (left_early q) = (λ h. q, λ r. refl)
  decide a target out_of_fuel p = elim p [ ]

  pub check_node_connectivity_iff :
      (a b : ℕ) → (check_node_connectivity (some a) (some b) c ≡ true) ↔ Connected c a b
  unfolding check_node_connectivity
  check_node_connectivity_iff a b =
      via
        (decide a b _ (
          run-Post (neighbours c) (stop_at b) (below c.next) (a ∷ []) (Missed b)
            (λ _. Searched c a b) neighbours-Covers (Visit-keep a b) (search_fuel c a) tt
            (omega arith) refl))
        (Searched-Connected c a b)
    where
      via : {P Q R : Type 0} → (P ↔ Q) → (Q ↔ R) → P ↔ R
      via h k = ground arith
