-- ===== src/Cha/Inverse.antt =====
-- The maps of base and derived classes stay inverse to each other.
use tfa_project.Common.{
  sym, ap, ◌∙◌, ◌≡◌, refl, inl, inr, ◌||◌, ◌&&◌, not, List, [], ◌∷◌, ◌++◌, mem, mem-append, nat_eq,
  list_eq, ◌==◌, arith, Bool-cases, List-cases, Eq, update,
}
use mathlib.Core.Bool.{and_comm}
use tfa_project.Common.Text.{Text, codes, starts_with, is_empty}
use tfa_project.Common.Tables.{Table, get}
use tfa_project.Cha.{Global, Classes, Names, push}
use tfa_project.Cha.Collect.{
  collect_bases, collect_relations, build_vtable, do_initialization, name_global, get_class_name,
  tables_of,
}

-- A class is recorded as a base of another just when the other is recorded as derived from it.
unfoldable pub Inverse : Classes → Type 0
Inverse c =
    (base name : Text) → mem base (c.parent_class_map name) ≡ mem name (get c.child_class_map base)

mem-push {ℓ} :
    {K : Type ℓ} ⦃e : Eq K⦄ (t : Table K K) (key x k y : K)
    → mem y (get (push t key x) k) ≡ (mem y (get t k) || (k == key && y == x))
unfolding push
mem-push ⦃e⦄ [] key x k y = ground (arith, e.beq_iff k key)
mem-push ⦃e⦄ ((j, xs) ∷ rows) key x k y = ground (
  arith,
  mem-push rows key x k y,
  mem-append y xs (x ∷ []),
  e.beq_iff key j,
  e.beq_iff k j,
  e.beq_iff k key,
)

-- A write to both maps, generically.
mem-append_at {ℓ} :
    {K : Type ℓ} ⦃e : Eq K⦄ (m : K → List K) (key x k y : K)
    → mem y (update m key (m key ++ x ∷ []) k) ≡ (mem y (m k) || (k == key && y == x))
mem-append_at ⦃e⦄ m key x k y = ground (arith, mem-append y (m key) (x ∷ []), e.beq_iff k key)

collect_bases-Inverse :
    (name : Text) (bases : List Text) (c : Classes)
    → Inverse c
    → Inverse (collect_bases name bases c)
unfolding collect_bases Inverse
collect_bases-Inverse name [] c inv = inv
collect_bases-Inverse name (base ∷ bases) c inv =
    elim (Bool-cases (starts_with (codes "_ZTI") base)) [
      | inr e ↦ rw (e, collect_bases) (collect_bases-Inverse name bases c inv)
      | inl e ↦
          rw (e, collect_bases)
            (collect_bases-Inverse name bases _ (λ b n.
              mem-append_at c.parent_class_map name base n b
              ∙ ap (λ t. t || (n == name && b == base)) (inv b n)
              ∙ ap (λ t. mem n (get c.child_class_map b) || t) (and_comm (n == name) (b == base))
              ∙ sym (mem-push c.child_class_map base name b n)))
    ]

collect_relations-Inverse :
    (gv : Global) (c : Classes) → Inverse c → Inverse (collect_relations gv c)
unfolding collect_relations Inverse
collect_relations-Inverse gv c inv =
    elim (Bool-cases (starts_with (codes "_ZTI") gv.name && gv.has_aggregate)) [
      | inl e ↦
          rw (e, collect_relations) (collect_bases-Inverse gv.name gv.bases (name_global gv c) inv)
      | inr e ↦ rw (e, collect_relations) inv
    ]

module _ (names : Names) where
  -- The table of a class touches neither map.
  build_vtable-same :
      (gv : Global) (c : Classes)
      → ((build_vtable names gv c).parent_class_map ≡ c.parent_class_map)
        × ((build_vtable names gv c).child_class_map ≡ c.child_class_map)
  unfolding build_vtable
  build_vtable-same gv c =
      elim (Bool-cases (starts_with (codes "_ZTV") gv.name && gv.has_aggregate)) [
        | inr e ↦ rw (e, build_vtable) (refl, refl)
        | inl e ↦
            elim (Bool-cases (not gv.is_struct || is_empty (get_class_name names gv.stores []))) [
              | inl e' ↦ rw (e, e', build_vtable) (refl, refl)
              | inr e' ↦ elim (List-cases (tables_of gv.arrays)) [
                | inl n ↦ rw (e, e', n, build_vtable) (refl, refl)
                | inr (t, ts, n) ↦ rw (e, e', n, build_vtable) (refl, refl)
              ]
            ]
      ]

  -- When a class is recorded as a base of another just when the other is recorded as derived from
  -- it, this still holds after the global variables of a module are read.
  pub do_initialization-Inverse :
      (gvs : List Global) (c : Classes) → Inverse c → Inverse (do_initialization names gvs c)
  unfolding do_initialization Inverse
  do_initialization-Inverse [] c inv = inv
  do_initialization-Inverse (gv ∷ gvs) c inv =
      let (parents, children) = build_vtable-same gv (collect_relations gv c) in
      do_initialization-Inverse gvs _
        (λ b n. rw (parents, children) (collect_relations-Inverse gv c inv b n))
