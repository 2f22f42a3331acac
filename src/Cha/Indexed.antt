-- ===== src/Cha/Indexed.antt =====
-- The methods of the virtual tables: a name that is found under an index has a function, and where
-- the search for the name of a pure virtual method reads past the end of a vector.
use tfa_project.Common.{
  sym, ap, ◌∙◌, ℕ, suc, ◌≡◌, ◌⊎◌, refl, inl, inr, true, ◌&&◌, not, Option, none, some, List, [],
  ◌∷◌, insert, mem, mem-insert, nat_eq, list_eq, ◌==◌, arith, Bool-cases, update, drop, Eq,
}
use tfa_project.Common.Text.{Text, codes, starts_with, is_empty}
use tfa_project.Common.Tables.{get}
use tfa_project.Cha.{Slot, func_slot, alias_slot, other_slot, Global, Classes, Names, with_prefix}
use tfa_project.Cha.Collect.{get_class_name}
use tfa_project.Cha.Methods.{
  Lookup, named, past_end, Tried, go_on, answer, try_bases, try_tables, try_derived, try_all,
  get_method_name_of_pure_virtual_call, slot_name, add_method, map_slots, map_arrays, map_vtable,
  do_module_pass,
}

-- Every method name under an index of a class has a function in the class's table.
unfoldable pub Indexed : Classes → Type 0
Indexed c =
    (cls : Text) (k : ℕ) (m : Text)
    → mem m (c.method_index_map cls k) ≡ true
    → (f : ℕ) × (mem f (c.vtable_map cls m) ≡ true)

-- Two-level updates, generically.
mem-add {ℓ κ} :
    {K : Type ℓ} {J : Type κ} ⦃e : Eq K⦄ ⦃d : Eq J⦄ (t : K → J → List ℕ) (k : K) (j : J) (f : ℕ)
    (k' : K) (j' : J) (x : ℕ)
    → mem x (t k' j') ≡ true
    → mem x (update t k (update (t k) j (insert f (t k j))) k' j') ≡ true
mem-add ⦃e⦄ ⦃d⦄ t k j f k' j' x h =
    ground (arith, mem-insert x f (t k j), e.beq_iff k' k, d.beq_iff j' j)

mem-added {ℓ κ} :
    {K : Type ℓ} {J : Type κ} ⦃e : Eq K⦄ ⦃d : Eq J⦄ (t : K → J → List ℕ) (k : K) (j : J) (f : ℕ)
    → mem f (update t k (update (t k) j (insert f (t k j))) k j) ≡ true
mem-added ⦃e⦄ ⦃d⦄ t k j f = ground (arith, mem-insert f f (t k j), e.beq_iff k k, d.beq_iff j j)

mem-index_inv {ℓ κ} :
    {K : Type ℓ} {M : Type κ} ⦃e : Eq K⦄ ⦃d : Eq M⦄ (t : K → ℕ → List M) (k : K) (j : ℕ) (m : M)
    (k' : K) (j' : ℕ) (x : M)
    → mem x (update t k (update (t k) j (insert m (t k j))) k' j') ≡ true
    → (mem x (t k' j') ≡ true) ⊎ (k' ≡ k) × (x ≡ m)
mem-index_inv ⦃e⦄ ⦃d⦄ t k j m k' j' x h =
    ground (arith, mem-insert x m (t k j), e.beq_iff k' k, d.beq_iff x m)

module _ (names : Names) where
  add_method-Indexed :
      (cls : Text) (i f : ℕ) (m : Text) (c : Classes)
      → Indexed c
      → Indexed (add_method names cls i f m c)
  unfolding Indexed
  add_method-Indexed cls i f m c inv cls' k x h =
      elim (mem-index_inv c.method_index_map cls i m cls' k x h) [
        | inl old ↦ let (g, at) = inv cls' k x old in (g, mem-add c.vtable_map cls m f cls' x g at)
        | inr (same_cls, same) ↦ (f, rw (same_cls, same) (mem-added c.vtable_map cls m f))
      ]

  try_derived-add_method :
      (cls : Text) (k f : ℕ) (m : Text) (c : Classes) (class_type : Text) (i : ℕ) (derived : Text)
      → try_derived names (add_method names cls k f m c) class_type i derived
        ≡ try_derived names c class_type i derived
  unfolding try_derived try_tables try_bases
  try_derived-add_method cls k f m c class_type i derived = refl

  try_all-add_method :
      (cls : Text) (k f : ℕ) (m : Text) (c : Classes) (class_type : Text) (i : ℕ) (ds : List Text)
      → try_all names (add_method names cls k f m c) class_type i ds
        ≡ try_all names c class_type i ds
  unfolding try_all
  try_all-add_method cls k f m c class_type i [] = refl
  try_all-add_method cls k f m c class_type i (d ∷ ds) =
      ap (next_or (try_all names (add_method names cls k f m c) class_type i ds))
        (try_derived-add_method cls k f m c class_type i d)
      ∙ ap (λ rest. next_or rest (try_derived names c class_type i d))
          (try_all-add_method cls k f m c class_type i ds)
    where
      next_or : Lookup → Tried → Lookup
      next_or rest go_on = rest
      next_or rest (answer r) = r

  -- The search for the name of a pure virtual method does not read the methods.
  search-add_method :
      (cls : Text) (k f : ℕ) (m : Text) (c : Classes) (vtable_name : Text) (i : ℕ)
      → get_method_name_of_pure_virtual_call names (add_method names cls k f m c) vtable_name i
        ≡ get_method_name_of_pure_virtual_call names c vtable_name i
  unfolding get_method_name_of_pure_virtual_call
  search-add_method cls k f m c vtable_name i =
      try_all-add_method cls k f m c (with_prefix (codes "_ZTI") vtable_name) i
        (get c.child_class_map (with_prefix (codes "_ZTI") vtable_name))

-- `start` is the state at the beginning.
module _ (names : Names) (start : Classes) where
  -- The methods are indexed, and searches answer as at the start.
  unfoldable pub Kept : Classes → Type 0
  Kept c =
      Indexed c
      × ((vtable_name : Text) (i : ℕ)
          → get_method_name_of_pure_virtual_call names c vtable_name i
            ≡ get_method_name_of_pure_virtual_call names start vtable_name i)

  -- A search for a pure virtual method that reads past the end.
  abbrev pub Overrun : Type 0
  Overrun =
      (vtable_name : Text) × (i : ℕ) × (get_method_name_of_pure_virtual_call names start vtable_name
          i
        ≡ past_end)

  -- A step returns and keeps this, or reads past the end.
  abbrev pub Maps : Option Classes → Type 0
  Maps o = ((d : Classes) × (o ≡ some d) × Kept d) ⊎ (o ≡ none) × Overrun

  add_method-Kept :
      (cls : Text) (i f : ℕ) (m : Text) (c : Classes) → Kept c → Kept (add_method names cls i f m c)
  unfolding Kept
  add_method-Kept cls i f m c (inv, same) = (
    add_method-Indexed names cls i f m c inv,
    λ vtable_name j. search-add_method names cls i f m c vtable_name j ∙ same vtable_name j,
  )

  slot_name-Overrun :
      (gv : Global) (c : Classes) (i f : ℕ) → Kept c → slot_name names gv c i f ≡ past_end → Overrun
  unfolding slot_name Kept
  slot_name-Overrun gv c i f (inv, same) h =
      elim (Bool-cases (names.func_name f == codes "__cxa_pure_virtual")) [
        | inl e ↦ (gv.name, i, sym (same gv.name i) ∙ (rw (e, slot_name) at h))
        | inr e ↦ cc (rw (e, slot_name) at h)
      ]

  Lookup-cases :
      (l : Lookup)
      → (l ≡ past_end) ⊎ (l ≡ named []) ⊎ ((m : ℕ) × (ms : Text) × (l ≡ named (m ∷ ms)))
  Lookup-cases past_end = inl refl
  Lookup-cases (named []) = inr (inl refl)
  Lookup-cases (named (m ∷ ms)) = inr (inr (m, ms, refl))

  map_slots-Maps :
      (gv : Global) (cls : Text) (i : ℕ) (slots : List Slot) (c : Classes)
      → Kept c
      → Maps (map_slots names gv cls i slots c)
  unfolding map_slots
  map_slots-Maps gv cls i [] c inv = inl (c, refl, inv)
  map_slots-Maps gv cls i (alias_slot f ∷ slots) c inv = map_slots-Maps gv cls i slots c inv
  map_slots-Maps gv cls i (other_slot ∷ slots) c inv = map_slots-Maps gv cls i slots c inv
  map_slots-Maps gv cls i (func_slot f ∷ slots) c inv =
      elim (Lookup-cases (slot_name names gv c i f)) [
        | inl e ↦ rw (e, map_slots) (inr (refl, slot_name-Overrun gv c i f inv e))
        | inr (inl e) ↦ rw (e, map_slots) (map_slots-Maps gv cls i slots c inv)
        | inr (inr (m, ms, e)) ↦
            rw (e, map_slots)
              (map_slots-Maps gv cls (suc i) slots _ (add_method-Kept cls i f (m ∷ ms) c inv))
      ]

  map_arrays-Maps :
      (gv : Global) (cls : Text) (arrays : List (Option (List Slot))) (c : Classes)
      → Kept c
      → Maps (map_arrays names gv cls arrays c)
  unfolding map_arrays
  map_arrays-Maps gv cls [] c inv = inl (c, refl, inv)
  map_arrays-Maps gv cls (none ∷ arrays) c inv = map_arrays-Maps gv cls arrays c inv
  map_arrays-Maps gv cls (some slots ∷ arrays) c inv =
      elim (map_slots-Maps gv cls 0 (drop 2 slots) c inv) [
        | inl (d, ran, inv') ↦ rw (ran, map_arrays) (map_arrays-Maps gv cls arrays d inv')
        | inr (ran, over) ↦ rw (ran, map_arrays) (inr (refl, over))
      ]

  map_vtable-Maps : (gv : Global) (c : Classes) → Kept c → Maps (map_vtable names gv c)
  unfolding map_vtable
  map_vtable-Maps gv c inv =
      elim (Bool-cases (
        starts_with (codes "_ZTV") gv.name
        && (gv.has_aggregate && gv.is_struct)
        && not (is_empty (get_class_name names gv.stores [])))) [
          | inl e ↦ rw (e, map_vtable) (map_arrays-Maps gv _ gv.arrays c inv)
          | inr e ↦ rw (e, map_vtable) (inl (c, refl, inv))
        ]

  run_pass-Maps : (gvs : List Global) (c : Classes) → Kept c → Maps (do_module_pass names gvs c)
  unfolding do_module_pass
  run_pass-Maps [] c inv = inl (c, refl, inv)
  run_pass-Maps (gv ∷ gvs) c inv = elim (map_vtable-Maps gv c inv) [
    | inl (d, ran, inv') ↦ rw (ran, do_module_pass) (run_pass-Maps gvs d inv')
    | inr (ran, over) ↦ rw (ran, do_module_pass) (inr (refl, over))
  ]

-- When every method name under an index of a class has a function in the class's table, reading the
-- tables of a module returns, keeps this and leaves the answers of all searches for pure virtual
-- methods, or some search in the given state reads past the end of a vector.
pub do_module_pass-Maps :
    (names : Names) (gvs : List Global) (c : Classes)
    → Indexed c
    → Maps names c (do_module_pass names gvs c)
unfolding Kept
do_module_pass-Maps names gvs c inv = run_pass-Maps names c gvs c (inv, λ vtable_name i. refl)
