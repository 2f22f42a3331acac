-- ===== src/Cha/Bounds.antt =====
-- Where `getMethodNameOfPureVirtualCall` reads past the end of a vector: its test `index > size` lets
-- an index through that equals the size.
use tfa_project.Common.{
  ℕ, zero, suc, ◌+◌, ◌<◌, ◌≤◌, ◌≡◌, ◌↔◌, ◌⊎◌, refl, inl, inr, true, false, none, some, List, [],
  ◌∷◌, mem, nat_eq, list_eq, ◌==◌, arith, Bool-cases, Option-cases, ltb, get_elem?, length, Eq,
  beq_refl,
}
use mathlib.Core.Option
use tfa_project.Common.Text.{Text, codes}
use tfa_project.Common.Tables.{get}
use tfa_project.Cha.{Classes, Names, with_prefix}
use tfa_project.Cha.Methods.{
  Lookup, past_end, Tried, go_on, answer, index_of_base, tail_name, try_name, try_method, try_bases,
  try_tables, try_derived, try_all, get_method_name_of_pure_virtual_call,
}

get_elem?-none {ℓ} : {A : Type ℓ} (xs : List A) (i : ℕ) → get_elem? xs i ≡ none → length xs ≤ i
get_elem?-none [] i h = omega arith
get_elem?-none (x ∷ xs) zero h = cc
get_elem?-none (x ∷ xs) (suc i) h = omega (arith, get_elem?-none xs i h)

mem_later {ℓ} :
    {A : Type ℓ} ⦃e : Eq A⦄ (a b : A) (xs : List A) → mem a xs ≡ true → mem a (b ∷ xs) ≡ true
mem_later a b xs h = ground arith

get_elem?-end {ℓ} : {A : Type ℓ} (xs : List A) → get_elem? xs (length xs) ≡ none
get_elem?-end [] = refl
get_elem?-end (x ∷ xs) = get_elem?-end xs

index_of_base_lt :
    (i j : ℕ) (bases : List Text) (name : Text)
    → index_of_base i bases name ≡ some j
    → j < i + length bases
unfolding index_of_base
index_of_base_lt i j [] name h = cc
index_of_base_lt i j (base ∷ bases) name h = elim (Bool-cases (base == name)) [
  | inl e ↦ let same = Option.some-injective i j (rw e at h) in omega (arith, same)
  | inr e ↦ omega (arith, index_of_base_lt (suc i) j bases name (rw e at h))
]

module _ (names : Names) where
  try_name-past_end : (name : Text) → try_name names name ≡ answer past_end → ⊥
  try_name-past_end [] h = cc
  try_name-past_end (c ∷ cs) h = cc

  try_method-past_end :
      (name_of : ℕ → Text) (i : ℕ) (methods : List ℕ)
      → (try_method names name_of i methods ≡ answer past_end) ↔ (length methods ≡ i)
  unfolding try_method
  try_method-past_end name_of i methods = (
    λ h. elim (Bool-cases (ltb (length methods) i)) [
      | inl e ↦ cc (rw (e, try_method) at h)
      | inr e ↦ elim (Option-cases (get_elem? methods i)) [
        | inl n ↦ ground (arith, get_elem?-none methods i n)
        | inr (f, n) ↦ elim (try_name-past_end (name_of f) (rw (e, n, try_method) at h)) [ ]
      ]
    ],
    λ h.
        let inside : ltb (length methods) i ≡ false = ground arith in
        let ends : get_elem? methods i ≡ none = rw (← h) (get_elem?-end methods) in
        rw (inside, ends, try_method) refl,
  )

  -- One of the tables has exactly `i` methods.
  abbrev pub FullTable : ℕ → List (List ℕ) → Type 0
  FullTable i tables =
      (j : ℕ) × (methods : List ℕ) × (get_elem? tables j ≡ some methods) × (length methods ≡ i)

  try_bases-past_end :
      (c : Classes) (class_type derived_type : Text) (i : ℕ) (tables : List (List ℕ))
      → try_bases names c class_type derived_type i tables ≡ answer past_end
      → FullTable i tables
  unfolding try_bases
  try_bases-past_end c class_type derived_type i tables h =
      let bases = c.parent_class_map derived_type in
      elim (Bool-cases (length tables == length bases)) [
        | inr e ↦ cc (rw (e, try_bases) at h)
        | inl e ↦ elim (Option-cases (index_of_base 0 bases class_type)) [
          | inl n ↦ cc (rw (e, n, try_bases) at h)
          | inr (j, n) ↦ elim (Option-cases (get_elem? tables j)) [
            | inl none_there ↦
                let at_end = get_elem?-none tables j none_there in
                let before = index_of_base_lt 0 j bases class_type n in
                ground (arith, at_end, before)
            | inr (methods, m) ↦ (
              j,
              methods,
              m,
              (try_method-past_end (λ f. tail_name names (names.tail_callees f)) i methods).0
                  (rw (e, n, m, try_bases) at h),
            )
          ]
        ]
      ]

  try_tables-past_end :
      (c : Classes) (class_type derived_type : Text) (i : ℕ) (tables : List (List ℕ))
      → try_tables names c class_type derived_type i tables ≡ answer past_end
      → FullTable i tables
  unfolding try_tables
  try_tables-past_end c class_type derived_type i [] h =
      try_bases-past_end c class_type derived_type i [] h
  try_tables-past_end c class_type derived_type i (methods ∷ []) h =
      (0, methods, refl, (try_method-past_end names.cpp_func_name i methods).0 h)
  try_tables-past_end c class_type derived_type i (t ∷ u ∷ ts) h =
      try_bases-past_end c class_type derived_type i (t ∷ u ∷ ts) h

  -- A derived class whose tables hold one of exactly `i` methods.
  abbrev pub FullAt : Classes → ℕ → Text → Type 0
  FullAt c i derived =
      (vt : ℕ) × (tables : List (List ℕ)) × (c.global_name_gv_map
          (with_prefix (codes "_ZTV") derived)
        ≡ some vt)
      × (c.global_vtable_map vt ≡ some tables)
      × FullTable i tables

  try_derived-past_end :
      (c : Classes) (class_type : Text) (i : ℕ) (derived : Text)
      → try_derived names c class_type i derived ≡ answer past_end
      → FullAt c i derived
  unfolding try_derived
  try_derived-past_end c class_type i derived h =
      elim (Option-cases (c.global_name_gv_map (with_prefix (codes "_ZTV") derived))) [
        | inl e ↦ cc (rw (e, try_derived) at h)
        | inr (vt, e) ↦ elim (Option-cases (c.global_vtable_map vt)) [
          | inl n ↦ cc (rw (e, n, try_derived) at h)
          | inr (tables, n) ↦ (
            vt,
            tables,
            e,
            n,
            try_tables-past_end c class_type derived i tables (rw (e, n, try_derived) at h),
          )
        ]
      ]

  Tried-cases : (t : Tried) → (t ≡ go_on) ⊎ ((r : Lookup) × (t ≡ answer r))
  Tried-cases go_on = inl refl
  Tried-cases (answer r) = inr (r, refl)

  try_all-past_end :
      (c : Classes) (class_type : Text) (i : ℕ) (ds : List Text)
      → try_all names c class_type i ds ≡ past_end
      → (derived : Text) × (mem derived ds ≡ true) × FullAt c i derived
  unfolding try_all
  try_all-past_end c class_type i [] h = cc
  try_all-past_end c class_type i (d ∷ ds) h =
      elim (Tried-cases (try_derived names c class_type i d)) [
        | inl e ↦
            let (derived, at, full) = try_all-past_end c class_type i ds (rw (e, try_all) at h) in
            (derived, mem_later derived d ds at, full)
        | inr (r, e) ↦
            let ends : r ≡ past_end = rw (e, try_all) at h in
            (d, rw (beq_refl d) refl, try_derived-past_end c class_type i d (rw (← ends) e))
      ]

  -- When the search for the name of the pure virtual method number i reads past the end of a
  -- vector, some class derived from the class has a virtual table of exactly i methods: an index
  -- beyond the size never gets that far.
  pub get_method_name_of_pure_virtual_call-past_end :
      (c : Classes) (vtable_name : Text) (i : ℕ)
      → get_method_name_of_pure_virtual_call names c vtable_name i ≡ past_end
      → (derived : Text) × (mem derived
            (get c.child_class_map (with_prefix (codes "_ZTI") vtable_name))
          ≡ true)
        × FullAt c i derived
  unfolding get_method_name_of_pure_virtual_call
  get_method_name_of_pure_virtual_call-past_end c vtable_name i h =
      try_all-past_end c (with_prefix (codes "_ZTI") vtable_name) i
        (get c.child_class_map (with_prefix (codes "_ZTI") vtable_name)) h
