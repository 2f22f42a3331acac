-- ===== src/Cha/Hierarchy.antt =====
-- `doFinalization`: the class hierarchy by class names.
use tfa_project.Common.{
  ◌≡◌, ◌↔◌, ◌⊎◌, refl, inl, inr, Bool, true, ◌||◌, ◌&&◌, Option, none, some, List, [], ◌∷◌, mem,
  mem-insert, insert, update, nat_eq, list_eq, pair_eq, ◌==◌, arith, Option-cases, Eq, sym, ap, ◌∙◌,
}
use mathlib.Core.Option
use tfa_project.Common.Text.{Text}
use tfa_project.Common.Tables.{Table}
use tfa_project.Cha.{Classes}
use tfa_project.Cha.Collect.{class_of, add_derived, add_classes, do_finalization}

mem-update-insert {ℓ κ} :
    {K : Type ℓ} {A : Type κ} ⦃e : Eq K⦄ ⦃f : Eq A⦄ (m : K → List A) (k j : K) (a b : A)
    → mem b (update m k (insert a (m k)) j) ≡ (mem b (m j) || (j == k && b == a))
mem-update-insert ⦃e⦄ ⦃f⦄ m k j a b = ground (arith, mem-insert b a (m k), e.beq_iff j k)

mem-cons_iff {ℓ} :
    {A : Type ℓ} ⦃e : Eq A⦄ (a b : A) (xs : List A)
    → (mem a (b ∷ xs) ≡ true) ↔ ((a ≡ b) ⊎ (mem a xs ≡ true))
mem-cons_iff ⦃e⦄ a b xs = ground (arith, e.beq_iff a b)

-- One of `ds` has the class name `d`.
pub DerivedClass : Classes → List Text → Text → Type 0
DerivedClass c ds d = (x : Text) × (mem x ds ≡ true) × (class_of c x ≡ some d)

DerivedClass-nil : (c : Classes) (d : Text) → DerivedClass c [] d → ⊥
unfolding DerivedClass
DerivedClass-nil c d (x, at, e) = cc

DerivedClass-cons :
    (c : Classes) (x : Text) (ds : List Text) (d : Text)
    → DerivedClass c (x ∷ ds) d ↔ ((class_of c x ≡ some d) ⊎ DerivedClass c ds d)
unfolding DerivedClass
DerivedClass-cons c x ds d = (
  λ (y, at, e). elim ((mem-cons_iff y x ds).0 at) [
    | inl same ↦ inl (rw (← same) e)
    | inr at' ↦ inr (y, at', e)
  ],
  λ h. elim h [
    | inl e ↦ (x, (mem-cons_iff x x ds).1 (inl refl), e)
    | inr (y, at, e) ↦ (y, (mem-cons_iff y x ds).1 (inr at), e)
  ],
)

-- A write to the hierarchy leaves the classes of names.
DerivedClass-write :
    (c : Classes) (m : Text → List Text) (ds : List Text) (d : Text)
    → DerivedClass (record c { class_hierarchy_map = m }) ds d ↔ DerivedClass c ds d
unfolding DerivedClass
DerivedClass-write c m ds d = (λ h. h, λ h. h)

some_iff {ℓ} : {A : Type ℓ} (a b : A) → (some a ≡ some b) ↔ (b ≡ a)
some_iff a b = (λ h. sym (Option.some-injective a b h), λ h. rw h refl)

add_derived-class_of :
    (vt : Text) (ds : List Text) (c : Classes) (x : Text)
    → class_of (add_derived vt ds c) x ≡ class_of c x
unfolding add_derived
add_derived-class_of vt [] c x = refl
add_derived-class_of vt (y ∷ ds) c x = elim (Option-cases (class_of c y)) [
  | inl e ↦ rw (e, add_derived) (add_derived-class_of vt ds c x)
  | inr (cls, e) ↦ rw (e, add_derived) (add_derived-class_of vt ds _ x)
]

-- The two steps of the induction, on propositions.
skip_step {ℓ} : {M N S D D' : Type ℓ} → (M ↔ (N ⊎ S × D)) → (D' ↔ (⊥ ⊎ D)) → M ↔ (N ⊎ S × D')
skip_step h k = ground arith

add_step {ℓ} :
    {M N N' S D D' E : Type ℓ}
    → (M ↔ (N' ⊎ S × D))
    → (N' ↔ (N ⊎ S × E))
    → (D' ↔ (E ⊎ D))
    → M ↔ (N ⊎ S × D')
add_step h k l = ground arith

no_class {ℓ κ λ'} :
    {A : Type ℓ} {D : Type κ} {D' : Type λ'} (o : Option A) (a : A)
    → o ≡ none
    → (D' ↔ ((o ≡ some a) ⊎ D))
    → D' ↔ (⊥ ⊎ D)
no_class o a e h = (
  λ d. elim (h.0 d) [ inl x ↦ cc | inr y ↦ inr y ],
  λ d. elim d [ inl x ↦ elim x [ ] | inr y ↦ h.1 (inr y) ],
)

or_and_iff {ℓ κ} :
    {K : Type ℓ} {A : Type κ} ⦃e : Eq K⦄ ⦃f : Eq A⦄ (b : Bool) (j k : K) (x a : A)
    → ((b || (j == k && x == a)) ≡ true) ↔ ((b ≡ true) ⊎ (j ≡ k) × (some a ≡ some x))
or_and_iff ⦃e⦄ ⦃f⦄ b j k x a = ground (arith, some_iff a x, e.beq_iff j k, f.beq_iff x a)

written_iff :
    (c : Classes) (x vt cls found d : Text)
    → class_of c x ≡ some found
    → (mem d (update c.class_hierarchy_map vt (insert found (c.class_hierarchy_map vt)) cls) ≡ true)
      ↔ ((mem d (c.class_hierarchy_map cls) ≡ true) ⊎ (cls ≡ vt) × (class_of c x ≡ some d))
written_iff c x vt cls found d e =
    rw (e, mem-update-insert c.class_hierarchy_map vt cls found d)
      (or_and_iff (mem d (c.class_hierarchy_map cls)) cls vt d found)

add_derived_iff :
    (vt : Text) (ds : List Text) (c : Classes) (cls d : Text)
    → (mem d ((add_derived vt ds c).class_hierarchy_map cls) ≡ true)
      ↔ ((mem d (c.class_hierarchy_map cls) ≡ true) ⊎ (cls ≡ vt) × DerivedClass c ds d)
unfolding add_derived DerivedClass
add_derived_iff vt [] c cls d =
    (inl, λ h. elim h [ inl x ↦ x | inr (e, x) ↦ elim (DerivedClass-nil c d x) [ ] ])
add_derived_iff vt (x ∷ ds) c cls d = elim (Option-cases (class_of c x)) [
  | inl e ↦
      rw (e, add_derived)
        (skip_step (add_derived_iff vt ds c cls d)
          (no_class (class_of c x) d e (DerivedClass-cons c x ds d)))
  | inr (found, e) ↦
      rw (e, add_derived)
        (add_step (add_derived_iff vt ds _ cls d) (written_iff c x vt cls found d e)
          (DerivedClass-cons c x ds d))
]

-- A row of `rows` has a base with the class name `cls` and a derived class with the name `d`.
pub Related : Classes → Table Text Text → Text → Text → Type 0
Related c rows cls d =
    (base : Text) × (ds : List Text) × (mem (base, ds) rows ≡ true)
    × (class_of c base ≡ some cls)
    × DerivedClass c ds d

Related-cons :
    (c : Classes) (base : Text) (ds : List Text) (rows : Table Text Text) (cls d : Text)
    → Related c ((base, ds) ∷ rows) cls d
      ↔ (((class_of c base ≡ some cls) × DerivedClass c ds d) ⊎ Related c rows cls d)
unfolding Related
Related-cons c base ds rows cls d = (
  λ (b, es, at, e, x). elim ((mem-cons_iff (b, es) (base, ds) rows).0 at) [
    | inl same ↦ inl (rw (← ap (λ p. p.0) same) e, rw (← ap (λ p. p.1) same) x)
    | inr at' ↦ inr (b, es, at', e, x)
  ],
  λ h. elim h [
    | inl (e, x) ↦ (base, ds, (mem-cons_iff (base, ds) (base, ds) rows).1 (inl refl), e, x)
    | inr (b, es, at, e, x) ↦ (b, es, (mem-cons_iff (b, es) (base, ds) rows).1 (inr at), e, x)
  ],
)

-- Names keep their classes, so relations are kept.
Related-same :
    (c e : Classes) (rows : Table Text Text) (cls d : Text)
    → ((x : Text) → class_of e x ≡ class_of c x)
    → Related e rows cls d
    → Related c rows cls d
unfolding Related DerivedClass
Related-same c e rows cls d same (base, ds, at, b, (x, at', y)) =
    (base, ds, at, sym (same base) ∙ b, (x, at', sym (same x) ∙ y))

Related-nil : (c : Classes) (cls d : Text) → Related c [] cls d → ⊥
unfolding Related
Related-nil c cls d (base, ds, at, e, x) = cc

rows_step {ℓ} :
    {M N N' S X D Q R R' : Type ℓ}
    → (M ↔ (N' ⊎ Q))
    → (N' ↔ (N ⊎ S × D))
    → (Q ↔ R)
    → (S ↔ X)
    → (R' ↔ ((X × D) ⊎ R))
    → M ↔ (N ⊎ R')
rows_step h k l m n = ground arith

no_row {ℓ} :
    {A M N D R R' : Type ℓ} (o : Option A) (a : A)
    → o ≡ none
    → (M ↔ (N ⊎ R))
    → (R' ↔ (((o ≡ some a) × D) ⊎ R))
    → M ↔ (N ⊎ R')
no_row o a e h k = (
  λ m. elim (h.0 m) [ inl x ↦ inl x | inr y ↦ inr (k.1 (inr y)) ],
  λ n. elim n [
    | inl x ↦ h.1 (inl x)
    | inr y ↦ elim (k.0 y) [ inl (z, w) ↦ cc | inr r ↦ h.1 (inr r) ]
  ],
)

class_iff {ℓ} : {A : Type ℓ} (o : Option A) (vt cls : A) → o ≡ some vt → (cls ≡ vt) ↔ (o ≡ some cls)
class_iff o vt cls e =
    (λ h. e ∙ ap some (sym h), λ h. sym (Option.some-injective vt cls (sym e ∙ h)))

add_classes_iff :
    (rows : Table Text Text) (c : Classes) (cls d : Text)
    → (mem d ((add_classes rows c).class_hierarchy_map cls) ≡ true)
      ↔ ((mem d (c.class_hierarchy_map cls) ≡ true) ⊎ Related c rows cls d)
unfolding add_classes
add_classes_iff [] c cls d =
    (inl, λ h. elim h [ inl x ↦ x | inr r ↦ elim (Related-nil c cls d r) [ ] ])
add_classes_iff ((base, ds) ∷ rows) c cls d = elim (Option-cases (class_of c base)) [
  | inl e ↦
      rw (e, add_classes)
        (no_row (class_of c base) cls e (add_classes_iff rows c cls d)
          (Related-cons c base ds rows cls d))
  | inr (vt, e) ↦
      let same = add_derived-class_of vt ds c in
      rw (e, add_classes)
        (rows_step (add_classes_iff rows (add_derived vt ds c) cls d)
          (add_derived_iff vt ds c cls d)
          (
            Related-same c (add_derived vt ds c) rows cls d same,
            Related-same (add_derived vt ds c) c rows cls d (λ x. sym (same x)),
          )
          (class_iff (class_of c base) vt cls e) (Related-cons c base ds rows cls d))
]

-- The classes of the hierarchy that end up under a class name are those that were there and the class
-- names of the recorded derived classes of the bases with that class name.
pub do_finalization_iff :
    (c : Classes) (cls d : Text)
    → (mem d ((do_finalization c).class_hierarchy_map cls) ≡ true)
      ↔ ((mem d (c.class_hierarchy_map cls) ≡ true) ⊎ Related c c.child_class_map cls d)
unfolding do_finalization
do_finalization_iff c cls d = add_classes_iff c.child_class_map c cls d
