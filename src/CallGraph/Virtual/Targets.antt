-- ===== src/CallGraph/Virtual/Targets.antt =====
-- What one class offers to a virtual call: the functions of its table under the names of the methods,
-- and the classes that the search goes on with.
use tfa_project.Common.{
  ℕ, ◌≡◌, ◌↔◌, ◌⊎◌, inl, inr, refl, Bool, true, false, some, List, [], ◌∷◌, mem, mem-union, list_eq,
  Eq, ap, ◌||◌, Option-cases, nat_eq, Bool-cases, arith,
}
use mathlib.Core.Option
use tfa_project.Common.Text.{Text}
use tfa_project.CallGraph.Virtual.{
  ℤ, Classes, derived_in, next_classes, only_functions, functions_of, class_targets,
}

pub mem-cons_iff {ℓ} :
    {A : Type ℓ} ⦃e : Eq A⦄ (a b : A) (xs : List A)
    → (mem a (b ∷ xs) ≡ true) ↔ ((a ≡ b) ⊎ (mem a xs ≡ true))
mem-cons_iff ⦃e⦄ a b xs = ground (arith, e.beq_iff a b)

module _ (classes : Classes) (is_function : ℕ → Bool) where
  -- The class has methods by index and a table by name.
  pub HasTable : Text → (Text → List ℕ) → Type 0
  HasTable c table =
      ((index : ℤ → List Text) × (classes.method_index_map c ≡ some index))
      × (classes.vtable_map c ≡ some table)

  -- The function is in the table of the class under the name of one of the methods.
  pub Target : List Text → Text → ℕ → Type 0
  Target methods c f =
      (table : Text → List ℕ) × HasTable c table
      × ((method : Text) × (mem method methods ≡ true) × (mem f (table method) ≡ true))
      × (is_function f ≡ true)

  mem-only_functions :
      (f : ℕ) (vs : List ℕ)
      → (mem f (only_functions classes is_function vs) ≡ true)
        ↔ ((mem f vs ≡ true) × (is_function f ≡ true))
  mem-only_functions f [] = (λ h. cc, λ (h, _). h)
  mem-only_functions f (v ∷ vs) = ground (arith, mem-only_functions f vs, nat_eq.beq_iff f v)

  functions_of_iff :
      (table : Text → List ℕ) (methods : List Text) (f : ℕ)
      → (mem f (functions_of classes is_function table methods) ≡ true) ↔ (
          ((method : Text) × (mem method methods ≡ true) × (mem f (table method) ≡ true))
          × (is_function f ≡ true))
  functions_of_iff table [] f = (λ h. cc, λ ((method, at, _), _). cc)
  functions_of_iff table (m ∷ ms) f =
      let rest = functions_of_iff table ms f in
      let own = mem-only_functions f (table m) in
      let joined =
        mem-union f (functions_of classes is_function table ms)
          (only_functions classes is_function (table m)) in
      (
        λ h. elim (Bool-cases (mem f (functions_of classes is_function table ms))) [
          | inl old ↦
              let ((method, at, found), fn) = rest.0 old in
              ((method, (mem-cons_iff method m ms).1 (inr at), found), fn)
          | inr fresh ↦
              let (found, fn) = own.0 (right_of joined h fresh) in
              ((m, (mem-cons_iff m m ms).1 (inl refl), found), fn)
        ],
        λ ((method, at, found), fn). elim ((mem-cons_iff method m ms).0 at) [
          | inl same ↦
              from_right (mem f (functions_of classes is_function table ms)) joined
                (own.1 (rw (← ap table same) found, fn))
          | inr later ↦
              from_left (mem f (only_functions classes is_function (table m))) joined
                (rest.1 ((method, later, found), fn))
        ],
      )
    where
      right_of : {b d e : Bool} → b ≡ (d || e) → b ≡ true → d ≡ false → e ≡ true
      right_of h k l = ground arith

      from_right : (d : Bool) {b e : Bool} → b ≡ (d || e) → e ≡ true → b ≡ true
      from_right d h k = ground arith

      from_left : (e : Bool) {b d : Bool} → b ≡ (d || e) → d ≡ true → b ≡ true
      from_left e h k = ground arith

  pub class_targets_iff :
      (methods : List Text) (c : Text) (f : ℕ)
      → (mem f (class_targets classes is_function methods c) ≡ true) ↔ Target methods c f
  unfolding class_targets Target HasTable
  class_targets_iff methods c f = elim (Option-cases (classes.method_index_map c)) [
    | inl e ↦ rw (e, class_targets) (λ h. cc, λ (table, ((index, at), _), _, _). cc)
    | inr (index, e) ↦ elim (Option-cases (classes.vtable_map c)) [
      | inl e' ↦ rw (e, e', class_targets) (λ h. cc, λ (table, (_, at), _, _). cc)
      | inr (table, e') ↦
          let named = functions_of_iff table methods f in
          rw (e, e', class_targets)
            (
              λ h. let (found, fn) = named.0 h in (table, ((index, refl), refl), found, fn),
              λ (table', (_, at), found, fn).
                  named.1 (rw (Option.some-injective table table' at) (found, fn)),
            )
    ]
  ]

  pub next_classes_iff :
      (c d : Text)
      → (mem d (next_classes classes is_function c) ≡ true) ↔ (
          ((table : Text → List ℕ) × HasTable c table)
          × (mem d (derived_in classes.hierarchy_map c) ≡ true))
  unfolding next_classes HasTable
  next_classes_iff c d = elim (Option-cases (classes.method_index_map c)) [
    | inl e ↦ rw (e, next_classes) (λ h. cc, λ ((table, ((index, at), _)), _). cc)
    | inr (index, e) ↦ elim (Option-cases (classes.vtable_map c)) [
      | inl e' ↦ rw (e, e', next_classes) (λ h. cc, λ ((table, (_, at)), _). cc)
      | inr (table, e') ↦
          rw (e, e', next_classes) (λ h. ((table, ((index, refl), refl)), h), λ (_, h). h)
    ]
  ]
