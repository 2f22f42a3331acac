-- ===== src/CallGraph/Virtual/Derived.antt =====
-- The targets of a virtual call are those of the classes that its class leads to.
use tfa_project.Common.{
  ℕ, ◌≡◌, ◌↔◌, ◌⊎◌, inl, inr, refl, Bool, true, false, none, some, List, [], ◌∷◌, mem, mem-union,
  list_eq, list_beq_iff, nat_eq, ◌==◌, Bool-cases, arith, union,
}
use tfa_project.Common.Text.{Text, is_empty}
use tfa_project.Worklist.{go, Outcome, finished, stopped, out_of_fuel, enough}
use tfa_project.Worklist.Reach.{Reach, here, step}
use tfa_project.Worklist.Correct.{Post, all_visited, left_early, goes, run-Post}
use tfa_project.CallGraph.Virtual.{
  ℤ, Classes, derived_in, parents_in, next_classes, class_targets, get_targets_in_derived_class,
}
use tfa_project.CallGraph.Virtual.Targets.{
  mem-cons_iff, HasTable, Target, class_targets_iff, next_classes_iff,
}

module _ (classes : Classes) (is_function : ℕ → Bool) (name : Text) (idx : ℤ) where
  -- A class that derivation leads to from the given one, through classes with methods and a table.
  pub data Visited : Text → Type 0 where
    itself : Visited name
    derived :
        {c d : Text} (table : Text → List ℕ)
        → Visited c
        → HasTable classes is_function c table
        → mem d (derived_in classes.hierarchy_map c) ≡ true
        → Visited d

  abbrev Walked : Text → Type 0
  Walked = Reach (next_classes classes is_function) (name ∷ [])

  Visited-of_Walked : (c : Text) → Walked c → Visited c
  Visited-of_Walked c (here m) = elim ((mem-cons_iff c name []).0 m) [
    | inl same ↦ rw same itself
    | inr at ↦ cc
  ]
  Visited-of_Walked c (step {x} w m) =
      let ((table, has), at) = (next_classes_iff classes is_function x c).0 m in
      derived table (Visited-of_Walked x w) has at

  Walked-of_Visited : (c : Text) → Visited c → Walked c
  Walked-of_Visited c itself = here ((mem-cons_iff name name []).1 (inl refl))
  Walked-of_Visited c (derived {c = x} table w has at) =
      step (Walked-of_Visited x w) ((next_classes_iff classes is_function x c).1 ((table, has), at))

  record Inv (methods : List Text) (fs : List ℕ) (visited : List Text) (found : List ℕ)
      : Type 0 where
    keeps : (f : ℕ) → mem f fs ≡ true → mem f found ≡ true
    sound :
        (f : ℕ)
        → mem f found ≡ true
        → (mem f fs ≡ true)
          ⊎ (c : Text) × Walked c × (mem f (class_targets classes is_function methods c) ≡ true)
    complete :
        (c : Text) (f : ℕ)
        → mem c visited ≡ true
        → mem f (class_targets classes is_function methods c) ≡ true
        → mem f found ≡ true

  Inv-Visit :
      (methods : List Text) (fs : List ℕ) (current : Text) (visited : List Text) (found : List ℕ)
      → Walked current
      → Inv methods fs visited found
      → Inv methods fs
          (current ∷ visited)
          (union found (class_targets classes is_function methods current))
  Inv-Visit methods fs current visited found r i = record {
    keeps = λ f m.
        ground (
          arith,
          i.keeps f m,
          mem-union f found (class_targets classes is_function methods current),
        );
    sound = λ f m. elim (Bool-cases (mem f found)) [
      | inl old ↦ i.sound f old
      | inr new ↦ inr (
        current,
        r,
        ground (arith, mem-union f found (class_targets classes is_function methods current)),
      )
    ];
    complete = λ c f m offers. elim (Bool-cases (c == current)) [
      | inl same ↦
          let q : c ≡ current = ground (arith, list_beq_iff c current) in
          let offers' = rw q at offers in
          ground (arith, mem-union f found (class_targets classes is_function methods current))
      | inr differs ↦ ground (
        arith,
        i.complete c f (ground arith) offers,
        mem-union f found (class_targets classes is_function methods current),
      )
    ];
  }

  derived_in-nil :
      (rows : List (Text × List Text)) (c : Text)
      → mem c (parents_in rows) ≡ false
      → derived_in rows c ≡ []
  derived_in-nil [] c h = refl
  derived_in-nil ((p, d) ∷ rows) c h = ground (arith, derived_in-nil rows c)

  next_classes-Covers :
      (c : Text)
      → mem c (parents_in classes.hierarchy_map) ≡ false
      → next_classes classes is_function c ≡ []
  unfolding next_classes
  next_classes-Covers c h = ground (arith, derived_in-nil classes.hierarchy_map c)

  search :
      (fs : List ℕ) (index : ℤ → List Text)
      → is_empty name ≡ false
      → classes.method_index_map name ≡ some index
      → (found : List ℕ) × (get_targets_in_derived_class classes is_function name idx fs
          ≡ some found)
        × ((f : ℕ)
            → (mem f found ≡ true) ↔ (
                (mem f fs ≡ true)
                ⊎ (c : Text) × Walked c
                  × (mem f (class_targets classes is_function (index idx) c) ≡ true)))
  unfolding get_targets_in_derived_class
  search fs index named methods =
      rw (named, methods, get_targets_in_derived_class)
        (result (
          run-Post (next_classes classes is_function)
            (λ current found.
              go (union found (class_targets classes is_function (index idx) current)))
            (parents_in classes.hierarchy_map) (name ∷ []) (Inv (index idx) fs) (λ s. true ≡ false)
            next_classes-Covers
            (λ c visited found r new i. goes (Inv-Visit (index idx) fs c visited found r i))
            (enough (next_classes classes is_function) (name ∷ [])
              (parents_in classes.hierarchy_map))
            fs (omega arith)
            record { keeps = λ f m. m; sound = λ f m. inl m; complete = λ c f m. cc }))
    where
      result :
          {o : Outcome Text (List ℕ)}
          → Post
              (next_classes classes is_function)
              (name ∷ [])
              (Inv (index idx) fs)
              (λ s. true ≡ false)
              o
          → (found : List ℕ) × ((elim o [
            | finished visited found ↦ some found
            | stopped found ↦ some found
            | out_of_fuel ↦ none
          ])
              ≡ some found)
            × ((f : ℕ)
                → (mem f found ≡ true) ↔ (
                    (mem f fs ≡ true)
                    ⊎ (c : Text) × Walked c
                      × (mem f (class_targets classes is_function (index idx) c) ≡ true)))
      result (all_visited {s = found} i seen) = (
        found,
        refl,
        λ f. (
          i.sound f,
          λ e. elim e [
            | inl m ↦ i.keeps f m
            | inr (c, r, offers) ↦ i.complete c f ((seen c).1 r) offers
          ],
        ),
      )
      result (left_early q) = cc

  -- The search for a class with a name and methods ends. It finds the functions that were there, and
  -- the functions that the tables of the visited classes have under the methods of the index: the
  -- class, and those that derivation leads to through classes with methods and a table.
  pub get_targets_in_derived_class_lem :
      (fs : List ℕ) (index : ℤ → List Text)
      → is_empty name ≡ false
      → classes.method_index_map name ≡ some index
      → (found : List ℕ) × (get_targets_in_derived_class classes is_function name idx fs
          ≡ some found)
        × ((f : ℕ)
            → (mem f found ≡ true) ↔ (
                (mem f fs ≡ true)
                ⊎ (c : Text) × Visited c × Target classes is_function (index idx) c f))
  get_targets_in_derived_class_lem fs index named methods =
      let (found, ran, iff) = search fs index named methods in
      (
        found,
        ran,
        λ f. (
          λ m. elim ((iff f).0 m) [
            | inl old ↦ inl old
            | inr (c, w, offers) ↦ inr (
              c,
              Visited-of_Walked c w,
              (class_targets_iff classes is_function (index idx) c f).0 offers,
            )
          ],
          λ h. (iff f).1 (elim h [
            | inl old ↦ inl old
            | inr (c, v, target) ↦ inr (
              c,
              Walked-of_Visited c v,
              (class_targets_iff classes is_function (index idx) c f).1 target,
            )
          ]),
        ),
      )
