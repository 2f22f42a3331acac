-- ===== src/CallGraph/Layers/Spec.antt =====
-- What `nextLayerBaseType_new` answers: in precise mode, whether all that a value leads to can be
-- resolved; and which types it collects.
use tfa_project.Common.{
  ℕ, zero, suc, ◌<◌, ◌≡◌, ◌↔◌, refl, inl, inr, Bool, true, false, Option, none, some, List, [], ◌∷◌,
  mem, nat_eq, pair_eq, arith, Bool-cases, Option-cases, beq_refl,
}
use tfa_project.Common.Text.{Text}
use tfa_project.CallGraph.{Llvm}
use tfa_project.CallGraph.Layers.{
  Layer, Values, Shape, Mode, precise, recall, fails_now, Search, search_all, search_load,
  search_shape, next_layer_base_type, get_gep_layer_types, is_unresolved,
}
use tfa_project.CallGraph.Layers.Total.{
  next_of_shape, unvisited_le, ValuesBelow, next_layer_base_type-Answers,
}
use tfa_project.CallGraph.Layers.Collects.{
  Leads, stay, ahead, layer_of, is_fine, is_precise, Entered, Complete, Complete-nil,
}
use tfa_project.CallGraph.Layers.Visits.{
  visited_too, Failing, Right, step-Right, load-Right, node-Right, end-Right, gep-Right,
}

-- A search that has not begun: `TyList` and `VisitedSet` are empty.
abbrev pub none_yet : Search
none_yet = record { ty_list = []; visited = [] }

module _ (llvm : Llvm) (literal_names : ℕ → Option Text) (vals : Values) where
  unresolved_fails :
      (sh : Shape)
      → is_unresolved llvm literal_names vals sh ≡ true
      → is_fine llvm literal_names vals sh ≡ false
  unfolding is_unresolved is_fine
  unresolved_fails Shape.unresolved h = refl
  unresolved_fails (Shape.gep g) h = cc
  unresolved_fails (Shape.bit_cast v) h = cc
  unresolved_fails (Shape.load v) h = cc
  unresolved_fails (Shape.phi vs) h = cc
  unresolved_fails (Shape.select v w) h = cc
  unresolved_fails (Shape.unary v) h = cc
  unresolved_fails Shape.other h = cc

  unresolved_end :
      (sh : Shape) (w : ℕ)
      → is_unresolved llvm literal_names vals sh ≡ true
      → mem w (next_of_shape llvm literal_names vals sh) ≡ false
  unfolding is_unresolved next_of_shape
  unresolved_end Shape.unresolved w h = refl
  unresolved_end (Shape.gep g) w h = refl
  unresolved_end (Shape.bit_cast v) w h = cc
  unresolved_end (Shape.load v) w h = cc
  unresolved_end (Shape.phi vs) w h = cc
  unresolved_end (Shape.select v u) w h = cc
  unresolved_end (Shape.unary v) w h = cc
  unresolved_end Shape.other w h = refl

  unresolved_no_layer :
      (sh : Shape)
      → is_unresolved llvm literal_names vals sh ≡ true
      → layer_of llvm literal_names vals sh ≡ none
  unfolding is_unresolved layer_of
  unresolved_no_layer Shape.unresolved h = refl
  unresolved_no_layer (Shape.gep g) h = cc
  unresolved_no_layer (Shape.bit_cast v) h = cc
  unresolved_no_layer (Shape.load v) h = cc
  unresolved_no_layer (Shape.phi vs) h = cc
  unresolved_no_layer (Shape.select v w) h = cc
  unresolved_no_layer (Shape.unary v) h = cc
  unresolved_no_layer Shape.other h = cc

  early_precise :
      (m : Mode) → fails_now m false ≡ false → is_precise llvm literal_names vals m ≡ false
  early_precise precise h = cc
  early_precise recall h = refl

  module _ (mode : Mode) where
    abbrev Rights : List ℕ → Search → Option (Bool × Search) → Type 0
    Rights = Right llvm literal_names vals mode

    module _ (visit : ℕ → Search → Option (Bool × Search))
        (ih : (v : ℕ) (s : Search) → Rights (v ∷ []) s (visit v s)) where
      search_all-Right :
          (vs : List ℕ) (s : Search)
          → Rights vs s (search_all llvm literal_names vals visit mode vs s)
      unfolding search_all
      search_all-Right [] s = (λ h. Complete-nil llvm literal_names vals mode s, λ h. cc)
      search_all-Right (v ∷ vs) s = elim (Option-cases (visit v s)) [
        | inl e ↦ rw (e, search_all) tt
        | inr ((ok, s'), e) ↦
            let first : Rights (v ∷ []) s (some (ok, s')) = rw e at (ih v s) in
            rw (e, search_all)
              (step-Right llvm literal_names vals mode v vs s s' ok _ first
                (search_all-Right vs s'))
      ]

      search_load-Right :
          (lpo : ℕ) (s : Search)
          → Rights
              (next_of_shape llvm literal_names vals (Shape.load lpo))
              s
              (search_load llvm literal_names vals visit mode lpo s)
      unfolding search_load next_of_shape
      search_load-Right lpo s = elim (Option-cases (visit lpo s)) [
        | inl e ↦ rw (e, search_load) tt
        | inr ((ok, s'), e) ↦
            let first : Rights (lpo ∷ []) s (some (ok, s')) = rw e at (ih lpo s) in
            rw (e, search_load)
              (load-Right llvm literal_names vals mode lpo _ s s' ok _ first
                (search_all-Right _ s'))
      ]

      search_shape-Right :
          (v : ℕ) (sh : Shape) (s : Search)
          → vals.shape v ≡ sh
          → mem v s.visited ≡ false
          → is_unresolved llvm literal_names vals sh ≡ false
          → Rights (v ∷ []) s (
              search_shape llvm literal_names vals visit mode sh
                (visited_too llvm literal_names vals mode v s))
      unfolding search_shape next_of_shape layer_of is_fine is_unresolved
      search_shape-Right v Shape.unresolved s e unseen h = cc
      search_shape-Right v (Shape.gep g) s e unseen h =
          elim (Option-cases (get_gep_layer_types llvm literal_names g)) [
            | inl e' ↦
                rw (e', search_shape)
                  (end-Right llvm literal_names vals mode v s unseen (rw (e, e') refl)
                    (rw (e, e') refl) (rw e refl))
            | inr (t, e') ↦
                rw (e', search_shape)
                  (gep-Right llvm literal_names vals mode v s t unseen (rw (e, e') refl)
                    (rw (e, e') refl) (rw e refl))
          ]
      search_shape-Right v (Shape.bit_cast w) s e unseen h =
          node-Right llvm literal_names vals mode v s _ unseen (rw e (ih w _)) (rw e refl)
            (rw e refl)
      search_shape-Right v (Shape.load lpo) s e unseen h =
          node-Right llvm literal_names vals mode v s _ unseen (rw e (search_load-Right lpo _))
            (rw e refl) (rw e refl)
      search_shape-Right v (Shape.phi vs) s e unseen h =
          node-Right llvm literal_names vals mode v s _ unseen (rw e (search_all-Right vs _))
            (rw e refl) (rw e refl)
      search_shape-Right v (Shape.select tv fv) s e unseen h =
          node-Right llvm literal_names vals mode v s _ unseen
            (rw e (search_all-Right (tv ∷ fv ∷ []) _)) (rw e refl) (rw e refl)
      search_shape-Right v (Shape.unary w) s e unseen h =
          node-Right llvm literal_names vals mode v s _ unseen (rw e (ih w _)) (rw e refl)
            (rw e refl)
      search_shape-Right v Shape.other s e unseen h =
          end-Right llvm literal_names vals mode v s unseen (rw e refl) (rw e refl) (rw e refl)

    unresolved-Right :
        (v : ℕ) (s : Search)
        → is_unresolved llvm literal_names vals (vals.shape v) ≡ true
        → Rights (v ∷ []) s (some (false, s))
    unresolved-Right v s e = (
      λ h. record {
        grows = λ x k. k;
        starts = λ x k. let same : x ≡ v = ground arith in inr (early_precise mode h, rw same e);
        closed = λ x y k n m. cc;
        fine = λ x p k n. cc;
        keeps = λ t k. k;
        takes = λ x t k n. cc;
        taken = λ t k. inl k;
      },
      λ h. (v, v, ground (arith, beq_refl v), stay v, unresolved_fails (vals.shape v) e),
    )

    seen-Right : (v : ℕ) (s : Search) → mem v s.visited ≡ true → Rights (v ∷ []) s (some (true, s))
    seen-Right v s e = (
      λ h. record {
        grows = λ x k. k;
        starts = λ x k. inl (ground arith);
        closed = λ x y k n m. cc;
        fine = λ x p k n. cc;
        keeps = λ t k. k;
        takes = λ x t k n. cc;
        taken = λ t k. inl k;
      },
      λ h. cc,
    )

    next_layer_base_type-Right :
        (fuel v : ℕ) (s : Search)
        → Rights (v ∷ []) s (next_layer_base_type llvm literal_names vals fuel mode v s)
    unfolding next_layer_base_type is_fine
    next_layer_base_type-Right zero v s = tt
    next_layer_base_type-Right (suc fuel) v s =
        elim (Bool-cases (is_unresolved llvm literal_names vals (vals.shape v))) [
          | inl e ↦ rw (e, next_layer_base_type) (unresolved-Right v s e)
          | inr e ↦ elim (Bool-cases (mem v s.visited)) [
            | inl seen ↦ rw (e, seen, next_layer_base_type) (seen-Right v s seen)
            | inr unseen ↦
                rw (e, unseen, next_layer_base_type)
                  (search_shape-Right (next_layer_base_type llvm literal_names vals fuel mode)
                    (next_layer_base_type-Right fuel) v (vals.shape v) s refl unseen e)
          ]
        ]

  -- Everything that an entered value leads to is entered, if the search was complete.
  Leads-Entered :
      (mode : Mode) (vs : List ℕ) (s' : Search)
      → Complete llvm literal_names vals mode vs none_yet s'
      → (v x : ℕ) → Entered llvm literal_names vals mode s' v
      → Leads llvm literal_names vals v x
      → Entered llvm literal_names vals mode s' x
  Leads-Entered mode vs s' c v _ at (stay _) = at
  Leads-Entered mode vs s' c v x (inl at) (ahead _ w _ n leads) =
      Leads-Entered mode vs s' c w x (c.closed v w refl at n) leads
  Leads-Entered mode vs s' c v x (inr (p, e)) (ahead _ w _ n leads) =
      cc (unresolved_end (vals.shape v) w e, n)

  -- A search from one value that was complete.
  module _ (mode : Mode) (v : ℕ) (s' : Search)
      (c : Complete llvm literal_names vals mode (v ∷ []) none_yet s') where
    led_to : (x : ℕ) → Leads llvm literal_names vals v x → Entered llvm literal_names vals mode s' x
    led_to x leads =
        Leads-Entered mode (v ∷ []) s' c v x (c.starts v (ground (arith, beq_refl v))) leads

    collected :
        (t : Layer)
        → (mem t s'.ty_list ≡ true) ↔ (
            (x : ℕ) × Leads llvm literal_names vals v x
            × (layer_of llvm literal_names vals (vals.shape x) ≡ some t))
    collected t = (
      λ h. elim (c.taken t h) [
        | inl old ↦ cc
        | inr (w, x, at, leads, e) ↦ let same : w ≡ v = ground arith in (x, rw (← same) leads, e)
      ],
      λ (x, leads, e). elim (led_to x leads) [
        | inl h ↦ c.takes x t refl h e
        | inr (p, u) ↦ cc (e, unresolved_no_layer (vals.shape x) u)
      ],
    )

    all_fine :
        is_precise llvm literal_names vals mode ≡ true
        → (x : ℕ) → Leads llvm literal_names vals v x
        → is_fine llvm literal_names vals (vals.shape x) ≡ true
    all_fine p x leads = elim (led_to x leads) [
      | inl h ↦ c.fine x p refl h
      | inr (q, u) ↦ cc (p, q)
    ]

  -- What a search from `v` has found, with the answer `ok`.
  abbrev Found : Mode → ℕ → Bool → Search → Type 0
  Found mode v ok s' = Right llvm literal_names vals mode (v ∷ []) none_yet (some (ok, s'))

  -- When operands and stored values are among n values, with more than n rounds: the search from a
  -- value returns in precise mode, and its answer is true just when everything that the value leads
  -- to goes on or gives a type; and if it is true, `TyList` has exactly the types of what the value
  -- leads to.
  pub next_layer-precise :
      (n : ℕ) (below : ValuesBelow llvm literal_names vals n) (fuel v : ℕ)
      → v < n
      → n < fuel
      → (ok : Bool) × (s : Search) × (next_layer_base_type llvm literal_names vals fuel precise v
            none_yet
          ≡ some (ok, s))
        × ((ok ≡ true) ↔ (
            (x : ℕ)
            → Leads llvm literal_names vals v x
            → is_fine llvm literal_names vals (vals.shape x) ≡ true))
        × (ok ≡ true
            → (t : Layer)
            → (mem t s.ty_list ≡ true) ↔ (
                (x : ℕ) × Leads llvm literal_names vals v x
                × (layer_of llvm literal_names vals (vals.shape x) ≡ some t)))
  next_layer-precise n below fuel v lt few =
      let (ok, s, ran, _) =
        next_layer_base_type-Answers llvm literal_names vals n below fuel precise v none_yet lt
          (omega (arith, few, unvisited_le n)) in
      let found : Found precise v ok s =
        rw ran at (next_layer_base_type-Right precise fuel v none_yet) in
      (
        ok,
        s,
        ran,
        (
          λ h. all_fine precise v s (found.0 (ground (arith, h))) refl,
          λ fine. elim (Bool-cases ok) [
            | inl e ↦ e
            | inr e ↦
                let (w, x, at, leads, bad) = found.1 e in
                let same : w ≡ v = ground arith in cc (fine x (rw (← same) leads), bad)
          ],
        ),
        λ h. collected precise v s (found.0 (ground (arith, h))),
      )

  -- When operands and stored values are among n values, with more than n rounds: in recall mode the
  -- search from a value returns, and whatever its answer, `TyList` has exactly the types of what
  -- the value leads to; if the answer is false, the value leads to one that fails.
  pub next_layer-recall :
      (n : ℕ) (below : ValuesBelow llvm literal_names vals n) (fuel v : ℕ)
      → v < n
      → n < fuel
      → (ok : Bool) × (s : Search) × (next_layer_base_type llvm literal_names vals fuel recall v
            none_yet
          ≡ some (ok, s))
        × ((t : Layer)
            → (mem t s.ty_list ≡ true) ↔ (
                (x : ℕ) × Leads llvm literal_names vals v x
                × (layer_of llvm literal_names vals (vals.shape x) ≡ some t)))
        × (ok ≡ false → Failing llvm literal_names vals recall (v ∷ []))
  next_layer-recall n below fuel v lt few =
      let (ok, s, ran, _) =
        next_layer_base_type-Answers llvm literal_names vals n below fuel recall v none_yet lt
          (omega (arith, few, unvisited_le n)) in
      let found : Found recall v ok s =
        rw ran at (next_layer_base_type-Right recall fuel v none_yet) in
      (ok, s, ran, collected recall v s (found.0 refl), found.1)
