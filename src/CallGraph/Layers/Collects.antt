-- ===== src/CallGraph/Layers/Collects.antt =====
-- What a search of `nextLayerBaseType_new` that was not cut short has done: it has entered all that
-- the values lead to, and `TyList` has the types of the GEPs among them.
use tfa_project.Common.{
  ℕ, ◌≡◌, ◌⊎◌, inl, inr, Bool, true, false, Option, none, some, List, [], ◌++◌, mem, mem-append,
  nat_eq, pair_eq, arith, Bool-cases, is_some,
}
use tfa_project.Common.Text.{Text}
use tfa_project.CallGraph.{Llvm}
use tfa_project.CallGraph.Layers.{
  Layer, Values, Shape, Mode, precise, recall, Search, get_gep_layer_types, is_unresolved,
}
use tfa_project.CallGraph.Layers.Total.{next_of}

module _ (llvm : Llvm) (literal_names : ℕ → Option Text) (vals : Values) where
  abbrev next : ℕ → List ℕ
  next = next_of llvm literal_names vals

  -- What a value leads to: operands of casts, phis, selects and loads, and what is stored where a
  -- load reads.
  pub data Leads : ℕ → ℕ → Type 0 where
    stay : (v : ℕ) → Leads v v
    ahead : (v w x : ℕ) → mem w (next v) ≡ true → Leads w x → Leads v x

  -- The type that the search takes from a value.
  unfoldable pub layer_of : Shape → Option Layer
  layer_of (Shape.gep g) = get_gep_layer_types llvm literal_names g
  layer_of _ = none

  -- A value at which the search goes on or takes a type.
  unfoldable pub is_fine : Shape → Bool
  is_fine Shape.unresolved = false
  is_fine Shape.other = false
  is_fine (Shape.gep g) = is_some (get_gep_layer_types llvm literal_names g)
  is_fine _ = true

  abbrev pub is_precise : Mode → Bool
  is_precise precise = true
  is_precise recall = false

  -- Visited, or of the values that are never visited; in precise mode these end a search.
  abbrev pub Entered : Mode → Search → ℕ → Type 0
  Entered mode s v =
      (mem v s.visited ≡ true)
      ⊎ (is_precise mode ≡ false) × (is_unresolved llvm literal_names vals (vals.shape v) ≡ true)

  -- A type taken from what the values lead to.
  abbrev pub TakenFrom : List ℕ → Layer → Type 0
  TakenFrom vs t =
      (v : ℕ) × (x : ℕ) × (mem v vs ≡ true) × Leads v x × (layer_of (vals.shape x) ≡ some t)

  pub record Complete (mode : Mode) (vs : List ℕ) (s s' : Search) : Type 0 where
    pub grows : (x : ℕ) → mem x s.visited ≡ true → mem x s'.visited ≡ true
    pub starts : (v : ℕ) → mem v vs ≡ true → Entered mode s' v
    pub closed :
        (x y : ℕ)
        → mem x s.visited ≡ false
        → mem x s'.visited ≡ true
        → mem y (next x) ≡ true
        → Entered mode s' y
    pub fine :
        (x : ℕ)
        → is_precise mode ≡ true
        → mem x s.visited ≡ false
        → mem x s'.visited ≡ true
        → is_fine (vals.shape x) ≡ true
    pub keeps : (t : Layer) → mem t s.ty_list ≡ true → mem t s'.ty_list ≡ true
    pub takes :
        (x : ℕ) (t : Layer)
        → mem x s.visited ≡ false
        → mem x s'.visited ≡ true
        → layer_of (vals.shape x) ≡ some t
        → mem t s'.ty_list ≡ true
    pub taken : (t : Layer) → mem t s'.ty_list ≡ true → (mem t s.ty_list ≡ true) ⊎ TakenFrom vs t

  Entered-grows :
      (mode : Mode) (s s' : Search) (v : ℕ)
      → ((x : ℕ) → mem x s.visited ≡ true → mem x s'.visited ≡ true)
      → Entered mode s v
      → Entered mode s' v
  Entered-grows mode s s' v g (inl h) = inl (g v h)
  Entered-grows mode s s' v g (inr h) = inr h

  module _ (mode : Mode) where
    pub Complete-nil : (s : Search) → Complete mode [] s s
    Complete-nil s = record {
      grows = λ x h. h;
      starts = λ v h. cc;
      closed = λ x y h k. cc;
      fine = λ x p h k. cc;
      keeps = λ t h. h;
      takes = λ x t h k. cc;
      taken = λ t h. inl h;
    }

    taken-append :
        (vs ws : List ℕ) (s s' s'' : Search)
        → Complete mode vs s s'
        → Complete mode ws s' s''
        → (t : Layer) → mem t s''.ty_list ≡ true
        → (mem t s.ty_list ≡ true) ⊎ TakenFrom (vs ++ ws) t
    taken-append vs ws s s' s'' c d t h = elim (d.taken t h) [
      | inr (v, x, at, leads, e) ↦ inr (v, x, ground (arith, mem-append v vs ws), leads, e)
      | inl h' ↦ elim (c.taken t h') [
        | inl old ↦ inl old
        | inr (v, x, at, leads, e) ↦ inr (v, x, ground (arith, mem-append v vs ws), leads, e)
      ]
    ]

    pub Complete-append :
        (vs ws : List ℕ) (s s' s'' : Search)
        → Complete mode vs s s'
        → Complete mode ws s' s''
        → Complete mode (vs ++ ws) s s''
    Complete-append vs ws s s' s'' c d = record {
      grows = λ x h. d.grows x (c.grows x h);
      starts = λ v h. elim (Bool-cases (mem v vs)) [
        | inl e ↦ Entered-grows mode s' s'' v d.grows (c.starts v e)
        | inr e ↦ d.starts v (ground (arith, mem-append v vs ws))
      ];
      closed = λ x y h k n. elim (Bool-cases (mem x s'.visited)) [
        | inl e ↦ Entered-grows mode s' s'' y d.grows (c.closed x y h e n)
        | inr e ↦ d.closed x y e k n
      ];
      fine = λ x p h k. elim (Bool-cases (mem x s'.visited)) [
        | inl e ↦ c.fine x p h e
        | inr e ↦ d.fine x p e k
      ];
      keeps = λ t h. d.keeps t (c.keeps t h);
      takes = λ x t h k e. elim (Bool-cases (mem x s'.visited)) [
        | inl e' ↦ d.keeps t (c.takes x t h e' e)
        | inr e' ↦ d.takes x t e' k e
      ];
      taken = taken-append vs ws s s' s'' c d;
    }
