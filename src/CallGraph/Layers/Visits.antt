-- ===== src/CallGraph/Layers/Visits.antt =====
-- One call of `nextLayerBaseType_new`, by the class of the value: what it has entered when nothing
-- cut it short, and the value that fails when its answer is false.
use tfa_project.Common.{
  ℕ, ◌≡◌, refl, inl, inr, Bool, true, false, ◌&&◌, Option, none, some, List, [], ◌∷◌, ◌++◌, mem,
  mem-append, nat_eq, pair_eq, ◌==◌, arith, Bool-cases, beq_refl, if◌then◌else◌,
}
use tfa_project.Common.Text.{Text}
use tfa_project.CallGraph.{Llvm}
use tfa_project.CallGraph.Layers.{Layer, Values, Mode, precise, recall, fails_now, and_then, Search}
use tfa_project.CallGraph.Layers.Total.{next_of}
use tfa_project.CallGraph.Layers.Collects.{
  Leads, stay, ahead, layer_of, is_fine, is_precise, Complete, Complete-nil, Complete-append,
}
use mathlib.Core.Option

module _ (llvm : Llvm) (literal_names : ℕ → Option Text) (vals : Values) (mode : Mode) where
  abbrev Done : List ℕ → Search → Search → Type 0
  Done = Complete llvm literal_names vals mode

  abbrev pub visited_too : ℕ → Search → Search
  visited_too v s = record s { visited = v ∷ s.visited }

  -- From what is behind a value to the value.
  Done-node :
      (v : ℕ) (s s' : Search)
      → mem v s.visited ≡ false
      → Done (next_of llvm literal_names vals v) (visited_too v s) s'
      → (is_precise llvm literal_names vals mode ≡ true
          → is_fine llvm literal_names vals (vals.shape v) ≡ true)
      → layer_of llvm literal_names vals (vals.shape v) ≡ none
      → Done (v ∷ []) s s'
  Done-node v s s' unseen c fine no_layer =
      let at_v : mem v s'.visited ≡ true = c.grows v (ground (arith, beq_refl v)) in
      record {
        grows = λ x h. c.grows x (ground arith);
        starts = λ x h. inl (ground arith);
        closed = λ x y h k n. elim (Bool-cases (x == v)) [
          | inl e ↦ c.starts y (ground arith)
          | inr e ↦ c.closed x y (ground arith) k n
        ];
        fine = λ x p h k. elim (Bool-cases (x == v)) [
          | inl e ↦ ground (arith, fine p)
          | inr e ↦ c.fine x p (ground arith) k
        ];
        keeps = λ t h. c.keeps t h;
        takes = λ x t h k e. elim (Bool-cases (x == v)) [
          | inl e' ↦ ground arith
          | inr e' ↦ c.takes x t (ground arith) k e
        ];
        taken = λ t h. elim (c.taken t h) [
          | inl old ↦ inl old
          | inr (w, x, at, leads, e) ↦
              inr (v, x, ground (arith, beq_refl v), ahead v w x at leads, e)
        ];
      }

  -- A value at which the search fails.
  abbrev pub Failing : List ℕ → Type 0
  Failing vs =
      (v : ℕ) × (x : ℕ) × (mem v vs ≡ true)
      × Leads llvm literal_names vals v x
      × (is_fine llvm literal_names vals (vals.shape x) ≡ false)

  -- What is right of an answer: all is entered if nothing returned early, and there is a failing
  -- value if the answer is false.
  abbrev pub Right : List ℕ → Search → Option (Bool × Search) → Type 0
  Right vs s none = Unit {0}
  Right vs s (some (ok, s')) =
      (fails_now mode ok ≡ false → Done vs s s') × (ok ≡ false → Failing vs)

  fails_now-false : (m : Mode) (ok : Bool) → fails_now m ok ≡ true → ok ≡ false
  fails_now-false precise true h = cc
  fails_now-false precise false h = refl
  fails_now-false recall ok h = cc

  fails_now-early : (m : Mode) (ok : Bool) → fails_now m ok ≡ true → fails_now m false ≡ true
  fails_now-early precise ok h = refl
  fails_now-early recall ok h = cc

  fails_now-later :
      (m : Mode) (ok ok' : Bool) → fails_now m (ok && ok') ≡ false → fails_now m ok' ≡ false
  fails_now-later precise true ok' h = h
  fails_now-later precise false ok' h = cc
  fails_now-later recall ok ok' h = refl

  fails_now-both :
      (m : Mode) (ok ok' : Bool) → fails_now m (ok && ok') ≡ false → fails_now m ok ≡ false
  fails_now-both precise true ok' h = refl
  fails_now-both precise false ok' h = cc
  fails_now-both recall ok ok' h = refl

  Failing-early : (v : ℕ) (vs : List ℕ) → Failing (v ∷ []) → Failing (v ∷ vs)
  Failing-early v vs (w, x, at, leads, bad) = (w, x, ground arith, leads, bad)

  Failing-later : (v : ℕ) (vs : List ℕ) → Failing vs → Failing (v ∷ vs)
  Failing-later v vs (w, x, at, leads, bad) = (w, x, ground arith, leads, bad)

  -- The visit of one value, then of others.
  pub step-Right :
      (v : ℕ) (vs : List ℕ) (s s' : Search) (ok : Bool) (o : Option (Bool × Search))
      → Right (v ∷ []) s (some (ok, s'))
      → Right vs s' o
      → Right (v ∷ vs) s (if fails_now mode ok then some (false, s') else and_then ok o)
  step-Right v vs s s' ok o (done, failing) rest = elim (Bool-cases (fails_now mode ok)) [
    | inl now ↦ rw now (
      λ h. cc (h, fails_now-early mode ok now),
      λ h. Failing-early v vs (failing (fails_now-false mode ok now)),
    )
    | inr later ↦ rw later (go o rest)
  ]
    where
      go : (o : Option (Bool × Search)) → Right vs s' o → Right (v ∷ vs) s (and_then ok o)
      go none rest = tt
      go (some (ok', s'')) (done', failing') = (
        λ h.
            Complete-append llvm literal_names vals mode (v ∷ []) vs s s' s''
              (done (fails_now-both mode ok ok' h)) (done' (fails_now-later mode ok ok' h)),
        λ h. elim (Bool-cases ok) [
          | inl e ↦ Failing-later v vs (failing' (ground arith))
          | inr e ↦ Failing-early v vs (failing e)
        ],
      )

  -- The pointer of a load, then what is stored there.
  pub load-Right :
      (v : ℕ) (vs : List ℕ) (s s' : Search) (ok : Bool) (o : Option (Bool × Search))
      → Right (v ∷ []) s (some (ok, s'))
      → Right vs s' o
      → Right (v ∷ vs) s (if fails_now mode ok then some (false, s') else o)
  load-Right v vs s s' ok o (done, failing) rest = elim (Bool-cases (fails_now mode ok)) [
    | inl now ↦ rw now (
      λ h. cc (h, fails_now-early mode ok now),
      λ h. Failing-early v vs (failing (fails_now-false mode ok now)),
    )
    | inr later ↦ rw later (go o rest (done later))
  ]
    where
      go : (o : Option (Bool × Search)) → Right vs s' o → Done (v ∷ []) s s' → Right (v ∷ vs) s o
      go none rest c = tt
      go (some (ok', s'')) (done', failing') c = (
        λ h. Complete-append llvm literal_names vals mode (v ∷ []) vs s s' s'' c (done' h),
        λ h. Failing-later v vs (failing' h),
      )

  -- From what is behind a value to the value.
  pub node-Right :
      (v : ℕ) (s : Search) (o : Option (Bool × Search))
      → mem v s.visited ≡ false
      → Right (next_of llvm literal_names vals v) (visited_too v s) o
      → is_fine llvm literal_names vals (vals.shape v) ≡ true
      → layer_of llvm literal_names vals (vals.shape v) ≡ none
      → Right (v ∷ []) s o
  node-Right v s none unseen r fine no_layer = tt
  node-Right v s (some (ok, s')) unseen (done, failing) fine no_layer = (
    λ h. Done-node v s s' unseen (done h) (λ p. fine) no_layer,
    λ h.
        let (w, x, at, leads, bad) = failing h in
        (v, x, ground (arith, beq_refl v), ahead v w x at leads, bad),
  )

  -- A value that the search ends at without a type.
  pub end-Right :
      (v : ℕ) (s : Search)
      → mem v s.visited ≡ false
      → is_fine llvm literal_names vals (vals.shape v) ≡ false
      → layer_of llvm literal_names vals (vals.shape v) ≡ none
      → next_of llvm literal_names vals v ≡ []
      → Right (v ∷ []) s (some (false, visited_too v s))
  end-Right v s unseen bad no_layer no_next = (
    λ h.
        Done-node v s (visited_too v s) unseen
          (rw no_next (Complete-nil llvm literal_names vals mode (visited_too v s)))
          (λ p. cc (h, precise_early mode p)) no_layer,
    λ h. (v, v, ground (arith, beq_refl v), stay v, bad),
  )
    where
      precise_early :
          (m : Mode) → is_precise llvm literal_names vals m ≡ true → fails_now m false ≡ true
      precise_early precise h = refl
      precise_early recall h = cc

  -- A GEP that gives a type.
  pub gep-Right :
      (v : ℕ) (s : Search) (t : Layer)
      → mem v s.visited ≡ false
      → is_fine llvm literal_names vals (vals.shape v) ≡ true
      → layer_of llvm literal_names vals (vals.shape v) ≡ some t
      → next_of llvm literal_names vals v ≡ []
      → Right
          (v ∷ [])
          s
          (some (true, record { ty_list = s.ty_list ++ t ∷ []; visited = v ∷ s.visited }))
  gep-Right v s t unseen fine layer no_next = (
    λ h. record {
      grows = λ x k. ground arith;
      starts = λ x k. inl (ground arith);
      closed = λ x y k n m. let e : x ≡ v = ground arith in cc (rw (e, no_next) at m);
      fine = λ x p k n. let e : x ≡ v = ground arith in rw e fine;
      keeps = λ u k. ground (arith, mem-append u s.ty_list (t ∷ []));
      takes = λ x u k n e.
          let same : x ≡ v = ground arith in
          let e' : some t ≡ some u = rw (same, layer) at e in
          rw (← Option.some-injective t u e')
            (ground (arith, mem-append t s.ty_list (t ∷ []), beq_refl t));
      taken = λ u k. elim (Bool-cases (mem u s.ty_list)) [
        | inl old ↦ inl old
        | inr new ↦
            let same : u ≡ t =
              (pair_eq.beq_iff u t).0 (ground (arith, mem-append u s.ty_list (t ∷ []))) in
            inr (v, v, ground (arith, beq_refl v), stay v, rw same layer)
      ];
    },
    λ h. cc,
  )
