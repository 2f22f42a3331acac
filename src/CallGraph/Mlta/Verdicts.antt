-- ===== src/CallGraph/Mlta/Verdicts.antt =====
-- What the loop over the types of a called value makes of them.
use tfa_project.Common.{
  ℕ, ◌≡◌, ◌↔◌, refl, sym, ap, ◌∙◌, true, Option, none, some, List, [], ◌∷◌, mem, nat_eq, union,
  insert, insert-nil, insert-same,
}
use tfa_project.CallGraph.{Llvm, Tables}
use tfa_project.CallGraph.TwoLayer.{LayerResult, final_funcs, find_callees_with_two_layer_ta}
use tfa_project.CallGraph.TwoLayer.Correct.{
  TwoLayerPost, Escaping, Candidate, escaped, resolved, find_callees_with_two_layer_ta-Post,
}
use tfa_project.CallGraph.Verdict.{
  TypeAnalyzeResult, type_escape, two_layer, no_two_layer_info, result_eq,
}
use tfa_project.CallGraph.Mlta.{Layers, layer_step, resolve_results, mlta_layers, anon_count}

module _ (llvm : Llvm) (tabs : Tables) (ci : ℕ) where
  abbrev counted : ℕ → Layers → Layers
  counted ty s = record {
    fs1 = s.fs1;
    fs2 = s.fs2;
    results = s.results;
    layer_no = s.layer_no;
    escaped = s.escaped;
    pre_anon = anon_count llvm tabs ty s.pre_anon;
  }

  -- What one type contributes.
  pub data TypePost (ty idx : ℕ) (s : Layers) : Layers → Type 0 where
    one_escapes :
        {s' : Layers}
        → Escaping llvm tabs ty idx
        → s'.fs1 ≡ s.fs1
        → s'.fs2 ≡ s.fs2
        → s'.results ≡ insert type_escape s.results
        → TypePost ty idx s s'
    one_found :
        {s' : Layers} (merge_set : List ℕ)
        → ¬ Escaping llvm tabs ty idx
        → ((f : ℕ) → (mem f merge_set ≡ true) ↔ Candidate llvm tabs ty idx f)
        → ¬ (final_funcs llvm tabs ci s.fs1 merge_set ≡ [])
        → s'.fs1 ≡ s.fs1
        → s'.fs2 ≡ union s.fs2 (final_funcs llvm tabs ci s.fs1 merge_set)
        → s'.results ≡ insert two_layer s.results
        → TypePost ty idx s s'
    one_empty :
        {s' : Layers} (merge_set : List ℕ)
        → ¬ Escaping llvm tabs ty idx
        → ((f : ℕ) → (mem f merge_set ≡ true) ↔ Candidate llvm tabs ty idx f)
        → final_funcs llvm tabs ci s.fs1 merge_set ≡ []
        → s'.fs1 ≡ []
        → s'.fs2 ≡ s.fs2
        → s'.results ≡ insert no_two_layer_info s.results
        → TypePost ty idx s s'

  layer_step-TypePost :
      (ty idx : ℕ) (s : Layers) (r : LayerResult)
      → TwoLayerPost llvm tabs ty idx ci s.fs1 (some r)
      → TypePost ty idx s (layer_step r (counted ty s))
  unfolding layer_step
  layer_step-TypePost ty idx s r (escaped e esc empty) =
      rw (empty, esc, layer_step) (one_escapes e refl refl refl)
  layer_step-TypePost ty idx s r (resolved merge_set clean found esc funcs members) =
      go r.funcs refl
    where
      nonempty : {f : ℕ} {fs : List ℕ} → r.funcs ≡ f ∷ fs → r.funcs ≡ [] → ⊥
      nonempty e e' = cc

      go : (fs : List ℕ) → r.funcs ≡ fs → TypePost ty idx s (layer_step r (counted ty s))
      go (f ∷ fs) e =
          rw (e, layer_step)
            (one_found merge_set clean found (λ q. nonempty e (funcs ∙ q)) refl
              (ap (union s.fs2) funcs) refl)
      go [] e =
          rw (e, esc, layer_step) (one_empty merge_set clean found (sym funcs ∙ e) refl refl refl)

  -- One type: the call of the second layer ends, and its escape, its functions or their absence is
  -- recorded.
  mlta_layers-cons :
      (ty idx : ℕ) (types : List (ℕ × ℕ)) (s : Layers)
      → (s' : Layers) × (mlta_layers llvm tabs ci ((ty, idx) ∷ types) s
          ≡ mlta_layers llvm tabs ci types s')
        × TypePost ty idx s s'
  unfolding mlta_layers
  mlta_layers-cons ty idx types s =
      go (find_callees_with_two_layer_ta llvm tabs ci s.fs1 ty idx s.layer_no s.escaped) refl
        (find_callees_with_two_layer_ta-Post llvm tabs ty idx ci s.fs1 s.layer_no s.escaped)
    where
      go :
          (o : Option LayerResult)
          → find_callees_with_two_layer_ta llvm tabs ci s.fs1 ty idx s.layer_no s.escaped ≡ o
          → TwoLayerPost llvm tabs ty idx ci s.fs1 o
          → (s' : Layers) × (mlta_layers llvm tabs ci ((ty, idx) ∷ types) s
              ≡ mlta_layers llvm tabs ci types s')
            × TypePost ty idx s s'
      go none e p = elim p [ ]
      go (some r) e p =
          (layer_step r (counted ty s), rw (e, mlta_layers) refl, layer_step-TypePost ty idx s r p)

  pub data AllEscape : List (ℕ × ℕ) → Type 0 where
    no_more : AllEscape []
    and_more :
        {ty idx : ℕ} {types : List (ℕ × ℕ)}
        → Escaping llvm tabs ty idx
        → AllEscape types
        → AllEscape ((ty, idx) ∷ types)

  escaping_type :
      {ty idx : ℕ} {s s' : Layers}
      → Escaping llvm tabs ty idx
      → TypePost ty idx s s'
      → (s'.fs1 ≡ s.fs1) × (s'.results ≡ insert type_escape s.results)
  escaping_type e (one_escapes e' same1 same2 noted) = (same1, noted)
  escaping_type e (one_found m clean found some_funcs same1 same2 noted) = absurd (clean e)
  escaping_type e (one_empty m clean found no_funcs same1 same2 noted) = absurd (clean e)

  mlta_layers-AllEscape :
      (types : List (ℕ × ℕ)) (s : Layers)
      → AllEscape types
      → s.results ≡ type_escape ∷ []
      → (s' : Layers) × (mlta_layers llvm tabs ci types s ≡ some s')
        × (s'.fs1 ≡ s.fs1)
        × (s'.results ≡ type_escape ∷ [])
  unfolding mlta_layers
  mlta_layers-AllEscape [] s all only = (s, refl, refl, only)
  mlta_layers-AllEscape ((ty, idx) ∷ types) s (and_more e all) only =
      let (s', goes, post) = mlta_layers-cons ty idx types s in
      let (same, noted) = escaping_type e post in
      let (s'', ends, same', only') =
        mlta_layers-AllEscape types s' all
          (noted ∙ ap (insert type_escape) only ∙ insert-same type_escape) in
      (s'', goes ∙ ends, same' ∙ same, only')

  -- When each type of a list with at least one type escapes, the loop, started without results,
  -- ends and the call keeps the functions it came with, the result of the first layer, as a type
  -- escape.
  pub all_escape_lem :
      (ty idx : ℕ) (types : List (ℕ × ℕ)) (s : Layers)
      → AllEscape ((ty, idx) ∷ types)
      → s.results ≡ []
      → (s' : Layers) × (mlta_layers llvm tabs ci ((ty, idx) ∷ types) s ≡ some s')
        × (resolve_results s'.results s'.fs1 s'.fs2 ≡ (type_escape, s.fs1))
  unfolding resolve_results
  all_escape_lem ty idx types s (and_more e all) fresh =
      let (s1, goes, post) = mlta_layers-cons ty idx types s in
      let (same, noted) = escaping_type e post in
      let (s', ends, same', only) =
        mlta_layers-AllEscape types s1 all
          (noted ∙ ap (insert type_escape) fresh ∙ insert-nil type_escape) in
      (s', goes ∙ ends, rw (only, same', same, resolve_results) refl)

  -- The answers for a single type.
  pub data OneType (ty idx : ℕ) (pre : List ℕ) : TypeAnalyzeResult × List ℕ → Type 0 where
    keeps_first_layer : Escaping llvm tabs ty idx → OneType ty idx pre (type_escape, pre)
    second_layer :
        (merge_set : List ℕ)
        → ¬ Escaping llvm tabs ty idx
        → ((f : ℕ) → (mem f merge_set ≡ true) ↔ Candidate llvm tabs ty idx f)
        → ¬ (final_funcs llvm tabs ci pre merge_set ≡ [])
        → {fs : List ℕ} → fs ≡ union [] (final_funcs llvm tabs ci pre merge_set)
        → OneType ty idx pre (two_layer, fs)
    no_targets :
        (merge_set : List ℕ)
        → ¬ Escaping llvm tabs ty idx
        → ((f : ℕ) → (mem f merge_set ≡ true) ↔ Candidate llvm tabs ty idx f)
        → final_funcs llvm tabs ci pre merge_set ≡ []
        → OneType ty idx pre (no_two_layer_info, [])

  -- For a single type the loop, started without results, ends, and the verdict and the functions
  -- are one of three answers: the first layer if the type escapes, else the functions of the
  -- second layer, or none if it has none.
  pub one_type_lem :
      (ty idx : ℕ) (s : Layers)
      → s.results ≡ []
      → s.fs2 ≡ []
      → (s' : Layers) × (mlta_layers llvm tabs ci ((ty, idx) ∷ []) s ≡ some s')
        × OneType ty idx s.fs1 (resolve_results s'.results s'.fs1 s'.fs2)
  unfolding mlta_layers resolve_results
  one_type_lem ty idx s fresh fresh2 =
      let (s', goes, post) = mlta_layers-cons ty idx [] s in (s', goes, answer s' post)
    where
      answer :
          (s' : Layers)
          → TypePost ty idx s s'
          → OneType ty idx s.fs1 (resolve_results s'.results s'.fs1 s'.fs2)
      answer s' (one_escapes e same1 same2 noted) =
          rw (noted, fresh, insert-nil type_escape, same1, resolve_results) (keeps_first_layer e)
      answer s' (one_found m clean found some_funcs same1 same2 noted) =
          rw (noted, fresh, insert-nil two_layer, same2, fresh2, resolve_results)
            (second_layer m clean found some_funcs refl)
      answer s' (one_empty m clean found no_funcs same1 same2 noted) =
          rw (noted, fresh, insert-nil no_two_layer_info, same1, resolve_results)
            (no_targets m clean found no_funcs)
