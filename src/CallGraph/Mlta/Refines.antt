-- ===== src/CallGraph/Mlta/Refines.antt =====
-- The analysis of a call ends, and it only refines the first layer.
use tfa_project.Common.{
  ℕ, suc, ◌≡◌, ◌⊎◌, inl, inr, refl, Bool, true, false, Option, none, some, List, [], ◌∷◌, mem,
  mem-union, nat_eq, Bool-cases, arith, ◌==◌,
}
use tfa_project.Common.Tables.{Table}
use tfa_project.CallGraph.{Llvm, Tables}
use tfa_project.CallGraph.FuncSets.{func_set_intersection}
use tfa_project.CallGraph.FuncSets.Correct.{func_set_intersection_sound}
use tfa_project.CallGraph.TwoLayer.{LayerResult, final_funcs, find_callees_with_two_layer_ta}
use tfa_project.CallGraph.TwoLayer.Correct.{
  TwoLayerPost, escaped, resolved, find_callees_with_two_layer_ta-Post,
}
use tfa_project.CallGraph.OneLayer.{Signatures}
use tfa_project.CallGraph.Virtual.{negsuc, CalledKind, Classes, is_nonneg}
use tfa_project.CallGraph.Virtual.Search.{OperandsBelow, get_cpp_virtual_func_lem}
use tfa_project.CallGraph.Verdict.{
  TypeAnalyzeResult, missing_base_type, type_escape, two_layer, result_eq,
}
use tfa_project.CallGraph.Mlta.{
  Layers, CallSite, Mlta, Counts, layer_step, resolve_results, mlta_layers, anon_count,
  virtual_targets, first_layer, start_layers, choose_targets, no_first_layer, with_first_layer,
  find_callees_with_mlta,
}

resolve_results-cases :
    (rs : List TypeAnalyzeResult) (fs1 fs2 : List ℕ)
    → ((resolve_results rs fs1 fs2).1 ≡ fs1) ⊎ ((resolve_results rs fs1 fs2).1 ≡ fs2)
unfolding resolve_results
resolve_results-cases [] fs1 fs2 = inr refl
resolve_results-cases (r ∷ []) fs1 fs2 = elim (Bool-cases (r == two_layer)) [
  | inl yes_two ↦ inr (rw (yes_two, resolve_results) refl)
  | inr no_two ↦ inl (rw (no_two, resolve_results) refl)
]
resolve_results-cases (r ∷ q ∷ rs) fs1 fs2 = elim (Bool-cases (mem type_escape (r ∷ q ∷ rs))) [
  | inl esc ↦ inl (rw (esc, resolve_results) refl)
  | inr no_esc ↦ inr (rw (no_esc, resolve_results) refl)
]

module _ (llvm : Llvm) (tabs : Tables) (ci : ℕ) (one : List ℕ) where
  -- A function of the first layer, or one whose type has no name.
  abbrev pub Allowed : ℕ → Type 0
  Allowed f = (mem f one ≡ true) ⊎ (mem f (tabs.empty_ty_funcs (llvm.call_hash ci)) ≡ true)

  record Inv (s : Layers) : Type 0 where
    first : (f : ℕ) → mem f s.fs1 ≡ true → mem f one ≡ true
    second : (f : ℕ) → mem f s.fs2 ≡ true → Allowed f

  final_funcs-Allowed :
      (pre merge_set : List ℕ) (f : ℕ)
      → ((g : ℕ) → mem g pre ≡ true → mem g one ≡ true)
      → mem f (final_funcs llvm tabs ci pre merge_set) ≡ true
      → Allowed f
  unfolding final_funcs
  final_funcs-Allowed pre merge_set f sub m =
      elim (Bool-cases (mem f (func_set_intersection llvm pre merge_set))) [
        | inl both ↦ inl (sub f (func_set_intersection_sound llvm pre merge_set f both).0)
        | inr named ↦ inr (
            ground (
              arith,
              mem-union f (func_set_intersection llvm pre merge_set)
                  (tabs.empty_ty_funcs (llvm.call_hash ci)),
            ))
      ]

  layer_step-Inv :
      (r : LayerResult) (s : Layers)
      → ((f : ℕ) → mem f r.funcs ≡ true → Allowed f)
      → Inv s
      → Inv (layer_step r s)
  unfolding layer_step
  layer_step-Inv r s allowed i = go r.funcs refl
    where
      go : (fs : List ℕ) → r.funcs ≡ fs → Inv (layer_step r s)
      go (f ∷ fs) e =
          rw (e, layer_step)
            record {
              first = i.first;
              second = λ g m. elim (Bool-cases (mem g s.fs2)) [
                | inl old ↦ i.second g old
                | inr new ↦ allowed g (rw e (ground (arith, mem-union g s.fs2 (f ∷ fs))))
              ];
            }
      go [] e = elim (Bool-cases r.escape) [
        | inl esc ↦ rw (e, esc, layer_step) record { first = i.first; second = i.second }
        | inr no_esc ↦ rw (e, no_esc, layer_step) record { first = λ g m. cc; second = i.second }
      ]

  two_layer-Allowed :
      (pre : List ℕ) (ty idx layer_no : ℕ) (noted : List ℕ)
      → ((g : ℕ) → mem g pre ≡ true → mem g one ≡ true)
      → (r : LayerResult) × (find_callees_with_two_layer_ta llvm tabs ci pre ty idx layer_no noted
          ≡ some r)
        × ((f : ℕ) → mem f r.funcs ≡ true → Allowed f)
  two_layer-Allowed pre ty idx layer_no noted sub =
      go (find_callees_with_two_layer_ta llvm tabs ci pre ty idx layer_no noted)
        (find_callees_with_two_layer_ta-Post llvm tabs ty idx ci pre layer_no noted)
    where
      go :
          (o : Option LayerResult)
          → TwoLayerPost llvm tabs ty idx ci pre o
          → (r : LayerResult) × (o ≡ some r) × ((f : ℕ) → mem f r.funcs ≡ true → Allowed f)
      go none p = elim p [ ]
      go (some r) (escaped e esc empty) = (r, refl, λ f m. let m' = rw empty at m in cc)
      go (some r) (resolved merge_set clean found esc funcs members) =
          (r, refl, λ f m. final_funcs-Allowed pre merge_set f sub (rw funcs at m))

  mlta_layers-Inv :
      (types : List (ℕ × ℕ)) (s : Layers)
      → Inv s
      → (s' : Layers) × (mlta_layers llvm tabs ci types s ≡ some s') × Inv s'
  unfolding mlta_layers
  mlta_layers-Inv [] s i = (s, refl, i)
  mlta_layers-Inv ((ty, idx) ∷ types) s i =
      let (r, e, allowed) = two_layer-Allowed s.fs1 ty idx s.layer_no s.escaped i.first in
      rw (e, mlta_layers)
        (mlta_layers-Inv types _ (
          layer_step-Inv r
            record {
              fs1 = s.fs1;
              fs2 = s.fs2;
              results = s.results;
              layer_no = s.layer_no;
              escaped = s.escaped;
              pre_anon = anon_count llvm tabs ty s.pre_anon;
            }
            allowed record { first = i.first; second = i.second }))

  resolve_results-Allowed :
      (s : Layers)
      → Inv s
      → (f : ℕ) → mem f (resolve_results s.results s.fs1 s.fs2).1 ≡ true
      → Allowed f
  resolve_results-Allowed s i f m = elim (resolve_results-cases s.results s.fs1 s.fs2) [
    | inl is_first ↦ inl (i.first f (rw is_first at m))
    | inr is_second ↦ i.second f (rw is_second at m)
  ]

module _ (llvm : Llvm) (tabs : Tables) (sigs : Signatures) (func_type_cast_map : ℕ → List ℕ)
    (one_layer_funcs_map : ℕ → Option (List ℕ)) (classes : Classes)
    (is_function is_function_or_pointer : ℕ → Bool) (kind_of : ℕ → CalledKind)
    (below : OperandsBelow llvm is_function_or_pointer kind_of) where
  -- Both callers pass the index -1, to which `getCPPVirtualFunc` says no.
  virtual_targets-nil :
      (cv : ℕ)
      → virtual_targets llvm tabs sigs func_type_cast_map one_layer_funcs_map classes is_function
          is_function_or_pointer kind_of cv
        ≡ some []
  unfolding virtual_targets is_nonneg
  virtual_targets-nil cv =
      let (r, e, idx, answers) =
        get_cpp_virtual_func_lem llvm is_function_or_pointer kind_of below (suc cv) cv (negsuc 0)
          none (omega arith) in
      elim (Bool-cases r.found) [
        | inl yes_found ↦ let nonneg = answers yes_found in cc
        | inr no_found ↦ rw (e, no_found, virtual_targets) refl
      ]

  -- With functions in the first layer.
  with_first_layer-Allowed :
      (site : CallSite) (fs1 : List ℕ) (sig_funcs : Table ℕ ℕ) (noted : List ℕ) (counts : Counts)
      → (m : Mlta) × (with_first_layer llvm tabs sigs func_type_cast_map one_layer_funcs_map classes
            is_function is_function_or_pointer kind_of site fs1 sig_funcs noted counts
          ≡ some m)
        × (m.returned ≡ true)
        × ((f : ℕ) → mem f m.funcs ≡ true → Allowed llvm tabs site.ci fs1 f)
  unfolding with_first_layer choose_targets
  with_first_layer-Allowed site fs1 sig_funcs noted counts = elim (Bool-cases site.has_layers) [
    | inl layered ↦
        let (s, e, i) =
          mlta_layers-Inv llvm tabs site.ci fs1 site.layers
            (start_layers llvm tabs sigs func_type_cast_map one_layer_funcs_map classes is_function
              is_function_or_pointer kind_of fs1 noted counts.pre_anon_icall_num)
            record { first = λ f m. m; second = λ f m. cc } in
        rw (layered, e, with_first_layer, choose_targets)
          (_, refl, refl, resolve_results-Allowed llvm tabs site.ci fs1 s i)
    | inr flat ↦
        rw (flat, virtual_targets-nil site.called_value, with_first_layer, choose_targets)
          (_, refl, refl, λ f m. inl m)
  ]

  abbrev pub in_first_layer : CallSite → Table ℕ ℕ → List ℕ
  in_first_layer site sig_funcs =
      (first_layer llvm tabs sigs func_type_cast_map one_layer_funcs_map classes is_function
        is_function_or_pointer kind_of site.ci sig_funcs).0

  -- The two outcomes: nothing in the first layer, or something and targets that it allows.
  abbrev pub MltaPost : CallSite → List ℕ → Table ℕ ℕ → Mlta → Type 0
  MltaPost site fs sig_funcs m =
      (in_first_layer site sig_funcs ≡ [])
        × (m.returned ≡ false)
        × (m.verdict ≡ missing_base_type)
        × (m.funcs ≡ fs)
      ⊎ ((f : ℕ) × (mem f (in_first_layer site sig_funcs) ≡ true))
        × (m.returned ≡ true)
        × ((f : ℕ)
            → mem f m.funcs ≡ true
            → Allowed llvm tabs site.ci (in_first_layer site sig_funcs) f)

  -- When operands come before the values that use them, the analysis of a call ends. Without
  -- functions in the first layer it returns false, leaves `FS` as it was and says that the base
  -- type is missing; otherwise it returns true, and each target is a function of the first layer
  -- or one of the functions of the call's signature that were recorded without a type name.
  pub find_callees_with_mlta_lem :
      (site : CallSite) (fs : List ℕ) (sig_funcs : Table ℕ ℕ) (noted : List ℕ) (counts : Counts)
      → (m : Mlta) × (find_callees_with_mlta llvm tabs sigs func_type_cast_map one_layer_funcs_map
            classes is_function is_function_or_pointer kind_of site fs sig_funcs noted counts
          ≡ some m)
        × MltaPost site fs sig_funcs m
  unfolding find_callees_with_mlta no_first_layer
  find_callees_with_mlta_lem site fs sig_funcs noted counts = go first.0 refl
    where
      first : List ℕ × Table ℕ ℕ
      first =
          first_layer llvm tabs sigs func_type_cast_map one_layer_funcs_map classes is_function
            is_function_or_pointer kind_of site.ci sig_funcs

      go :
          (one : List ℕ)
          → first.0 ≡ one
          → (m : Mlta) × (find_callees_with_mlta llvm tabs sigs func_type_cast_map
                one_layer_funcs_map classes is_function is_function_or_pointer kind_of site fs
                sig_funcs noted counts
              ≡ some m)
            × MltaPost site fs sig_funcs m
      go [] e =
          rw (e, virtual_targets-nil site.called_value, find_callees_with_mlta, no_first_layer)
            (_, refl, inl (refl, refl, refl, refl))
      go (f ∷ one) e =
          let (m, found, returned, allowed) =
            with_first_layer-Allowed site (f ∷ one) first.1 noted counts in
          rw (e, find_callees_with_mlta)
            (m, found, inr ((f, ground (arith, nat_eq.beq_iff f f)), returned, allowed))
