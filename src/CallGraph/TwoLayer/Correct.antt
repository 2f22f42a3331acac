-- ===== src/CallGraph/TwoLayer/Correct.antt =====
-- What `findCalleesWithTwoLayerTA` returns.
use tfa_project.Common.{
  ℕ, suc, ◌≡◌, refl, ◌↔◌, ◌⊎◌, inl, inr, true, false, Option, some, List, [], mem, nat_eq,
  Bool-cases, mem-union, arith,
}
use tfa_project.Common.Tables.{Table}
use tfa_project.Worklist.{Outcome, finished, stopped, out_of_fuel}
use tfa_project.CallGraph.{
  Llvm, Tables, type_hash, type_idx_hash, type_name_idx_hash, is_escape, note_escape,
}
use tfa_project.CallGraph.FuncSets.{func_set_intersection}
use tfa_project.CallGraph.TwoLayer.{
  Target, Found, LayerResult, target_funcs, escapes, walk, type_target, field_target,
  confined_target, layer_ty_name, direct_funcs, after_walk, final_funcs,
  find_callees_with_two_layer_ta,
}
use tfa_project.CallGraph.TwoLayer.Walks.{Passed, Walked, through, caught, walk-Walked}

module _ (llvm : Llvm) (tabs : Tables) where
  final_funcs_iff :
      (ci : ℕ) (pre merge_set : List ℕ) (f : ℕ)
      → (mem f (final_funcs llvm tabs ci pre merge_set) ≡ true) ↔ (
          (mem f (func_set_intersection llvm pre merge_set) ≡ true)
          ⊎ (mem f (tabs.empty_ty_funcs (llvm.call_hash ci)) ≡ true))
  unfolding final_funcs
  final_funcs_iff ci pre merge_set f = ground (
    arith,
    mem-union f (func_set_intersection llvm pre merge_set)
        (tabs.empty_ty_funcs (llvm.call_hash ci)),
  )

module _ (llvm : Llvm) (tabs : Tables) (ty idx : ℕ) where
  -- The targets that the three loops are for.
  pub data Related : Target → Type 0 where
    by_type :
        {h : ℕ}
        → Passed tabs.type_transit_map (type_hash llvm ty) h
        → Related (type_target llvm tabs idx h)
    by_field :
        {h : ℕ}
        → Passed tabs.type_transit_map (type_idx_hash llvm ty idx) h
        → Related (field_target llvm tabs idx h)
    by_confine :
        {h : ℕ}
        → Passed tabs.type_confine_map (type_name_idx_hash llvm (layer_ty_name llvm tabs ty) idx) h
        → Related (confined_target llvm tabs h)

  -- The functions stored in the field itself or in a related one.
  pub data Candidate (f : ℕ) : Type 0 where
    direct : mem f (direct_funcs llvm tabs ty idx) ≡ true → Candidate f
    related : {t : Target} → Related t → mem f (target_funcs llvm tabs t) ≡ true → Candidate f

  -- The type itself escapes or a related target does.
  pub data Escaping : Type 0 where
    here : is_escape llvm tabs (some ty) idx ≡ true → Escaping
    there : {t : Target} → Related t → escapes llvm tabs t ≡ true → Escaping

  pub data TwoLayerPost (ci : ℕ) (pre : List ℕ) : Option LayerResult → Type 0 where
    escaped :
        {r : LayerResult} → Escaping → r.escape ≡ true → r.funcs ≡ [] → TwoLayerPost ci pre (some r)
    resolved :
        {r : LayerResult} (merge_set : List ℕ)
        → ¬ Escaping
        → ((f : ℕ) → (mem f merge_set ≡ true) ↔ Candidate f)
        → r.escape ≡ false
        → r.funcs ≡ final_funcs llvm tabs ci pre merge_set
        → ((f : ℕ)
            → (mem f r.funcs ≡ true) ↔ (
                (mem f (func_set_intersection llvm pre merge_set) ≡ true)
                ⊎ (mem f (tabs.empty_ty_funcs (llvm.call_hash ci)) ≡ true)))
        → TwoLayerPost ci pre (some r)

  no_Escaping :
      is_escape llvm tabs (some ty) idx ≡ false
      → ((h : ℕ)
          → Passed tabs.type_transit_map (type_hash llvm ty) h
          → escapes llvm tabs (type_target llvm tabs idx h) ≡ false)
      → ((h : ℕ)
          → Passed tabs.type_transit_map (type_idx_hash llvm ty idx) h
          → escapes llvm tabs (field_target llvm tabs idx h) ≡ false)
      → ((h : ℕ)
          → Passed tabs.type_confine_map
              (type_name_idx_hash llvm (layer_ty_name llvm tabs ty) idx)
              h
          → escapes llvm tabs (confined_target llvm tabs h) ≡ false)
      → ¬ Escaping
  no_Escaping e clean1 clean2 clean3 (here e') = cc
  no_Escaping e clean1 clean2 clean3 (there (by_type {h} p) e') = cc (clean1 h p)
  no_Escaping e clean1 clean2 clean3 (there (by_field {h} p) e') = cc (clean2 h p)
  no_Escaping e clean1 clean2 clean3 (there (by_confine {h} p) e') = cc (clean3 h p)

  -- What the three loops have found together.
  abbrev FoundBy :
      (table : Table ℕ ℕ) (target : ℕ → Target) (start : ℕ) (before after : Found) → Type 0
  FoundBy table target start before after =
      (f : ℕ)
      → (mem f after.merge_set ≡ true) ↔ (
          (mem f before.merge_set ≡ true)
          ⊎ (h : ℕ) × Passed table start h × (mem f (target_funcs llvm tabs (target h)) ≡ true))

  found-Candidate :
      (noted : List ℕ) (s1 s2 s3 : Found)
      → FoundBy tabs.type_transit_map
          (type_target llvm tabs idx)
          (type_hash llvm ty)
          record { merge_set = direct_funcs llvm tabs ty idx; escaped = noted }
          s1
      → FoundBy tabs.type_transit_map (field_target llvm tabs idx) (type_idx_hash llvm ty idx) s1 s2
      → FoundBy tabs.type_confine_map
          (confined_target llvm tabs)
          (type_name_idx_hash llvm (layer_ty_name llvm tabs ty) idx)
          s2
          s3
      → (f : ℕ) → (mem f s3.merge_set ≡ true) ↔ Candidate f
  found-Candidate noted s1 s2 s3 found1 found2 found3 f = (to, from)
    where
      to : mem f s3.merge_set ≡ true → Candidate f
      to m = elim ((found3 f).0 m) [
        | inr (h, p, o) ↦ related (by_confine p) o
        | inl m2 ↦ elim ((found2 f).0 m2) [
          | inr (h, p, o) ↦ related (by_field p) o
          | inl m1 ↦ elim ((found1 f).0 m1) [
            | inr (h, p, o) ↦ related (by_type p) o
            | inl m0 ↦ direct m0
          ]
        ]
      ]

      from : Candidate f → mem f s3.merge_set ≡ true
      from (direct m) = (found3 f).1 (inl ((found2 f).1 (inl ((found1 f).1 (inl m)))))
      from (related (by_type {h} p) o) =
          (found3 f).1 (inl ((found2 f).1 (inl ((found1 f).1 (inr (h, p, o))))))
      from (related (by_field {h} p) o) = (found3 f).1 (inl ((found2 f).1 (inr (h, p, o))))
      from (related (by_confine {h} p) o) = (found3 f).1 (inr (h, p, o))

  module _ (ci : ℕ) (pre : List ℕ) where
    after_walk-Post :
        (layer_no : ℕ) (table : Table ℕ ℕ) (target : ℕ → Target) (start : ℕ) (s0 : Found)
        (rest : Found → Option LayerResult)
        → ((h : ℕ) → Passed table start h → Related (target h))
        → ((s : Found)
            → ((h : ℕ) → Passed table start h → escapes llvm tabs (target h) ≡ false)
            → ((f : ℕ)
                → (mem f s.merge_set ≡ true) ↔ (
                    (mem f s0.merge_set ≡ true)
                    ⊎ (h : ℕ) × Passed table start h
                      × (mem f (target_funcs llvm tabs (target h)) ≡ true)))
            → TwoLayerPost ci pre (rest s))
        → TwoLayerPost ci pre (after_walk layer_no (walk llvm tabs table target start s0) rest)
    after_walk-Post layer_no table target start s0 rest relate next =
        go (walk llvm tabs table target start s0) (walk-Walked llvm tabs table target start s0)
      where
        go :
            (o : Outcome ℕ Found)
            → Walked llvm tabs table target start s0 o
            → TwoLayerPost ci pre (after_walk layer_no o rest)
        go (finished visited s) (through clean found) = next s clean found
        go out_of_fuel w = elim w [ ]
        go (stopped s) (caught p e) = escaped (there (relate _ p) e) refl refl

    -- The call ends. It reports an escape, with no functions, exactly when the type or a related
    -- target escapes. Otherwise it has exactly the functions of the intersection of the
    -- previous layer with the candidates and those of the call's signature without a type name.
    pub find_callees_with_two_layer_ta-Post :
        (layer_no : ℕ) (noted : List ℕ)
        → TwoLayerPost ci pre
            (find_callees_with_two_layer_ta llvm tabs ci pre ty idx layer_no noted)
    unfolding find_callees_with_two_layer_ta
    find_callees_with_two_layer_ta-Post layer_no noted =
        elim (Bool-cases (is_escape llvm tabs (some ty) idx)) [
          | inl e ↦ rw (e, find_callees_with_two_layer_ta) (escaped (here e) refl refl)
          | inr e ↦
              rw (e, find_callees_with_two_layer_ta)
                (after_walk-Post (suc layer_no) tabs.type_transit_map (type_target llvm tabs idx)
                  (type_hash llvm ty)
                  record {
                    merge_set = direct_funcs llvm tabs ty idx;
                    escaped = note_escape llvm tabs (some ty) idx noted;
                  }
                  _ (λ h p. by_type p)
                  (λ s1 clean1 found1.
                    after_walk-Post (suc layer_no) tabs.type_transit_map
                      (field_target llvm tabs idx) (type_idx_hash llvm ty idx) s1 _
                      (λ h p. by_field p)
                      (λ s2 clean2 found2.
                        after_walk-Post (suc layer_no) tabs.type_confine_map
                          (confined_target llvm tabs)
                          (type_name_idx_hash llvm (layer_ty_name llvm tabs ty) idx) s2 _
                          (λ h p. by_confine p)
                          (λ s3 clean3 found3.
                            resolved s3.merge_set (no_Escaping e clean1 clean2 clean3)
                              (found-Candidate (note_escape llvm tabs (some ty) idx noted) s1 s2 s3
                                found1 found2 found3)
                              refl refl (final_funcs_iff llvm tabs ci pre s3.merge_set)))))
        ]
