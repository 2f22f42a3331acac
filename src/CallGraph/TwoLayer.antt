-- ===== src/CallGraph/TwoLayer.antt =====
-- `findCalleesWithTwoLayerTA` of TypeAnalysis.cc: the functions that may be stored in a field of a
-- struct type. Three worklist loops follow the transits of the type, those of the field, and the
-- types that its name confines; the first target that escapes ends the search.
-- A null `Type*` (no entry in `hashTypeMap` or `hashIDTypeMap`) is taken as a type that is no struct.
pub mod Walks
pub mod Correct
use tfa_project.Common.{
  ℕ, suc, Bool, true, false, Option, none, some, List, [], ◌∷◌, mem, union, map, nat_eq,
  if◌then◌else◌,
}
use tfa_project.Common.Text.{Text}
use tfa_project.Common.Tables.{Table, get, keys}
use tfa_project.Worklist.{Step, go, stop, Outcome, finished, stopped, out_of_fuel, run, enough}
use tfa_project.CallGraph.{
  Llvm, Tables, type_hash, hash_idx_hash, type_idx_hash, type_name_idx_hash, layer_name, is_escape,
  note_escape,
}
use tfa_project.CallGraph.FuncSets.{func_set_intersection}

-- What a loop's body computes of an `H`: `Hty`, the index (`FieldIdx` or `Hid`) and the key under
-- which `typeFuncsMap` is read.
pub record Target : Type 0 where
  pub ty : Option ℕ
  pub idx : ℕ
  pub key : ℕ

-- `merge_set` and `escapedTypesInTypeAnalysisSet`.
pub record Found : Type 0 where
  pub merge_set : List ℕ
  pub escaped : List ℕ

pub record LayerResult : Type 0 where
  pub funcs : List ℕ
  pub layer_no : ℕ
  pub escape : Bool
  pub escaped : List ℕ

-- A loop that returned ends the function with `escape = 1`; `none` is out of fuel.
abbrev pub after_walk : ℕ → Outcome ℕ Found → (Found → Option LayerResult) → Option LayerResult
after_walk layer_no (finished visited s) rest = rest s
after_walk layer_no (stopped s) rest =
    some record { funcs = []; layer_no = layer_no; escape = true; escaped = s.escaped }
after_walk layer_no out_of_fuel rest = none

module _ (llvm : Llvm) (tabs : Tables) where
  -- `nextLayerResult`
  unfoldable pub target_funcs : Target → List ℕ
  target_funcs t = union (tabs.type_funcs_map t.key) (elim (layer_name llvm tabs t.ty) [
    | none ↦ []
    | some name ↦ tabs.type_funcs_map (type_name_idx_hash llvm name t.idx)
  ])

  unfoldable pub escapes : Target → Bool
  escapes t = is_escape llvm tabs t.ty t.idx

  -- The loop over the targets of one key.
  unfoldable pub visit_targets : (ℕ → Target) → List ℕ → Found → Step Found
  unfolding escapes target_funcs
  visit_targets target [] s = go s
  visit_targets target (h ∷ hs) s =
      let noted = note_escape llvm tabs (target h).ty (target h).idx s.escaped in
      elim (escapes (target h)) [
        | true ↦ stop record { merge_set = s.merge_set; escaped = noted }
        | false ↦
            visit_targets target hs
              record { merge_set = union s.merge_set (target_funcs (target h)); escaped = noted }
      ]

  unfoldable pub walk : Table ℕ ℕ → (ℕ → Target) → ℕ → Found → Outcome ℕ Found
  unfolding visit_targets
  walk table target start s =
      run (get table) (λ key. visit_targets target (get table key))
        (enough (get table) (start ∷ []) (keys table)) (start ∷ []) [] s

  unfoldable pub type_target : ℕ → ℕ → Target
  type_target idx h = record {
    ty = tabs.hash_type_map h;
    idx = idx;
    key = hash_idx_hash llvm h idx;
  }

  unfoldable pub field_target : ℕ → ℕ → Target
  field_target idx h = record { ty = (tabs.hash_id_type_map h).0; idx = idx; key = h }

  unfoldable pub confined_target : ℕ → Target
  confined_target h = record {
    ty = (tabs.hash_id_type_map h).0;
    idx = (tabs.hash_id_type_map h).1;
    key = h;
  }

  -- `LayerTy_name`, empty for a type that is no struct.
  unfoldable pub layer_ty_name : ℕ → Text
  layer_ty_name ty = elim (layer_name llvm tabs (some ty)) [ none ↦ [] | some name ↦ name ]

  unfoldable pub direct_funcs : ℕ → ℕ → List ℕ
  unfolding layer_ty_name
  direct_funcs ty idx =
      union (tabs.type_funcs_map (type_idx_hash llvm ty idx))
        (tabs.type_funcs_map (type_name_idx_hash llvm (layer_ty_name ty) idx))

  unfoldable pub final_funcs : ℕ → List ℕ → List ℕ → List ℕ
  final_funcs ci pre merge_set =
      union (func_set_intersection llvm pre merge_set) (tabs.empty_ty_funcs (llvm.call_hash ci))

  unfoldable pub find_callees_with_two_layer_ta :
      ℕ → List ℕ → ℕ → ℕ → ℕ → List ℕ → Option LayerResult
  unfolding walk type_target field_target confined_target layer_ty_name direct_funcs final_funcs
  find_callees_with_two_layer_ta ci pre ty idx layer_no escaped =
      let noted = note_escape llvm tabs (some ty) idx escaped in
      let s0 : Found = record { merge_set = direct_funcs ty idx; escaped = noted } in
      elim (is_escape llvm tabs (some ty) idx) [
        | true ↦ some record { funcs = []; layer_no = layer_no; escape = true; escaped = noted }
        | false ↦
            after_walk (suc layer_no)
              (walk tabs.type_transit_map (type_target idx) (type_hash llvm ty) s0)
              (λ s1.
                after_walk (suc layer_no)
                  (walk tabs.type_transit_map (field_target idx) (type_idx_hash llvm ty idx) s1)
                  (λ s2.
                    after_walk (suc layer_no)
                      (walk tabs.type_confine_map confined_target
                        (type_name_idx_hash llvm (layer_ty_name ty) idx) s2)
                      (λ s3. some record {
                        funcs = final_funcs ci pre s3.merge_set;
                        layer_no = suc layer_no;
                        escape = false;
                        escaped = s3.escaped;
                      })))
      ]
