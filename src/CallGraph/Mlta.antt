-- ===== src/CallGraph/Mlta.antt =====
-- `findCalleesWithMLTA` of TypeAnalysis.cc: the targets of an indirect call from the first layer, the
-- struct types that the called value was loaded through, or the virtual tables of its class.
-- What `nextLayerBaseType_new` answers for the called value is an input of a call (`layers`).
pub mod Refines
pub mod Verdicts
use tfa_project.Common.{
  ℕ, suc, zero, ◌+◌, Bool, true, false, ◌&&◌, ◌||◌, Option, none, some, List, [], ◌∷◌, mem, insert,
  union, if◌then◌else◌, length, nat_eq, ◌==◌, ltb, ◌≡◌, refl, sym, ap, ◌∙◌, Eq, arith,
}
use tfa_project.Common.Text.{Text, codes, contains}
use tfa_project.Common.Tables.{Table}
use tfa_project.CallGraph.{Llvm, StructInfo, Tables}
use tfa_project.CallGraph.TwoLayer.{LayerResult, find_callees_with_two_layer_ta}
use tfa_project.CallGraph.OneLayer.{Signatures, get_one_layer_result}
use tfa_project.CallGraph.Verdict.{
  TypeAnalyzeResult, type_escape, one_layer, two_layer, no_two_layer_info, missing_base_type,
  mixed_layer, v_table, result_eq,
}
use tfa_project.CallGraph.Virtual.{
  ℤ, negsuc, CalledKind, VirtualFunc, Classes, get_cpp_virtual_func, get_targets_in_derived_class,
}

-- The counters of `GlobalContext` that the function advances.
pub record Counts : Type 0 where
  pub icall_targets_one_layer : ℕ
  pub pre_anon_icall_num : ℕ
  pub valid_icall_number : ℕ
  pub valid_icall_targets : ℕ

-- The variables of the loop over `TyList`.
pub record Layers : Type 0 where
  pub fs1 : List ℕ
  pub fs2 : List ℕ
  pub results : List TypeAnalyzeResult
  pub layer_no : ℕ
  pub escaped : List ℕ
  pub pre_anon : ℕ

-- An indirect call, its called value, and what `nextLayerBaseType_new` says of that value.
pub record CallSite : Type 0 where
  pub ci : ℕ
  pub called_value : ℕ
  pub has_layers : Bool
  pub layers : List (ℕ × ℕ)

-- `FS`, the entry of `Global_MLTA_Reualt_Map`, the returned value and the shared state.
pub record Mlta : Type 0 where
  pub funcs : List ℕ
  pub verdict : TypeAnalyzeResult
  pub returned : Bool
  pub sig_funcs : Table ℕ ℕ
  pub escaped : List ℕ
  pub counts : Counts

-- One type of the list, by what the second layer found for it.
unfoldable pub layer_step : LayerResult → Layers → Layers
layer_step r s = elim r.funcs [
  | f ∷ fs ↦ record {
    fs1 = s.fs1;
    fs2 = union s.fs2 r.funcs;
    results = insert two_layer s.results;
    layer_no = r.layer_no;
    escaped = r.escaped;
    pre_anon = s.pre_anon;
  }
  | [] ↦
      if r.escape
      then record {
        fs1 = s.fs1;
        fs2 = s.fs2;
        results = insert type_escape s.results;
        layer_no = r.layer_no;
        escaped = r.escaped;
        pre_anon = s.pre_anon;
      }
      else record {
        fs1 = [];
        fs2 = s.fs2;
        results = insert no_two_layer_info s.results;
        layer_no = r.layer_no;
        escaped = r.escaped;
        pre_anon = s.pre_anon;
      }
]

-- "Resolve TAResult": the verdict and the functions.
unfoldable pub resolve_results :
    List TypeAnalyzeResult → List ℕ → List ℕ → TypeAnalyzeResult × List ℕ
resolve_results [] fs1 fs2 = (mixed_layer, fs2)
resolve_results (r ∷ []) fs1 fs2 = (r, if r == two_layer then fs2 else fs1)
resolve_results (r ∷ q ∷ rs) fs1 fs2 =
    if mem type_escape (r ∷ q ∷ rs) then (type_escape, fs1) else (mixed_layer, fs2)

module _ (llvm : Llvm) (tabs : Tables) where
  abbrev pub struct_name : Option ℕ → Text
  struct_name none = []
  struct_name (some ty) = elim (llvm.struct_of ty) [ none ↦ [] | some sty ↦ sty.name ]

  unfoldable pub anon_count : ℕ → ℕ → ℕ
  anon_count ty n = if contains (codes ".anon") (struct_name (some ty)) then suc n else n

  -- `none` if a call of `findCalleesWithTwoLayerTA` does not end.
  unfoldable pub mlta_layers : ℕ → List (ℕ × ℕ) → Layers → Option Layers
  unfolding layer_step anon_count
  mlta_layers ci [] s = some s
  mlta_layers ci ((ty, idx) ∷ types) s =
      elim (find_callees_with_two_layer_ta llvm tabs ci s.fs1 ty idx s.layer_no s.escaped) [
        | none ↦ none
        | some r ↦ mlta_layers ci types (
            layer_step r record {
              fs1 = s.fs1;
              fs2 = s.fs2;
              results = s.results;
              layer_no = s.layer_no;
              escaped = s.escaped;
              pre_anon = anon_count ty s.pre_anon;
            })
      ]

module _ (llvm : Llvm) (tabs : Tables) (sigs : Signatures) (func_type_cast_map : ℕ → List ℕ)
    (one_layer_funcs_map : ℕ → Option (List ℕ)) (classes : Classes)
    (is_function is_function_or_pointer : ℕ → Bool) (kind_of : ℕ → CalledKind) where
  -- The targets in virtual tables, empty for a value that is not loaded from one.
  unfoldable pub virtual_targets : ℕ → Option (List ℕ)
  virtual_targets cv =
      elim (get_cpp_virtual_func llvm is_function_or_pointer kind_of (suc cv) cv (negsuc 0) none) [
        | none ↦ none
        | some v ↦
            if v.found
            then get_targets_in_derived_class classes is_function (struct_name llvm tabs v.sty)
                v.idx []
            else some []
      ]

  -- The first layer of the call.
  unfoldable pub first_layer : ℕ → Table ℕ ℕ → List ℕ × Table ℕ ℕ
  first_layer ci sig_funcs =
      get_one_layer_result llvm tabs sigs func_type_cast_map one_layer_funcs_map ci sig_funcs

  abbrev pub start_layers : List ℕ → List ℕ → ℕ → Layers
  start_layers fs1 escaped pre_anon = record {
    fs1 = fs1;
    fs2 = [];
    results = [];
    layer_no = 1;
    escaped = escaped;
    pre_anon = pre_anon;
  }

  -- The verdict, `FS1`, `LayerNo`, the escaped keys and the count of anonymous structs when the
  -- function reaches `FS = FS1`.
  abbrev Choice : Type 0
  Choice = TypeAnalyzeResult × List ℕ × ℕ × List ℕ × ℕ

  unfoldable pub choose_targets : CallSite → List ℕ → List ℕ → ℕ → Option Choice
  unfolding virtual_targets mlta_layers resolve_results
  choose_targets site fs1 escaped pre_anon =
      if site.has_layers
      then elim (mlta_layers llvm tabs site.ci site.layers (start_layers fs1 escaped pre_anon)) [
        | none ↦ none
        | some s ↦
            let resolved = resolve_results s.results s.fs1 s.fs2 in
            some (resolved.0, resolved.1, s.layer_no, s.escaped, s.pre_anon)
      ]
      else elim (virtual_targets site.called_value) [
        | none ↦ none
        | some [] ↦ some (one_layer, fs1, 1, escaped, pre_anon)
        | some (f ∷ fs) ↦ some (v_table, f ∷ fs, 1, escaped, pre_anon)
      ]

  abbrev count_targets : ℕ → ℕ → List ℕ → Counts → Counts
  count_targets layer_no pre_anon fs counts =
      if ltb 1 layer_no
      then record {
        icall_targets_one_layer = counts.icall_targets_one_layer;
        pre_anon_icall_num = pre_anon;
        valid_icall_number = suc counts.valid_icall_number;
        valid_icall_targets = counts.valid_icall_targets + length fs;
      }
      else record {
        icall_targets_one_layer = counts.icall_targets_one_layer;
        pre_anon_icall_num = pre_anon;
        valid_icall_number = counts.valid_icall_number;
        valid_icall_targets = counts.valid_icall_targets;
      }

  abbrev count_first : List ℕ → Counts → Counts
  count_first fs1 counts = record {
    icall_targets_one_layer = counts.icall_targets_one_layer + length fs1;
    pre_anon_icall_num = counts.pre_anon_icall_num;
    valid_icall_number = counts.valid_icall_number;
    valid_icall_targets = counts.valid_icall_targets;
  }

  -- Without functions in the first layer: `FS` is left alone unless there are virtual targets.
  unfoldable pub no_first_layer : CallSite → List ℕ → Table ℕ ℕ → List ℕ → Counts → Option Mlta
  unfolding virtual_targets
  no_first_layer site fs sig_funcs escaped counts = elim (virtual_targets site.called_value) [
    | none ↦ none
    | some [] ↦ some record {
      funcs = fs;
      verdict = missing_base_type;
      returned = false;
      sig_funcs = sig_funcs;
      escaped = escaped;
      counts = counts;
    }
    | some (v ∷ vs) ↦ some record {
      funcs = v ∷ vs;
      verdict = v_table;
      returned = false;
      sig_funcs = sig_funcs;
      escaped = escaped;
      counts = counts;
    }
  ]

  unfoldable pub with_first_layer : CallSite → List ℕ → Table ℕ ℕ → List ℕ → Counts → Option Mlta
  unfolding choose_targets
  with_first_layer site fs1 sig_funcs escaped counts =
      elim (choose_targets site fs1 escaped counts.pre_anon_icall_num) [
        | none ↦ none
        | some (verdict, fs, layer_no, noted, pre_anon) ↦ some record {
          funcs = fs;
          verdict = verdict;
          returned = true;
          sig_funcs = sig_funcs;
          escaped = noted;
          counts = count_targets layer_no pre_anon fs (count_first fs1 counts);
        }
      ]

  unfoldable pub find_callees_with_mlta :
      CallSite → List ℕ → Table ℕ ℕ → List ℕ → Counts → Option Mlta
  unfolding first_layer no_first_layer with_first_layer
  find_callees_with_mlta site fs sig_funcs escaped counts =
      let first = first_layer site.ci sig_funcs in
      elim first.0 [
        | [] ↦ no_first_layer site fs first.1 escaped counts
        | f ∷ fs1 ↦ with_first_layer site (f ∷ fs1) first.1 escaped counts
      ]
