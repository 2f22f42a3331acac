-- ===== src/Tests/CallGraph.antt =====
-- A driver table: type 0 is `%struct.ops`, whose field 0 holds function 7; it transits to type 1,
-- `%struct.dev`, with function 8. Function 9 has the name of 8. Call 3 has the signature of all.
use tfa_project.Common.{
  ℕ, zero, suc, ◌≡◌, ◌↔◌, ◌⊎◌, refl, true, false, Option, none, some, List, [], ◌∷◌, ◌+◌, ◌*◌, ◌%◌,
  mem, insert, union, nat_eq, list_eq, ◌==◌, if◌then◌else◌, arith,
}
use tfa_project.Common.Text.{Text, codes}
use tfa_project.Common.Tables.{Table, get}
use tfa_project.CallGraph.{
  Llvm, StructInfo, Tables, is_escape, escape_key, layer_name, type_name_idx_hash, hash_idx_hash,
  parse_identified_struct_name,
}
use tfa_project.Common.Text.{contains, starts_with}
use tfa_project.CallGraph.FuncSets.{func_set_intersection, name_set, common, common_named}
use tfa_project.CallGraph.FuncSets.Correct.{
  Shared, by_name, func_set_intersection_sound, func_set_intersection_complete,
}
use tfa_project.CallGraph.TwoLayer.{find_callees_with_two_layer_ta}
use tfa_project.CallGraph.TwoLayer.Correct.{
  TwoLayerPost, Escaping, here, find_callees_with_two_layer_ta-Post,
}
use tfa_project.CallGraph.OneLayer.{
  FuncType, Signatures, ends_with, resolve_variable_parameters, get_one_layer_result,
}
use tfa_project.CallGraph.OneLayer.Result.{
  Resolved, InFittingRow, resolve_variable_parameters_iff, get_one_layer_result_iff,
}
use tfa_project.CallGraph.Virtual.{
  pos, negsuc, is_nonneg, CalledKind, VirtualFunc, Classes, get_cpp_virtual_func,
  get_targets_in_derived_class,
}
use tfa_project.CallGraph.Virtual.Targets.{Target}
use tfa_project.CallGraph.Virtual.Derived.{Visited, get_targets_in_derived_class_lem}
use tfa_project.CallGraph.Virtual.Search.{OperandsBelow, load_pointer, get_cpp_virtual_func_lem}
use tfa_project.CallGraph.Verdict.{type_escape}
use tfa_project.CallGraph.Mlta.{
  Layers, CallSite, Mlta, Counts, mlta_layers, resolve_results, find_callees_with_mlta,
}
use tfa_project.CallGraph.Mlta.Refines.{MltaPost, find_callees_with_mlta_lem}
use tfa_project.CallGraph.Mlta.Verdicts.{no_more, and_more, OneType, all_escape_lem, one_type_lem}

abbrev text_hash : Text → ℕ
text_hash [] = 7
text_hash (c ∷ cs) = (31 * text_hash cs + c) % 1000003

abbrev struct_at : ℕ → Option StructInfo
struct_at ty =
    if ty == 0
    then some record { is_literal = false; name = codes "struct.ops"; elements = 5 ∷ [] }
    else if ty == 1
    then some record { is_literal = false; name = codes "struct.dev"; elements = 5 ∷ [] }
    else none

abbrev func_name_of : ℕ → Text
func_name_of f =
    if f == 7
    then codes "open"
    else if f == 8
    then codes "read"
    else if f == 9
    then codes "read"
    else []

abbrev pub llvm : Llvm
llvm = record {
  struct_of = struct_at;
  is_array = λ ty. false;
  print_type = λ ty. ty ∷ [];
  string_hash = text_hash;
  show_idx = λ i. (48 + i) ∷ [];
  func_name = func_name_of;
  func_hash = λ f. 500;
  call_hash = λ ci. 500;
}

abbrev hash_0 : ℕ
hash_0 = text_hash (0 ∷ [])

abbrev hash_1 : ℕ
hash_1 = text_hash (1 ∷ [])

abbrev funcs_at : ℕ → List ℕ
funcs_at key =
    if key == (hash_0 + text_hash (48 ∷ [])) % 18446744073709551616
    then 7 ∷ []
    else if key == (hash_1 + text_hash (48 ∷ [])) % 18446744073709551616
    then 8 ∷ []
    else []

abbrev tables_with : List ℕ → Tables
tables_with escaping = record {
  type_funcs_map = funcs_at;
  type_transit_map = (hash_0, hash_1 ∷ []) ∷ [];
  type_confine_map = [];
  type_escape_set = escaping;
  hash_type_map = λ h. if h == hash_0 then some 0 else if h == hash_1 then some 1 else none;
  hash_id_type_map = λ h. (none, 0);
  literal_struct_map = λ h. [];
  empty_ty_funcs = λ h. [];
}

abbrev tables : Tables
tables = tables_with []

-- The key of field 0 of `%struct.ops`.
abbrev ops_key : ℕ
ops_key = (text_hash (codes "ops") + text_hash (48 ∷ [])) % 18446744073709551616

abbrev escaping_tables : Tables
escaping_tables = tables_with (ops_key ∷ [])

abbrev variadic : FuncType
variadic = record { return_type = 5; params = 0 ∷ []; type_str = codes "i32 (ops, ...)" }

abbrev sigs : Signatures
sigs = record {
  call_type = λ ci. variadic;
  func_type =
      λ f. some record { return_type = 5; params = 1 ∷ 5 ∷ []; type_str = codes "i32 (dev, i32)" };
  type_id = λ ty. 0;
}

abbrev sig_funcs : Table ℕ ℕ
sig_funcs = (500, []) ∷ (600, 7 ∷ 8 ∷ []) ∷ []

-- The hash of the call's signature.
abbrev sig_key : ℕ
sig_key = 500

abbrev no_classes : Classes
no_classes = record {
  method_index_map = λ name. none;
  vtable_map = λ name. none;
  hierarchy_map = [];
}

-- Value 1 is loaded from value 0.
abbrev kind_at : ℕ → CalledKind
kind_at zero = CalledKind.other
kind_at (suc zero) = CalledKind.load 0
kind_at (suc (suc v)) = CalledKind.other

kind_at-OperandsBelow : OperandsBelow llvm (λ ty. true) kind_at
kind_at-OperandsBelow zero w o = elim o [ ]
kind_at-OperandsBelow (suc zero) w load_pointer = omega arith
kind_at-OperandsBelow (suc (suc v)) w o = elim o [ ]

abbrev counts : Counts
counts = record {
  icall_targets_one_layer = 0;
  pre_anon_icall_num = 0;
  valid_icall_number = 0;
  valid_icall_targets = 0;
}

-- A call through field 0 of `%struct.ops`.
abbrev site : CallSite
site = record { ci = 3; called_value = 1; has_layers = true; layers = (0, 0) ∷ [] }

abbrev start : Layers
start = record {
  fs1 = 7 ∷ 9 ∷ [];
  fs2 = [];
  results = [];
  layer_no = 1;
  escaped = [];
  pre_anon = 0;
}

find_callees_with_mlta_lem_example :
    (m : Mlta) × (find_callees_with_mlta llvm tables sigs
        (λ h. [])
        (λ h. none)
        no_classes
        (λ v. true)
        (λ ty. true)
        kind_at
        site
        []
        sig_funcs
        []
        counts
      ≡ some m)
    × MltaPost llvm tables sigs
        (λ h. [])
        (λ h. none)
        no_classes
        (λ v. true)
        (λ ty. true)
        kind_at
        kind_at-OperandsBelow
        site
        []
        sig_funcs
        m
find_callees_with_mlta_lem_example =
    find_callees_with_mlta_lem llvm tables sigs (λ h. []) (λ h. none) no_classes (λ v. true)
      (λ ty. true) kind_at kind_at-OperandsBelow site [] sig_funcs [] counts

find_callees_with_two_layer_ta-Post_example :
    TwoLayerPost llvm tables 0 0 3
      (7 ∷ 9 ∷ [])
      (find_callees_with_two_layer_ta llvm tables 3 (7 ∷ 9 ∷ []) 0 0 1 [])
find_callees_with_two_layer_ta-Post_example =
    find_callees_with_two_layer_ta-Post llvm tables 0 0 3 (7 ∷ 9 ∷ []) 1 []

one_type_lem_example :
    (s : Layers) × (mlta_layers llvm tables 3 ((0, 0) ∷ []) start ≡ some s)
    × OneType llvm tables 3 0 0 (7 ∷ 9 ∷ []) (resolve_results s.results s.fs1 s.fs2)
one_type_lem_example = one_type_lem llvm tables 3 0 0 start refl refl

ops-Escaping : Escaping llvm escaping_tables 0 0
unfolding is_escape escape_key layer_name type_name_idx_hash hash_idx_hash
    parse_identified_struct_name contains starts_with
ops-Escaping = here refl

all_escape_lem_example :
    (s : Layers) × (mlta_layers llvm escaping_tables 3 ((0, 0) ∷ []) start ≡ some s)
    × (resolve_results s.results s.fs1 s.fs2 ≡ (type_escape, 7 ∷ 9 ∷ []))
all_escape_lem_example =
    all_escape_lem llvm escaping_tables 3 0 0 [] start (and_more ops-Escaping no_more) refl

get_cpp_virtual_func_lem_example :
    (r : VirtualFunc) × (get_cpp_virtual_func llvm (λ ty. true) kind_at 2 1 (negsuc 0) none
      ≡ some r)
    × (r.idx ≡ negsuc 0)
    × (r.found ≡ true → is_nonneg (negsuc 0) ≡ true)
get_cpp_virtual_func_lem_example =
    get_cpp_virtual_func_lem llvm (λ ty. true) kind_at kind_at-OperandsBelow 2 1 (negsuc 0) none
      (omega arith)

-- Class `A` with the method `f`, derived by `B`.
abbrev classes : Classes
classes = record {
  method_index_map = λ name. some (λ i. codes "f" ∷ []);
  vtable_map = λ name. some (λ method. if name == codes "A" then 7 ∷ [] else 8 ∷ []);
  hierarchy_map = (codes "A", codes "B" ∷ []) ∷ [];
}

get_targets_in_derived_class_lem_example :
    (found : List ℕ) × (get_targets_in_derived_class classes (λ v. true) (codes "A") (pos 0) []
      ≡ some found)
    × ((f : ℕ)
        → (mem f found ≡ true) ↔ (
            (mem f [] ≡ true)
            ⊎ (c : Text) × Visited classes (λ v. true) (codes "A") (pos 0) c
              × Target classes (λ v. true) (codes "f" ∷ []) c f))
get_targets_in_derived_class_lem_example =
    get_targets_in_derived_class_lem classes (λ v. true) (codes "A") (pos 0) []
      (λ i. codes "f" ∷ []) refl refl

is_variadic : ends_with variadic.type_str (codes ", ...)") ≡ true
unfolding ends_with
is_variadic = refl

resolve_variable_parameters_iff_example :
    (mem 8 (get (resolve_variable_parameters llvm tables sigs 3 false sig_funcs) 500) ≡ true) ↔ (
      (mem 8 (get sig_funcs 500) ≡ true)
      ⊎ (sig_key ≡ sig_key) × InFittingRow llvm tables sigs variadic 8 sig_funcs)
resolve_variable_parameters_iff_example =
    resolve_variable_parameters_iff llvm tables sigs 3 sig_funcs is_variadic 500 8

abbrev no_entry : ℕ → Option (List ℕ)
no_entry h = none

get_one_layer_result_iff_example :
    (mem 8 (get_one_layer_result llvm tables sigs (λ h. 600 ∷ []) no_entry 3 sig_funcs).0 ≡ true)
    ↔ (((fs : List ℕ) × (no_entry 500 ≡ some fs) × (mem 8 fs ≡ true))
        ⊎ (no_entry 500 ≡ none)
          × (Resolved llvm tables sigs 3 sig_funcs 500 8
              ⊎ (h : ℕ) × (mem h (600 ∷ []) ≡ true) × Resolved llvm tables sigs 3 sig_funcs h 8))
get_one_layer_result_iff_example =
    get_one_layer_result_iff llvm tables sigs (λ h. 600 ∷ []) no_entry 3 sig_funcs 8

abbrev first_set : List ℕ
first_set = 7 ∷ 9 ∷ []

abbrev second_set : List ℕ
second_set = 7 ∷ 8 ∷ []

in_both : mem 7 (func_set_intersection llvm first_set second_set) ≡ true
unfolding func_set_intersection name_set common common_named union insert
in_both = refl

func_set_intersection_sound_example : (mem 7 first_set ≡ true) × Shared llvm second_set 7
func_set_intersection_sound_example =
    func_set_intersection_sound llvm first_set second_set 7 in_both

func_set_intersection_complete_example :
    (f : ℕ) × (mem f (func_set_intersection llvm first_set second_set) ≡ true)
    × (mem f first_set ≡ true)
    × (func_name_of f ≡ func_name_of 9)
func_set_intersection_complete_example =
    func_set_intersection_complete llvm first_set second_set 9 refl (by_name {g = 8} refl refl refl)
