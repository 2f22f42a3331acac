-- ===== src/Tests/Layers.antt =====
-- A load of the field of a struct: value 1 is the address of field 0 of type 0, value 2 a load of
-- it, and value 3 a phi of both.
use tfa_project.Common.{
  ℕ, ◌≡◌, ◌↔◌, refl, Bool, true, false, Option, none, some, List, [], ◌∷◌, mem, nat_eq, pair_eq,
  ◌==◌, if◌then◌else◌, arith,
}
use tfa_project.Common.Text.{Text, contains}
use tfa_project.Tests.CallGraph.{llvm}
use tfa_project.CallGraph.Virtual.{ℤ, pos}
use tfa_project.CallGraph.Layers.{
  Layer, Gep, Shape, Values, precise, recall, Search, next_layer_base_type, stored_values,
  get_gep_layer_types, struct_layer, check_valid_struct_name, inner_type, split_last, index_of,
  is_zero, to_int,
}
use tfa_project.CallGraph.Layers.Total.{next_of_shape, ValuesBelow}
use tfa_project.CallGraph.Layers.Collects.{Leads, layer_of, is_fine}
use tfa_project.CallGraph.Layers.Visits.{Failing}
use tfa_project.CallGraph.Layers.Spec.{none_yet, next_layer-precise, next_layer-recall}
use tfa_project.CallGraph.Layers.Bounds.{LayerOf, get_gep_layer_types-LayerOf}

abbrev pub no_names : ℕ → Option Text
no_names h = none

abbrev pub field : Gep
field = record { base_is_pointer = true; source_type = 0; indices = some (pos 0 ∷ pos 0 ∷ []) }

abbrev pub vals : Values
vals = record {
  shape = λ v.
      if v == 1
      then Shape.gep field
      else if v == 2
      then Shape.load 1
      else if v == 3
      then Shape.phi (1 ∷ 2 ∷ [])
      else Shape.unresolved;
  users = λ v. [];
  is_constant_data = λ v. false;
}

pub vals-ValuesBelow : (names : ℕ → Option Text) → ValuesBelow llvm names vals 4
unfolding next_of_shape stored_values
vals-ValuesBelow names v w h = ground arith

abbrev Resolved : ℕ → Type 0
Resolved v =
    (x : ℕ) → Leads llvm no_names vals v x → is_fine llvm no_names vals (vals.shape x) ≡ true

abbrev HasTypes : ℕ → Search → Type 0
HasTypes v s =
    (t : Layer)
    → (mem t s.ty_list ≡ true) ↔ (
        (x : ℕ) × Leads llvm no_names vals v x
        × (layer_of llvm no_names vals (vals.shape x) ≡ some t))

next_layer-precise_example :
    (ok : Bool) × (s : Search) × (next_layer_base_type llvm no_names vals 5 precise 3 none_yet
      ≡ some (ok, s))
    × ((ok ≡ true) ↔ Resolved 3)
    × (ok ≡ true → HasTypes 3 s)
next_layer-precise_example =
    next_layer-precise llvm no_names vals 4 (vals-ValuesBelow no_names) 5 3 (omega arith)
      (omega arith)

next_layer-recall_example :
    (ok : Bool) × (s : Search) × (next_layer_base_type llvm no_names vals 5 recall 3 none_yet
      ≡ some (ok, s))
    × HasTypes 3 s
    × (ok ≡ false → Failing llvm no_names vals recall (3 ∷ []))
next_layer-recall_example =
    next_layer-recall llvm no_names vals 4 (vals-ValuesBelow no_names) 5 3 (omega arith)
      (omega arith)

field-layer : get_gep_layer_types llvm no_names field ≡ some (0, 0)
unfolding get_gep_layer_types struct_layer check_valid_struct_name inner_type split_last index_of
    is_zero to_int contains
field-layer = refl

get_gep_layer_types-LayerOf_example :
    (is : List ℤ) × (field.indices ≡ some is) × LayerOf llvm no_names 0 is 0 0
get_gep_layer_types-LayerOf_example =
    get_gep_layer_types-LayerOf llvm no_names field 0 0 field-layer
