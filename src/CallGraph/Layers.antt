-- ===== src/CallGraph/Layers.antt =====
-- The struct types that a value was loaded through: `getGEPLayerTypes` and `nextLayerBaseType_new`
-- of LayerAnalysis.cc, with `getLayerTwoType` and `checkValidStructName` of CallGraphTools.cc.
-- `ENABLE_ENHANCED_GEP_ANALYSIS` is not defined in utils/Config.h.
pub mod Bounds
pub mod Total
pub mod Collects
pub mod Visits
pub mod Spec
use tfa_project.Common.{
  ℕ, zero, suc, ◌+◌, ◌-◌, ◌%◌, ◌^◌, Bool, true, false, ◌&&◌, ◌||◌, not, Option, none, some, List,
  [], ◌∷◌, ◌++◌, mem, if◌then◌else◌, ltb, leb, get_elem?, nat_eq, ◌==◌,
}
use tfa_project.Common.Text.{Text, codes, contains}
use tfa_project.CallGraph.{Llvm, type_hash}
use tfa_project.CallGraph.Virtual.{ℤ, pos, negsuc, is_nonneg}

-- A `GEPOperator`: whether its pointer operand is a (scalar) pointer, its source element type, and
-- the `getSExtValue` of its indices when all of them are constants.
pub record Gep : Type 0 where
  pub base_is_pointer : Bool
  pub source_type : ℕ
  pub indices : Option (List ℤ)

-- The classes of a value in the order in which the code tests for them. `unresolved` stands for a
-- null value, an argument, a call and a global value, `other` for what no test finds.
pub data Shape : Type 0 where
  unresolved : Shape
  gep : Gep → Shape
  bit_cast : ℕ → Shape
  load : ℕ → Shape
  phi : List ℕ → Shape
  select : (true_value false_value : ℕ) → Shape
  unary : ℕ → Shape
  other : Shape

-- A user of a value: a store of a value to a pointer, or another instruction.
pub data User : Type 0 where
  store : (value pointer : ℕ) → User
  other_user : User

pub record Values : Type 0 where
  pub shape : ℕ → Shape
  pub users : ℕ → List User
  pub is_constant_data : ℕ → Bool

-- `CompositeType`: a type and the index of an element.
abbrev pub Layer : Type 0
Layer = ℕ × ℕ

pub data Mode : Type 0 where
  precise : Mode
  recall : Mode

-- `TyList` and `VisitedSet`
pub record Search : Type 0 where
  pub ty_list : List Layer
  pub visited : List ℕ

-- The conversion of a 64-bit value to `int`: its low 32 bits.
unfoldable pub to_int : ℤ → ℤ
to_int (pos n) = let r = n % 2 ^ 32 in if ltb r (2 ^ 31) then pos r else negsuc (2 ^ 32 - 1 - r)
to_int (negsuc n) = let r = n % 2 ^ 32 in if ltb r (2 ^ 31) then negsuc r else pos (2 ^ 32 - 1 - r)

-- `int Id = …; if (Id < 0) return false;`
unfoldable pub index_of : ℤ → Option ℕ
unfolding to_int
index_of i = elim (to_int i) [ pos n ↦ some n | negsuc n ↦ none ]

unfoldable pub is_zero : ℤ → Bool
unfolding to_int
is_zero i = elim (to_int i) [ pos zero ↦ true | pos (suc n) ↦ false | negsuc n ↦ false ]

-- The indices between the first and the last, and the last.
unfoldable pub split_last : ℤ → List ℤ → List ℤ × ℤ
split_last i [] = ([], i)
split_last i (j ∷ js) = (let (before, last) = split_last j js in (i ∷ before, last))

unfoldable pub indices_of : List ℤ → Option (List ℕ)
unfolding index_of
indices_of [] = some []
indices_of (i ∷ is) = elim (index_of i) [
  | none ↦ none
  | some n ↦ elim (indices_of is) [ none ↦ none | some ns ↦ some (n ∷ ns) ]
]

module _ (llvm : Llvm) where
  -- `getLayerTwoType`; no element past the end of a struct is asked for in a valid module.
  unfoldable pub get_layer_two_type : ℕ → List ℕ → Option ℕ
  get_layer_two_type base_ty [] = elim (llvm.struct_of base_ty) [
    | none ↦ none
    | some sty ↦ some base_ty
  ]
  get_layer_two_type base_ty (id ∷ ids) = elim (llvm.struct_of base_ty) [
    | none ↦ none
    | some sty ↦ elim (get_elem? sty.elements id) [
      | none ↦ none
      | some sub_ty ↦ get_layer_two_type sub_ty ids
    ]
  ]

  unfoldable pub is_valid_name : Text → Bool
  is_valid_name name =
      if contains (codes ".union") name
      then false
      else if contains (codes ".anon") name
      then false
      else true

  -- `checkValidStructName`; `literal_names` is `Global_Literal_Struct_Map`.
  unfoldable pub check_valid_struct_name : (ℕ → Option Text) → ℕ → Bool
  unfolding is_valid_name
  check_valid_struct_name literal_names ty = elim (llvm.struct_of ty) [
    | none ↦ false
    | some sty ↦
        if sty.is_literal
        then (elim (literal_names (type_hash llvm ty)) [
          | none ↦ false
          | some name ↦ is_valid_name name
        ])
        else is_valid_name sty.name
  ]

-- A failure that returns at once.
abbrev pub fails_now : Mode → Bool → Bool
fails_now precise ok = not ok
fails_now recall ok = false

-- `fail_tag` after the rest of a loop.
abbrev pub and_then : Bool → Option (Bool × Search) → Option (Bool × Search)
and_then ok none = none
and_then ok (some (rest_ok, s)) = some (ok && rest_ok, s)

module _ (llvm : Llvm) (literal_names : ℕ → Option Text) where
  -- The type that the indices between the first and the last lead to.
  unfoldable pub inner_type : ℕ → List ℤ → Option ℕ
  inner_type ty [] = some ty
  inner_type ty (i ∷ is) = elim (indices_of (i ∷ is)) [
    | none ↦ none
    | some ids ↦ elim (get_layer_two_type llvm ty ids) [
      | none ↦ none
      | some result_ty ↦
          if check_valid_struct_name llvm literal_names result_ty then some result_ty else none
    ]
  ]

  -- `getGEPLayerTypes` on a struct type with constant indices: its tests in the source's order.
  -- One index is too few; none at all does not occur with a struct type.
  unfoldable pub struct_layer : ℕ → List ℤ → Option Layer
  struct_layer ty [] = none
  struct_layer ty (first ∷ []) = none
  struct_layer ty (first ∷ i ∷ is) =
      let (before, last) = split_last i is in
      elim (index_of last) [
        | none ↦ none
        | some idx ↦
            if not (check_valid_struct_name llvm literal_names ty)
            then none
            else if not (is_zero first)
            then none
            else elim (inner_type ty before) [
              | none ↦ none
              | some result_ty ↦ some (result_ty, idx)
            ]
      ]

  -- The pair that `getGEPLayerTypes` pushes; `none` when it returns false.
  unfoldable pub get_gep_layer_types : Gep → Option Layer
  unfolding struct_layer
  get_gep_layer_types g =
      if not g.base_is_pointer then none else elim (llvm.struct_of g.source_type) [
        | none ↦ none
        | some sty ↦ elim g.indices [ none ↦ none | some is ↦ struct_layer g.source_type is ]
      ]

  module _ (vals : Values) where
    -- The values stored to a pointer, constant data left aside: what the loop over
    -- `LPO->users()` goes into.
    unfoldable pub stored_values : ℕ → List User → List ℕ
    stored_values lpo [] = []
    stored_values lpo (store vop pop ∷ us) =
        let rest = stored_values lpo us in
        if not (lpo == pop) then rest else if vals.is_constant_data vop then rest else vop ∷ rest
    stored_values lpo (other_user ∷ us) = stored_values lpo us

    -- A loop over values with `fail_tag`. `visit` is the recursive call; `none` is out of fuel.
    unfoldable pub search_all :
        (ℕ → Search → Option (Bool × Search)) → Mode → List ℕ → Search → Option (Bool × Search)
    search_all visit mode [] s = some (true, s)
    search_all visit mode (v ∷ vs) s = elim (visit v s) [
      | none ↦ none
      | some (ok, s') ↦
          if fails_now mode ok then some (false, s') else and_then ok (search_all visit mode vs s')
    ]

    -- A load: its pointer, whose failure counts in precise mode only, and what is stored there.
    unfoldable pub search_load :
        (ℕ → Search → Option (Bool × Search)) → Mode → ℕ → Search → Option (Bool × Search)
    unfolding search_all stored_values
    search_load visit mode lpo s = elim (visit lpo s) [
      | none ↦ none
      | some (ok, s') ↦
          if fails_now mode ok
          then some (false, s')
          else search_all visit mode (stored_values lpo (vals.users lpo)) s'
    ]

    -- The cases on the class of a value that is not visited.
    unfoldable pub search_shape :
        (ℕ → Search → Option (Bool × Search)) → Mode → Shape → Search → Option (Bool × Search)
    search_shape visit mode unresolved s = some (false, s)
    search_shape visit mode (gep g) s = elim (get_gep_layer_types g) [
      | none ↦ some (false, s)
      | some layer ↦ some (true, record s { ty_list = s.ty_list ++ layer ∷ [] })
    ]
    search_shape visit mode (bit_cast v) s = visit v s
    search_shape visit mode (load lpo) s = search_load visit mode lpo s
    search_shape visit mode (phi vs) s = search_all visit mode vs s
    search_shape visit mode (select tv fv) s = search_all visit mode (tv ∷ fv ∷ []) s
    search_shape visit mode (unary v) s = visit v s
    search_shape visit mode other s = some (false, s)

    unfoldable pub is_unresolved : Shape → Bool
    is_unresolved unresolved = true
    is_unresolved _ = false

    -- `nextLayerBaseType_new`
    unfoldable pub next_layer_base_type : ℕ → Mode → ℕ → Search → Option (Bool × Search)
    next_layer_base_type zero mode v s = none
    next_layer_base_type (suc fuel) mode v s =
        if is_unresolved (vals.shape v)
        then some (false, s)
        else if mem v s.visited
        then some (true, s)
        else search_shape (next_layer_base_type fuel mode) mode (vals.shape v)
            (record s { visited = v ∷ s.visited })
