-- ===== src/CallGraph/Confine.antt =====
-- src/lib/CallGraph: the tables that the pass fills from stores, casts and initialisers, and the
-- operations that record a function or a type in them (`updateStructInfo` and `getGlobalFuncs` of
-- CallGraphTools.cc, `escapeType` and `transitType` of CallGraph.cc).
pub mod Stores
pub mod Handlers
pub mod Initializers
pub mod Casts
pub mod Module
pub mod Grows
pub mod Kept
pub mod BaseTypes
pub mod Total
pub mod Fields
pub mod Modules
use tfa_project.Common.{
  ℕ, suc, ◌+◌, Bool, true, false, ◌&&◌, ◌||◌, not, Option, none, some, List, [], ◌∷◌, mem, insert,
  union, update, nat_eq, ◌==◌, if◌then◌else◌, is_some,
}
use tfa_project.Common.Text.{Text, codes, contains, is_empty}
use tfa_project.CallGraph.{
  Llvm, StructInfo, type_hash, type_idx_hash, type_name_idx_hash, parse_identified_struct_name,
}

-- The tables of `CallGraphPass` and `GlobalContext` that the pass writes, with its counters. A map
-- of sets is a function; a key without an entry has the empty set.
pub record Collected : Type 0 where
  pub type_funcs_map : ℕ → List ℕ
  -- `Ctx->sigFuncsMap` and `Ctx->Global_EmptyTy_Funcs`
  pub sig_funcs_map : ℕ → List ℕ
  pub empty_ty_funcs : ℕ → List ℕ
  pub type_confine_map : ℕ → List ℕ
  pub type_transit_map : ℕ → List ℕ
  pub type_str_cast_map : Text → List Text
  pub type_escape_set : List ℕ
  pub escaped_store_map : ℕ → List ℕ
  -- `Func_Init_Map`: by store or global variable, then by function.
  pub func_init_map : ℕ → ℕ → List ℕ
  pub hash_type_map : ℕ → Option ℕ
  pub hash_id_type_map : ℕ → Option (ℕ × ℕ)
  -- `Ctx->Global_Literal_Struct_Map` and `Ctx->Globa_Union_Set`
  pub literal_names : ℕ → Option Text
  pub union_set : List ℕ
  pub escape_func_set : List ℕ
  pub address_taken_funcs : List ℕ
  -- `UnifiedFuncMap` and `UnifiedFuncSet`
  pub unified_func_map : ℕ → Option ℕ
  pub unified_func_set : List ℕ
  pub num_local_info_name : ℕ
  pub num_empty_name_with_debuginfo : ℕ
  pub num_empty_name_without_debuginfo : ℕ
  pub num_have_layer_struct_name : ℕ
  pub num_array_prelayer : ℕ
  pub num_escape_store : ℕ

-- The functions of the modules under analysis, from the tables of `GlobalContext`.
pub record Functions : Type 0 where
  pub is_declaration : ℕ → Bool
  pub is_intrinsic : ℕ → Bool
  -- `GlobalFuncs` and `Global_Unique_Func_Map` by a function's name, and by `funcInfoHash`.
  pub by_name : ℕ → List ℕ
  pub by_info : ℕ → Option ℕ
  -- `funcHash(F)`, the name included.
  pub full_hash : ℕ → ℕ
  -- `Global_Arg_Cast_Func_Map`: hashes of the types that a function is cast to as an argument.
  pub arg_casts : ℕ → List ℕ

-- `map[key].insert(x)`
abbrev pub add_to : (ℕ → List ℕ) → ℕ → ℕ → ℕ → List ℕ
add_to m key x = update m key (insert x (m key))

module _ (funcs : Functions) where
  -- `getGlobalFuncs`
  unfoldable pub get_global_funcs : ℕ → List ℕ
  get_global_funcs f = elim (funcs.by_name f) [
    | g ∷ gs ↦ g ∷ gs
    | [] ↦ elim (funcs.by_info f) [ none ↦ [] | some g ↦ g ∷ [] ]
  ]

  -- The set that stands for a function: its definitions if it is only declared.
  unfoldable pub func_set : ℕ → List ℕ
  unfolding get_global_funcs
  func_set f = if funcs.is_declaration f then get_global_funcs f else f ∷ []

module _ (llvm : Llvm) where
  -- `Ctx->Global_EmptyTy_Funcs[funcHash(F, false)].insert(F)`
  unfoldable pub mark_empty_ty : ℕ → Collected → Collected
  mark_empty_ty f c = record c { empty_ty_funcs = add_to c.empty_ty_funcs (llvm.func_hash f) f }

  unfoldable pub mark_if_named : ℕ → Collected → Collected
  unfolding mark_empty_ty
  mark_if_named f c = if is_empty (llvm.func_name f) then c else mark_empty_ty f c

  -- `num_local_info_name++`
  unfoldable pub count_local : Collected → Collected
  count_local c = record c { num_local_info_name = suc c.num_local_info_name }

  -- A function in a field of a struct of the given name.
  unfoldable pub record_name : ℕ → ℕ → ℕ → Text → Option ℕ → Collected → Collected
  record_name f ty idx name context c =
      let key = type_name_idx_hash llvm name idx in
      let named = record c {
        type_funcs_map = add_to c.type_funcs_map key f;
        hash_id_type_map = update c.hash_id_type_map key (some (ty, idx));
      } in
      elim context [
        | none ↦ named
        | some at ↦ record named {
          func_init_map = update c.func_init_map at (add_to (c.func_init_map at) f key);
        }
      ]

  unfoldable pub has_no_name : Text → Bool
  has_no_name name = contains (codes "union.") name || contains (codes ".anon") name

  -- A literal struct: by the name that debug information gives it.
  unfoldable pub update_literal_struct : ℕ → ℕ → ℕ → Option ℕ → Collected → Collected
  unfolding mark_if_named record_name has_no_name count_local
  update_literal_struct f ty idx context c = elim (c.literal_names (type_hash llvm ty)) [
    | none ↦
        mark_if_named f
          (record c { num_empty_name_without_debuginfo = suc c.num_empty_name_without_debuginfo })
    | some name ↦
        let counted = record c {
          num_empty_name_with_debuginfo = suc c.num_empty_name_with_debuginfo;
        } in
        if has_no_name name
        then mark_if_named f (count_local counted)
        else record_name f ty idx name context counted
  ]

  -- An identified struct; a union is remembered.
  unfoldable pub update_named_struct : ℕ → ℕ → ℕ → Text → Option ℕ → Collected → Collected
  unfolding mark_if_named record_name count_local
  update_named_struct f ty idx name context c =
      let counted = record c { num_have_layer_struct_name = suc c.num_have_layer_struct_name } in
      if contains (codes "union.") name
      then mark_if_named f
          (count_local (record counted { union_set = insert (type_hash llvm ty) c.union_set }))
      else if contains (codes ".anon") name
      then mark_if_named f (count_local counted)
      else record_name f ty idx (parse_identified_struct_name name) context counted

  -- `updateStructInfo`; `context` is the store or the global variable.
  unfoldable pub update_struct_info : ℕ → ℕ → ℕ → Option ℕ → Collected → Collected
  unfolding mark_empty_ty count_local update_literal_struct update_named_struct
  update_struct_info f ty idx context c =
      if mem (type_hash llvm ty) c.union_set
      then mark_empty_ty f (count_local c)
      else elim (llvm.struct_of ty) [
        | some sty ↦
            if sty.is_literal
            then update_literal_struct f ty idx context c
            else update_named_struct f ty idx sty.name context c
        | none ↦ mark_empty_ty f (
            count_local (
              if llvm.is_array ty
              then record c { num_array_prelayer = suc c.num_array_prelayer }
              else c))
      ]

  -- `Ctx->sigFuncsMap[h].insert(F)` for each hash of a set.
  unfoldable pub add_sigs : List ℕ → ℕ → Collected → Collected
  add_sigs [] f c = c
  add_sigs (h ∷ hs) f c = add_sigs hs f (record c { sig_funcs_map = add_to c.sig_funcs_map h f })

  -- `hashTypeMap` and `hashIDTypeMap` of field `idx` of a type.
  unfoldable pub note_type : ℕ → ℕ → Collected → Collected
  note_type ty idx c = record c {
    hash_type_map = update c.hash_type_map (type_hash llvm ty) (some ty);
    hash_id_type_map = update c.hash_id_type_map (type_idx_hash llvm ty idx) (some (ty, idx));
  }

  -- `typeFuncsMap`, `hashTypeMap` and `hashIDTypeMap` of a function in field `idx` of a type.
  unfoldable pub enter_type : ℕ → ℕ → ℕ → Collected → Collected
  enter_type f ty idx c = record c {
    hash_type_map = update c.hash_type_map (type_hash llvm ty) (some ty);
    hash_id_type_map = update c.hash_id_type_map (type_idx_hash llvm ty idx) (some (ty, idx));
    type_funcs_map = add_to c.type_funcs_map (type_idx_hash llvm ty idx) f;
  }

  -- A function is found in field `idx` of a type: the body that the handlers share.
  unfoldable pub record_func : Functions → ℕ → ℕ → ℕ → Option ℕ → Collected → Collected
  unfolding enter_type add_sigs update_struct_info
  record_func funcs f ty idx context c =
      update_struct_info f ty idx context
        (add_sigs (llvm.func_hash f ∷ funcs.arg_casts f) f (enter_type f ty idx c))

  unfoldable pub record_funcs : Functions → List ℕ → ℕ → ℕ → Option ℕ → Collected → Collected
  unfolding record_func
  record_funcs funcs [] ty idx context c = c
  record_funcs funcs (f ∷ fs) ty idx context c =
      record_funcs funcs fs ty idx context (record_func funcs f ty idx context c)

  -- The name of a struct type as the handlers read it: `operator[]` gives a literal struct that has
  -- no entry an empty one.
  unfoldable pub read_name : ℕ → Collected → Option Text × Collected
  read_name ty c = elim (llvm.struct_of ty) [
    | none ↦ (none, c)
    | some sty ↦
        if sty.is_literal
        then (elim (c.literal_names (type_hash llvm ty)) [
          | some name ↦ (some name, c)
          | none ↦ (
            some [],
            record c { literal_names = update c.literal_names (type_hash llvm ty) (some []) },
          )
        ])
        else (some (parse_identified_struct_name sty.name), c)
  ]

  -- `escapeType(SI, Ty, Idx)`
  unfoldable pub escape_type : ℕ → ℕ → ℕ → Collected → Collected
  unfolding read_name
  escape_type si ty idx c =
      let (name, named) = read_name ty c in
      elim name [
        | none ↦ c
        | some name ↦
            let key = type_name_idx_hash llvm name idx in
            record named {
              type_escape_set = insert key named.type_escape_set;
              hash_id_type_map = update named.hash_id_type_map key (some (ty, idx));
              escaped_store_map = add_to named.escaped_store_map key si;
            }
      ]

  -- `transitType(ToTy, FromTy)`; no call gives indices.
  unfoldable pub transit_type : ℕ → ℕ → Collected → Collected
  transit_type to_ty from_ty c =
      let to_map = update c.hash_type_map (type_hash llvm to_ty) (some to_ty) in
      record c {
        type_transit_map =
            add_to c.type_transit_map (type_hash llvm to_ty) (type_hash llvm from_ty);
        hash_type_map = update to_map (type_hash llvm from_ty) (some from_ty);
      }
