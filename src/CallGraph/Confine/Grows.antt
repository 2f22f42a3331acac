-- ===== src/CallGraph/Confine/Grows.antt =====
-- Recording never forgets: every operation on the tables keeps the functions, confinements, transits
-- and escapes that are there.
use tfa_project.Common.{
  ℕ, ◌≡◌, refl, inl, inr, true, Option, none, some, List, [], ◌∷◌, mem, insert, mem-insert, nat_eq,
  arith, Bool-cases, Option-cases,
}
use tfa_project.Common.Text.{Text, codes, contains, is_empty}
use tfa_project.CallGraph.{
  Llvm, type_hash, type_idx_hash, type_name_idx_hash, parse_identified_struct_name,
}
use tfa_project.CallGraph.Confine.{
  Collected, Functions, add_to, mark_empty_ty, mark_if_named, count_local, record_name, has_no_name,
  update_literal_struct, update_named_struct, update_struct_info, add_sigs, enter_type, note_type,
  record_func, record_funcs, read_name, escape_type, transit_type,
}

abbrev pub Includes : (ℕ → List ℕ) → (ℕ → List ℕ) → Type 0
Includes m m' = (k x : ℕ) → mem x (m k) ≡ true → mem x (m' k) ≡ true

-- All that one state of the tables holds, the other holds.
pub record Grows (c d : Collected) : Type 0 where
  pub funcs_kept : Includes c.type_funcs_map d.type_funcs_map
  pub sigs_kept : Includes c.sig_funcs_map d.sig_funcs_map
  pub unknown_kept : Includes c.empty_ty_funcs d.empty_ty_funcs
  pub confined_kept : Includes c.type_confine_map d.type_confine_map
  pub transits_kept : Includes c.type_transit_map d.type_transit_map
  pub stores_kept : Includes c.escaped_store_map d.escaped_store_map
  pub escapes_kept : (k : ℕ) → mem k c.type_escape_set ≡ true → mem k d.type_escape_set ≡ true

pub Grows-refl : (c : Collected) → Grows c c
Grows-refl c = record {
  funcs_kept = λ k x h. h;
  sigs_kept = λ k x h. h;
  unknown_kept = λ k x h. h;
  confined_kept = λ k x h. h;
  transits_kept = λ k x h. h;
  stores_kept = λ k x h. h;
  escapes_kept = λ k h. h;
}

pub Grows-trans : {c d e : Collected} → Grows c d → Grows d e → Grows c e
Grows-trans g h = record {
  funcs_kept = λ k x m. h.funcs_kept k x (g.funcs_kept k x m);
  sigs_kept = λ k x m. h.sigs_kept k x (g.sigs_kept k x m);
  unknown_kept = λ k x m. h.unknown_kept k x (g.unknown_kept k x m);
  confined_kept = λ k x m. h.confined_kept k x (g.confined_kept k x m);
  transits_kept = λ k x m. h.transits_kept k x (g.transits_kept k x m);
  stores_kept = λ k x m. h.stores_kept k x (g.stores_kept k x m);
  escapes_kept = λ k m. h.escapes_kept k (g.escapes_kept k m);
}

pub add_to-Includes : (m : ℕ → List ℕ) (k x : ℕ) → Includes m (add_to m k x)
add_to-Includes m k x j y h = ground (arith, mem-insert y x (m k))

pub mem-add_to : (m : ℕ → List ℕ) (k x : ℕ) → mem x (add_to m k x k) ≡ true
mem-add_to m k x = ground (arith, mem-insert x x (m k))

-- The states that differ in the other tables and the counters only.
pub Grows-same :
    (c d : Collected)
    → c.type_funcs_map ≡ d.type_funcs_map
    → c.sig_funcs_map ≡ d.sig_funcs_map
    → c.empty_ty_funcs ≡ d.empty_ty_funcs
    → c.type_confine_map ≡ d.type_confine_map
    → c.type_transit_map ≡ d.type_transit_map
    → c.escaped_store_map ≡ d.escaped_store_map
    → c.type_escape_set ≡ d.type_escape_set
    → Grows c d
Grows-same c d e1 e2 e3 e4 e5 e6 e7 = record {
  funcs_kept = λ k x h. rw (← e1) h;
  sigs_kept = λ k x h. rw (← e2) h;
  unknown_kept = λ k x h. rw (← e3) h;
  confined_kept = λ k x h. rw (← e4) h;
  transits_kept = λ k x h. rw (← e5) h;
  stores_kept = λ k x h. rw (← e6) h;
  escapes_kept = λ k h. rw (← e7) h;
}

module _ (llvm : Llvm) where
  pub mark_empty_ty-Grows : (f : ℕ) (c : Collected) → Grows c (mark_empty_ty llvm f c)
  unfolding mark_empty_ty
  mark_empty_ty-Grows f c = record {
    funcs_kept = λ k x h. h;
    sigs_kept = λ k x h. h;
    unknown_kept = add_to-Includes c.empty_ty_funcs (llvm.func_hash f) f;
    confined_kept = λ k x h. h;
    transits_kept = λ k x h. h;
    stores_kept = λ k x h. h;
    escapes_kept = λ k h. h;
  }

  mark_if_named-Grows : (f : ℕ) (c : Collected) → Grows c (mark_if_named llvm f c)
  unfolding mark_if_named
  mark_if_named-Grows f c = elim (Bool-cases (is_empty (llvm.func_name f))) [
    | inl e ↦ rw (e, mark_if_named) (Grows-refl c)
    | inr e ↦ rw (e, mark_if_named) (mark_empty_ty-Grows f c)
  ]

  record_name-Grows :
      (f ty idx : ℕ) (name : Text) (context : Option ℕ) (c : Collected)
      → Grows c (record_name llvm f ty idx name context c)
  unfolding record_name
  record_name-Grows f ty idx name none c = record {
    funcs_kept = add_to-Includes c.type_funcs_map (type_name_idx_hash llvm name idx) f;
    sigs_kept = λ k x h. h;
    unknown_kept = λ k x h. h;
    confined_kept = λ k x h. h;
    transits_kept = λ k x h. h;
    stores_kept = λ k x h. h;
    escapes_kept = λ k h. h;
  }
  record_name-Grows f ty idx name (some at) c = record {
    funcs_kept = add_to-Includes c.type_funcs_map (type_name_idx_hash llvm name idx) f;
    sigs_kept = λ k x h. h;
    unknown_kept = λ k x h. h;
    confined_kept = λ k x h. h;
    transits_kept = λ k x h. h;
    stores_kept = λ k x h. h;
    escapes_kept = λ k h. h;
  }

  update_literal_struct-Grows :
      (f ty idx : ℕ) (context : Option ℕ) (c : Collected)
      → Grows c (update_literal_struct llvm f ty idx context c)
  unfolding update_literal_struct count_local
  update_literal_struct-Grows f ty idx context c =
      elim (Option-cases (c.literal_names (type_hash llvm ty))) [
        | inl e ↦
            rw (e, update_literal_struct)
              (Grows-trans (Grows-same c _ refl refl refl refl refl refl refl)
                (mark_if_named-Grows f _))
        | inr (name, e) ↦ elim (Bool-cases (has_no_name llvm name)) [
          | inl e' ↦
              rw (e, e', update_literal_struct)
                (Grows-trans (Grows-same c _ refl refl refl refl refl refl refl)
                  (mark_if_named-Grows f _))
          | inr e' ↦
              rw (e, e', update_literal_struct)
                (Grows-trans (Grows-same c _ refl refl refl refl refl refl refl)
                  (record_name-Grows f ty idx name context _))
        ]
      ]

  update_named_struct-Grows :
      (f ty idx : ℕ) (name : Text) (context : Option ℕ) (c : Collected)
      → Grows c (update_named_struct llvm f ty idx name context c)
  unfolding update_named_struct count_local
  update_named_struct-Grows f ty idx name context c =
      elim (Bool-cases (contains (codes "union.") name)) [
        | inl e ↦
            rw (e, update_named_struct)
              (Grows-trans (Grows-same c _ refl refl refl refl refl refl refl)
                (mark_if_named-Grows f _))
        | inr e ↦ elim (Bool-cases (contains (codes ".anon") name)) [
          | inl e' ↦
              rw (e, e', update_named_struct)
                (Grows-trans (Grows-same c _ refl refl refl refl refl refl refl)
                  (mark_if_named-Grows f _))
          | inr e' ↦
              rw (e, e', update_named_struct)
                (Grows-trans (Grows-same c _ refl refl refl refl refl refl refl)
                  (record_name-Grows f ty idx (parse_identified_struct_name name) context _))
        ]
      ]

  pub update_struct_info-Grows :
      (f ty idx : ℕ) (context : Option ℕ) (c : Collected)
      → Grows c (update_struct_info llvm f ty idx context c)
  unfolding update_struct_info count_local
  update_struct_info-Grows f ty idx context c =
      elim (Bool-cases (mem (type_hash llvm ty) c.union_set)) [
        | inl e ↦
            rw (e, update_struct_info)
              (Grows-trans (Grows-same c _ refl refl refl refl refl refl refl)
                (mark_empty_ty-Grows f _))
        | inr e ↦ elim (Option-cases (llvm.struct_of ty)) [
          | inr (sty, e') ↦ elim (Bool-cases sty.is_literal) [
            | inl l ↦
                rw (e, e', l, update_struct_info) (update_literal_struct-Grows f ty idx context c)
            | inr l ↦
                rw (e, e', l, update_struct_info)
                  (update_named_struct-Grows f ty idx sty.name context c)
          ]
          | inl e' ↦ elim (Bool-cases (llvm.is_array ty)) [
            | inl a ↦
                rw (e, e', a, update_struct_info)
                  (Grows-trans (Grows-same c _ refl refl refl refl refl refl refl)
                    (mark_empty_ty-Grows f _))
            | inr a ↦
                rw (e, e', a, update_struct_info)
                  (Grows-trans (Grows-same c _ refl refl refl refl refl refl refl)
                    (mark_empty_ty-Grows f _))
          ]
        ]
      ]

  pub add_sig-Grows :
      (h f : ℕ) (c : Collected) → Grows c (record c { sig_funcs_map = add_to c.sig_funcs_map h f })
  add_sig-Grows h f c = record {
    funcs_kept = λ k x h. h;
    sigs_kept = add_to-Includes c.sig_funcs_map h f;
    unknown_kept = λ k x h. h;
    confined_kept = λ k x h. h;
    transits_kept = λ k x h. h;
    stores_kept = λ k x h. h;
    escapes_kept = λ k h. h;
  }

  pub add_sigs-Grows : (hs : List ℕ) (f : ℕ) (c : Collected) → Grows c (add_sigs llvm hs f c)
  unfolding add_sigs
  add_sigs-Grows [] f c = Grows-refl c
  add_sigs-Grows (h ∷ hs) f c = Grows-trans (add_sig-Grows h f c) (add_sigs-Grows hs f _)

  enter_type-Grows : (f ty idx : ℕ) (c : Collected) → Grows c (enter_type llvm f ty idx c)
  unfolding enter_type
  enter_type-Grows f ty idx c = record {
    funcs_kept = add_to-Includes c.type_funcs_map (type_idx_hash llvm ty idx) f;
    sigs_kept = λ k x h. h;
    unknown_kept = λ k x h. h;
    confined_kept = λ k x h. h;
    transits_kept = λ k x h. h;
    stores_kept = λ k x h. h;
    escapes_kept = λ k h. h;
  }

  pub note_type-Grows : (ty idx : ℕ) (c : Collected) → Grows c (note_type llvm ty idx c)
  unfolding note_type
  note_type-Grows ty idx c = record {
    funcs_kept = λ k x h. h;
    sigs_kept = λ k x h. h;
    unknown_kept = λ k x h. h;
    confined_kept = λ k x h. h;
    transits_kept = λ k x h. h;
    stores_kept = λ k x h. h;
    escapes_kept = λ k h. h;
  }

  pub record_func-Grows :
      (funcs : Functions) (f ty idx : ℕ) (context : Option ℕ) (c : Collected)
      → Grows c (record_func llvm funcs f ty idx context c)
  unfolding record_func
  record_func-Grows funcs f ty idx context c = Grows-trans (enter_type-Grows f ty idx c) (
      Grows-trans (add_sigs-Grows (llvm.func_hash f ∷ funcs.arg_casts f) f _)
        (update_struct_info-Grows f ty idx context _))

  pub record_funcs-Grows :
      (funcs : Functions) (fs : List ℕ) (ty idx : ℕ) (context : Option ℕ) (c : Collected)
      → Grows c (record_funcs llvm funcs fs ty idx context c)
  unfolding record_funcs
  record_funcs-Grows funcs [] ty idx context c = Grows-refl c
  record_funcs-Grows funcs (f ∷ fs) ty idx context c =
      Grows-trans (record_func-Grows funcs f ty idx context c)
        (record_funcs-Grows funcs fs ty idx context _)

  pub read_name-Grows : (ty : ℕ) (c : Collected) → Grows c (read_name llvm ty c).1
  unfolding read_name
  read_name-Grows ty c = elim (Option-cases (llvm.struct_of ty)) [
    | inl e ↦ rw (e, read_name) (Grows-refl c)
    | inr (sty, e) ↦ elim (Bool-cases sty.is_literal) [
      | inr l ↦ rw (e, l, read_name) (Grows-refl c)
      | inl l ↦ elim (Option-cases (c.literal_names (type_hash llvm ty))) [
        | inl n ↦ rw (e, l, n, read_name) (Grows-same c _ refl refl refl refl refl refl refl)
        | inr (name, n) ↦ rw (e, l, n, read_name) (Grows-refl c)
      ]
    ]
  ]

  escaped-Grows :
      (key si : ℕ) (ids : ℕ → Option (ℕ × ℕ)) (c : Collected)
      → Grows c (record c {
        type_escape_set = insert key c.type_escape_set;
        hash_id_type_map = ids;
        escaped_store_map = add_to c.escaped_store_map key si;
      })
  escaped-Grows key si ids c = record {
    funcs_kept = λ k x h. h;
    sigs_kept = λ k x h. h;
    unknown_kept = λ k x h. h;
    confined_kept = λ k x h. h;
    transits_kept = λ k x h. h;
    stores_kept = add_to-Includes c.escaped_store_map key si;
    escapes_kept = λ k h. ground (arith, mem-insert k key c.type_escape_set);
  }

  pub escape_type-Grows : (si ty idx : ℕ) (c : Collected) → Grows c (escape_type llvm si ty idx c)
  unfolding escape_type
  escape_type-Grows si ty idx c = elim (Option-cases (read_name llvm ty c).0) [
    | inl e ↦ rw (e, escape_type) (Grows-refl c)
    | inr (name, e) ↦
        rw (e, escape_type)
          (Grows-trans (read_name-Grows ty c)
            (escaped-Grows (type_name_idx_hash llvm name idx) si _ (read_name llvm ty c).1))
  ]

  pub transit_type-Grows :
      (to_ty from_ty : ℕ) (c : Collected) → Grows c (transit_type llvm to_ty from_ty c)
  unfolding transit_type
  transit_type-Grows to_ty from_ty c = record {
    funcs_kept = λ k x h. h;
    sigs_kept = λ k x h. h;
    unknown_kept = λ k x h. h;
    confined_kept = λ k x h. h;
    transits_kept =
        add_to-Includes c.type_transit_map (type_hash llvm to_ty) (type_hash llvm from_ty);
    stores_kept = λ k x h. h;
    escapes_kept = λ k h. h;
  }
