-- ===== src/CallGraph/OneLayer/Fits.antt =====
-- When the signature of a function fits that of a call with variable parameters.
use tfa_project.Common.{
  ℕ, ◌≡◌, ◌≤◌, ◌↔◌, ◌⊎◌, ◌&&◌, ◌||◌, inl, inr, refl, Bool, true, false, some, List, [], ◌∷◌, mem,
  nat_eq, list_eq, ◌==◌, length, leb, Bool-cases, Option-cases, arith,
}
use tfa_project.Common.Text.{Text}
use tfa_project.CallGraph.{Llvm, Tables, layer_name}
use tfa_project.CallGraph.OneLayer.{
  FuncType, Signatures, found_cast, type_fits, types_fit, signature_fits, fitting_row,
}
use tfa_project.CallGraph.OneLayer.Casts.{CastTo, found_cast_iff}

module _ (llvm : Llvm) (tabs : Tables) (sigs : Signatures) where
  -- A type of the call against one of the function: the same type, or two struct types of one name,
  -- or with a cast from the one to the other.
  pub data TypeFits (c f : ℕ) : Type 0 where
    same : c ≡ f → TypeFits c f
    named :
        {n m : Text}
        → sigs.type_id c ≡ sigs.type_id f
        → layer_name llvm tabs (some c) ≡ some n
        → layer_name llvm tabs (some f) ≡ some m
        → (n ≡ m) ⊎ CastTo llvm tabs sigs c f m
        → TypeFits c f

  -- The function has a fitting type at the place of each of the call's types.
  pub data TypesFit : List ℕ → List ℕ → Type 0 where
    no_more : {fs : List ℕ} → TypesFit [] fs
    one_more :
        {c f : ℕ} {cs fs : List ℕ} → TypeFits c f → TypesFit cs fs → TypesFit (c ∷ cs) (f ∷ fs)

  pub Fits : FuncType → FuncType → Type 0
  Fits ci_ty f_ty =
      (length ci_ty.params ≤ length f_ty.params)
      × TypesFit (ci_ty.return_type ∷ ci_ty.params) (f_ty.return_type ∷ f_ty.params)

  type_fits-TypeFits : (c f : ℕ) → type_fits llvm tabs sigs c f ≡ true → TypeFits c f
  unfolding type_fits
  type_fits-TypeFits c f h = elim (Bool-cases (c == f)) [
    | inl e ↦ same ((nat_eq.beq_iff c f).0 e)
    | inr e ↦ elim (Option-cases (layer_name llvm tabs (some c))) [
      | inl n ↦ absurd (dead _ (rw (e, n, type_fits) at h))
      | inr (n, at_c) ↦ elim (Option-cases (layer_name llvm tabs (some f))) [
        | inl m ↦ absurd (dead _ (rw (e, at_c, m, type_fits) at h))
        | inr (m, at_f) ↦
            let (ids, rest) = both (rw (e, at_c, at_f, type_fits) at h) in
            named ids at_c at_f (
              either (n == m) (found_cast llvm tabs sigs c f m) (list_eq.beq_iff n m)
                (found_cast_iff llvm tabs sigs c f m) rest)
      ]
    ]
  ]
    where
      dead : (b : Bool) → (b && false) ≡ true → ⊥
      dead b h = ground arith

      both :
          {b : Bool}
          → ((sigs.type_id c == sigs.type_id f) && b) ≡ true
          → (sigs.type_id c ≡ sigs.type_id f) × (b ≡ true)
      both h = ground arith

      either :
          (b d : Bool) {P Q : Type 0}
          → ((b ≡ true) ↔ P)
          → ((d ≡ true) ↔ Q)
          → (b || d) ≡ true
          → P ⊎ Q
      either b d k l h = ground arith

  type_fits_complete : (c f : ℕ) → TypeFits c f → type_fits llvm tabs sigs c f ≡ true
  unfolding type_fits
  type_fits_complete c f (same e) = ground (arith, nat_eq.beq_iff c f)
  type_fits_complete c f (named {n} {m} ids at_c at_f h) =
      rw (at_c, at_f, (nat_eq.beq_iff (sigs.type_id c) (sigs.type_id f)).1 ids, type_fits)
        (last (c == f) (n == m) (found_cast llvm tabs sigs c f m) (list_eq.beq_iff n m)
          (found_cast_iff llvm tabs sigs c f m) h)
    where
      last :
          (a b d : Bool) {P Q : Type 0}
          → ((b ≡ true) ↔ P)
          → ((d ≡ true) ↔ Q)
          → P ⊎ Q
          → (a || (b || d)) ≡ true
      last a b d k l h = ground arith

  types_fit_iff : (cs fs : List ℕ) → (types_fit llvm tabs sigs cs fs ≡ true) ↔ TypesFit cs fs
  unfolding types_fit
  types_fit_iff [] fs = (λ h. no_more, λ h. refl)
  types_fit_iff (c ∷ cs) [] = (λ h. cc, λ h. elim h [ ])
  types_fit_iff (c ∷ cs) (f ∷ fs) =
      let rest = types_fit_iff cs fs in
      (
        λ h.
            let (first, others) = both h in one_more (type_fits-TypeFits c f first) (rest.0 others),
        λ h. from rest h,
      )
    where
      both : {a b : Bool} → (a && b) ≡ true → (a ≡ true) × (b ≡ true)
      both h = ground arith

      from :
          ((types_fit llvm tabs sigs cs fs ≡ true) ↔ TypesFit cs fs)
          → TypesFit (c ∷ cs) (f ∷ fs)
          → types_fit llvm tabs sigs (c ∷ cs) (f ∷ fs) ≡ true
      from rest (one_more first others) = rw (type_fits_complete c f first) (rest.1 others)

  signature_fits_iff :
      (ci_ty f_ty : FuncType) → (signature_fits llvm tabs sigs ci_ty f_ty ≡ true) ↔ Fits ci_ty f_ty
  unfolding signature_fits Fits
  signature_fits_iff ci_ty f_ty =
      both (length ci_ty.params) (length f_ty.params)
        (types_fit_iff (ci_ty.return_type ∷ ci_ty.params) (f_ty.return_type ∷ f_ty.params))
    where
      both :
          (m n : ℕ) {b : Bool} {P : Type 0}
          → ((b ≡ true) ↔ P)
          → ((leb m n && b) ≡ true) ↔ ((m ≤ n) × P)
      both m n k = ground arith

  -- The first function of an entry has a fitting signature, and `f` is in the entry.
  pub data FittingRow (ci_ty : FuncType) (f : ℕ) : List ℕ → Type 0 where
    fitting :
        {g : ℕ} {gs : List ℕ} {g_ty : FuncType}
        → sigs.func_type g ≡ some g_ty
        → Fits ci_ty g_ty
        → mem f (g ∷ gs) ≡ true
        → FittingRow ci_ty f (g ∷ gs)

  fitting_row-FittingRow :
      (ci_ty : FuncType) (f : ℕ) (fs : List ℕ)
      → mem f (fitting_row llvm tabs sigs ci_ty fs) ≡ true
      → FittingRow ci_ty f fs
  unfolding fitting_row
  fitting_row-FittingRow ci_ty f [] m = cc
  fitting_row-FittingRow ci_ty f (g ∷ gs) m = elim (Option-cases (sigs.func_type g)) [
    | inl e ↦ cc (rw (e, fitting_row) at m)
    | inr (g_ty, e) ↦ elim (Bool-cases (signature_fits llvm tabs sigs ci_ty g_ty)) [
      | inl fits ↦
          fitting e ((signature_fits_iff ci_ty g_ty).0 fits) (rw (e, fits, fitting_row) at m)
      | inr differs ↦ cc (rw (e, differs, fitting_row) at m)
    ]
  ]

  FittingRow-fitting_row :
      (ci_ty : FuncType) (f : ℕ) (fs : List ℕ)
      → FittingRow ci_ty f fs
      → mem f (fitting_row llvm tabs sigs ci_ty fs) ≡ true
  unfolding fitting_row
  FittingRow-fitting_row ci_ty f [] r = elim r [ ]
  FittingRow-fitting_row ci_ty f (g ∷ gs) (fitting {g_ty = g_ty} e fits m) =
      rw (e, (signature_fits_iff ci_ty g_ty).1 fits, fitting_row) m

  pub fitting_row_iff :
      (ci_ty : FuncType) (f : ℕ) (fs : List ℕ)
      → (mem f (fitting_row llvm tabs sigs ci_ty fs) ≡ true) ↔ FittingRow ci_ty f fs
  fitting_row_iff ci_ty f fs =
      (fitting_row-FittingRow ci_ty f fs, FittingRow-fitting_row ci_ty f fs)
