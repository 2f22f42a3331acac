-- ===== src/CallGraph/Confine/Fields.antt =====
-- `typeConfineInInitializer` of InitinGlobal.cc finds every function of an initialiser, however
-- deep, and records it under its field.
use tfa_project.Common.{
  ℕ, zero, suc, ◌+◌, ◌≤◌, ◌≡◌, refl, inl, inr, true, false, ◌&&◌, not, some, List, [], ◌∷◌, mem,
  nat_eq, list_eq, ◌==◌, arith, Bool-cases, Option-cases, get_elem?,
}
use mathlib.Core.Option
use tfa_project.Worklist.{Outcome, run, enough}
use tfa_project.Worklist.Reach.{Reach, here, step}
use tfa_project.Worklist.Correct.{Post, all_visited, left_early, Visit, goes, Covers, run-Post}
use tfa_project.CallGraph.{Llvm}
use tfa_project.CallGraph.Confine.{Collected, Functions, func_set}
use tfa_project.CallGraph.Confine.Stores.{Operands, is_composite_type, bit_cast_operand}
use tfa_project.CallGraph.Confine.Handlers.{values_below}
use tfa_project.CallGraph.Confine.Initializers.{
  Constants, operand_function, visit_operand, visit_operands, composite_operands, nested,
  visit_user, is_used_list, type_confine_in_initializer,
}
use tfa_project.CallGraph.Confine.Grows.{Grows, Grows-refl, Grows-trans, record_funcs-Grows}
use tfa_project.CallGraph.Confine.Kept.{InField, InField-Grows, record_funcs-InField}

values_below-mem : (n x : ℕ) → mem x (values_below n) ≡ false → n ≤ x
unfolding values_below
values_below-mem zero x h = omega arith
values_below-mem (suc n) x h = ground (arith, values_below-mem n x)

module _ (llvm : Llvm) (funcs : Functions) (ops : Operands) (consts : Constants) where
  -- The operand is the function, or a pointer that is a cast of it.
  pub data FunctionOf (o : ℕ) : ℕ → Type 0 where
    itself : ops.is_function o ≡ true → FunctionOf o o
    cast_of :
        {f : ℕ}
        → ops.is_function o ≡ false
        → is_composite_type llvm ops (ops.type_of o) ≡ false
        → ops.is_pointer_ty (ops.type_of o) ≡ true
        → consts.is_null_pointer o ≡ false
        → bit_cast_operand (ops.vals.shape o) ≡ some f
        → ops.is_function f ≡ true
        → FunctionOf o f

  operand_function-FunctionOf :
      (o f : ℕ) → FunctionOf o f → operand_function llvm funcs ops consts o ≡ some f
  unfolding operand_function
  operand_function-FunctionOf o f (itself fn) = rw (fn, operand_function) refl
  operand_function-FunctionOf o f (cast_of other flat pointer set cast fn) =
      rw (other, flat, pointer, set, cast, fn, operand_function) refl

  -- The constants that composite operands lead to from the initialiser of a global variable.
  pub data Nested (gv : ℕ) : ℕ → Type 0 where
    whole : Nested gv (consts.initializer gv)
    operand_of :
        {u o : ℕ}
        → Nested gv u
        → mem o (consts.operands u) ≡ true
        → ops.is_function o ≡ false
        → is_composite_type llvm ops (ops.type_of o) ≡ true
        → Nested gv o

  mem-composite_operands :
      (o : ℕ) (os : List ℕ)
      → mem o os ≡ true
      → ops.is_function o ≡ false
      → is_composite_type llvm ops (ops.type_of o) ≡ true
      → mem o (composite_operands llvm funcs ops consts os) ≡ true
  unfolding composite_operands
  mem-composite_operands o [] m other composite = cc
  mem-composite_operands o (x ∷ os) m other composite = elim (Bool-cases (o == x)) [
    | inl same ↦
        let e : o ≡ x = ground arith in
        let other' : ops.is_function x ≡ false = rw e at other in
        let composite' : is_composite_type llvm ops (ops.type_of x) ≡ true = rw e at composite in
        rw (other', composite', composite_operands) (ground arith)
    | inr differs ↦
        let rest = mem-composite_operands o os (ground arith) other composite in
        elim (Bool-cases (not (ops.is_function x) && is_composite_type llvm ops (ops.type_of x))) [
          | inl entered ↦ rw (entered, composite_operands) (ground (arith, rest))
          | inr passed ↦ rw (passed, composite_operands) rest
        ]
  ]

  Reach-of_Nested :
      (gv u : ℕ) → Nested gv u → Reach (nested llvm funcs ops consts) (consts.initializer gv ∷ []) u
  Reach-of_Nested gv u whole = here (ground (arith, nat_eq.beq_iff u u))
  Reach-of_Nested gv u (operand_of {u = w} n m other composite) =
      step (Reach-of_Nested gv w n) (mem-composite_operands u (consts.operands w) m other composite)

  visit_operand-Grows :
      (gv u i o : ℕ) (c : Collected) → Grows c (visit_operand llvm funcs ops consts gv u i o c)
  unfolding visit_operand
  visit_operand-Grows gv u i o c = elim (Option-cases (operand_function llvm funcs ops consts o)) [
    | inl e ↦ rw (e, visit_operand) (Grows-refl c)
    | inr (f, e) ↦
        rw (e, visit_operand)
          (record_funcs-Grows llvm funcs (func_set funcs f) (ops.type_of u) i (some gv) c)
  ]

  visit_operand-InField :
      (gv u i o f g : ℕ) (c : Collected)
      → FunctionOf o f
      → mem g (func_set funcs f) ≡ true
      → InField llvm funcs (ops.type_of u) i g (visit_operand llvm funcs ops consts gv u i o c)
  unfolding visit_operand
  visit_operand-InField gv u i o f g c e m =
      rw (operand_function-FunctionOf o f e, visit_operand)
        (record_funcs-InField llvm funcs (func_set funcs f) g (ops.type_of u) i (some gv) c m)

  visit_operands-Grows :
      (gv u i : ℕ) (os : List ℕ) (c : Collected)
      → Grows c (visit_operands llvm funcs ops consts gv u i os c)
  unfolding visit_operands
  visit_operands-Grows gv u i [] c = Grows-refl c
  visit_operands-Grows gv u i (o ∷ os) c =
      Grows-trans (visit_operand-Grows gv u i o c) (visit_operands-Grows gv u (suc i) os _)

  -- Every function among the operands of `u` that the state has recorded in its field.
  abbrev pub FieldsIn : ℕ → Collected → Type 0
  FieldsIn u c =
      (j o f g : ℕ)
      → get_elem? (consts.operands u) j ≡ some o
      → FunctionOf o f
      → mem g (func_set funcs f) ≡ true
      → InField llvm funcs (ops.type_of u) j g c

  visit_operands-InField :
      (gv u i : ℕ) (os : List ℕ) (c : Collected) (j o f g : ℕ)
      → get_elem? os j ≡ some o
      → FunctionOf o f
      → mem g (func_set funcs f) ≡ true
      → InField llvm funcs
          (ops.type_of u)
          (i + j)
          g
          (visit_operands llvm funcs ops consts gv u i os c)
  unfolding visit_operands
  visit_operands-InField gv u i [] c j o f g at h m = cc
  visit_operands-InField gv u i (o' ∷ os) c zero o f g at h m =
      let same : o' ≡ o = Option.some-injective o' o at in
      let same_i : i + 0 ≡ i = omega arith in
      rw same_i (
        InField-Grows llvm funcs (ops.type_of u) i g
          (visit_operand llvm funcs ops consts gv u i o' c) _
          (visit_operands-Grows gv u (suc i) os _)
          (visit_operand-InField gv u i o' f g c (rw same h) m))
  visit_operands-InField gv u i (o' ∷ os) c (suc j) o f g at h m =
      let same_i : i + suc j ≡ suc i + j = omega arith in
      rw same_i (visit_operands-InField gv u (suc i) os _ j o f g at h m)

  module _ (gv : ℕ) (c : Collected)
      (none_above : (u : ℕ) → ops.count ≤ u → consts.operands u ≡ []) where
    abbrev Progress : List ℕ → Collected → Type 0
    Progress visited s = Grows c s × ((u : ℕ) → mem u visited ≡ true → FieldsIn u s)

    nested-Covers : Covers (nested llvm funcs ops consts) (values_below ops.count)
    unfolding composite_operands
    nested-Covers u h = rw (none_above u (values_below-mem ops.count u h)) refl

    visit_user-Visit :
        (u : ℕ) (visited : List ℕ) (s : Collected)
        → Progress visited s
        → Visit Progress (λ s. ⊥) (u ∷ visited) (visit_user llvm funcs ops consts gv u s)
    visit_user-Visit u visited s (g, fields) =
        let h = visit_operands-Grows gv u 0 (consts.operands u) s in
        goes (
          Grows-trans g h,
          λ w m. elim (Bool-cases (w == u)) [
            | inl e ↦
                let same : w ≡ u = ground arith in
                rw same (λ j o f k at fn x.
                  let from_zero : 0 + j ≡ j = omega arith in
                  rw (← from_zero)
                    (visit_operands-InField gv u 0 (consts.operands u) s j o f k at fn x))
            | inr e ↦ λ j o f k at fn x.
                InField-Grows llvm funcs (ops.type_of w) j k s _ h
                  (fields w (ground arith) j o f k at fn x)
          ],
        )

    -- When users from `count` on have no operands, and the initialiser of a global variable other
    -- than `llvm.used` is an aggregate: the search returns true, the tables still hold what they
    -- held, and for every constant nested in the initialiser, the definitions of each function
    -- among its operands are found under its type and the operand's number, and by signature.
    pub type_confine_in_initializer_lem :
        consts.is_aggregate (consts.initializer gv) ≡ true
        → is_used_list llvm funcs ops consts (consts.global_name gv) ≡ false
        → (d : Collected) × (type_confine_in_initializer llvm funcs ops consts gv c
            ≡ some (true, d))
          × Grows c d
          × ((u : ℕ) → Nested gv u → FieldsIn u d)
    unfolding type_confine_in_initializer
    type_confine_in_initializer_lem aggregate named =
        result
          (run-Post (nested llvm funcs ops consts) (visit_user llvm funcs ops consts gv)
            (values_below ops.count) (consts.initializer gv ∷ []) Progress (λ s. ⊥) nested-Covers
            (λ u visited s r new p. visit_user-Visit u visited s p)
            (enough (nested llvm funcs ops consts) (consts.initializer gv ∷ [])
              (values_below ops.count))
            c (omega arith) (Grows-refl c, λ u m. cc))
          refl
      where
        result :
            {o : Outcome ℕ Collected}
            → Post (nested llvm funcs ops consts) (consts.initializer gv ∷ []) Progress (λ s. ⊥) o
            → run
                (nested llvm funcs ops consts)
                (visit_user llvm funcs ops consts gv)
                (enough
                  (nested llvm funcs ops consts)
                  (consts.initializer gv ∷ [])
                  (values_below ops.count))
                (consts.initializer gv ∷ [])
                []
                c
              ≡ o
            → (d : Collected) × (type_confine_in_initializer llvm funcs ops consts gv c
                ≡ some (true, d))
              × Grows c d
              × ((u : ℕ) → Nested gv u → FieldsIn u d)
        result (all_visited {visited} {s} (g, fields) seen) ran = (
          s,
          rw (aggregate, named, ran, type_confine_in_initializer) refl,
          g,
          λ u n. fields u ((seen u).1 (Reach-of_Nested gv u n)),
        )
        result (left_early x) ran = elim x [ ]
