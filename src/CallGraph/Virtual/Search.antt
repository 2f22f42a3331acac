-- ===== src/CallGraph/Virtual/Search.antt =====
-- The search for a virtual table ends, and it says no to a negative index.
use tfa_project.Common.{
  ℕ, zero, suc, ◌≡◌, ◌<◌, inl, inr, refl, Bool, true, false, Option, some, list_eq, if◌then◌else◌,
  ◌&&◌, nat_eq, ◌==◌, Option-cases, arith,
}
use tfa_project.CallGraph.{Llvm}
use tfa_project.CallGraph.Virtual.{
  ℤ, is_nonneg, CalledKind, gep, load, bit_cast, global_variable, other, alloca, unary, VirtualFunc,
  Next, follow, answer, source_type_of, holds, virtual_step, get_cpp_virtual_func,
}

module _ (llvm : Llvm) (is_function_or_pointer : ℕ → Bool) (kind_of : ℕ → CalledKind) where
  -- Operands come before the values that use them (no cycle without a `phi`).
  pub data OperandOf : CalledKind → ℕ → Type 0 where
    gep_base :
        {source result : Option ℕ} {constant : Bool} {num base : ℕ}
        → OperandOf (gep source result constant num base) base
    load_pointer : {pointer : ℕ} → OperandOf (load pointer) pointer
    cast_operand : {operand : ℕ} → OperandOf (bit_cast operand) operand
    alloca_operand : {ty : Option ℕ} {operand : ℕ} → OperandOf (alloca ty operand) operand
    unary_operand : {operand : ℕ} → OperandOf (unary operand) operand

  abbrev pub OperandsBelow : Type 0
  OperandsBelow = (v w : ℕ) → OperandOf (kind_of v) w → w < v

  -- Where a step goes, or that its answer needs an index that is not negative.
  data Stepped (v : ℕ) (idx : ℤ) : Next → Type 0 where
    followed : {w : ℕ} → OperandOf (kind_of v) w → Stepped v idx (follow w)
    answered :
        {b : Bool} {sty : Option ℕ}
        → (b ≡ true → is_nonneg idx ≡ true)
        → Stepped v idx (answer b sty)

  virtual_step-Stepped :
      (v : ℕ) (idx : ℤ) (sty : Option ℕ)
      → Stepped v idx (virtual_step llvm is_function_or_pointer kind_of (kind_of v) idx sty)
  unfolding virtual_step
  virtual_step-Stepped v idx sty = go_on (kind_of v) refl
    where
      test :
          (b : Bool) (base : ℕ)
          → OperandOf (kind_of v) base
          → Stepped v idx (if b then follow base else answer false sty)
      test true base o = followed o
      test false base o = answered (λ h. cc)

      go_on :
          (k : CalledKind)
          → kind_of v ≡ k
          → Stepped v idx (virtual_step llvm is_function_or_pointer kind_of k idx sty)
      go_on (gep source result constant num base) e =
          test (holds is_function_or_pointer result && constant && (num == 1)) base (rw e gep_base)
      go_on (load pointer) e = followed (rw e load_pointer)
      go_on (bit_cast operand) e = elim (Option-cases (source_type_of llvm (kind_of operand))) [
        | inl h ↦ rw (h, virtual_step) (followed (rw e cast_operand))
        | inr (ty, h) ↦ rw (h, virtual_step) (answered (λ n. n))
      ]
      go_on (alloca ty operand) e = followed (rw e alloca_operand)
      go_on (unary operand) e = followed (rw e unary_operand)
      go_on (global_variable ty) e = answered (λ h. cc)
      go_on other e = answered (λ h. cc)

  -- When operands come before the values that use them, and with more rounds than the number of
  -- the value, the search ends; it leaves the index as it was and says yes only to an index that
  -- is not negative.
  pub get_cpp_virtual_func_lem :
      OperandsBelow
      → (fuel v : ℕ) (idx : ℤ) (sty : Option ℕ) → v < fuel
      → (r : VirtualFunc) × (get_cpp_virtual_func llvm is_function_or_pointer kind_of fuel v idx sty
          ≡ some r)
        × (r.idx ≡ idx)
        × (r.found ≡ true → is_nonneg idx ≡ true)
  unfolding get_cpp_virtual_func
  get_cpp_virtual_func_lem below zero v idx sty h = absurd (omega arith)
  get_cpp_virtual_func_lem below (suc fuel) v idx sty h =
      go_on (virtual_step llvm is_function_or_pointer kind_of (kind_of v) idx sty)
        (virtual_step-Stepped v idx sty)
        (λ w o. get_cpp_virtual_func_lem below fuel w idx sty (omega (arith, below v w o, h)))
    where
      go_on :
          (n : Next)
          → Stepped v idx n
          → ((w : ℕ)
              → OperandOf (kind_of v) w
              → (r : VirtualFunc) × (get_cpp_virtual_func llvm is_function_or_pointer kind_of fuel w
                    idx sty
                  ≡ some r)
                × (r.idx ≡ idx)
                × (r.found ≡ true → is_nonneg idx ≡ true))
          → (r : VirtualFunc) × ((elim n [
            | follow operand ↦
                get_cpp_virtual_func llvm is_function_or_pointer kind_of fuel operand idx sty
            | answer found sty' ↦ some record { found = found; idx = idx; sty = sty' }
          ])
              ≡ some r)
            × (r.idx ≡ idx)
            × (r.found ≡ true → is_nonneg idx ≡ true)
      go_on (follow w) (followed o) next = next w o
      go_on (answer b sty') (answered c) next =
          (record { found = b; idx = idx; sty = sty' }, refl, refl, c)
