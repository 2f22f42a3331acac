-- ===== src/CallGraph/Verdict.antt =====
-- `TypeAnalyzeResult` of utils/Analyzer.h: what the type analysis says of a call.
use tfa_project.Common.{
  ℕ, Bool, true, ◌↔◌, Eq, ◌==◌, ◌≡◌, refl, sym, ap, ◌∙◌, if◌then◌else◌, nat_eq,
}

pub data TypeAnalyzeResult : Type 0 where
  type_escape : TypeAnalyzeResult
  one_layer : TypeAnalyzeResult
  two_layer : TypeAnalyzeResult
  three_layer : TypeAnalyzeResult
  no_two_layer_info : TypeAnalyzeResult
  missing_base_type : TypeAnalyzeResult
  mixed_layer : TypeAnalyzeResult
  v_table : TypeAnalyzeResult

-- The values of the enumeration.
abbrev pub result_code : TypeAnalyzeResult → ℕ
result_code type_escape = 0
result_code one_layer = 1
result_code two_layer = 2
result_code three_layer = 3
result_code no_two_layer_info = 4
result_code missing_base_type = 5
result_code mixed_layer = 6
result_code v_table = 7

abbrev result_of : ℕ → TypeAnalyzeResult
result_of n =
    if n == 0
    then type_escape
    else if n == 1
    then one_layer
    else if n == 2
    then two_layer
    else if n == 3
    then three_layer
    else if n == 4
    then no_two_layer_info
    else if n == 5
    then missing_base_type
    else if n == 6
    then mixed_layer
    else v_table

result_of-code : (r : TypeAnalyzeResult) → result_of (result_code r) ≡ r
result_of-code type_escape = refl
result_of-code one_layer = refl
result_of-code two_layer = refl
result_of-code three_layer = refl
result_of-code no_two_layer_info = refl
result_of-code missing_base_type = refl
result_of-code mixed_layer = refl
result_of-code v_table = refl

abbrev pub result_beq : TypeAnalyzeResult → TypeAnalyzeResult → Bool
result_beq a b = result_code a == result_code b

pub result_beq_iff : (a b : TypeAnalyzeResult) → (result_beq a b ≡ true) ↔ (a ≡ b)
result_beq_iff a b = (
  λ h.
      sym (result_of-code a)
      ∙ ap result_of ((nat_eq.beq_iff (result_code a) (result_code b)).0 h)
      ∙ result_of-code b,
  λ h. (nat_eq.beq_iff (result_code a) (result_code b)).1 (ap result_code h),
)

instance abbrev pub result_eq : Eq TypeAnalyzeResult
result_eq = record { beq = result_beq; beq_iff = result_beq_iff }
