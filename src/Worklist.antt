-- ===== src/Worklist.antt =====
-- The worklist loop that the analyses share:
--   list LN; set PN; LN.push_back(start);
--   while (!LN.empty()) { take the front; skip it if it is in PN; insert it; visit it; push }
-- (AliasAnalysisTools.cc, InterAliasAnalysis.cc, TypeAnalysis.cc, CPPHandler.cc).
-- `next_of x` is what a visit of `x` pushes, `body x` is what the visit does to the loop's state,
-- and a body may return from the enclosing function at once (`stop`).
pub mod Reach
pub mod Correct
use tfa_project.Common.{ℕ, zero, suc, ◌+◌, Bool, true, false, List, [], ◌∷◌, ◌++◌, Eq, mem, length}

pub data Step {κ} (S : Type κ) : Type κ where
  go : S → Step S
  stop : S → Step S

-- `finished` carries the visited set and the state at the end of the loop.
pub data Outcome {ℓ κ} (A : Type ℓ) (S : Type κ) : Type (ℓ ⊔ κ) where
  finished : List A → S → Outcome A S
  stopped : S → Outcome A S
  out_of_fuel : Outcome A S

module _ {ℓ κ} {A : Type ℓ} {S : Type κ} ⦃e : Eq A⦄ (next_of : A → List A)
    (body : A → S → Step S) where
  pub run : ℕ → List A → List A → S → Outcome A S
  run zero [] visited s = finished visited s
  run zero (x ∷ queue) visited s = out_of_fuel
  run (suc fuel) [] visited s = finished visited s
  run (suc fuel) (x ∷ queue) visited s = elim (mem x visited) [
    | true ↦ run fuel queue visited s
    | false ↦ elim (body x s) [
      | go s' ↦ run fuel (queue ++ next_of x) (x ∷ visited) s'
      | stop s' ↦ stopped s'
    ]
  ]

-- What the visits of the keys outside `visited` can still push.
module _ {ℓ} {A : Type ℓ} ⦃e : Eq A⦄ (next_of : A → List A) where
  pub weight : List A → List A → ℕ
  weight visited [] = 0
  weight visited (x ∷ xs) =
      elim (mem x visited) [ true ↦ 0 | false ↦ length (next_of x) ] + weight visited xs

  -- Rounds that suffice when only the keys of `keys` push anything.
  unfoldable pub enough : List A → List A → ℕ
  unfolding weight
  enough queue keys = length queue + weight [] keys
