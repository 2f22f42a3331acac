-- ===== src/Common/Tables.antt =====
-- A map from keys to sets as an association list. A key without an entry has the empty set, as
-- `operator[]` gives it.
use mathlib.Core.Path.{◌≡◌, refl}
use mathlib.Core.Bool.{false}
use mathlib.Core.List.{List, [], ◌∷◌}
use native.Mathlib.Omega.{arith}
use tfa_project.Common.Tests.{Eq, ◌==◌, if◌then◌else◌}
use tfa_project.Common.Sets.{mem}

abbrev pub Table {ℓ κ} : Type ℓ → Type κ → Type (ℓ ⊔ κ)
Table K V = List (K × List V)

module _ {ℓ κ} {K : Type ℓ} {V : Type κ} ⦃e : Eq K⦄ where
  abbrev pub get : Table K V → K → List V
  get [] k = []
  get ((j, vs) ∷ t) k = if k == j then vs else get t k

  abbrev pub keys : Table K V → List K
  keys [] = []
  keys ((j, vs) ∷ t) = j ∷ keys t

  pub get-nil : (t : Table K V) (k : K) → mem k (keys t) ≡ false → get t k ≡ []
  get-nil [] k h = refl
  get-nil ((j, vs) ∷ t) k h = ground (arith, get-nil t k)
