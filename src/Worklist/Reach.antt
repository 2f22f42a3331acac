-- ===== src/Worklist/Reach.antt =====
-- What a worklist loop is meant to visit: all that the pushes lead to from the starting queue.
use tfa_project.Common.{◌≡◌, true, List, Eq, mem}

pub data Reach {ℓ} {A : Type ℓ} ⦃e : Eq A⦄ (next_of : A → List A) (start : List A)
    : A → Type ℓ where
  here : {x : A} → mem x start ≡ true → Reach next_of start x
  step : {x y : A} → Reach next_of start x → mem y (next_of x) ≡ true → Reach next_of start y
