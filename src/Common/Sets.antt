-- ===== src/Common/Sets.antt =====
-- `std::set` as a list: `mem` is `count` or `find`, `insert` adds a key that is not there.
use mathlib.Core.Path.{◌≡◌, refl}
use mathlib.Core.Bool.{Bool, false, ◌||◌, or_assoc}
use mathlib.Core.List.{List, [], ◌∷◌, ◌++◌}
use native.Mathlib.Omega.{arith}
use tfa_project.Common.Tests.{Eq, ◌==◌, if◌then◌else◌}

module _ {ℓ} {A : Type ℓ} ⦃e : Eq A⦄ where
  abbrev pub mem : A → List A → Bool
  mem a [] = false
  mem a (x ∷ xs) = a == x || mem a xs

  unfoldable pub insert : A → List A → List A
  insert a xs = if mem a xs then xs else a ∷ xs

  -- Adds the members of the second set to the first.
  unfoldable pub union : List A → List A → List A
  union xs [] = xs
  union xs (y ∷ ys) = union (insert y xs) ys

  pub mem-append : (a : A) (xs ys : List A) → mem a (xs ++ ys) ≡ (mem a xs || mem a ys)
  mem-append a [] ys = refl
  mem-append a (x ∷ xs) ys = rw (mem-append a xs ys, or_assoc)

  pub mem-insert : (a b : A) (xs : List A) → mem a (insert b xs) ≡ (a == b || mem a xs)
  unfolding insert
  mem-insert a b xs = ground (arith, e.beq_iff a b)

  pub insert-nil : (a : A) → insert a [] ≡ a ∷ []
  unfolding insert
  insert-nil a = refl

  pub insert-same : (a : A) → insert a (a ∷ []) ≡ a ∷ []
  unfolding insert
  insert-same a = ground (arith, e.beq_iff a a)

  pub mem-union : (a : A) (xs ys : List A) → mem a (union xs ys) ≡ (mem a xs || mem a ys)
  unfolding union
  mem-union a xs [] = ground arith
  mem-union a xs (y ∷ ys) = ground (arith, mem-union a (insert y xs) ys, mem-insert a y xs)

-- A `std::map` as a function, and the write of one entry.
module _ {ℓ κ} {A : Type ℓ} {B : Type κ} ⦃e : Eq A⦄ where
  abbrev pub update : (A → B) → A → B → A → B
  update f k v j = if j == k then v else f j
