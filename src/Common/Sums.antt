-- ===== src/Common/Sums.antt =====
-- Sums of a function over the numbers below a bound, and over the pairs below it.
use Prim.Native.Nat.{ℕ, zero, suc, ◌+◌, ◌≤◌, ◌<◌}
use mathlib.Core.Path.{◌≡◌, refl, sym, ap, ◌∙◌, fun_ext}
use mathlib.Core.Logic.{inl, inr}
use mathlib.Core.Option.{Option, none, some}
use mathlib.Core.Bool.{Bool, false}
use native.Mathlib.Omega.{arith}
use tfa_project.Common.Tests.{nat_eq, ◌==◌, if◌then◌else◌, Bool-cases}

abbrev pub bit : Bool → ℕ
bit b = if b then 1 else 0

unfoldable pub sum_below : ℕ → (ℕ → ℕ) → ℕ
sum_below zero f = 0
sum_below (suc n) f = f n + sum_below n f

unfoldable pub sum_pairs : ℕ → (ℕ → ℕ → ℕ) → ℕ
sum_pairs n f = sum_below n (λ a. sum_below n (f a))

pub sum_below_mono : (n : ℕ) (f g : ℕ → ℕ) → ((a : ℕ) → f a ≤ g a) → sum_below n f ≤ sum_below n g
unfolding sum_below
sum_below_mono zero f g h = omega arith
sum_below_mono (suc n) f g h = omega (arith, sum_below_mono n f g h, h n)

pub sum_below-add :
    (n : ℕ) (f g : ℕ → ℕ) → sum_below n (λ a. f a + g a) ≡ sum_below n f + sum_below n g
unfolding sum_below
sum_below-add zero f g = refl
sum_below-add (suc n) f g = omega (arith, sum_below-add n f g)

sum_below-zero : (n : ℕ) → sum_below n (λ a. 0) ≡ 0
unfolding sum_below
sum_below-zero zero = refl
sum_below-zero (suc n) = omega (arith, sum_below-zero n)

-- The weight k at x alone.
sum_below-point_out : (n x k : ℕ) → n ≤ x → sum_below n (λ a. if a == x then k else 0) ≡ 0
unfolding sum_below
sum_below-point_out zero x k h = refl
sum_below-point_out (suc n) x k h = ground (arith, sum_below-point_out n x k)

pub sum_below-point : (n x k : ℕ) → x < n → sum_below n (λ a. if a == x then k else 0) ≡ k
unfolding sum_below
sum_below-point zero x k h = omega (arith, h)
sum_below-point (suc n) x k h = ground (arith, sum_below-point n x k, sum_below-point_out n x k)

sum_below-swap :
    (n m : ℕ) (f : ℕ → ℕ → ℕ)
    → sum_below n (λ a. sum_below m (f a)) ≡ sum_below m (λ b. sum_below n (λ a. f a b))
unfolding sum_below
sum_below-swap zero m f = sym (sum_below-zero m)
sum_below-swap (suc n) m f =
    ap (λ s. sum_below m (f n) + s) (sum_below-swap n m f)
    ∙ sym (sum_below-add m (f n) (λ b. sum_below n (λ a. f a b)))

sum_below-ones : (n : ℕ) → sum_below n (λ a. 1) ≡ n
unfolding sum_below
sum_below-ones zero = refl
sum_below-ones (suc n) = omega (arith, sum_below-ones n)

-- A partial function has at most one pair in each row.
abbrev pub hits : Option ℕ → ℕ → Bool
hits none b = false
hits (some a) b = a == b

sum_below-hits_out : (n a : ℕ) → n ≤ a → sum_below n (λ b. bit (hits (some a) b)) ≡ 0
unfolding sum_below
sum_below-hits_out zero a h = refl
sum_below-hits_out (suc n) a h = ground (arith, sum_below-hits_out n a)

sum_below-hits : (n : ℕ) (o : Option ℕ) → sum_below n (λ b. bit (hits o b)) ≤ 1
unfolding sum_below
sum_below-hits n none = omega (arith, sum_below-zero n)
sum_below-hits zero (some a) = omega arith
sum_below-hits (suc n) (some a) = ground (arith, sum_below-hits n (some a), sum_below-hits_out n a)

module _ (n : ℕ) where
  pub sum_pairs_mono :
      (f g : ℕ → ℕ → ℕ) → ((a b : ℕ) → f a b ≤ g a b) → sum_pairs n f ≤ sum_pairs n g
  unfolding sum_pairs
  sum_pairs_mono f g h = sum_below_mono n _ _ (λ a. sum_below_mono n (f a) (g a) (h a))

  pub sum_pairs-add :
      (f g : ℕ → ℕ → ℕ) → sum_pairs n (λ a b. f a b + g a b) ≡ sum_pairs n f + sum_pairs n g
  unfolding sum_pairs
  sum_pairs-add f g =
      ap (sum_below n) (fun_ext (λ a. sum_below-add n (f a) (g a)))
      ∙ sum_below-add n (λ a. sum_below n (f a)) (λ a. sum_below n (g a))

  -- The weight one at a single pair.
  abbrev pub pair_at : ℕ → ℕ → ℕ → ℕ → ℕ
  pair_at x y a b = if a == x then (if b == y then 1 else 0) else 0

  pub sum_pairs-pair_at : (x y : ℕ) → x < n → y < n → sum_pairs n (pair_at x y) ≡ 1
  unfolding sum_pairs
  sum_pairs-pair_at x y hx hy = ap (sum_below n) (fun_ext (λ a. row a)) ∙ sum_below-point n x 1 hx
    where
      row :
          (a : ℕ)
          → sum_below n (λ b. if a == x then (if b == y then 1 else 0) else 0)
            ≡ (if a == x then 1 else 0)
      row a = elim (Bool-cases (a == x)) [
        | inl e ↦ rw e (sum_below-point n y 1 hy)
        | inr e ↦ rw e (sum_below-zero n)
      ]

  pub sum_below-one : (f : ℕ → ℕ) → ((a : ℕ) → f a ≤ 1) → sum_below n f ≤ n
  unfolding sum_below
  sum_below-one f h = omega (arith, sum_below_mono n f (λ a. 1) h, sum_below-ones n)

  pub sum_rows : (f : ℕ → Option ℕ) → sum_pairs n (λ a b. bit (hits (f a) b)) ≤ n
  unfolding sum_pairs
  sum_rows f = sum_below-one _ (λ a. sum_below-hits n (f a))

  pub sum_columns : (f : ℕ → Option ℕ) → sum_pairs n (λ a b. bit (hits (f b) a)) ≤ n
  unfolding sum_pairs
  sum_columns f =
      rw (sum_below-swap n n (λ a b. bit (hits (f b) a)))
        (sum_below-one _ (λ b. sum_below-hits n (f b)))
