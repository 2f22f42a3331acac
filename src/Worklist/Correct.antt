-- ===== src/Worklist/Correct.antt =====
-- The loop ends, visits exactly what is reachable, and keeps an invariant of its state.
use tfa_project.Common.{
  ℕ, zero, suc, ◌+◌, ◌≤◌, ◌≡◌, ◌↔◌, inl, inr, true, false, ◌||◌, List, [], ◌∷◌, ◌++◌, Eq, mem,
  mem-append, length, length-append, Bool-cases, arith,
}
use tfa_project.Worklist.{Step, go, stop, Outcome, finished, stopped, run, weight, enough}
use tfa_project.Worklist.Reach.{Reach, here, step}

-- The outcome of a total run: the visited set is the reachable set, and the state fits.
pub data Post {ℓ κ μ} {A : Type ℓ} {S : Type κ} ⦃e : Eq A⦄ (next_of : A → List A) (start : List A)
    (P : List A → S → Type μ) (Q : S → Type μ) : Outcome A S → Type (ℓ ⊔ κ ⊔ μ) where
  all_visited :
      {visited : List A} {s : S}
      → P visited s
      → ((x : A) → (mem x visited ≡ true) ↔ Reach next_of start x)
      → Post next_of start P Q (finished visited s)
  left_early : {s : S} → Q s → Post next_of start P Q (stopped s)

-- What one visit has to establish.
pub data Visit {ℓ κ μ} {A : Type ℓ} {S : Type κ} (P : List A → S → Type μ) (Q : S → Type μ)
    (visited : List A) : Step S → Type (ℓ ⊔ κ ⊔ μ) where
  goes : {s : S} → P visited s → Visit P Q visited (go s)
  stops : {s : S} → Q s → Visit P Q visited (stop s)

module _ {ℓ} {A : Type ℓ} ⦃e : Eq A⦄ (next_of : A → List A) where
  weight-le :
      (x : A) (visited xs : List A) → weight next_of (x ∷ visited) xs ≤ weight next_of visited xs
  unfolding weight
  weight-le x visited [] = omega arith
  weight-le x visited (y ∷ ys) = ground (arith, weight-le x visited ys)

  weight-visit :
      (x : A) (visited xs : List A)
      → mem x visited ≡ false
      → mem x xs ≡ true
      → weight next_of (x ∷ visited) xs + length (next_of x) ≤ weight next_of visited xs
  unfolding weight
  weight-visit x visited [] h m = ground arith
  weight-visit x visited (y ∷ ys) h m =
      ground
        (arith, weight-visit x visited ys, weight-le x visited ys, e.beq_iff x y, e.beq_iff y x)

  record Inv (start queue visited : List A) : Type ℓ where
    queued : (x : A) → mem x queue ≡ true → Reach next_of start x
    seen : (x : A) → mem x visited ≡ true → Reach next_of start x
    starts : (x : A) → mem x start ≡ true → (mem x queue || mem x visited) ≡ true
    closed :
        (x y : A)
        → mem x visited ≡ true
        → mem y (next_of x) ≡ true
        → (mem y queue || mem y visited) ≡ true

  Inv-start : (start : List A) → Inv start start []
  Inv-start start = record {
    queued = λ x m. here m;
    seen = λ x m. cc;
    starts = λ x m. ground arith;
    closed = λ x y m n. cc;
  }

  Inv-skip :
      (start : List A) (x : A) (queue visited : List A)
      → mem x visited ≡ true
      → Inv start (x ∷ queue) visited
      → Inv start queue visited
  Inv-skip start x queue visited old i = record {
    queued = λ y m. i.queued y (ground arith);
    seen = i.seen;
    starts = λ y m. ground (arith, i.starts y m, e.beq_iff y x);
    closed = λ y z m n. ground (arith, i.closed y z m n, e.beq_iff z x);
  }

  Inv-Visit :
      (start : List A) (x : A) (queue visited : List A)
      → Inv start (x ∷ queue) visited
      → Inv start (queue ++ next_of x) (x ∷ visited)
  Inv-Visit start x queue visited i =
      let at_x = i.queued x (ground (arith, e.beq_iff x x)) in
      record {
        queued = λ y m. elim (Bool-cases (mem y queue)) [
          | inl old ↦ i.queued y (ground arith)
          | inr new ↦ step at_x (ground (arith, mem-append y queue (next_of x)))
        ];
        seen = λ y m. elim (Bool-cases (mem y visited)) [
          | inl old ↦ i.seen y old
          | inr new ↦ i.queued y (ground arith)
        ];
        starts = λ y m. ground (arith, i.starts y m, mem-append y queue (next_of x));
        closed = λ y z m n. elim (Bool-cases (mem y visited)) [
          | inl old ↦ ground (arith, i.closed y z old n, mem-append z queue (next_of x))
          | inr new ↦
              let same : y ≡ x = ground (arith, e.beq_iff y x) in
              let pushed : mem z (next_of x) ≡ true = rw same at n in
              ground (arith, mem-append z queue (next_of x))
        ];
      }

  complete :
      (start visited : List A)
      → Inv start [] visited
      → {x : A} → Reach next_of start x
      → mem x visited ≡ true
  complete start visited i (here {x} m) = i.starts x m
  complete start visited i (step {x} {y} r m) = i.closed x y (complete start visited i r) m

-- Keys outside `keys` push nothing.
abbrev pub Covers {ℓ} : {A : Type ℓ} ⦃e : Eq A⦄ → (A → List A) → List A → Type ℓ
Covers {A} next_of keys = (x : A) → mem x keys ≡ false → next_of x ≡ []

module _ {ℓ κ μ} {A : Type ℓ} {S : Type κ} ⦃e : Eq A⦄ (next_of : A → List A) (body : A → S → Step S)
    (keys start : List A) (P : List A → S → Type μ) (Q : S → Type μ) (covers : Covers next_of keys)
    (keep : (x : A) (visited : List A) (s : S)
      → Reach next_of start x
      → mem x visited ≡ false
      → P visited s
      → Visit P Q (x ∷ visited) (body x s)) where
  weight_step :
      (x : A) (visited : List A)
      → mem x visited ≡ false
      → weight next_of (x ∷ visited) keys + length (next_of x) ≤ weight next_of visited keys
  weight_step x visited new = elim (Bool-cases (mem x keys)) [
    | inl key ↦ weight-visit next_of x visited keys new key
    | inr other ↦ rw (covers x other) (omega (arith, weight-le next_of x visited keys))
  ]

  loop-Post :
      (fuel : ℕ) (queue visited : List A) (s : S)
      → length queue + weight next_of visited keys ≤ fuel
      → Inv next_of start queue visited
      → P visited s
      → Post next_of start P Q (run next_of body fuel queue visited s)
  unfolding run
  loop-Post zero [] visited s h i p =
      all_visited p (λ x. (i.seen x, complete next_of start visited i))
  loop-Post zero (x ∷ queue) visited s h i p = absurd (omega arith)
  loop-Post (suc fuel) [] visited s h i p =
      all_visited p (λ x. (i.seen x, complete next_of start visited i))
  loop-Post (suc fuel) (x ∷ queue) visited s h i p = elim (Bool-cases (mem x visited)) [
    | inl old ↦
        rw (old, run)
          (loop-Post fuel queue visited s (omega arith)
            (Inv-skip next_of start x queue visited old i) p)
    | inr new ↦
        rw (new, run)
          (visit (body x s) (keep x visited s (i.queued x (ground (arith, e.beq_iff x x))) new p)
            (λ s' p'.
              loop-Post fuel (queue ++ next_of x) (x ∷ visited) s'
                (omega (arith, length-append queue (next_of x), weight_step x visited new))
                (Inv-Visit next_of start x queue visited i) p'))
  ]
    where
      visit :
          (b : Step S)
          → Visit P Q (x ∷ visited) b
          → ((s' : S)
              → P (x ∷ visited) s'
              → Post next_of start P Q
                  (run next_of body fuel (queue ++ next_of x) (x ∷ visited) s'))
          → Post next_of start P Q (elim b [
            | go s' ↦ run next_of body fuel (queue ++ next_of x) (x ∷ visited) s'
            | stop s' ↦ stopped s'
          ])
      visit (go s') (goes p') rest = rest s' p'
      visit (stop s') (stops q) rest = left_early q

  -- A run with enough fuel ends, and all that the loop is for holds of its outcome.
  pub run-Post :
      (fuel : ℕ) (s : S)
      → enough next_of start keys ≤ fuel
      → P [] s
      → Post next_of start P Q (run next_of body fuel start [] s)
  unfolding enough
  run-Post fuel s h p = loop-Post fuel start [] s h (Inv-start next_of start) p
