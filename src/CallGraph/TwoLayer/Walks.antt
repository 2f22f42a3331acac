-- ===== src/CallGraph/TwoLayer/Walks.antt =====
-- One of the three loops: it ends; it gets through when none of the targets that it comes to
-- escapes, and then it has merged the functions of exactly these targets.
use tfa_project.Common.{
  ℕ, ◌≡◌, ◌↔◌, ◌⊎◌, inl, inr, true, false, List, [], ◌∷◌, mem, mem-union, union, nat_eq, ◌==◌,
  Bool-cases, arith,
}
use tfa_project.Common.Tables.{Table, get, keys, get-nil}
use tfa_project.Worklist.{Step, go, stop, Outcome, finished, stopped, enough}
use tfa_project.Worklist.Reach.{Reach}
use tfa_project.Worklist.Correct.{Post, all_visited, left_early, Visit, goes, stops, run-Post}
use tfa_project.CallGraph.{Llvm, Tables}
use tfa_project.CallGraph.TwoLayer.{Target, Found, target_funcs, escapes, visit_targets, walk}

-- `h` is an entry of a key that the loop reaches from `start`.
pub data Passed (table : Table ℕ ℕ) (start : ℕ) : ℕ → Type 0 where
  passed :
      {key h : ℕ}
      → Reach (get table) (start ∷ []) key
      → mem h (get table key) ≡ true
      → Passed table start h

module _ (llvm : Llvm) (tabs : Tables) (table : Table ℕ ℕ) (target : ℕ → Target) (start : ℕ) where
  pub data Walked (s0 : Found) : Outcome ℕ Found → Type 0 where
    through :
        {visited : List ℕ} {s : Found}
        → ((h : ℕ) → Passed table start h → escapes llvm tabs (target h) ≡ false)
        → ((f : ℕ)
            → (mem f s.merge_set ≡ true) ↔ (
                (mem f s0.merge_set ≡ true)
                ⊎ (h : ℕ) × Passed table start h
                  × (mem f (target_funcs llvm tabs (target h)) ≡ true)))
        → Walked s0 (finished visited s)
    caught :
        {s : Found} {h : ℕ}
        → Passed table start h
        → escapes llvm tabs (target h) ≡ true
        → Walked s0 (stopped s)

  data Targets (hs : List ℕ) (s0 : Found) : Step Found → Type 0 where
    none_escapes :
        (s : Found)
        → ((h : ℕ) → mem h hs ≡ true → escapes llvm tabs (target h) ≡ false)
        → ((f : ℕ)
            → mem f s.merge_set ≡ true
            → (mem f s0.merge_set ≡ true)
              ⊎ (h : ℕ) × (mem h hs ≡ true) × (mem f (target_funcs llvm tabs (target h)) ≡ true))
        → ((f : ℕ) → mem f s0.merge_set ≡ true → mem f s.merge_set ≡ true)
        → ((h f : ℕ)
            → mem h hs ≡ true
            → mem f (target_funcs llvm tabs (target h)) ≡ true
            → mem f s.merge_set ≡ true)
        → Targets hs s0 (go s)
    one_escapes :
        {s : Found} (h : ℕ)
        → mem h hs ≡ true
        → escapes llvm tabs (target h) ≡ true
        → Targets hs s0 (stop s)

  visit_targets-Targets :
      (hs : List ℕ) (s0 : Found) → Targets hs s0 (visit_targets llvm tabs target hs s0)
  unfolding visit_targets
  visit_targets-Targets [] s0 = none_escapes s0 (λ h m. cc) (λ f m. inl m) (λ f m. m) (λ h f m. cc)
  visit_targets-Targets (x ∷ hs) s0 = elim (Bool-cases (escapes llvm tabs (target x))) [
    | inl e ↦ rw (e, visit_targets) (one_escapes x (ground (arith, nat_eq.beq_iff x x)) e)
    | inr e ↦ rw (e, visit_targets) (more e _ (visit_targets-Targets hs _))
  ]
    where
      more :
          escapes llvm tabs (target x) ≡ false
          → {o : Step Found} (noted : List ℕ)
          → Targets hs
              record {
                merge_set = union s0.merge_set (target_funcs llvm tabs (target x));
                escaped = noted;
              }
              o
          → Targets (x ∷ hs) s0 o
      more e noted (one_escapes h m e') = one_escapes h (ground arith) e'
      more e noted (none_escapes s' clean sound keeps complete) =
          none_escapes s'
            (λ h m. elim (Bool-cases (h == x)) [
              | inl same ↦ let q : h ≡ x = ground (arith, nat_eq.beq_iff h x) in rw q e
              | inr other ↦ clean h (ground arith)
            ])
            (λ f m. elim (sound f m) [
              | inl old ↦ elim (Bool-cases (mem f s0.merge_set)) [
                | inl o ↦ inl o
                | inr n ↦ inr (
                  x,
                  ground (arith, nat_eq.beq_iff x x),
                  ground (arith, mem-union f s0.merge_set (target_funcs llvm tabs (target x))),
                )
              ]
              | inr (h, there, offers) ↦ inr (h, ground arith, offers)
            ])
            (λ f m.
              keeps f
                (ground (arith, mem-union f s0.merge_set (target_funcs llvm tabs (target x)))))
            (λ h f m offers. elim (Bool-cases (h == x)) [
              | inl same ↦
                  let q : h ≡ x = ground (arith, nat_eq.beq_iff h x) in
                  let offers' = rw q at offers in
                  keeps f
                    (ground (arith, mem-union f s0.merge_set (target_funcs llvm tabs (target x))))
              | inr other ↦ complete h f (ground arith) offers
            ])

  record Inv (s0 : Found) (visited : List ℕ) (s : Found) : Type 0 where
    clean :
        (key h : ℕ)
        → mem key visited ≡ true
        → mem h (get table key) ≡ true
        → escapes llvm tabs (target h) ≡ false
    sound :
        (f : ℕ)
        → mem f s.merge_set ≡ true
        → (mem f s0.merge_set ≡ true)
          ⊎ (h : ℕ) × Passed table start h × (mem f (target_funcs llvm tabs (target h)) ≡ true)
    keeps : (f : ℕ) → mem f s0.merge_set ≡ true → mem f s.merge_set ≡ true
    complete :
        (key h f : ℕ)
        → mem key visited ≡ true
        → mem h (get table key) ≡ true
        → mem f (target_funcs llvm tabs (target h)) ≡ true
        → mem f s.merge_set ≡ true

  Inv-Visit :
      (s0 : Found) (key : ℕ) (visited : List ℕ) (s : Found)
      → Reach (get table) (start ∷ []) key
      → Inv s0 visited s
      → {o : Step Found} → Targets (get table key) s o
      → Visit
          (Inv s0)
          (λ s'. (h : ℕ) × Passed table start h × (escapes llvm tabs (target h) ≡ true))
          (key ∷ visited)
          o
  Inv-Visit s0 key visited s r i (one_escapes h m e) = stops (h, passed r m, e)
  Inv-Visit s0 key visited s r i (none_escapes s' clean sound keeps complete) =
      goes {s = s'} record {
        clean = λ k h m n. elim (Bool-cases (k == key)) [
          | inl same ↦ let q : k ≡ key = ground (arith, nat_eq.beq_iff k key) in clean h (rw q at n)
          | inr other ↦ i.clean k h (ground arith) n
        ];
        sound = λ f m. elim (sound f m) [
          | inl old ↦ i.sound f old
          | inr (h, there, offers) ↦ inr (h, passed r there, offers)
        ];
        keeps = λ f m. keeps f (i.keeps f m);
        complete = λ k h f m n offers. elim (Bool-cases (k == key)) [
          | inl same ↦
              let q : k ≡ key = ground (arith, nat_eq.beq_iff k key) in
              complete h f (rw q at n) offers
          | inr other ↦ keeps f (i.complete k h f (ground arith) n offers)
        ];
      }

  Inv-Walked :
      (s0 : Found) {o : Outcome ℕ Found}
      → Post
          (get table)
          (start ∷ [])
          (Inv s0)
          (λ s'. (h : ℕ) × Passed table start h × (escapes llvm tabs (target h) ≡ true))
          o
      → Walked s0 o
  Inv-Walked s0 (left_early (h, p, e)) = caught p e
  Inv-Walked s0 (all_visited {visited} {s} i seen) = through {s = s} clean (λ f. (
    i.sound f,
    λ o. elim o [ inl old ↦ i.keeps f old | inr (h, p, offers) ↦ collected f h p offers ],
  ))
    where
      clean : (h : ℕ) → Passed table start h → escapes llvm tabs (target h) ≡ false
      clean h (passed {key} r m) = i.clean key h ((seen key).1 r) m

      collected :
          (f h : ℕ)
          → Passed table start h
          → mem f (target_funcs llvm tabs (target h)) ≡ true
          → mem f s.merge_set ≡ true
      collected f h (passed {key} r m) offers = i.complete key h f ((seen key).1 r) m offers

  pub walk-Walked : (s0 : Found) → Walked s0 (walk llvm tabs table target start s0)
  unfolding walk
  walk-Walked s0 = Inv-Walked s0 (
      run-Post (get table) (λ key. visit_targets llvm tabs target (get table key)) (keys table)
        (start ∷ []) (Inv s0)
        (λ s'. (h : ℕ) × Passed table start h × (escapes llvm tabs (target h) ≡ true))
        (get-nil table)
        (λ key visited s r new i.
          Inv-Visit s0 key visited s r i (visit_targets-Targets (get table key) s))
        (enough (get table) (start ∷ []) (keys table)) s0 (omega arith)
        record {
          clean = λ k h m. cc;
          sound = λ f m. inl m;
          keeps = λ f m. m;
          complete = λ k h f m. cc;
        })
