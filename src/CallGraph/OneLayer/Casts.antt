-- ===== src/CallGraph/OneLayer/Casts.antt =====
-- When a type of a call may be cast to the type of a function.
use tfa_project.Common.{
  ℕ, ◌≡◌, ◌↔◌, ◌⊎◌, ◌||◌, ap, inl, inr, refl, Bool, Eq, Option, none, some, list_eq, true, false,
  List, [], ◌∷◌, mem, nat_eq, ◌==◌, Bool-cases, arith,
}
use mathlib.Core.Option
use tfa_project.Common.Text.{Text}
use tfa_project.Common.Tables.{get, keys, get-nil}
use tfa_project.Worklist.{Outcome, finished, stopped, out_of_fuel, enough}
use tfa_project.Worklist.Reach.{Reach}
use tfa_project.Worklist.Correct.{Post, all_visited, left_early, Visit, goes, stops, run-Post}
use tfa_project.CallGraph.{Llvm, Tables, type_hash, layer_name}
use tfa_project.CallGraph.OneLayer.{
  holds_just, Signatures, is_cast_target, any_target, visit_cast, found_cast,
}

holds_just_iff {ℓ} :
    {A : Type ℓ} ⦃e : Eq A⦄ (o : Option A) (a : A) → (holds_just o a ≡ true) ↔ (o ≡ some a)
holds_just_iff none a = (λ h. cc, λ h. cc)
holds_just_iff ⦃e⦄ (some b) a =
    (λ h. ap some ((e.beq_iff b a).0 h), λ h. (e.beq_iff b a).1 (Option.some-injective b a h))

module _ (llvm : Llvm) (tabs : Tables) (sigs : Signatures) (ci_ty f_ty : ℕ) (f_name : Text) where
  -- The transit `h` stands for the function's type, or for a struct of its name.
  abbrev pub IsTarget : ℕ → Type 0
  IsTarget h =
      (tabs.hash_type_map h ≡ some f_ty)
      ⊎ (layer_name llvm tabs (tabs.hash_type_map h) ≡ some f_name)

  is_cast_target_iff : (h : ℕ) → (is_cast_target llvm tabs sigs f_ty f_name h ≡ true) ↔ IsTarget h
  unfolding is_cast_target
  is_cast_target_iff h =
      either (holds_just_iff (tabs.hash_type_map h) f_ty)
        (holds_just_iff (layer_name llvm tabs (tabs.hash_type_map h)) f_name)
    where
      either :
          {d e : Bool} {P Q : Type 0}
          → ((d ≡ true) ↔ P)
          → ((e ≡ true) ↔ Q)
          → ((d || e) ≡ true) ↔ (P ⊎ Q)
      either k l = ground arith

  -- A transit of a key that the call's type leads to is a cast target.
  pub data CastTo : Type 0 where
    cast_to :
        {key : ℕ} (h : ℕ)
        → Reach (get tabs.type_transit_map) (type_hash llvm ci_ty ∷ []) key
        → mem h (get tabs.type_transit_map key) ≡ true
        → IsTarget h
        → CastTo

  any_target-CastTo :
      (key : ℕ) (hs : List ℕ)
      → Reach (get tabs.type_transit_map) (type_hash llvm ci_ty ∷ []) key
      → ((h : ℕ) → mem h hs ≡ true → mem h (get tabs.type_transit_map key) ≡ true)
      → any_target llvm tabs sigs f_ty f_name hs ≡ true
      → CastTo
  any_target-CastTo key [] r sub e = cc
  any_target-CastTo key (h ∷ hs) r sub e =
      elim (Bool-cases (is_cast_target llvm tabs sigs f_ty f_name h)) [
        | inl hit ↦
            cast_to h r (sub h (ground (arith, nat_eq.beq_iff h h))) ((is_cast_target_iff h).0 hit)
        | inr miss ↦ any_target-CastTo key hs r (λ k m. sub k (ground arith)) (ground arith)
      ]

  any_target_complete :
      (hs : List ℕ) (h : ℕ)
      → mem h hs ≡ true
      → is_cast_target llvm tabs sigs f_ty f_name h ≡ true
      → any_target llvm tabs sigs f_ty f_name hs ≡ true
  any_target_complete [] h m e = cc
  any_target_complete (x ∷ hs) h m e = elim (Bool-cases (h == x)) [
    | inl same ↦
        let q : h ≡ x = ground (arith, nat_eq.beq_iff h x) in let e' = rw q at e in ground arith
    | inr differs ↦ ground (arith, any_target_complete hs h (ground arith) e)
  ]

  abbrev Clean : List ℕ → ℕ → Type 0
  Clean visited s =
      (key : ℕ)
      → mem key visited ≡ true
      → any_target llvm tabs sigs f_ty f_name (get tabs.type_transit_map key) ≡ false

  body-Visit :
      (key : ℕ) (visited : List ℕ) (s : ℕ)
      → Reach (get tabs.type_transit_map) (type_hash llvm ci_ty ∷ []) key
      → Clean visited s
      → Visit Clean (λ s. CastTo) (key ∷ visited) (visit_cast llvm tabs sigs f_ty f_name key s)
  body-Visit key visited s r clean =
      elim (Bool-cases (any_target llvm tabs sigs f_ty f_name (get tabs.type_transit_map key))) [
        | inl hit ↦
            rw hit (stops (any_target-CastTo key (get tabs.type_transit_map key) r (λ h m. m) hit))
        | inr miss ↦ rw miss (
            goes (λ k m. elim (Bool-cases (k == key)) [
              | inl same ↦ let q : k ≡ key = ground (arith, nat_eq.beq_iff k key) in rw q miss
              | inr differs ↦ clean k (ground arith)
            ]))
      ]

  pub found_cast_iff : (found_cast llvm tabs sigs ci_ty f_ty f_name ≡ true) ↔ CastTo
  unfolding found_cast
  found_cast_iff = result (
      run-Post (get tabs.type_transit_map) (visit_cast llvm tabs sigs f_ty f_name)
        (keys tabs.type_transit_map) (type_hash llvm ci_ty ∷ []) Clean (λ s. CastTo)
        (get-nil tabs.type_transit_map)
        (λ key visited s r new clean. body-Visit key visited s r clean)
        (enough (get tabs.type_transit_map) (type_hash llvm ci_ty ∷ [])
          (keys tabs.type_transit_map))
        0 (omega arith) (λ key m. cc))
    where
      result :
          {o : Outcome ℕ ℕ}
          → Post (get tabs.type_transit_map) (type_hash llvm ci_ty ∷ []) Clean (λ s. CastTo) o
          → ((elim o [ finished visited s ↦ false | stopped s ↦ true | out_of_fuel ↦ false ])
              ≡ true)
            ↔ CastTo
      result (left_early c) = (λ e. c, λ c'. refl)
      result (all_visited clean seen) = (λ e. cc, absent)
        where
          absent : CastTo → false ≡ true
          absent (cast_to {key} h r m hit) =
              let miss = clean key ((seen key).1 r) in
              let found =
                any_target_complete (get tabs.type_transit_map key) h m
                  ((is_cast_target_iff h).1 hit) in
              cc
