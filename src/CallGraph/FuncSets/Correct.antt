-- ===== src/CallGraph/FuncSets/Correct.antt =====
-- What is in an intersection: a function is shared by its address or by its name.
use tfa_project.Common.{
  ℕ, ◌≡◌, refl, sym, ◌∙◌, ◌⊎◌, inl, inr, true, false, ◌||◌, List, [], ◌∷◌, mem, mem-insert,
  mem-union, nat_eq, list_eq, pair_eq, list_beq_iff, pair_beq_iff, ◌==◌, if◌then◌else◌, arith,
  Bool-cases, ◌&&◌,
}
use tfa_project.Common.Text.{Text, is_empty}
use tfa_project.CallGraph.{Llvm}
use tfa_project.CallGraph.FuncSets.{
  Named, names, name_set, common, common_named, func_set_intersection,
}

mem-common : (f : ℕ) (fs1 fs2 : List ℕ) → mem f (common fs1 fs2) ≡ (mem f fs1 && mem f fs2)
unfolding common
mem-common f [] fs2 = refl
mem-common f (g ∷ fs1) fs2 =
    ground (arith, mem-common f fs1 fs2, mem-insert f g (common fs1 fs2), nat_eq.beq_iff f g)

module _ (llvm : Llvm) where
  -- The named set after one function.
  abbrev noted : ℕ → Named → Named
  noted g named =
      if is_empty (llvm.func_name g) || mem (llvm.func_name g) (names named)
      then named
      else (llvm.func_name g, g) ∷ named

  -- An entry comes from a named function of the set, or was there.
  noted_sound :
      (g : ℕ) (named : Named) (n : Text) (f : ℕ)
      → mem (n, f) (noted g named) ≡ true
      → (mem (n, f) named ≡ true) ⊎ (f ≡ g) × (llvm.func_name f ≡ n) × (is_empty n ≡ false)
  noted_sound g named n f h = ground (
    arith,
    pair_beq_iff (n, f) (llvm.func_name g, g),
    list_beq_iff n (llvm.func_name g),
    nat_eq.beq_iff f g,
  )

  name_set_sound :
      (fs : List ℕ) (named : Named) (n : Text) (f : ℕ)
      → mem (n, f) (name_set llvm fs named) ≡ true
      → (mem (n, f) named ≡ true)
        ⊎ (mem f fs ≡ true) × (llvm.func_name f ≡ n) × (is_empty n ≡ false)
  unfolding name_set
  name_set_sound [] named n f h = inl h
  name_set_sound (g ∷ fs) named n f h = elim (name_set_sound fs (noted g named) n f h) [
    | inr (m, same, nonempty) ↦ inr (ground arith, same, nonempty)
    | inl m ↦ elim (noted_sound g named n f m) [
      | inl old ↦ inl old
      | inr (e, same, nonempty) ↦ inr (ground (arith, nat_eq.beq_iff f g), same, nonempty)
    ]
  ]

  noted_keeps :
      (g : ℕ) (named : Named) (n : Text)
      → mem n (names named) ≡ true
      → mem n (names (noted g named)) ≡ true
  noted_keeps g named n h = ground arith

  noted_adds :
      (g : ℕ) (named : Named)
      → is_empty (llvm.func_name g) ≡ false
      → mem (llvm.func_name g) (names (noted g named)) ≡ true
  noted_adds g named h = ground (arith, list_beq_iff (llvm.func_name g) (llvm.func_name g))

  name_set_keeps :
      (fs : List ℕ) (named : Named) (n : Text)
      → mem n (names named) ≡ true
      → mem n (names (name_set llvm fs named)) ≡ true
  unfolding name_set
  name_set_keeps [] named n h = h
  name_set_keeps (g ∷ fs) named n h = name_set_keeps fs (noted g named) n (noted_keeps g named n h)

  name_set_complete :
      (fs : List ℕ) (named : Named) (f : ℕ)
      → mem f fs ≡ true
      → is_empty (llvm.func_name f) ≡ false
      → mem (llvm.func_name f) (names (name_set llvm fs named)) ≡ true
  unfolding name_set
  name_set_complete [] named f h e = cc
  name_set_complete (g ∷ fs) named f h e = elim (Bool-cases (f == g)) [
    | inl same ↦
        let q : g ≡ f = ground (arith, nat_eq.beq_iff f g) in
        name_set_keeps fs (noted g named) (llvm.func_name f) (rw q (noted_adds f named e))
    | inr other ↦ name_set_complete fs (noted g named) f (ground arith) e
  ]

  mem-common_named :
      (named : Named) (others : List Text) (f : ℕ)
      → mem f (common_named named others) ≡ true
      → (n : Text) × (mem (n, f) named ≡ true) × (mem n others ≡ true)
  unfolding common_named
  mem-common_named [] others f h = cc
  mem-common_named ((n, g) ∷ ns) others f h = elim (Bool-cases (mem n others && f == g)) [
    | inl here ↦ (
      n,
      ground (arith, pair_beq_iff (n, f) (n, g), list_beq_iff n n, nat_eq.beq_iff f g),
      ground arith,
    )
    | inr there ↦
        let (n', m, o) =
          mem-common_named ns others f (ground (arith, mem-insert f g (common_named ns others))) in
        (n', ground arith, o)
  ]

  common_named-mem :
      (named : Named) (others : List Text) (n : Text) (f : ℕ)
      → mem (n, f) named ≡ true
      → mem n others ≡ true
      → mem f (common_named named others) ≡ true
  unfolding common_named
  common_named-mem [] others n f h o = cc
  common_named-mem ((m, g) ∷ ns) others n f h o = ground (
    arith,
    pair_beq_iff (n, f) (m, g),
    list_beq_iff n m,
    nat_eq.beq_iff f g,
    common_named-mem ns others n f,
    mem-insert f g (common_named ns others),
  )

  names-entry :
      (named : Named) (n : Text) → mem n (names named) ≡ true → (f : ℕ) × (mem (n, f) named ≡ true)
  names-entry [] n h = cc
  names-entry ((m, g) ∷ ns) n h = elim (Bool-cases (n == m)) [
    | inl same ↦ (g, ground (arith, pair_beq_iff (n, g) (m, g), nat_eq.beq_iff g g))
    | inr other ↦ let (f, h') = names-entry ns n (ground arith) in (f, ground arith)
  ]

  entry-names :
      (named : Named) (n : Text) (f : ℕ) → mem (n, f) named ≡ true → mem n (names named) ≡ true
  entry-names [] n f h = cc
  entry-names ((m, g) ∷ ns) n f h = ground (arith, pair_beq_iff (n, f) (m, g), entry-names ns n f)

  -- The two sets share the function: it is in both, or both have a function of its (nonempty) name.
  pub data Shared (fs2 : List ℕ) (f : ℕ) : Type 0 where
    by_address : mem f fs2 ≡ true → Shared fs2 f
    by_name :
        {g : ℕ}
        → mem g fs2 ≡ true
        → llvm.func_name g ≡ llvm.func_name f
        → is_empty (llvm.func_name f) ≡ false
        → Shared fs2 f

  -- A function of the intersection is in the first set, and the second set has it or a function of
  -- its nonempty name.
  pub func_set_intersection_sound :
      (fs1 fs2 : List ℕ) (f : ℕ)
      → mem f (func_set_intersection llvm fs1 fs2) ≡ true
      → (mem f fs1 ≡ true) × Shared fs2 f
  unfolding func_set_intersection
  func_set_intersection_sound fs1 fs2 f h = elim (Bool-cases (mem f (common fs1 fs2))) [
    | inl both ↦
        (ground (arith, mem-common f fs1 fs2), by_address (ground (arith, mem-common f fs1 fs2)))
    | inr by ↦
        let (n, m, o) = mem-common_named (name_set llvm fs1 []) (names (name_set llvm fs2 [])) f (
          ground (
            arith,
            mem-union f (common fs1 fs2)
                (common_named (name_set llvm fs1 []) (names (name_set llvm fs2 []))),
          )) in
        let (g, m') = names-entry (name_set llvm fs2 []) n o in
        elim (name_set_sound fs1 [] n f m) [
          | inl no_entry ↦ cc
          | inr (m1, e1, x1) ↦ elim (name_set_sound fs2 [] n g m') [
            | inl no_entry ↦ cc
            | inr (m2, e2, x2) ↦ (m1, by_name m2 (e2 ∙ sym e1) (rw e1 x1))
          ]
        ]
  ]

  -- For a function of the first set that the second set has, by its address or by its nonempty name,
  -- the intersection has a function of the first set with its name.
  pub func_set_intersection_complete :
      (fs1 fs2 : List ℕ) (f : ℕ)
      → mem f fs1 ≡ true
      → Shared fs2 f
      → (f' : ℕ) × (mem f' (func_set_intersection llvm fs1 fs2) ≡ true)
        × (mem f' fs1 ≡ true)
        × (llvm.func_name f' ≡ llvm.func_name f)
  unfolding func_set_intersection
  func_set_intersection_complete fs1 fs2 f h (by_address m) = (
    f,
    ground (
      arith,
      mem-common f fs1 fs2,
      mem-union f (common fs1 fs2)
          (common_named (name_set llvm fs1 []) (names (name_set llvm fs2 []))),
    ),
    h,
    refl,
  )
  func_set_intersection_complete fs1 fs2 f h (by_name {g} m same nonempty) =
      let other = rw same at (name_set_complete fs2 [] g m (rw same nonempty)) in
      let (f', entry) =
        names-entry (name_set llvm fs1 []) (llvm.func_name f)
          (name_set_complete fs1 [] f h nonempty) in
      elim (name_set_sound fs1 [] (llvm.func_name f) f' entry) [
        | inl no_entry ↦ cc
        | inr (m1, e1, x1) ↦ (
          f',
          ground (
            arith,
            common_named-mem (name_set llvm fs1 []) (names (name_set llvm fs2 []))
                (llvm.func_name f) f',
            mem-union f' (common fs1 fs2)
                (common_named (name_set llvm fs1 []) (names (name_set llvm fs2 []))),
          ),
          m1,
          e1,
        )
      ]
