-- ===== src/Tbaa/Parent.antt =====
-- `immediateParent` of TBAATools.cc: it moves to an older node, and takes the field that holds
-- the offset.
use tfa_project.Common.{
  ℕ, zero, suc, ◌+◌, ◌*◌, ◌-◌, ◌≤◌, ◌<◌, ◌≡◌, refl, Option, none, some, List, [], ◌∷◌, ◌++◌, arith,
  length, get_elem?, ltb, Bool-cases, Option-cases, inl, inr, length-append,
}
use tfa_project.Tbaa.{
  Operand, md_string, md_node, const_int, other, MdStore, NodesBelow, Older, choose_field, as_node,
  immediate_parent, is_scalar_desc, is_struct_desc, tail,
}

abbrev Below : ℕ → Option (ℕ × ℕ) → Type 0
Below n none = Unit
Below n (some (m, o)) = m < n

NodesBelow-tail : (n : ℕ) (ops : List Operand) → NodesBelow n ops → NodesBelow n (tail ops)
NodesBelow-tail n [] h = h
NodesBelow-tail n (md_node k ∷ ops) h = h.1
NodesBelow-tail n (md_string ∷ ops) h = h
NodesBelow-tail n (const_int k ∷ ops) h = h
NodesBelow-tail n (other ∷ ops) h = h

choose_field-Below :
    (n : ℕ) (ops : List Operand) (offset : ℕ) (best : Option (ℕ × ℕ))
    → NodesBelow n ops
    → Below n best
    → Below n (choose_field ops offset best)
unfolding choose_field
choose_field-Below n [] offset best h b = b
choose_field-Below n (t ∷ []) offset best h b = b
choose_field-Below n (md_node t ∷ const_int k ∷ ops) offset best h b =
    elim (Bool-cases (ltb offset k)) [
      | inl past ↦ rw (past, choose_field) b
      | inr before ↦
          rw (before, choose_field) (choose_field-Below n ops offset (some (t, k)) h.1 h.0)
    ]
choose_field-Below n (md_node t ∷ md_string ∷ ops) offset best h b =
    choose_field-Below n ops offset best h.1 b
choose_field-Below n (md_node t ∷ md_node k ∷ ops) offset best h b =
    choose_field-Below n ops offset best h.1.1 b
choose_field-Below n (md_node t ∷ other ∷ ops) offset best h b =
    choose_field-Below n ops offset best h.1 b
choose_field-Below n (md_string ∷ o ∷ ops) offset best h b =
    choose_field-Below n ops offset best (NodesBelow-tail n (o ∷ ops) h) b
choose_field-Below n (const_int t ∷ o ∷ ops) offset best h b =
    choose_field-Below n ops offset best (NodesBelow-tail n (o ∷ ops) h) b
choose_field-Below n (other ∷ o ∷ ops) offset best h b =
    choose_field-Below n ops offset best (NodesBelow-tail n (o ∷ ops) h) b

pub parent_at-Below :
    (n i : ℕ) (ops : List Operand) (m : ℕ)
    → NodesBelow n ops
    → as_node (get_elem? ops i) ≡ some m
    → m < n
parent_at-Below n i [] m h e = cc
parent_at-Below n zero (md_node k ∷ ops) m h e = ground arith
parent_at-Below n zero (md_string ∷ ops) m h e = cc
parent_at-Below n zero (const_int k ∷ ops) m h e = cc
parent_at-Below n zero (other ∷ ops) m h e = cc
parent_at-Below n (suc i) (md_node k ∷ ops) m h e = parent_at-Below n i ops m h.1 e
parent_at-Below n (suc i) (md_string ∷ ops) m h e = parent_at-Below n i ops m h e
parent_at-Below n (suc i) (const_int k ∷ ops) m h e = parent_at-Below n i ops m h e
parent_at-Below n (suc i) (other ∷ ops) m h e = parent_at-Below n i ops m h e

-- A parent is older than its descriptor.
pub immediate_parent-lt :
    (md : MdStore) (base offset : ℕ) {parent parent_off : ℕ}
    → Older md
    → immediate_parent md (some base) offset ≡ some (parent, parent_off)
    → parent < base
unfolding immediate_parent
immediate_parent-lt md base offset {parent} {parent_off} older h =
    elim (Option-cases (choose_field (tail (md base)) offset none)) [
      | inl nothing ↦ ground (arith, parent_at-Below base 1 (md base) parent (older base))
      | inr (f, found) ↦
          let below : Below base (some f) = rw found at (
            choose_field-Below base (tail (md base)) offset none
              (NodesBelow-tail base (md base) (older base)) tt) in
          ground (arith, parent_at-Below base 1 (md base) parent (older base))
    ]

-- The operands of a struct descriptor behind its name.
abbrev pub encode_fields : List (ℕ × ℕ) → List Operand
encode_fields [] = []
encode_fields ((ty, off) ∷ fs) = md_node ty ∷ const_int off ∷ encode_fields fs

-- No field starts at or before `offset`, as far as the first one tells.
abbrev pub StartsAfter : ℕ → List (ℕ × ℕ) → Type 0
StartsAfter offset [] = Unit
StartsAfter offset ((ty, off) ∷ fs) = offset < off

abbrev pub AllAtOrBefore : ℕ → List (ℕ × ℕ) → Type 0
AllAtOrBefore offset [] = Unit
AllAtOrBefore offset ((ty, off) ∷ fs) = (off ≤ offset) × AllAtOrBefore offset fs

choose_field-stop :
    (offset : ℕ) (post : List (ℕ × ℕ)) (best : Option (ℕ × ℕ))
    → StartsAfter offset post
    → choose_field (encode_fields post) offset best ≡ best
unfolding choose_field
choose_field-stop offset [] best h = refl
choose_field-stop offset ((ty, off) ∷ fs) best h = ground arith

choose_field-last :
    (offset ty off : ℕ) (pre post : List (ℕ × ℕ)) (best : Option (ℕ × ℕ))
    → AllAtOrBefore offset pre
    → off ≤ offset
    → StartsAfter offset post
    → choose_field (encode_fields (pre ++ (ty, off) ∷ post)) offset best ≡ some (ty, off)
unfolding choose_field
choose_field-last offset ty off [] post best h le after =
    ground (arith, choose_field-stop offset post (some (ty, off)))
choose_field-last offset ty off ((t, o) ∷ pre) post best h le after =
    ground (arith, choose_field-last offset ty off pre post (some (t, o)))

encode_fields_odd : (fs : List (ℕ × ℕ)) → length (encode_fields fs) ≡ 2 * length fs
encode_fields_odd [] = omega arith
encode_fields_odd ((t, o) ∷ fs) = omega (arith, encode_fields_odd fs)

-- In a struct of two or more fields, the parent of an offset is the field that holds it: the last
-- field that starts at or before the offset, with the offset counted from the field's start.
pub immediate_parent-field :
    (md : MdStore) (base offset ty off : ℕ) (pre post : List (ℕ × ℕ))
    → md base ≡ md_string ∷ encode_fields (pre ++ (ty, off) ∷ post)
    → 1 ≤ length pre + length post
    → AllAtOrBefore offset pre
    → off ≤ offset
    → StartsAfter offset post
    → immediate_parent md (some base) offset ≡ some (ty, offset - off)
unfolding immediate_parent is_scalar_desc is_struct_desc
immediate_parent-field md base offset ty off pre post e more h le after =
    let fields = pre ++ (ty, off) ∷ post in
    let size = length-append pre ((ty, off) ∷ post) in
    let even = encode_fields_odd fields in
    let found = choose_field-last offset ty off pre post none h le after in
    rw e (ground (arith, size, even, found))
