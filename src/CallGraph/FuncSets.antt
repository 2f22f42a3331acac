-- ===== src/CallGraph/FuncSets.antt =====
-- `funcSetIntersection` of CallGraphTools.cc: functions common to two sets by address or by name.
-- (`funcSetMerge` is `union`.)
pub mod Correct
use tfa_project.Common.{
  ℕ, ◌≡◌, refl, sym, ◌∙◌, ◌⊎◌, inl, inr, true, false, ◌||◌, List, [], ◌∷◌, mem, insert, union,
  mem-insert, mem-union, nat_eq, list_eq, pair_eq, list_beq_iff, pair_beq_iff, ◌==◌, if◌then◌else◌,
  arith, Bool-cases, ◌&&◌,
}
use tfa_project.Common.Text.{Text, is_empty}
use tfa_project.CallGraph.{Llvm}

abbrev pub Named : Type 0
Named = List (Text × ℕ)

abbrev pub names : Named → List Text
names [] = []
names ((n, f) ∷ ns) = n ∷ names ns

-- `FS1_name_set`: the first function of each name, functions without a name left out.
unfoldable pub name_set : Llvm → List ℕ → Named → Named
name_set llvm [] named = named
name_set llvm (f ∷ fs) named = name_set llvm fs (
    if is_empty (llvm.func_name f) || mem (llvm.func_name f) (names named)
    then named
    else (llvm.func_name f, f) ∷ named)

-- The functions that are in both sets.
unfoldable pub common : List ℕ → List ℕ → List ℕ
common [] fs2 = []
common (f ∷ fs1) fs2 = let rest = common fs1 fs2 in if mem f fs2 then insert f rest else rest

-- The named functions whose name is among the names of the other set.
unfoldable pub common_named : Named → List Text → List ℕ
common_named [] others = []
common_named ((n, f) ∷ ns) others =
    let rest = common_named ns others in if mem n others then insert f rest else rest

unfoldable pub func_set_intersection : Llvm → List ℕ → List ℕ → List ℕ
unfolding name_set common common_named
func_set_intersection llvm fs1 fs2 =
    union (common fs1 fs2) (common_named (name_set llvm fs1 []) (names (name_set llvm fs2 [])))
