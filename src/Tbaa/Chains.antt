-- ===== src/Tbaa/Chains.antt =====
-- The loop over parents in `mayAliasByTBAA` of TBAATools.cc: the chain of an access.
use tfa_project.Common.{
  ℕ, zero, suc, ◌<◌, ◌≡◌, ◌↔◌, ap, inl, inr, true, some, ◌∷◌, mem, pair_eq, nat_eq, arith,
  Bool-cases, Option-cases, pair_beq,
}
use tfa_project.Tbaa.{MdStore, Older, immediate_parent, chain}
use tfa_project.Tbaa.Parent.{immediate_parent-lt}

-- Field `(b', o')` holds access `(b, o)` at some number of steps up.
pub data Within (md : MdStore) (b o : ℕ) : ℕ → ℕ → Type 0 where
  self : Within md b o b o
  up :
      {p q p' q' : ℕ}
      → Within md b o p q
      → immediate_parent md (some p) q ≡ some (p', q')
      → Within md b o p' q'

module _ (md : MdStore) (older : Older md) where
  chain_enough : (f g b o : ℕ) → b < f → b < g → chain md f b o ≡ chain md g b o
  unfolding chain
  chain_enough zero g b o h k = absurd (omega arith)
  chain_enough (suc f) zero b o h k = absurd (omega arith)
  chain_enough (suc f) (suc g) b o h k = elim (Option-cases (immediate_parent md (some b) o)) [
    | inl nothing ↦ rw (nothing, chain)
    | inr ((p, q), e) ↦
        let lt : p < b = immediate_parent-lt md b o older e in
        rw (e, chain) (ap (λ l. (b, o) ∷ l) (chain_enough f g p q (omega arith) (omega arith)))
  ]

module _ (md : MdStore) where
  Within-below :
      {b o p q c d : ℕ}
      → immediate_parent md (some b) o ≡ some (p, q)
      → Within md p q c d
      → Within md b o c d
  Within-below e self = up self e
  Within-below e (up w e') = up (Within-below e w) e'

  Within-of_mem-chain : (f b o c d : ℕ) → mem (c, d) (chain md f b o) ≡ true → Within md b o c d
  unfolding chain
  Within-of_mem-chain zero b o c d h = cc
  Within-of_mem-chain (suc f) b o c d h = elim (Bool-cases (pair_beq (c, d) (b, o))) [
    | inl same ↦ let e : c ≡ b = ground arith in let e' : d ≡ o = ground arith in rw (e, e') self
    | inr apart ↦ elim (Option-cases (immediate_parent md (some b) o)) [
      | inl top ↦ cc (rw (apart, top) at h)
      | inr ((p, q), e) ↦ Within-below e (Within-of_mem-chain f p q c d (rw (apart, e) at h))
    ]
  ]

  mem-chain_head : (f b o : ℕ) → b < f → mem (b, o) (chain md f b o) ≡ true
  unfolding chain
  mem-chain_head zero b o h = absurd (omega arith)
  mem-chain_head (suc f) b o h = ground arith

  mem-chain_up :
      (f b o p q p' q' : ℕ)
      → Older md
      → b < f
      → mem (p, q) (chain md f b o) ≡ true
      → immediate_parent md (some p) q ≡ some (p', q')
      → mem (p', q') (chain md f b o) ≡ true
  unfolding chain
  mem-chain_up zero b o p q p' q' older h m e = cc
  mem-chain_up (suc f) b o p q p' q' older h m e =
      elim (Option-cases (immediate_parent md (some b) o)) [
        | inl top ↦ ground arith
        | inr ((r, s), e') ↦
            let lt : r < f = omega (arith, immediate_parent-lt md b o older e') in
            ground (arith, mem-chain_head f r s lt, mem-chain_up f r s p q p' q' older lt)
      ]

  mem-chain_of_Within :
      (f : ℕ) {b o c d : ℕ}
      → Older md
      → b < f
      → Within md b o c d
      → mem (c, d) (chain md f b o) ≡ true
  mem-chain_of_Within f {b} {o} older h self = mem-chain_head f b o h
  mem-chain_of_Within f {b} {o} older h (up {p} {q} {p'} {q'} w e) =
      mem-chain_up f b o p q p' q' older h (mem-chain_of_Within f older h w) e

  -- When descriptors form no cycle, the chain that the loop builds holds exactly the accesses that
  -- the descriptors lead up to.
  pub mem-chain_iff :
      (b o c d : ℕ) → Older md → (mem (c, d) (chain md (suc b) b o) ≡ true) ↔ Within md b o c d
  mem-chain_iff b o c d older =
      (Within-of_mem-chain (suc b) b o c d, mem-chain_of_Within (suc b) older (omega arith))
