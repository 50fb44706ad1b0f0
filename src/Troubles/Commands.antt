-- ===== src/Troubles/Commands.antt =====
-- The commands of the trouble frames, and how to split on one.
use satel_integra.Common.{
  ℕ, ◌≡◌, ◌⊎◌, inl, inr, false, Bool-cases, List, [], ◌∷◌, ◌==◌, All, ==_iff,
}

-- The commands of the trouble frames.
abbrev pub trouble_commands : List ℕ
trouble_commands =
    0x1B ∷ 0x20 ∷ 0x1C ∷ 0x21 ∷ 0x1D ∷ 0x22 ∷ 0x1E ∷ 0x23 ∷ 0x1F ∷ 0x24 ∷ 0x2C ∷ 0x2E ∷ 0x2D ∷ 0x2F
    ∷ 0x30 ∷ 0x31 ∷ []

abbrev pub Differs : ℕ → List ℕ → Type 0
Differs cmd ks = All (λ k. (cmd == k) ≡ false) ks

by_list : (P : ℕ → Type 0) (ks : List ℕ) → All P ks → (cmd : ℕ) → P cmd ⊎ Differs cmd ks
by_list P [] h cmd = inr tt
by_list P (k ∷ ks) h cmd = elim (Bool-cases (cmd == k)) [
  | inl e ↦ let same : cmd ≡ k = (==_iff cmd k).0 e in inl (rw same h.0)
  | inr e ↦ elim (by_list P ks h.1 cmd) [ inl p ↦ inl p | inr d ↦ inr (e, d) ]
]

-- What holds of each command of a trouble frame, and of every other number, holds of all.
pub by_command :
    (P : ℕ → Type 0)
    → All P trouble_commands
    → ((cmd : ℕ) → Differs cmd trouble_commands → P cmd)
    → (cmd : ℕ) → P cmd
by_command P h other cmd = elim (by_list P trouble_commands h cmd) [
  | inl p ↦ p
  | inr d ↦ other cmd d
]
