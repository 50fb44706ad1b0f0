-- ===== src/Troubles/Custom/Latch.antt =====
-- src/parsers/system.rs: the decoders outside the masks never report a reserved bit as inactive.
use satel_integra.Common.{
  ℕ, zero, suc, ◌+◌, ◌*◌, ◌≡◌, refl, inl, inr, Bool, true, false, not, ◌&&◌, Bool-cases, Option,
  List, [], ◌∷◌, ◌++◌, ltb, min, get_elem?, ◌==◌, ◌%◌, ◌^◌, length, All, All-append, arith,
}
use satel_integra.Common.Panics.{Ensures, some-Ensures, bind-Ensures, any-Ensures}
use satel_integra.Troubles.Types.{
  TroubleType, TroubleItem, flag, acu_jam_level, cme_error, auxiliary_stm_troubles, gsm_module,
}
use satel_integra.Troubles.Custom.{
  push_flags, push_gsm_flags, is_generic, system_flags, gsm_flags, generic_flags, from_be_bytes,
  ethm_ptsa_flags, decode_system_troubles, decode_ethm_ptsa_status, decode_aux_stm, jam_levels,
  decode_acu_jam_level, decode_acu_jam_level_16_30, gsm_module_items, gsm_modules, decode_gsm_block,
}

-- The item does not report a reserved bit as inactive.
abbrev pub Keeps : TroubleItem → Type 0
Keeps (flag t memory active) = (is_generic t && not active) ≡ false
Keeps _ = Unit {0}

abbrev pub AllKeep : List TroubleItem → Type 0
AllKeep = All Keeps

-- A trouble with a name of its own.
abbrev pub IsNamed : TroubleType → Type 0
IsNamed t = is_generic t ≡ false

pub named-Keeps :
    (t : TroubleType) (memory active : Bool) → IsNamed t → Keeps (flag t memory active)
named-Keeps t memory active h = rw h refl

all_named : List (TroubleType × Bool) → Bool
unfolding is_generic
all_named [] = true
all_named ((t, active) ∷ rest) = not (is_generic t) && all_named rest

push_flags-AllKeep :
    (memory : Bool) (flags : List (TroubleType × Bool))
    → all_named flags ≡ true
    → AllKeep (push_flags memory flags)
unfolding push_flags all_named
push_flags-AllKeep memory [] h = tt
push_flags-AllKeep memory ((t, active) ∷ rest) h =
    let named : is_generic t ≡ false = ground arith in
    (named-Keeps t memory active named, push_flags-AllKeep memory rest (ground arith))

push_gsm_flags-AllKeep :
    (memory : Bool) (flags : List (TroubleType × Bool)) → AllKeep (push_gsm_flags memory flags)
unfolding push_gsm_flags
push_gsm_flags-AllKeep memory [] = tt
push_gsm_flags-AllKeep memory ((t, active) ∷ rest) =
    let more = push_gsm_flags-AllKeep memory rest in
    elim (Bool-cases (is_generic t && not active)) [ inl e ↦ rw e more | inr e ↦ rw e (e, more) ]

abbrev pub Clean : Option (List TroubleItem) → Type 0
Clean = Ensures AllKeep

pub decode_system_troubles-Clean :
    (bytes : List ℕ) (memory : Bool) → Clean (decode_system_troubles bytes memory)
unfolding decode_system_troubles all_named
decode_system_troubles-Clean bytes memory = elim (Bool-cases (ltb (length bytes) 43)) [
  | inl e ↦ rw e (some-Ensures [] tt)
  | inr e ↦ rw e (
      bind-Ensures (any-Ensures (get_elem? bytes 40)) λ b1 _.
        bind-Ensures (any-Ensures (get_elem? bytes 41)) λ b2 _.
          bind-Ensures (any-Ensures (get_elem? bytes 42)) λ b3 _.
            some-Ensures (push_flags memory (system_flags b1 b2 b3))
              (push_flags-AllKeep memory (system_flags b1 b2 b3) refl))
]

pub decode_ethm_ptsa_status-Clean :
    (bytes : List ℕ) (memory : Bool) → Clean (decode_ethm_ptsa_status bytes memory)
unfolding decode_ethm_ptsa_status all_named
decode_ethm_ptsa_status-Clean bytes memory = elim (Bool-cases (ltb (length bytes) 47)) [
  | inl e ↦ rw e (some-Ensures [] tt)
  | inr e ↦ rw e (
      bind-Ensures (any-Ensures (get_elem? bytes 46)) λ p4 _.
        some-Ensures (push_flags memory (ethm_ptsa_flags p4))
          (push_flags-AllKeep memory (ethm_ptsa_flags p4) refl))
]

pub decode_aux_stm-Clean : (bytes : List ℕ) (memory : Bool) → Clean (decode_aux_stm bytes memory)
unfolding decode_aux_stm is_generic
decode_aux_stm-Clean bytes memory = elim (Bool-cases (ltb 29 (length bytes))) [
  | inl e ↦ rw e (
      bind-Ensures (any-Ensures (get_elem? bytes 29)) λ byte _.
        some-Ensures (flag auxiliary_stm_troubles memory (not (byte == 0)) ∷ []) (refl, tt))
  | inr e ↦ rw e (some-Ensures [] tt)
]

jam_levels-Clean : (bytes : List ℕ) (first at count : ℕ) → Clean (jam_levels bytes first at count)
unfolding jam_levels
jam_levels-Clean bytes first at zero = some-Ensures [] tt
jam_levels-Clean bytes first at (suc count) =
    bind-Ensures (any-Ensures (get_elem? bytes at)) λ level _.
      bind-Ensures (jam_levels-Clean bytes (first + 1) (at + 1) count)
        λ items h. some-Ensures (acu_jam_level (first % 2 ^ 8) level ∷ items) (tt, h)

pub decode_acu_jam_level-Clean :
    (bytes : List ℕ) (memory : Bool) → Clean (decode_acu_jam_level bytes memory)
unfolding decode_acu_jam_level
decode_acu_jam_level-Clean bytes memory = jam_levels-Clean bytes 1 0 (min 15 (length bytes))

pub decode_acu_jam_level_16_30-Clean :
    (bytes : List ℕ) (memory : Bool) → Clean (decode_acu_jam_level_16_30 bytes memory)
unfolding decode_acu_jam_level_16_30
decode_acu_jam_level_16_30-Clean bytes memory = elim (Bool-cases (ltb (length bytes) 47)) [
  | inl e ↦ rw e (some-Ensures [] tt)
  | inr e ↦ rw e (jam_levels-Clean bytes 16 32 15)
]

gsm_module_items-Clean :
    (m : ℕ) (bytes : List ℕ) (memory : Bool) → Clean (gsm_module_items m bytes memory)
unfolding gsm_module_items
gsm_module_items-Clean m bytes memory = bind-Ensures (any-Ensures (get_elem? bytes (m * 8))) λ b0 _.
    bind-Ensures (any-Ensures (get_elem? bytes (m * 8 + 1))) λ b1 _.
      bind-Ensures (any-Ensures (get_elem? bytes (m * 8 + 2))) λ b2 _.
        bind-Ensures (any-Ensures (get_elem? bytes (m * 8 + 3))) λ b3 _.
          bind-Ensures (any-Ensures (get_elem? bytes (m * 8 + 4))) λ c4 _.
            bind-Ensures (any-Ensures (get_elem? bytes (m * 8 + 5))) λ c5 _.
              bind-Ensures (any-Ensures (get_elem? bytes (m * 8 + 6))) λ c6 _.
                bind-Ensures (any-Ensures (get_elem? bytes (m * 8 + 7))) λ c7 _.
                  let flags = gsm_flags m b0 b1 b2 b3 ++ generic_flags (m * 8) b3 in
                  let codes : List TroubleItem =
                    cme_error (gsm_module m) 1 memory (from_be_bytes c4 c5)
                    ∷ cme_error (gsm_module m) 2 memory (from_be_bytes c6 c7)
                    ∷ [] in
                  some-Ensures (push_gsm_flags memory flags ++ codes) (
                    All-append Keeps (push_gsm_flags memory flags) codes
                      (push_gsm_flags-AllKeep memory flags) (tt, (tt, tt)))

gsm_modules-Clean :
    (bytes : List ℕ) (memory : Bool) (m count : ℕ) → Clean (gsm_modules bytes memory m count)
unfolding gsm_modules
gsm_modules-Clean bytes memory m zero = some-Ensures [] tt
gsm_modules-Clean bytes memory m (suc count) =
    let rest = gsm_modules-Clean bytes memory (m + 1) count in
    elim (Bool-cases (ltb (length bytes) (m * 8 + 8))) [
      | inl e ↦ rw e (some-Ensures [] tt)
      | inr e ↦ rw e (
          bind-Ensures (gsm_module_items-Clean m bytes memory) λ items h.
            bind-Ensures rest
              λ more k. some-Ensures (items ++ more) (All-append Keeps items more h k))
    ]

pub decode_gsm_block-Clean :
    (bytes : List ℕ) (memory : Bool) → Clean (decode_gsm_block bytes memory)
unfolding decode_gsm_block
decode_gsm_block-Clean bytes memory = gsm_modules-Clean bytes memory 0 8
