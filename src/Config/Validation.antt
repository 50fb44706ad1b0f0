-- ===== src/Config/Validation.antt =====
-- Which configurations `validate` accepts.
use satel_integra.Common.{inr}
use satel_integra.Common.{inl}
use satel_integra.Common.{Option-cases, not}
use satel_integra.Common.{Bool-cases}
use satel_integra.Config.{ConnectionConfig, uart, key_of}
use satel_integra.Config.{is_uart, validate, validate_encryption}
use satel_integra.Common.{
  ℕ, ◌≤◌, ◌<◌, ◌≡◌, ◌≢◌, ◌↔◌, refl, true, false, some, List, [], ◌∷◌, length, All, arith,
}
use satel_integra.Error.{ok}
use satel_integra.Config.{
  Config, TemperatureProbe, tcp, validate_probes, seen, is_ascii, min_unblock_after_cycles,
}

-- A probe names a zone from 1 to 256, and unblocks after at least ten cycles if it unblocks at all.
pub record IsValidProbe (p : TemperatureProbe) : Type 0 where
  pub first : 1 ≤ p.zone_id
  pub last : p.zone_id ≤ 256
  pub patient : p.unblock_enabled ≡ true → min_unblock_after_cycles ≤ p.unblock_after_cycles

abbrev pub NotAmong : List ℕ → ℕ → Type 0
NotAmong zones z = All (λ y. y ≢ z) zones

abbrev pub Distinct : List TemperatureProbe → Type 0
Distinct [] = Unit {0}
Distinct (p ∷ ps) = All (λ (q : TemperatureProbe). p.zone_id ≢ q.zone_id) ps × Distinct ps

seen_iff : (zones : List ℕ) (z : ℕ) → (seen zones z ≡ false) ↔ NotAmong zones z
unfolding seen
seen_iff [] z = (λ e. tt, λ h. refl)
seen_iff (y ∷ ys) z = (
  λ e. (ground (arith, e), (seen_iff ys z).0 (ground (arith, e))),
  λ h. ground (arith, h.0, (seen_iff ys z).1 h.1),
)

All-× {ℓ} :
    {A : Type ℓ} (P Q : A → Type 0) (xs : List A) → All (λ x. P x × Q x) xs ↔ (All P xs × All Q xs)
All-× P Q [] = (λ h. (tt, tt), λ h. tt)
All-× P Q (x ∷ xs) =
    let (there, back) = All-× P Q xs in
    (
      λ h. ((h.0.0, (there h.1).0), (h.0.1, (there h.1).1)),
      λ h. ((h.0.0, h.1.0), back (h.0.1, h.1.1)),
    )

abbrev Accepted : List ℕ → List TemperatureProbe → Type 0
Accepted zones ps =
    All IsValidProbe ps × All (λ (p : TemperatureProbe). NotAmong zones p.zone_id) ps × Distinct ps

head_accepted :
    (zones : List ℕ) (p : TemperatureProbe) (ps : List TemperatureProbe)
    → validate_probes zones (p ∷ ps) ≡ ok tt
    → IsValidProbe p
      × (seen zones p.zone_id ≡ false)
      × (validate_probes (p.zone_id ∷ zones) ps ≡ ok tt)
unfolding validate_probes
head_accepted zones p ps e = ground (arith, e)

head_accepts :
    (zones : List ℕ) (p : TemperatureProbe) (ps : List TemperatureProbe)
    → IsValidProbe p
    → seen zones p.zone_id ≡ false
    → validate_probes (p.zone_id ∷ zones) ps ≡ ok tt
    → validate_probes zones (p ∷ ps) ≡ ok tt
unfolding validate_probes
head_accepts zones p ps v s e = ground (arith, v, s, e)

validate_probes_iff :
    (zones : List ℕ) (ps : List TemperatureProbe)
    → (validate_probes zones ps ≡ ok tt) ↔ Accepted zones ps
validate_probes_iff zones [] = unfold validate_probes in (λ e. (tt, tt, tt), λ h. refl)
validate_probes_iff zones (p ∷ ps) =
    let (there, back) = validate_probes_iff (p.zone_id ∷ zones) ps in
    let (apart, join) =
      All-× (λ (q : TemperatureProbe). p.zone_id ≢ q.zone_id)
        (λ (q : TemperatureProbe). NotAmong zones q.zone_id) ps in
    (
      λ e.
          let (valid, new, rest) = head_accepted zones p ps e in
          let (vs, ns, ds) = there rest in
          ((valid, vs), ((seen_iff zones p.zone_id).0 new, (apart ns).1), ((apart ns).0, ds)),
      λ h.
          head_accepts zones p ps h.0.0 ((seen_iff zones p.zone_id).1 h.1.0)
            (back (h.0.1, join (h.2.0, h.1.1), h.2.1)),
    )

-- With encryption the key is there, has 1 to 12 bytes, all below 128, and the line is TCP.
pub record IsEncryptable (c : Config) (key : List ℕ) : Type 0 where
  pub given : c.integration_key ≡ some key
  pub non_empty : 1 ≤ length key
  pub short : length key ≤ 12
  pub ascii : All (λ b. b < 128) key
  pub network : (host : List ℕ) × (port : ℕ) × (c.connection ≡ tcp host port)

is_ascii_iff : (key : List ℕ) → (is_ascii key ≡ true) ↔ All (λ b. b < 128) key
unfolding is_ascii
is_ascii_iff [] = (λ e. tt, λ h. refl)
is_ascii_iff (b ∷ bs) = (
  λ e. (ground (arith, e), (is_ascii_iff bs).0 (ground (arith, e))),
  λ h. ground (arith, h.0, (is_ascii_iff bs).1 h.1),
)

is_tcp :
    (l : ConnectionConfig)
    → not (is_uart l) ≡ true
    → (host : List ℕ) × (port : ℕ) × (l ≡ tcp host port)
unfolding is_uart
is_tcp (tcp host port) h = (host, port, refl)
is_tcp (uart path baud_rate) h = absurd (ground (arith, h))

key_checks :
    (c : Config) (key : List ℕ)
    → c.integration_key ≡ some key
    → validate_encryption c ≡ ok tt
    → (1 ≤ length key)
      × (length key ≤ 12)
      × (is_ascii key ≡ true)
      × (not (is_uart c.connection) ≡ true)
unfolding validate_encryption key_of
key_checks c key k e = ground (arith, k, e)

validate_encryption_iff :
    (c : Config) → (validate_encryption c ≡ ok tt) ↔ ((key : List ℕ) × IsEncryptable c key)
unfolding validate_encryption key_of is_uart
validate_encryption_iff c = (
  λ e. elim (Option-cases c.integration_key) [
    | inl k ↦ absurd (ground (arith, k, e))
    | inr (key, k) ↦
        let (lo, hi, ascii, line) = key_checks c key k e in
        (
          key,
          record {
            given = k;
            non_empty = lo;
            short = hi;
            ascii = (is_ascii_iff key).0 ascii;
            network = is_tcp c.connection line;
          },
        )
  ],
  λ h.
      let (key, v) = h in
      let (host, port, line) = v.network in
      ground (arith, v.given, v.non_empty, v.short, (is_ascii_iff key).1 v.ascii, line),
)

none_before :
    (ps : List TemperatureProbe) → All (λ (p : TemperatureProbe). NotAmong [] p.zone_id) ps
none_before [] = tt
none_before (p ∷ ps) = (tt, none_before ps)

validate_parts :
    (c : Config)
    → validate c ≡ ok tt
    → (c.encryption ≡ true → validate_encryption c ≡ ok tt)
      × (validate_probes [] c.temperature_probes ≡ ok tt)
unfolding validate
validate_parts c v = elim (Bool-cases c.encryption) [
  | inl e ↦ ((λ _. ground (arith, v, e)), ground (arith, v, e))
  | inr e ↦ ((λ on. absurd (ground (arith, on, e))), ground (arith, v, e))
]

validate_whole :
    (c : Config)
    → (c.encryption ≡ true → validate_encryption c ≡ ok tt)
    → validate_probes [] c.temperature_probes ≡ ok tt
    → validate c ≡ ok tt
unfolding validate
validate_whole c crypt probes = elim (Bool-cases c.encryption) [
  | inl e ↦ ground (arith, e, crypt e, probes)
  | inr e ↦ ground (arith, e, probes)
]

-- `validate` accepts a configuration exactly if, with encryption on, the key can be used and the
-- line is TCP, every temperature probe names a zone from 1 to 256 and does not unblock too early,
-- and no two probes name the same zone.
pub validate_iff :
    (c : Config)
    → (validate c ≡ ok tt) ↔ (
        (c.encryption ≡ true → (key : List ℕ) × IsEncryptable c key)
        × All IsValidProbe c.temperature_probes
        × Distinct c.temperature_probes)
validate_iff c =
    let (there, back) = validate_probes_iff [] c.temperature_probes in
    let (crypt, uncrypt) = validate_encryption_iff c in
    (
      λ v.
          let (encrypts, probes) = validate_parts c v in
          ((λ on. crypt (encrypts on)), (there probes).0, (there probes).2),
      λ h.
          validate_whole c (λ on. uncrypt (h.0 on))
            (back (h.1, none_before c.temperature_probes, h.2)),
    )
