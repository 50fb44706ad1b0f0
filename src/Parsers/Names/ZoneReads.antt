-- ===== src/Parsers/Names/ZoneReads.antt =====
-- src/parsers/names.rs, `process_zone_response`: which frames it reads, and what it makes of them.
use satel_integra.Common.{
  ℕ, ◌≤◌, ◌<◌, ◌≡◌, refl, Bool, true, false, ◌&&◌, Option, some, none, inl, inr, List, [], ◌∷◌,
  ◌==◌, leb, ltb, if◌then◌else◌, length, All, Bool-cases, arith, ltb_of_le,
}
use satel_integra.Common.Panics.{get_elem?-lt}
use satel_integra.Error.{err, SatelError}
use satel_integra.Parsers.Names.Types.{ZoneParams, device_id, in_partitions}
use satel_integra.Parsers.Names.Zones.{
  zone_partition, zone_params, zone_typed, zone_payload, process_zone_response,
}
use satel_integra.Parsers.Names.Reads.{
  IsRead, IsParsed, long_enough, parser-IsParsed, Head, device_id-byte, device_id-range,
}
use satel_integra.Catalog.RoundTrip.{reaction_code}
use satel_integra.Catalog.Zones
use Prim.Native.String.{String}

-- A partition from 1 to 32, if there is one.
abbrev pub IsPartition : Option ℕ → Type 0
IsPartition none = Unit {0}
IsPartition (some p) = (1 ≤ p) × (p ≤ 32)

-- The byte of the reaction.
abbrev pub reaction_of : ZoneParams → ℕ
reaction_of params = Zones.Bytes.code params.reaction

pub record IsSoundZone (id : ℕ) (params : ZoneParams) : Type 0 where
  pub id_range : (1 ≤ id) × (id ≤ 256)
  pub zone_id : params.zone_id ≡ id
  pub partition : IsPartition params.partition

tested :
    (least most : Bool) (p : ℕ)
    → (least ≡ true → 1 ≤ p)
    → (most ≡ true → p ≤ 32)
    → IsPartition (if least && most then some p else none)
tested true true p h k = (h refl, k refl)
tested true false p h k = tt
tested false most p h k = tt

in_partitions-IsPartition : (p : ℕ) → IsPartition (in_partitions p)
in_partitions-IsPartition p = tested (leb 1 p) (leb p 32) p (λ h. ground arith) (λ h. ground arith)

-- The partition of an answer that is long enough for its type.
zone_partition-read :
    (extended : Bool) (payload : List ℕ)
    → (extended ≡ true → 20 ≤ length payload)
    → (partition : Option ℕ) × (zone_partition extended payload ≡ some partition)
      × IsPartition partition
unfolding zone_partition
zone_partition-read true payload h =
    let (p, e) = get_elem?-lt payload 19 (h refl) in
    (in_partitions p, rw e refl, in_partitions-IsPartition p)
zone_partition-read false payload h = (none, refl, tt)

zone_params-IsRead :
    (decode : List ℕ → String) (now : ℕ) (extended : Bool) (payload : List ℕ)
    → Head payload
    → (extended ≡ true → 20 ≤ length payload)
    → IsRead decode now reaction_of IsSoundZone payload (zone_params decode now extended payload)
zone_params-IsRead decode now extended payload head h =
    let (partition, e, k) = zone_partition-read extended payload h in
    record {
      id = device_id head.number;
      params = record {
        zone_id = device_id head.number;
        reaction = Zones.Codes.from_code head.code;
        partition = partition;
        read_at = now;
      };
      returns = unfold zone_params in rw (head.number_at, head.code_at, head.name_at, e) refl;
      number = rw (device_id-byte head.number head.number_byte, head.number_at) refl;
      code = rw (reaction_code head.code head.code_byte, head.code_at) refl;
      sound = record {
        id_range = device_id-range head.number head.number_byte;
        zone_id = refl;
        partition = k;
      };
    }

-- The types of device, with the bytes that each needs.
abbrev pub zone_lengths : List (ℕ × ℕ)
zone_lengths = (1, 19) ∷ (5, 20) ∷ []

long : (dev_type size : ℕ) → long_enough zone_lengths dev_type size ≡ true → 19 ≤ size
unfolding long_enough
long dev_type size h = ground arith

zone_typed-reads :
    (decode : List ℕ → String) (now : ℕ) (dev_type : ℕ) (payload : List ℕ)
    → Head payload
    → long_enough zone_lengths dev_type (length payload) ≡ true
    → IsRead decode now reaction_of IsSoundZone payload (zone_typed decode now payload dev_type)
unfolding long_enough zone_typed
zone_typed-reads decode now dev_type payload head h = elim (Bool-cases (dev_type == 5)) [
  | inl y ↦
      let n : 20 ≤ length payload = ground arith in
      let o : (dev_type == 1) ≡ false = ground arith in
      rw (o, y, ltb_of_le (length payload) 20 n)
        (zone_params-IsRead decode now true payload head (λ e. n))
  | inr n ↦
      let o : (dev_type == 1) ≡ true = ground arith in
      rw (o, n) (zone_params-IsRead decode now false payload head (λ e. absurd cc))
]

zone_typed-refuses :
    (decode : List ℕ → String) (now : ℕ) (dev_type : ℕ) (payload : List ℕ)
    → 19 ≤ length payload
    → long_enough zone_lengths dev_type (length payload) ≡ false
    → zone_typed decode now payload dev_type ≡ some (err SatelError.invalid_frame)
unfolding long_enough zone_typed
zone_typed-refuses decode now dev_type payload k h = elim (Bool-cases (dev_type == 5)) [
  | inl y ↦
      let n : ltb (length payload) 20 ≡ true = ground arith in
      let o : (dev_type == 1) ≡ false = ground arith in rw (o, y, n) refl
  | inr n ↦ let o : (dev_type == 1) ≡ false = ground arith in rw (o, n) refl
]

pub process_zone_response-IsParsed :
    (decode : List ℕ → String) (now : ℕ) (frame : List ℕ)
    → All (λ b. b < 256) frame
    → IsParsed decode now reaction_of IsSoundZone zone_lengths frame
        (process_zone_response decode now frame)
unfolding process_zone_response zone_payload
process_zone_response-IsParsed decode now frame bytes =
    parser-IsParsed decode now reaction_of IsSoundZone zone_lengths (zone_typed decode now) long
      (zone_typed-reads decode now) (zone_typed-refuses decode now) frame bytes
