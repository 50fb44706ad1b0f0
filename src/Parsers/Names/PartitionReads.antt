-- ===== src/Parsers/Names/PartitionReads.antt =====
-- src/parsers/names.rs, `process_partition_response`: which frames it reads, and what it makes of them.
use satel_integra.Common.{
  ℕ, ◌%◌, ◌^◌, ◌≤◌, ◌<◌, ◌≡◌, refl, true, false, ◌&&◌, Option, some, none, inl, inr, List, [], ◌∷◌,
  ◌==◌, leb, ltb, length, All, Bool-cases, arith,
}
use satel_integra.Common.Panics.{get_elem?-lt}
use satel_integra.Error.{err, SatelError}
use satel_integra.Parsers.Names.Types.{PartitionParams, word}
use satel_integra.Parsers.Names.Reads.{IsRead, IsParsed, long_enough, parser-IsParsed, Head}
use Prim.Native.String.{String}
use satel_integra.Parsers.Names.Partitions.{
  object_number, options_and_defer, dependent_of, partition_params, is_partition_type,
  partition_typed, partition_payload, process_partition_response,
}
use satel_integra.Catalog.RoundTrip.{type_code}
use satel_integra.Catalog.Partitions.Options.{PartitionOptions}
use satel_integra.Catalog.Partitions.Timer.{AutoArmDeferTimer, from_raw}
use satel_integra.Catalog.Partitions.Dependent.{DependentPartitions}
use satel_integra.Catalog.Partitions

-- The byte of the type.
abbrev pub type_of : PartitionParams → ℕ
type_of params = Partitions.Types.code params.partition_type

-- The seconds of the timer take 14 bits.
abbrev pub IsTimer : Option AutoArmDeferTimer → Type 0
IsTimer none = Unit {0}
IsTimer (some timer) = timer.defer_time_s < 2 ^ 14

pub record IsSoundPartition (id : ℕ) (params : PartitionParams) : Type 0 where
  pub id_byte : id < 256
  pub partition_id : params.partition_id ≡ id
  pub timer : IsTimer params.auto_arm_defer

-- The bytes that the parts of a longer answer take.
record Enough (dev_type size : ℕ) : Type 0 where
  object : leb 16 dev_type ≡ true → 20 ≤ size
  later : leb 18 dev_type ≡ true → 24 ≤ size
  dependent : (dev_type == 19) ≡ true → 28 ≤ size

object_number-read :
    (dev_type : ℕ) (payload : List ℕ)
    → (leb 16 dev_type ≡ true → 20 ≤ length payload)
    → (number : Option ℕ) × (object_number dev_type payload ≡ some number)
unfolding object_number
object_number-read dev_type payload h = elim (Bool-cases (leb 16 dev_type)) [
  | inl y ↦ let (n, e) = get_elem?-lt payload 19 (h y) in (some n, rw (y, e) refl)
  | inr n ↦ (none, rw n refl)
]

options_and_defer-read :
    (dev_type : ℕ) (payload : List ℕ)
    → (leb 18 dev_type ≡ true → 24 ≤ length payload)
    → (later : Option PartitionOptions × Option AutoArmDeferTimer) × (options_and_defer dev_type
          payload
        ≡ some later)
      × IsTimer later.1
unfolding options_and_defer
options_and_defer-read dev_type payload h = elim (Bool-cases (leb 18 dev_type)) [
  | inl y ↦
      let k = h y in
      let (b1, e1) = get_elem?-lt payload 20 (omega arith) in
      let (b2, e2) = get_elem?-lt payload 21 (omega arith) in
      let (high, e3) = get_elem?-lt payload 22 (omega arith) in
      let (low, e4) = get_elem?-lt payload 23 (omega arith) in
      (
        (some (Partitions.Options.from_bytes b1 b2), some (from_raw (word high low))),
        rw (y, e1, e2, e3, e4) refl,
        unfold from_raw in omega arith,
      )
  | inr n ↦ ((none, none), rw n refl, tt)
]

dependent_of-read :
    (dev_type : ℕ) (payload : List ℕ)
    → ((dev_type == 19) ≡ true → 28 ≤ length payload)
    → (dependent : Option DependentPartitions) × (dependent_of dev_type payload ≡ some dependent)
unfolding dependent_of
dependent_of-read dev_type payload h = elim (Bool-cases (dev_type == 19)) [
  | inl y ↦
      let k = h y in
      let (b0, e0) = get_elem?-lt payload 24 (omega arith) in
      let (b1, e1) = get_elem?-lt payload 25 (omega arith) in
      let (b2, e2) = get_elem?-lt payload 26 (omega arith) in
      let (b3, e3) = get_elem?-lt payload 27 (omega arith) in
      (some (Partitions.Dependent.from_bytes b0 b1 b2 b3), rw (y, e0, e1, e2, e3) refl)
  | inr n ↦ (none, rw n refl)
]

partition_params-IsRead :
    (decode : List ℕ → String) (now : ℕ) (dev_type : ℕ) (payload : List ℕ)
    → Head payload
    → Enough dev_type (length payload)
    → IsRead decode now type_of IsSoundPartition payload
        (partition_params decode now dev_type payload)
partition_params-IsRead decode now dev_type payload head enough =
    let (number, e) = object_number-read dev_type payload enough.object in
    let (later, f, timer) = options_and_defer-read dev_type payload enough.later in
    let (dependent, g) = dependent_of-read dev_type payload enough.dependent in
    let byte = head.number_byte in
    let same : head.number % 256 ≡ head.number = omega arith in
    record {
      id = head.number;
      params = record {
        partition_id = head.number;
        partition_type = Partitions.Types.from_code head.code;
        object_number = number;
        options = later.0;
        auto_arm_defer = later.1;
        dependent_partitions = dependent;
        read_at = now;
      };
      returns =
          unfold partition_params in rw (head.number_at, head.code_at, head.name_at, e, f, g) refl;
      number = rw (same, head.number_at) refl;
      code = rw (type_code head.code head.code_byte, head.code_at) refl;
      sound = record { id_byte = byte; partition_id = refl; timer = timer };
    }

-- The types of device, with the bytes that each needs.
abbrev pub partition_lengths : List (ℕ × ℕ)
partition_lengths = (0, 19) ∷ (16, 20) ∷ (18, 24) ∷ (19, 28) ∷ []

long : (dev_type size : ℕ) → long_enough partition_lengths dev_type size ≡ true → 19 ≤ size
unfolding long_enough
long dev_type size h = ground arith

long_enough-Enough :
    (dev_type size : ℕ) → long_enough partition_lengths dev_type size ≡ true → Enough dev_type size
unfolding long_enough
long_enough-Enough dev_type size h = record {
  object = λ e. ground arith;
  later = λ e. ground arith;
  dependent = λ e. ground arith;
}

-- The three tests of a length.
tests_passed :
    (dev_type size : ℕ)
    → long_enough partition_lengths dev_type size ≡ true
    → (is_partition_type dev_type ≡ true)
      × (((dev_type == 16) && ltb size 20) ≡ false)
      × (((dev_type == 18) && ltb size 24) ≡ false)
      × (((dev_type == 19) && ltb size 28) ≡ false)
unfolding long_enough is_partition_type
tests_passed dev_type size h = (ground arith, ground arith, ground arith, ground arith)

partition_typed-reads :
    (decode : List ℕ → String) (now : ℕ) (dev_type : ℕ) (payload : List ℕ)
    → Head payload
    → long_enough partition_lengths dev_type (length payload) ≡ true
    → IsRead decode now type_of IsSoundPartition payload
        (partition_typed decode now payload dev_type)
unfolding partition_typed
partition_typed-reads decode now dev_type payload head h =
    let (a, b, c, d) = tests_passed dev_type (length payload) h in
    rw (a, b, c, d)
      (partition_params-IsRead decode now dev_type payload head
        (long_enough-Enough dev_type (length payload) h))

partition_typed-refuses :
    (decode : List ℕ → String) (now : ℕ) (dev_type : ℕ) (payload : List ℕ)
    → 19 ≤ length payload
    → long_enough partition_lengths dev_type (length payload) ≡ false
    → partition_typed decode now payload dev_type ≡ some (err SatelError.invalid_frame)
unfolding long_enough partition_typed is_partition_type
partition_typed-refuses decode now dev_type payload k h = ground arith

pub process_partition_response-IsParsed :
    (decode : List ℕ → String) (now : ℕ) (frame : List ℕ)
    → All (λ b. b < 256) frame
    → IsParsed decode now type_of IsSoundPartition partition_lengths frame
        (process_partition_response decode now frame)
unfolding process_partition_response partition_payload
process_partition_response-IsParsed decode now frame bytes =
    parser-IsParsed decode now type_of IsSoundPartition partition_lengths
      (partition_typed decode now) long (partition_typed-reads decode now)
      (partition_typed-refuses decode now) frame bytes
