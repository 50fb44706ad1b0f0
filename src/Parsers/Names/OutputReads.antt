-- ===== src/Parsers/Names/OutputReads.antt =====
-- src/parsers/names.rs, `process_output_response`: which frames it reads, and what it makes of them.
use satel_integra.Common.{
  ℕ, ◌*◌, ◌≤◌, ◌<◌, ◌≡◌, refl, Bool, true, false, Option, some, none, inl, inr, List, [], ◌∷◌, ◌==◌,
  ltb, length, All, Bool-cases, arith, ltb_of_le,
}
use satel_integra.Common.Panics.{get_elem?-lt}
use satel_integra.Error.{err, SatelError}
use satel_integra.Parsers.Names.Types.{OutputParams, device_id, word}
use satel_integra.Parsers.Names.Reads.{
  IsRead, IsParsed, long_enough, parser-IsParsed, Head, device_id-byte, device_id-range,
}
use Prim.Native.String.{String}
use mathlib.Core.Option
use satel_integra.Parsers.Names.Outputs.{
  duration_tenths, output_params, output_typed, output_payload, process_output_response,
}
use satel_integra.Catalog.RoundTrip.{function_code}
use satel_integra.Catalog.Outputs.Control.{is_controllable, control}
use satel_integra.Catalog.Outputs.Agreement.{control-is_controllable}
use satel_integra.Catalog.Outputs

-- The byte of the function.
abbrev pub function_of : OutputParams → ℕ
function_of params = Outputs.Bytes.code params.function

pub record IsSoundOutput (id : ℕ) (params : OutputParams) : Type 0 where
  pub id_range : (1 ≤ id) × (id ≤ 256)
  pub output_id : params.output_id ≡ id
  pub controllable : Outputs.Modes.is_controllable params.control ≡ is_controllable params.function

duration_tenths-read :
    (extended : Bool) (payload : List ℕ)
    → (extended ≡ true → 21 ≤ length payload)
    → (duration : Option ℕ) × (duration_tenths extended payload ≡ some duration)
unfolding duration_tenths
duration_tenths-read true payload h =
    let k = h refl in
    let (high, e) = get_elem?-lt payload 19 (omega arith) in
    let (low, f) = get_elem?-lt payload 20 k in (some (word high low), rw (e, f) refl)
duration_tenths-read false payload h = (none, refl)

output_params-IsRead :
    (decode : List ℕ → String) (now : ℕ) (extended : Bool) (payload : List ℕ)
    → Head payload
    → (extended ≡ true → 21 ≤ length payload)
    → IsRead decode now function_of IsSoundOutput payload
        (output_params decode now extended payload)
output_params-IsRead decode now extended payload head h =
    let (duration_ds, e) = duration_tenths-read extended payload h in
    let function = Outputs.Codes.from_code head.code in
    record {
      id = device_id head.number;
      params = record {
        output_id = device_id head.number;
        function = function;
        duration = Option.map (λ ds. ds * 100) duration_ds;
        control = control function duration_ds;
        read_at = now;
      };
      returns = unfold output_params in rw (head.number_at, head.code_at, head.name_at, e) refl;
      number = rw (device_id-byte head.number head.number_byte, head.number_at) refl;
      code = rw (function_code head.code head.code_byte, head.code_at) refl;
      sound = record {
        id_range = device_id-range head.number head.number_byte;
        output_id = refl;
        controllable = control-is_controllable function duration_ds;
      };
    }

-- The types of device, with the bytes that each needs.
abbrev pub output_lengths : List (ℕ × ℕ)
output_lengths = (4, 19) ∷ (17, 21) ∷ []

long : (dev_type size : ℕ) → long_enough output_lengths dev_type size ≡ true → 19 ≤ size
unfolding long_enough
long dev_type size h = ground arith

output_typed-reads :
    (decode : List ℕ → String) (now : ℕ) (dev_type : ℕ) (payload : List ℕ)
    → Head payload
    → long_enough output_lengths dev_type (length payload) ≡ true
    → IsRead decode now function_of IsSoundOutput payload (output_typed decode now payload dev_type)
unfolding long_enough output_typed
output_typed-reads decode now dev_type payload head h = elim (Bool-cases (dev_type == 17)) [
  | inl y ↦
      let n : 21 ≤ length payload = ground arith in
      let o : (dev_type == 4) ≡ false = ground arith in
      rw (o, y, ltb_of_le (length payload) 21 n)
        (output_params-IsRead decode now true payload head (λ e. n))
  | inr n ↦
      let o : (dev_type == 4) ≡ true = ground arith in
      rw (o, n) (output_params-IsRead decode now false payload head (λ e. absurd cc))
]

output_typed-refuses :
    (decode : List ℕ → String) (now : ℕ) (dev_type : ℕ) (payload : List ℕ)
    → 19 ≤ length payload
    → long_enough output_lengths dev_type (length payload) ≡ false
    → output_typed decode now payload dev_type ≡ some (err SatelError.invalid_frame)
unfolding long_enough output_typed
output_typed-refuses decode now dev_type payload k h = elim (Bool-cases (dev_type == 17)) [
  | inl y ↦
      let n : ltb (length payload) 21 ≡ true = ground arith in
      let o : (dev_type == 4) ≡ false = ground arith in rw (o, y, n) refl
  | inr n ↦ let o : (dev_type == 4) ≡ false = ground arith in rw (o, n) refl
]

pub process_output_response-IsParsed :
    (decode : List ℕ → String) (now : ℕ) (frame : List ℕ)
    → All (λ b. b < 256) frame
    → IsParsed decode now function_of IsSoundOutput output_lengths frame
        (process_output_response decode now frame)
unfolding process_output_response output_payload
process_output_response-IsParsed decode now frame bytes =
    parser-IsParsed decode now function_of IsSoundOutput output_lengths (output_typed decode now)
      long (output_typed-reads decode now) (output_typed-refuses decode now) frame bytes
