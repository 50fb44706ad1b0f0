-- ===== src/Parsers/Names/Reads.antt =====
-- src/parsers/names.rs: what the three parsers of the answers to command 0xEE make of any frame.
use satel_integra.Common.{
  ℕ, zero, suc, ◌%◌, ◌≤◌, ◌<◌, ◌≡◌, refl, Bool, true, false, ◌&&◌, some, inl, inr, List, [], ◌∷◌,
  ◌==◌, leb, length, get_elem?, take, drop, All, ◌||◌, leb_of_le, Bool-cases, arith,
}
use satel_integra.Common.Panics.{◌>>=◌, slice, slice-le, get_elem?-lt}
use satel_integra.Error.{err, ok, SatelError}
use satel_integra.Parsers.Names.Types.{Answer, with_payload, device_id}
use satel_integra.Parsers.Zones.{frame_data}
use Prim.Native.String.{String}
use mathlib.Core.Option.{some_inj}

pub get_elem?-byte :
    (xs : List ℕ) (i : ℕ) → All (λ b. b < 256) xs → (x : ℕ) → get_elem? xs i ≡ some x → x < 256
get_elem?-byte [] i h x e = absurd cc
get_elem?-byte (y ∷ ys) zero h x e = let q : y ≡ x = some_inj.0 e in let k = h.0 in omega arith
get_elem?-byte (y ∷ ys) (suc i) h x e = get_elem?-byte ys i h.1 x e

-- The parser does not panic, and its result is a device that the payload describes: its number modulo
-- 256, its code and its name are read where the protocol puts them, and its parameters are sound.
pub record IsRead {P : Type 0} (decode : List ℕ → String) (now : ℕ) (code_of : P → ℕ)
    (IsSound : ℕ → P → Type 0) (payload : List ℕ) (answer : Answer P) : Type 0 where
  pub id : ℕ
  pub params : P
  pub returns :
      answer
      ≡ some (ok (id, record { name = decode (take 16 (drop 3 payload)); read_at = now }, params))
  pub number : get_elem? payload 1 ≡ some (id % 256)
  pub code : get_elem? payload 2 ≡ some (code_of params)
  pub sound : IsSound id params

-- The head of a payload, the same for the three kinds.
pub record Head (payload : List ℕ) : Type 0 where
  pub number : ℕ
  pub code : ℕ
  pub number_at : get_elem? payload 1 ≡ some number
  pub code_at : get_elem? payload 2 ≡ some code
  pub name_at : slice payload 3 19 ≡ some (take 16 (drop 3 payload))
  pub number_byte : number < 256
  pub code_byte : code < 256

pub payload-Head :
    (payload : List ℕ) → All (λ b. b < 256) payload → 19 ≤ length payload → Head payload
payload-Head payload bytes h =
    let (number, e) = get_elem?-lt payload 1 (omega arith) in
    let (code, f) = get_elem?-lt payload 2 (omega arith) in
    record {
      number = number;
      code = code;
      number_at = e;
      code_at = f;
      name_at = slice-le payload 3 19 (omega arith) h;
      number_byte = get_elem?-byte payload 1 bytes number e;
      code_byte = get_elem?-byte payload 2 bytes code f;
    }

pub device_id-byte : (n : ℕ) → n < 256 → device_id n % 256 ≡ n
device_id-byte n h = ground arith

pub device_id-range : (n : ℕ) → n < 256 → (1 ≤ device_id n) × (device_id n ≤ 256)
device_id-range n h = ground arith

-- The types of device that one kind of answer has, each with the bytes that its payload needs, as the
-- protocol lists them.
unfoldable pub long_enough : List (ℕ × ℕ) → ℕ → ℕ → Bool
long_enough [] dev_type size = false
long_enough ((t, least) ∷ rest) dev_type size =
    ((t == dev_type) && leb least size) || long_enough rest dev_type size

unfoldable pub is_device_answer : List (ℕ × ℕ) → List ℕ → Bool
unfolding long_enough
is_device_answer lengths [] = false
is_device_answer lengths (command ∷ []) = false
is_device_answer lengths (command ∷ dev_type ∷ rest) =
    (command == 0xEE) && long_enough lengths dev_type (length (dev_type ∷ rest))

-- A frame of the kind is read, and any other is refused as invalid.
pub data IsParsed {P : Type 0} (decode : List ℕ → String) (now : ℕ) (code_of : P → ℕ)
    (IsSound : ℕ → P → Type 0) (lengths : List (ℕ × ℕ)) (frame : List ℕ) (answer : Answer P)
    : Type 0 where
  read :
      is_device_answer lengths frame ≡ true
      → IsRead decode now code_of IsSound (drop 1 frame) answer
      → IsParsed decode now code_of IsSound lengths frame answer
  refused :
      is_device_answer lengths frame ≡ false
      → answer ≡ some (err SatelError.invalid_frame)
      → IsParsed decode now code_of IsSound lengths frame answer

module _ {P : Type 0} (decode : List ℕ → String) (now : ℕ) (code_of : P → ℕ)
    (IsSound : ℕ → P → Type 0) (lengths : List (ℕ × ℕ)) (typed : List ℕ → ℕ → Answer P)
    (long : (dev_type size : ℕ) → long_enough lengths dev_type size ≡ true → 19 ≤ size)
    (typed-reads : (dev_type : ℕ) (payload : List ℕ)
      → Head payload
      → long_enough lengths dev_type (length payload) ≡ true
      → IsRead decode now code_of IsSound payload (typed payload dev_type))
    (typed-refuses : (dev_type : ℕ) (payload : List ℕ)
      → 19 ≤ length payload
      → long_enough lengths dev_type (length payload) ≡ false
      → typed payload dev_type ≡ some (err SatelError.invalid_frame)) where
  abbrev parser : List ℕ → Answer P
  parser frame =
      with_payload (frame_data 0xEE 19 frame) (λ payload. get_elem? payload 0 >>= typed payload)

  answer-reads :
      (command dev_type : ℕ) (rest : List ℕ)
      → All (λ b. b < 256) (dev_type ∷ rest)
      → is_device_answer lengths (command ∷ dev_type ∷ rest) ≡ true
      → IsRead decode now code_of IsSound (dev_type ∷ rest) (parser (command ∷ dev_type ∷ rest))
  unfolding is_device_answer
  answer-reads command dev_type rest bytes h =
      let size = length (dev_type ∷ rest) in
      let c : (command == 0xEE) ≡ true = ground arith in
      let f : long_enough lengths dev_type size ≡ true = ground arith in
      let k = long dev_type size f in
      let l : leb 19 size ≡ true = leb_of_le 19 size k in
      unfold frame_data in
      rw (c, l) (typed-reads dev_type (dev_type ∷ rest) (payload-Head (dev_type ∷ rest) bytes k) f)

  answer-refuses :
      (command dev_type : ℕ) (rest : List ℕ)
      → is_device_answer lengths (command ∷ dev_type ∷ rest) ≡ false
      → parser (command ∷ dev_type ∷ rest) ≡ some (err SatelError.invalid_frame)
  unfolding is_device_answer frame_data
  answer-refuses command dev_type rest h = elim (Bool-cases (command == 0xEE)) [
    | inr n ↦ rw n refl
    | inl y ↦ elim (Bool-cases (leb 19 (length (dev_type ∷ rest)))) [
      | inr n ↦ rw (y, n) refl
      | inl z ↦
          let f : long_enough lengths dev_type (length (dev_type ∷ rest)) ≡ false = rw y at h in
          let k : 19 ≤ length (dev_type ∷ rest) = ground arith in
          rw (y, z) (typed-refuses dev_type (dev_type ∷ rest) k f)
    ]
  ]

  pub parser-IsParsed :
      (frame : List ℕ)
      → All (λ b. b < 256) frame
      → IsParsed decode now code_of IsSound lengths frame (parser frame)
  unfolding is_device_answer frame_data
  parser-IsParsed [] bytes = refused refl refl
  parser-IsParsed (command ∷ []) bytes =
      refused refl (elim (Bool-cases (command == 0xEE)) [ inr n ↦ rw n refl | inl y ↦ rw y refl ])
  parser-IsParsed (command ∷ dev_type ∷ rest) bytes =
      elim (Bool-cases (is_device_answer lengths (command ∷ dev_type ∷ rest))) [
        | inl y ↦ read y (answer-reads command dev_type rest bytes.1 y)
        | inr n ↦ refused n (answer-refuses command dev_type rest n)
      ]
