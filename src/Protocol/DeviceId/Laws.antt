-- ===== src/Protocol/DeviceId/Laws.antt =====
-- The hex form of a device identifier.
use merkle_lan_sync.Base.{
  ℕ, ◌+◌, ◌*◌, ◌/◌, ◌%◌, ◌<◌, ◌≡◌, inl, inr, refl, ap, arith, Option, none, some, List, [], ◌∷◌, ok,
  length, All, leb, if◌then◌else◌, Option-cases,
}
use merkle_lan_sync.Bytes.{IsByte}
use mathlib.Core.Option.{some-injective}
use merkle_lan_sync.Protocol.DeviceId.{
  hex_char, to_string, from_hex, cons_byte, decode_string, of_decoded, parse_device_id,
}

from_hex-hex_char : (n : ℕ) → n < 16 → from_hex (hex_char n) ≡ some n
unfolding from_hex hex_char
from_hex-hex_char n h = ground arith

decode_string-to_string : (d : List ℕ) → All IsByte d → decode_string (to_string d) ≡ some d
unfolding decode_string to_string
decode_string-to_string [] h = refl
decode_string-to_string (b ∷ bs) h =
    rw
      (
        from_hex-hex_char (b / 16) (omega (arith, h.0)),
        from_hex-hex_char (b % 16) (omega arith),
        decode_string-to_string bs h.1,
      )
      (unfold cons_byte in ap (λ x. some (x ∷ bs)) (omega arith))

-- `ParseDeviceID` reads back the text that `String` writes of an identifier, whose 32 elements are
-- bytes.
pub parse_device_id-to_string :
    (d : List ℕ) → length d ≡ 32 → All IsByte d → parse_device_id (to_string d) ≡ ok d
unfolding parse_device_id of_decoded
parse_device_id-to_string d size bytes = rw (decode_string-to_string d bytes) (ground arith)

abbrev pub lower_char : ℕ → ℕ
lower_char c = if leb b'A' c then if leb c b'Z' then c + 32 else c else c

-- The text in lower case.
abbrev pub lower : List ℕ → List ℕ
lower [] = []
lower (c ∷ s) = lower_char c ∷ lower s

from_hex_sound : (c n : ℕ) → from_hex c ≡ some n → (n < 16) × (hex_char n ≡ lower_char c)
unfolding from_hex hex_char
from_hex_sound c n h = ground arith

abbrev IsRead : List ℕ → List ℕ → Type 0
IsRead s d = All IsByte d × (to_string d ≡ lower s)

cons_byte_sound :
    (h l : ℕ) (s b : List ℕ) (high low : Option ℕ) (rest : Option (List ℕ))
    → from_hex h ≡ high
    → from_hex l ≡ low
    → ((r : List ℕ) → rest ≡ some r → IsRead s r)
    → cons_byte high low rest ≡ some b
    → IsRead (h ∷ l ∷ s) b
unfolding cons_byte to_string
cons_byte_sound h l s b none low rest eh el ih e = cc
cons_byte_sound h l s b (some x) none rest eh el ih e = cc
cons_byte_sound h l s b (some x) (some y) none eh el ih e = cc
cons_byte_sound h l s b (some x) (some y) (some r) eh el ih e =
    let xs = from_hex_sound h x eh in
    let ys = from_hex_sound l y el in
    let (bytes, text) = ih r refl in
    let high : (x * 16 + y) / 16 ≡ x = omega (arith, xs.0, ys.0) in
    let low : (x * 16 + y) % 16 ≡ y = omega (arith, xs.0, ys.0) in
    rw (← some-injective _ _ e)
      ((omega (arith, xs.0, ys.0), bytes), rw (high, low, xs.1, ys.1, text) refl)

decode_string_sound : (s b : List ℕ) → decode_string s ≡ some b → IsRead s b
unfolding decode_string
decode_string_sound [] [] e = (tt, unfold to_string in refl)
decode_string_sound [] (x ∷ b) e = cc
decode_string_sound (h ∷ []) b e = cc
decode_string_sound (h ∷ l ∷ s) b e =
    cons_byte_sound h l s b (from_hex h) (from_hex l) (decode_string s) refl refl
      (decode_string_sound s) e

-- Whatever text is given for a device, an identifier that `ParseDeviceID` returns has 32 bytes, and
-- `String` of it is that text in lower case.
pub parse_device_id_sound :
    (s d : List ℕ)
    → parse_device_id s ≡ ok d
    → (length d ≡ 32) × All IsByte d × (to_string d ≡ lower s)
unfolding parse_device_id of_decoded
parse_device_id_sound s d e = elim (Option-cases (decode_string s)) [
  | inl missing ↦ absurd (ground (arith, missing))
  | inr (b, found) ↦ ground (arith, found, decode_string_sound s b found)
]
