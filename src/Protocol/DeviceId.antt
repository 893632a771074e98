-- ===== src/Protocol/DeviceId.antt =====
-- internal/protocol/deviceid.go: the identity of a device, its counter key and its hex form.
-- SHA-256 is a parameter.
pub mod Laws
use merkle_lan_sync.Base.{
  ℕ, ◌+◌, ◌-◌, ◌*◌, ◌/◌, ◌%◌, not, ◌&&◌, Option, none, some, List, [], ◌∷◌, Result, ok, err, leb,
  ltb, ◌==◌, if◌then◌else◌, length, take,
}
use merkle_lan_sync.Bytes.{get_be}
use merkle_lan_sync.Protocol.Errors.{Error, invalid_device_id}

unfoldable pub device_id_from_cert : (List ℕ → List ℕ) → List ℕ → List ℕ
device_id_from_cert sha256 der = sha256 der

unfoldable pub short : List ℕ → ℕ
short d = get_be (take 8 d)

-- A lower-case hex digit.
unfoldable pub hex_char : ℕ → ℕ
hex_char n = if ltb n 10 then b'0' + n else b'a' + (n - 10)

-- `hex.EncodeToString`
unfoldable pub to_string : List ℕ → List ℕ
to_string [] = []
to_string (b ∷ bs) = hex_char (b / 16) ∷ hex_char (b % 16) ∷ to_string bs

-- The digit of a byte, of either case.
unfoldable pub from_hex : ℕ → Option ℕ
from_hex c =
    if leb b'0' c && leb c b'9'
    then some (c - b'0')
    else if leb b'a' c && leb c b'f'
    then some (c - b'a' + 10)
    else if leb b'A' c && leb c b'F'
    then some (c - b'A' + 10)
    else none

-- The byte of two digits before the bytes of the rest.
unfoldable pub cons_byte : Option ℕ → Option ℕ → Option (List ℕ) → Option (List ℕ)
cons_byte none low rest = none
cons_byte (some h) none rest = none
cons_byte (some h) (some l) none = none
cons_byte (some h) (some l) (some rest) = some ((h * 16 + l) ∷ rest)

-- `hex.DecodeString`: none for a digit that is no hex digit, and for an odd number of them.
unfoldable pub decode_string : List ℕ → Option (List ℕ)
decode_string [] = some []
decode_string (h ∷ []) = none
decode_string (h ∷ l ∷ s) = cons_byte (from_hex h) (from_hex l) (decode_string s)

-- The length that was decoded is tested.
unfoldable pub of_decoded : Option (List ℕ) → Result Error (List ℕ)
of_decoded none = err invalid_device_id
of_decoded (some b) = if not (length b == 32) then err invalid_device_id else ok b

unfoldable pub parse_device_id : List ℕ → Result Error (List ℕ)
parse_device_id s = of_decoded (decode_string s)
