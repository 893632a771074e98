-- ===== src/Pathnorm/Windows.antt =====
-- internal/pathnorm/windows.go: names that Windows cannot write, and their reversible form on disk.
pub mod RoundTrip
pub mod Legal
use merkle_lan_sync.Base.{
  ℕ, ◌+◌, ◌-◌, ◌*◌, ◌/◌, ◌%◌, Bool, true, false, not, ◌&&◌, ◌||◌, Option, none, some, List, [], ◌∷◌,
  ◌++◌, ltb, leb, ◌==◌, if◌then◌else◌, bytes_eq,
}

-- strings.IndexByte(reservedChars, b) >= 0, for the characters `<>:"/\|?*`.
unfoldable pub is_reserved_char : ℕ → Bool
is_reserved_char b =
    (b == b'<')
    || ((b == b'>')
        || ((b == b':')
            || ((b == 34)
                || ((b == b'/') || ((b == 92) || ((b == b'|') || ((b == b'?') || (b == b'*'))))))))

unfoldable pub is_control : ℕ → Bool
is_control b = leb b 31

unfoldable pub stem_of : List ℕ → List ℕ
stem_of [] = []
stem_of (c ∷ name) = let rest = stem_of name in if c == b'.' then [] else c ∷ rest

-- `strings.ToUpper`, on ASCII letters. It also maps other letters, but none of them to a letter or
-- a superscript of a reserved stem, so that it does not matter for the lookup.
unfoldable pub to_upper : List ℕ → List ℕ
to_upper [] = []
to_upper (c ∷ s) = (if leb b'a' c && leb c b'z' then c - 32 else c) ∷ to_upper s

-- `COM` or `LPT` with a digit 1 to 9, or with one of the superscripts 1, 2 and 3.
unfoldable pub is_port_digit : List ℕ → Bool
is_port_digit (d ∷ []) = leb b'1' d && leb d b'9'
is_port_digit (d ∷ e ∷ []) = (d == 0xC2) && ((e == 0xB9) || ((e == 0xB2) || (e == 0xB3)))
is_port_digit s = false

-- Membership in the map `reservedStems`.
unfoldable pub is_device : List ℕ → Bool
unfolding is_port_digit
is_device (a ∷ b ∷ c ∷ rest) =
    (bytes_eq rest []
      && (bytes_eq (a ∷ b ∷ c ∷ []) (b'C' ∷ b'O' ∷ b'N' ∷ [])
          || (bytes_eq (a ∷ b ∷ c ∷ []) (b'P' ∷ b'R' ∷ b'N' ∷ [])
              || (bytes_eq (a ∷ b ∷ c ∷ []) (b'A' ∷ b'U' ∷ b'X' ∷ [])
                  || bytes_eq (a ∷ b ∷ c ∷ []) (b'N' ∷ b'U' ∷ b'L' ∷ [])))))
    || ((bytes_eq (a ∷ b ∷ c ∷ []) (b'C' ∷ b'O' ∷ b'M' ∷ [])
          || bytes_eq (a ∷ b ∷ c ∷ []) (b'L' ∷ b'P' ∷ b'T' ∷ []))
        && is_port_digit rest)
is_device s = false

unfoldable pub is_reserved_stem : List ℕ → Bool
is_reserved_stem name = is_device (to_upper (stem_of name))

unfoldable pub has_unsafe_byte : List ℕ → Bool
has_unsafe_byte [] = false
has_unsafe_byte (c ∷ s) = is_reserved_char c || (is_control c || has_unsafe_byte s)

-- A space or a period.
unfoldable pub is_trailing : ℕ → Bool
is_trailing c = (c == b' ') || (c == b'.')

unfoldable pub ends_trailing : List ℕ → Bool
ends_trailing [] = false
ends_trailing (c ∷ []) = is_trailing c
ends_trailing (c ∷ d ∷ s) = ends_trailing (d ∷ s)

unfoldable pub is_windows_unsafe : List ℕ → Bool
is_windows_unsafe [] = false
is_windows_unsafe (c ∷ s) =
    if has_unsafe_byte (c ∷ s)
    then true
    else if is_reserved_stem (c ∷ s)
    then true
    else ends_trailing (c ∷ s)

unfoldable pub hex_digit : ℕ → ℕ
hex_digit d = if ltb d 10 then b'0' + d else b'A' + (d - 10)

unfoldable pub hex2 : ℕ → List ℕ
unfolding hex_digit
hex2 b = b'%' ∷ hex_digit (b / 16) ∷ hex_digit (b % 16) ∷ []

unfoldable pub escape_byte : ℕ → List ℕ
escape_byte c =
    if c == b'%'
    then b'%' ∷ b'2' ∷ b'5' ∷ []
    else if is_reserved_char c || is_control c
    then hex2 c
    else c ∷ []

-- The loop over the bytes of the name.
unfoldable pub escape_bytes : List ℕ → List ℕ
escape_bytes [] = []
escape_bytes (c ∷ name) = escape_byte c ++ escape_bytes name

-- Step (3): the final byte, if it is a space or a period.
unfoldable pub escape_last : List ℕ → List ℕ
escape_last [] = []
escape_last (c ∷ []) = if is_trailing c then hex2 c else c ∷ []
escape_last (c ∷ d ∷ s) = c ∷ escape_last (d ∷ s)

-- Step (4) on what the steps before it leave.
unfoldable pub escape_first : List ℕ → List ℕ
escape_first [] = []
escape_first (c ∷ s) = if not (c == b'%') then hex2 c ++ s else c ∷ s

unfoldable pub escape_for_windows : List ℕ → List ℕ
escape_for_windows [] = []
escape_for_windows (c ∷ name) =
    let s = escape_last (escape_bytes (c ∷ name)) in
    if is_reserved_stem (c ∷ name) then escape_first s else s

unfoldable pub unhex : ℕ → Option ℕ
unhex c =
    if leb b'0' c && leb c b'9'
    then some (c - b'0')
    else if leb b'A' c && leb c b'F'
    then some (c - b'A' + 10)
    else if leb b'a' c && leb c b'f'
    then some (c - b'a' + 10)
    else none

-- The loop: a `%` and two hex digits are one byte, any other byte stands for itself.
unfoldable pub unescape_loop : List ℕ → List ℕ
unescape_loop [] = []
unescape_loop (c ∷ []) = c ∷ []
unescape_loop (c ∷ d ∷ []) = c ∷ d ∷ []
unescape_loop (c ∷ a ∷ b ∷ s) = elim (c == b'%') [
  | false ↦ c ∷ unescape_loop (a ∷ b ∷ s)
  | true ↦ elim (unhex a) [
    | none ↦ c ∷ unescape_loop (a ∷ b ∷ s)
    | some h ↦ elim (unhex b) [
      | none ↦ c ∷ unescape_loop (a ∷ b ∷ s)
      | some l ↦ (h * 16 + l) ∷ unescape_loop s
    ]
  ]
]

unfoldable pub has_percent : List ℕ → Bool
has_percent [] = false
has_percent (c ∷ s) = (c == b'%') || has_percent s

unfoldable pub unescape_from_windows : List ℕ → List ℕ
unescape_from_windows s = if not (has_percent s) then s else unescape_loop s
