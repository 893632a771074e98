-- ===== src/Pathnorm/Tests.antt =====
-- Keys of ASCII names, which every normalisation form leaves alone.
use merkle_lan_sync.Base.{ℕ, false, bytes_eq, All, true, ◌≡◌, refl, arith, List, [], ◌∷◌, ok, err}
use merkle_lan_sync.Bytes.{IsByte}
use merkle_lan_sync.Pathnorm.Windows.{
  is_windows_unsafe, has_unsafe_byte, is_reserved_char, is_control, is_reserved_stem, stem_of,
  to_upper, is_device, escape_bytes, escape_byte, escape_last, escape_first, is_trailing, hex2,
  escape_for_windows, unescape_from_windows,
}
use merkle_lan_sync.Pathnorm.Windows.RoundTrip.{unescape_from_windows-escape_for_windows}
use merkle_lan_sync.Pathnorm.Windows.Legal.{is_windows_unsafe-escape_for_windows}
use merkle_lan_sync.Pathnorm.Slash.{has_prefix, clean}
use merkle_lan_sync.Pathnorm.Canonical.{
  IsName, IsNormalisation, canonicalize_slash, strip_volume_prefix, is_drive_letter, not_canonical,
  normalize_component,
}
use merkle_lan_sync.Pathnorm.Canonical.Safe.{IsKey, canonicalize_slash-IsKey}

abbrev same : List ℕ → List ℕ
same w = w

same-IsNormalisation : IsNormalisation same
same-IsNormalisation = record { nfc-IsName = λ w h. h; nfc_idem = λ w. refl }

-- `a/../b//./c`
abbrev untidy : List ℕ
untidy = b'a' ∷ b'/' ∷ b'.' ∷ b'.' ∷ b'/' ∷ b'b' ∷ b'/' ∷ b'/' ∷ b'.' ∷ b'/' ∷ b'c' ∷ []

abbrev tidy : List ℕ
tidy = b'b' ∷ b'/' ∷ b'c' ∷ []

untidy_gives : canonicalize_slash same untidy ≡ ok tidy
unfolding canonicalize_slash has_prefix strip_volume_prefix clean normalize_component
untidy_gives = refl

tidy_plain : strip_volume_prefix tidy ≡ tidy
unfolding strip_volume_prefix
tidy_plain = refl

-- `a/../..`
climb_test :
    canonicalize_slash same (b'a' ∷ b'/' ∷ b'.' ∷ b'.' ∷ b'/' ∷ b'.' ∷ b'.' ∷ [])
    ≡ err not_canonical
unfolding canonicalize_slash has_prefix strip_volume_prefix clean normalize_component
climb_test = refl

canonicalize_slash-IsKey_example : IsKey tidy
canonicalize_slash-IsKey_example =
    canonicalize_slash-IsKey same same-IsNormalisation untidy tidy untidy_gives

abbrev letter : List ℕ
letter = b'x' ∷ []

letter-IsName : IsName letter
letter-IsName = ((λ e. cc e), (λ e. ground (arith, e)), (λ e. cc e), ((λ e. omega (arith, e)), tt))

letter_test : is_drive_letter b'C' ≡ true
unfolding is_drive_letter
letter_test = refl

letter_test_other : is_drive_letter b'D' ≡ true
unfolding is_drive_letter
letter_test_other = refl

-- `con.:`
abbrev device : List ℕ
device = b'c' ∷ b'o' ∷ b'n' ∷ b'.' ∷ b':' ∷ []

device-IsByte : All IsByte device
device-IsByte = omega arith

device_unsafe : is_windows_unsafe device ≡ true
unfolding is_windows_unsafe has_unsafe_byte is_reserved_char is_control
device_unsafe = refl

-- `%63on.%3A`
escape_test :
    escape_for_windows device ≡ b'%' ∷ b'6' ∷ b'3' ∷ b'o' ∷ b'n' ∷ b'.' ∷ b'%' ∷ b'3' ∷ b'A' ∷ []
unfolding escape_for_windows escape_last escape_bytes escape_byte is_reserved_char is_control
    is_trailing hex2 is_reserved_stem is_device to_upper stem_of bytes_eq escape_first
escape_test = refl

unescape_from_windows-escape_for_windows_example :
    unescape_from_windows (escape_for_windows device) ≡ device
unescape_from_windows-escape_for_windows_example =
    unescape_from_windows-escape_for_windows device device-IsByte

is_windows_unsafe-escape_for_windows_example : is_windows_unsafe (escape_for_windows device) ≡ false
is_windows_unsafe-escape_for_windows_example =
    is_windows_unsafe-escape_for_windows device device-IsByte
