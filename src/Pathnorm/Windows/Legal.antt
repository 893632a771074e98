-- ===== src/Pathnorm/Windows/Legal.antt =====
-- An escaped name can be written on Windows.
use merkle_lan_sync.Base.{
  ℕ, ◌/◌, ◌%◌, ◌<◌, ◌≡◌, refl, ap, ◌∙◌, sym, arith, inl, inr, true, false, ◌||◌, List, [], ◌∷◌,
  ◌++◌, ◌==◌, All, Bool-cases, bytes_eq,
}
use merkle_lan_sync.Bytes.{IsByte}
use merkle_lan_sync.Pathnorm.Windows.{
  hex_digit, hex2, is_reserved_char, is_control, is_trailing, ends_trailing, has_unsafe_byte,
  stem_of, to_upper, is_port_digit, is_device, is_windows_unsafe, escape_byte, escape_bytes,
  escape_last, escape_first, escape_for_windows, has_percent, is_reserved_stem,
}
use merkle_lan_sync.Pathnorm.Windows.RoundTrip.{
  Decodes, done, literal, escaped, escape_bytes-Decodes, escape_last-Decodes,
}

-- No byte of the text is reserved or a control character.
hex2_safe : (c : ℕ) (s : List ℕ) → c < 256 → has_unsafe_byte (hex2 c ++ s) ≡ has_unsafe_byte s
unfolding has_unsafe_byte hex2 hex_digit is_reserved_char is_control
hex2_safe c s h = ground arith

escape_byte_safe :
    (c : ℕ) (s : List ℕ) → c < 256 → has_unsafe_byte (escape_byte c ++ s) ≡ has_unsafe_byte s
unfolding escape_byte has_unsafe_byte
escape_byte_safe c s h = elim (Bool-cases (c == b'%')) [
  | inl e ↦ rw e (unfold is_reserved_char is_control in refl)
  | inr e ↦ rw e (elim (Bool-cases (is_reserved_char c || is_control c)) [
    | inl r ↦ rw r (hex2_safe c s h)
    | inr r ↦ rw r (ground (arith, r))
  ])
]

escape_bytes_safe : (name : List ℕ) → All IsByte name → has_unsafe_byte (escape_bytes name) ≡ false
unfolding escape_bytes
escape_bytes_safe [] h = unfold has_unsafe_byte in refl
escape_bytes_safe (c ∷ name) h =
    escape_byte_safe c (escape_bytes name) h.0 ∙ escape_bytes_safe name h.1

trailing_byte : (c : ℕ) → is_trailing c ≡ true → c < 256
unfolding is_trailing
trailing_byte c e = ground arith

escape_last_shape : (d : ℕ) (s : List ℕ) → (y : ℕ) × (t : List ℕ) × (escape_last (d ∷ s) ≡ y ∷ t)
unfolding escape_last hex2
escape_last_shape d [] = elim (Bool-cases (is_trailing d)) [
  | inl e ↦ (b'%', hex_digit (d / 16) ∷ hex_digit (d % 16) ∷ [], rw e refl)
  | inr e ↦ (d, [], rw e refl)
]
escape_last_shape d (e ∷ s) = (d, escape_last (e ∷ s), refl)

ends_trailing-cons : (c y : ℕ) (t x : List ℕ) → x ≡ y ∷ t → ends_trailing (c ∷ x) ≡ ends_trailing x
unfolding ends_trailing
ends_trailing-cons c y t x e = rw e refl

digit_ends : (c : ℕ) → c < 256 → ends_trailing (hex2 c) ≡ false
unfolding ends_trailing hex2 hex_digit is_trailing
digit_ends c h = ground arith

-- The last byte is escaped, and nothing unsafe comes in.
escape_last_safe :
    (s : List ℕ)
    → has_unsafe_byte s ≡ false
    → (has_unsafe_byte (escape_last s) ≡ false) × (ends_trailing (escape_last s) ≡ false)
unfolding escape_last has_unsafe_byte ends_trailing hex2
escape_last_safe [] h = (refl, refl)
escape_last_safe (c ∷ []) h = elim (Bool-cases (is_trailing c)) [
  | inl e ↦ rw e (hex2_safe c [] (trailing_byte c e), digit_ends c (trailing_byte c e))
  | inr e ↦ rw e (h, e)
]
escape_last_safe (c ∷ d ∷ s) h =
    let (y, t, shape) = escape_last_shape d s in
    let (bytes, ends) = escape_last_safe (d ∷ s) (ground (arith, h)) in
    (ground (arith, h, bytes), ends_trailing-cons c y t (escape_last (d ∷ s)) shape ∙ ends)

escape_first_safe :
    {s x : List ℕ}
    → All IsByte x
    → Decodes s x
    → has_unsafe_byte s ≡ false
    → ends_trailing s ≡ false
    → (has_unsafe_byte (escape_first s) ≡ false) × (ends_trailing (escape_first s) ≡ false)
unfolding escape_first has_unsafe_byte ends_trailing
escape_first_safe hx done bytes ends = (refl, refl)
escape_first_safe hx (literal c ne done) bytes ends = elim (Bool-cases (c == b'%')) [
  | inl e ↦ absurd (ne (ground arith))
  | inr e ↦ rw e (hex2_safe c [] hx.0, (unfold hex2 in digit_ends c hx.0))
]
escape_first_safe hx (literal c ne (literal d ne' rest)) bytes ends =
    elim (Bool-cases (c == b'%')) [
      | inl e ↦ absurd (ne (ground arith))
      | inr e ↦ rw e (hex2_safe c _ hx.0 ∙ ground (arith, bytes), (unfold hex2 in ends))
    ]
escape_first_safe hx (literal c ne (escaped a b h l ha hb rest)) bytes ends =
    elim (Bool-cases (c == b'%')) [
      | inl e ↦ absurd (ne (ground arith))
      | inr e ↦ rw e (hex2_safe c _ hx.0 ∙ ground (arith, bytes), (unfold hex2 in ends))
    ]
escape_first_safe hx (escaped a b h l ha hb rest) bytes ends = (bytes, ends)

stem_same : {s x : List ℕ} → Decodes s x → has_percent (stem_of s) ≡ false → stem_of s ≡ stem_of x
unfolding stem_of has_percent
stem_same done e = refl
stem_same (literal c ne rest) e = elim (Bool-cases (c == b'.')) [
  | inl dot ↦ rw dot refl
  | inr other ↦ rw other (ap (λ t. c ∷ t) (stem_same rest (ground (arith, other))))
]
stem_same (escaped a b h l ha hb rest) e = absurd (ground (arith, e))

to_upper_percent : (s : List ℕ) → has_percent (to_upper s) ≡ has_percent s
unfolding has_percent to_upper
to_upper_percent [] = refl
to_upper_percent (c ∷ s) = ground (arith, to_upper_percent s)

port_digit_no_percent : (s : List ℕ) → is_port_digit s ≡ true → has_percent s ≡ false
unfolding has_percent is_port_digit
port_digit_no_percent [] h = ground arith
port_digit_no_percent (a ∷ []) h = ground arith
port_digit_no_percent (a ∷ b ∷ []) h = ground arith
port_digit_no_percent (a ∷ b ∷ c ∷ s) h = ground arith

device_no_percent : (s : List ℕ) → is_device s ≡ true → has_percent s ≡ false
unfolding has_percent is_device bytes_eq
device_no_percent [] h = ground arith
device_no_percent (a ∷ []) h = ground arith
device_no_percent (a ∷ b ∷ []) h = ground arith
device_no_percent (a ∷ b ∷ c ∷ []) h = ground arith
device_no_percent (a ∷ b ∷ c ∷ d ∷ s) h = ground (arith, port_digit_no_percent (d ∷ s))

percent_stem : (w : List ℕ) → is_reserved_stem (b'%' ∷ w) ≡ false
unfolding is_reserved_stem stem_of to_upper has_percent
percent_stem w = elim (Bool-cases (is_device (to_upper (stem_of (b'%' ∷ w))))) [
  | inr free ↦ free
  | inl device ↦ cc (device_no_percent (to_upper (stem_of (b'%' ∷ w))) device)
]

-- A name whose first byte is escaped has no reserved stem.
escape_first_stem : {s x : List ℕ} → Decodes s x → is_reserved_stem (escape_first s) ≡ false
unfolding escape_first hex2
escape_first_stem done = unfold is_reserved_stem is_device to_upper stem_of in refl
escape_first_stem (literal c ne rest) = elim (Bool-cases (c == b'%')) [
  | inl e ↦ absurd (ne (ground arith))
  | inr e ↦ rw e (percent_stem _)
]
escape_first_stem (escaped a b h l ha hb rest) = percent_stem _

kept_stem : {s x : List ℕ} → Decodes s x → is_reserved_stem x ≡ false → is_reserved_stem s ≡ false
unfolding is_reserved_stem
kept_stem {s} {x} reads e = elim (Bool-cases (is_device (to_upper (stem_of s)))) [
  | inr free ↦ free
  | inl device ↦
      let plain =
        sym (to_upper_percent (stem_of s)) ∙ device_no_percent (to_upper (stem_of s)) device in
      let same = stem_same reads plain in cc (e, ap (λ t. is_device (to_upper t)) same)
]

unsafe_parts :
    (s : List ℕ)
    → (has_unsafe_byte s ≡ false) × (ends_trailing s ≡ false)
    → is_reserved_stem s ≡ false
    → is_windows_unsafe s ≡ false
unfolding is_windows_unsafe
unsafe_parts [] parts stem = refl
unsafe_parts (c ∷ s) (bytes, ends) stem = rw bytes (rw stem ends)

-- Whatever bytes a name has, `IsWindowsUnsafe` refuses nothing that `EscapeForWindows` makes: no
-- reserved or control character is left, the stem is no device name, and the name ends in neither a
-- space nor a period.
pub is_windows_unsafe-escape_for_windows :
    (name : List ℕ) → All IsByte name → is_windows_unsafe (escape_for_windows name) ≡ false
unfolding escape_for_windows
is_windows_unsafe-escape_for_windows [] h = unfold is_windows_unsafe in refl
is_windows_unsafe-escape_for_windows (c ∷ name) h =
    let reads = escape_last-Decodes h (escape_bytes-Decodes (c ∷ name) h) in
    let (bytes, ends) =
      escape_last_safe (escape_bytes (c ∷ name)) (escape_bytes_safe (c ∷ name) h) in
    elim (Bool-cases (is_reserved_stem (c ∷ name))) [
      | inl e ↦
          rw e (unsafe_parts _ (escape_first_safe h reads bytes ends) (escape_first_stem reads))
      | inr e ↦ rw e (unsafe_parts _ (bytes, ends) (kept_stem reads e))
    ]
