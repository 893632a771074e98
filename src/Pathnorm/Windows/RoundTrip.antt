-- ===== src/Pathnorm/Windows/RoundTrip.antt =====
-- Escaping a name and reading it back.
use mathlib.Core.Path.{subst}
use merkle_lan_sync.Base.{
  ℕ, ◌+◌, ◌*◌, ◌/◌, ◌%◌, ◌<◌, ◌≡◌, ◌≢◌, refl, ap, arith, inl, inr, false, ◌||◌, some, List, [], ◌∷◌,
  ◌++◌, ◌==◌, All, Bool-cases,
}
use merkle_lan_sync.Bytes.{IsByte}
use merkle_lan_sync.Pathnorm.Windows.{
  hex_digit, hex2, is_reserved_char, is_control, is_trailing, escape_byte, escape_bytes,
  escape_last, escape_first, escape_for_windows, unhex, unescape_loop, has_percent,
  unescape_from_windows, is_reserved_stem,
}

-- How an escaped text is read: bytes that stand for themselves, and triples.
pub data Decodes : List ℕ → List ℕ → Type 0 where
  done : Decodes [] []
  literal : (c : ℕ) {s x : List ℕ} → c ≢ b'%' → Decodes s x → Decodes (c ∷ s) (c ∷ x)
  escaped :
      (a b h l : ℕ) {s x : List ℕ}
      → unhex a ≡ some h
      → unhex b ≡ some l
      → Decodes s x
      → Decodes (b'%' ∷ a ∷ b ∷ s) ((h * 16 + l) ∷ x)

unescape_loop_sound : {s x : List ℕ} → Decodes s x → unescape_loop s ≡ x
unfolding unescape_loop
unescape_loop_sound done = refl
unescape_loop_sound (literal c ne done) = refl
unescape_loop_sound (literal c ne (literal d ne' done)) = refl
unescape_loop_sound (literal c ne (literal d ne' (literal e ne'' rest))) =
    ground (arith, ne, unescape_loop_sound (literal d ne' (literal e ne'' rest)))
unescape_loop_sound (literal c ne (literal d ne' (escaped a b h l ha hb rest))) =
    ground (arith, ne, unescape_loop_sound (literal d ne' (escaped a b h l ha hb rest)))
unescape_loop_sound (literal c ne (escaped a b h l ha hb rest)) =
    ground (arith, ne, unescape_loop_sound (escaped a b h l ha hb rest))
unescape_loop_sound (escaped a b h l ha hb rest) =
    rw (unescape_loop, ha) (rw hb (ap (λ t. (h * 16 + l) ∷ t) (unescape_loop_sound rest)))

unhex-hex_digit : (d : ℕ) → d < 16 → unhex (hex_digit d) ≡ some d
unfolding unhex hex_digit
unhex-hex_digit d h = ground arith

hex2-Decodes : (c : ℕ) {s x : List ℕ} → c < 256 → Decodes s x → Decodes (hex2 c ++ s) (c ∷ x)
unfolding hex2
hex2-Decodes c {s} {x} h rest =
    subst (λ v. Decodes (b'%' ∷ hex_digit (c / 16) ∷ hex_digit (c % 16) ∷ s) (v ∷ x)) (omega arith)
      (escaped (hex_digit (c / 16)) (hex_digit (c % 16)) (c / 16) (c % 16)
        (unhex-hex_digit (c / 16) (omega arith)) (unhex-hex_digit (c % 16) (omega arith)) rest)

-- One byte of the name in front of the rest.
escape_byte-Decodes :
    (c : ℕ) {s x : List ℕ} → c < 256 → Decodes s x → Decodes (escape_byte c ++ s) (c ∷ x)
unfolding escape_byte
escape_byte-Decodes c {s} {x} h rest = elim (Bool-cases (c == b'%')) [
  | inl e ↦
      let is_percent : b'%' ≡ c = ground arith in
      rw e (
        subst (λ v. Decodes (b'%' ∷ b'2' ∷ b'5' ∷ s) (v ∷ x)) is_percent
          (unfold unhex in escaped b'2' b'5' 2 5 refl refl rest))
  | inr e ↦ rw e (elim (Bool-cases (is_reserved_char c || is_control c)) [
    | inl r ↦ rw r (hex2-Decodes c h rest)
    | inr r ↦ rw r (literal c (ground arith) rest)
  ])
]

pub escape_bytes-Decodes : (name : List ℕ) → All IsByte name → Decodes (escape_bytes name) name
unfolding escape_bytes
escape_bytes-Decodes [] h = done
escape_bytes-Decodes (c ∷ name) h = escape_byte-Decodes c h.0 (escape_bytes-Decodes name h.1)

hex_not_trailing : (b l : ℕ) → unhex b ≡ some l → is_trailing b ≡ false
unfolding unhex is_trailing
hex_not_trailing b l h = ground arith

-- The last byte of a triple is no space and no period.
pub escape_last-Decodes : {s x : List ℕ} → All IsByte x → Decodes s x → Decodes (escape_last s) x
unfolding escape_last hex2
escape_last-Decodes hx done = done
escape_last-Decodes hx (literal c ne done) = elim (Bool-cases (is_trailing c)) [
  | inl e ↦ rw e (hex2-Decodes c hx.0 done)
  | inr e ↦ rw e (literal c ne done)
]
escape_last-Decodes hx (literal c ne (literal d ne' rest)) =
    literal c ne (escape_last-Decodes hx.1 (literal d ne' rest))
escape_last-Decodes hx (literal c ne (escaped a b h l ha hb rest)) =
    literal c ne (escape_last-Decodes hx.1 (escaped a b h l ha hb rest))
escape_last-Decodes hx (escaped a b h l ha hb done) =
    rw (hex_not_trailing b l hb) (escaped a b h l ha hb done)
escape_last-Decodes hx (escaped a b h l ha hb (literal d ne' rest)) =
    escaped a b h l ha hb (escape_last-Decodes hx.1 (literal d ne' rest))
escape_last-Decodes hx (escaped a b h l ha hb (escaped a' b' h' l' ha' hb' rest)) =
    escaped a b h l ha hb (escape_last-Decodes hx.1 (escaped a' b' h' l' ha' hb' rest))

escape_first-Decodes : {s x : List ℕ} → All IsByte x → Decodes s x → Decodes (escape_first s) x
unfolding escape_first
escape_first-Decodes hx done = done
escape_first-Decodes hx (literal c ne rest) = elim (Bool-cases (c == b'%')) [
  | inl e ↦ absurd (ne (ground arith))
  | inr e ↦ rw e (hex2-Decodes c hx.0 rest)
]
escape_first-Decodes hx (escaped a b h l ha hb rest) = escaped a b h l ha hb rest

no_percent : {s x : List ℕ} → Decodes s x → has_percent s ≡ false → s ≡ x
unfolding has_percent
no_percent done e = refl
no_percent (literal c ne rest) e = ap (λ t. c ∷ t) (no_percent rest (ground arith))
no_percent (escaped a b h l ha hb rest) e = absurd (ground arith)

pub escape_for_windows-Decodes :
    (name : List ℕ) → All IsByte name → Decodes (escape_for_windows name) name
unfolding escape_for_windows
escape_for_windows-Decodes [] h = done
escape_for_windows-Decodes (c ∷ name) h =
    let s = escape_last-Decodes h (escape_bytes-Decodes (c ∷ name) h) in
    elim (Bool-cases (is_reserved_stem (c ∷ name))) [
      | inl e ↦ rw e (escape_first-Decodes h s)
      | inr e ↦ rw e s
    ]

-- Whatever bytes a name has, what `EscapeForWindows` makes of it is read back as the name by
-- `UnescapeFromWindows`.
pub unescape_from_windows-escape_for_windows :
    (name : List ℕ) → All IsByte name → unescape_from_windows (escape_for_windows name) ≡ name
unfolding unescape_from_windows
unescape_from_windows-escape_for_windows name h =
    let reads = escape_for_windows-Decodes name h in
    elim (Bool-cases (has_percent (escape_for_windows name))) [
      | inl e ↦ rw e (unescape_loop_sound reads)
      | inr e ↦ rw e (no_percent reads e)
    ]
