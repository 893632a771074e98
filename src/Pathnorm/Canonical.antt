-- ===== src/Pathnorm/Canonical.antt =====
-- internal/pathnorm/pathnorm.go and normalize.go: canonical keys. The Unicode normalisation is a
-- parameter, `nfc`, since golang.org/x/text is not part of the repository.
pub mod Safe
pub mod Again
use merkle_lan_sync.Base.{
  ℕ, ◌≡◌, ◌≢◌, ◌≤◌, Bool, true, false, List, [], ◌∷◌, ◌++◌, Result, ok, err, leb, ◌==◌, ◌&&◌, ◌||◌,
  if◌then◌else◌, length, take, drop, bytes_eq, All,
}
use mathlib.Core.List.{map}
use merkle_lan_sync.Pathnorm.Slash.{slash, dot, dot_dot, split, join, has_prefix, clean, IsFree}

pub data Error : Type 0 where
  not_canonical : Error

unfoldable pub is_drive_letter : ℕ → Bool
is_drive_letter b = (leb b'A' b && leb b b'Z') || (leb b'a' b && leb b b'z')

-- `//?/`, and the same with backslashes.
abbrev extended : List ℕ
extended = b'/' ∷ b'/' ∷ b'?' ∷ b'/' ∷ []

abbrev extended_back : List ℕ
extended_back = 92 ∷ 92 ∷ b'?' ∷ 92 ∷ []

unfoldable pub strip_drive : List ℕ → List ℕ
unfolding is_drive_letter
strip_drive (c ∷ d ∷ s) = if d == b':' && is_drive_letter c then s else c ∷ d ∷ s
strip_drive s = s

unfoldable pub strip_volume_prefix : List ℕ → List ℕ
unfolding strip_drive bytes_eq
strip_volume_prefix s = strip_drive (
    if leb 4 (length s) && (bytes_eq (take 4 s) extended || bytes_eq (take 4 s) extended_back)
    then drop 4 s
    else s)

-- A component that names an entry of its directory.
abbrev pub IsName : List ℕ → Type 0
IsName w = (w ≢ []) × (w ≢ dot) × (w ≢ dot_dot) × IsFree slash w

-- What normalising one component is relied on for: a name stays a name, and normalising once is
-- enough.
pub record IsNormalisation (nfc : List ℕ → List ℕ) : Type 0 where
  pub nfc-IsName : (w : List ℕ) → IsName w → IsName (nfc w)
  pub nfc_idem : (w : List ℕ) → nfc (nfc w) ≡ nfc w

module _ (nfc : List ℕ → List ℕ) where
  -- `NormalizeComponent`
  unfoldable pub normalize_component : List ℕ → List ℕ
  normalize_component = nfc

  unfoldable pub canon_from_components : List ℕ → Result Error (List ℕ)
  canon_from_components s =
      let stripped = strip_volume_prefix s in
      let cleaned = clean stripped in
      if has_prefix stripped (slash ∷ [])
      then err not_canonical
      else if bytes_eq cleaned dot
      then ok []
      else if bytes_eq cleaned dot_dot || has_prefix cleaned (b'.' ∷ b'.' ∷ slash ∷ [])
      then err not_canonical
      else ok (join slash (map normalize_component (split slash cleaned)))

  unfoldable pub canonicalize_slash : List ℕ → Result Error (List ℕ)
  unfolding canon_from_components
  canonicalize_slash s = canon_from_components s
