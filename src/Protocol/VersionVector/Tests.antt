-- ===== src/Protocol/VersionVector/Tests.antt =====
-- Version vectors of two devices, 3 and 7.
use merkle_lan_sync.Base.{
  ℕ, false, ◌+◌, ◌<◌, ◌≤◌, ◌≡◌, ◌^◌, max, refl, arith, ◌↔◌, List, [], ◌∷◌, ok, length, take, All,
}
use merkle_lan_sync.Bytes.{IsByte, get_be}
use merkle_lan_sync.Protocol.VersionVector.{
  VersionVector, get, merge, causality, equal, dominates, dominated_by, concurrent, encode, decode,
  new_version_vector, is_equal,
}
use merkle_lan_sync.Protocol.VersionVector.Canonical.{IsCanonical}
use merkle_lan_sync.Protocol.VersionVector.Order.{Leq, causality-Leq}
use merkle_lan_sync.Protocol.VersionVector.Merge.{get-merge}
use merkle_lan_sync.Protocol.VersionVector.RoundTrip.{Fits, decode_sound}

abbrev left : VersionVector
left = record { id = 3; value = 2 } ∷ record { id = 7; value = 1 } ∷ []

abbrev right : VersionVector
right = record { id = 7; value = 4 } ∷ []

abbrev third : VersionVector
third = record { id = 9; value = 1 } ∷ []

left-IsCanonical : IsCanonical left
left-IsCanonical = omega arith

right-IsCanonical : IsCanonical right
right-IsCanonical = omega arith

third-IsCanonical : IsCanonical third
third-IsCanonical = omega arith

-- A map with a zero counter, out of order.
new_version_vector_test :
    new_version_vector (
      record { id = 7; value = 1 }
      ∷ record { id = 5; value = 0 }
      ∷ record { id = 3; value = 2 }
      ∷ [])
    ≡ left
unfolding new_version_vector
new_version_vector_test = refl

is_equal_test : is_equal left right ≡ false
unfolding is_equal
is_equal_test = refl

causality_test : causality left right ≡ concurrent
unfolding causality
causality_test = refl

causality-Leq_example :
    ((causality left right ≡ equal) ↔ (Leq left right × Leq right left))
    × ((causality left right ≡ dominates) ↔ ((¬ Leq left right) × Leq right left))
    × ((causality left right ≡ dominated_by) ↔ (Leq left right × (¬ Leq right left)))
    × ((causality left right ≡ concurrent) ↔ ((¬ Leq left right) × (¬ Leq right left)))
causality-Leq_example = causality-Leq left right left-IsCanonical right-IsCanonical

get-merge_example :
    IsCanonical (merge left right)
    × ((id : ℕ) → get (merge left right) id ≡ max (get left id) (get right id))
get-merge_example = get-merge left right left-IsCanonical right-IsCanonical

left_room : get left 3 + 1 < 2 ^ 64
unfolding get
left_room = omega arith

left-Fits : Fits left
left-Fits = omega arith

-- One counter of device 7, with one byte behind it.
abbrev wire : List ℕ
wire = 0 ∷ 1 ∷ 0 ∷ 0 ∷ 0 ∷ 0 ∷ 0 ∷ 0 ∷ 0 ∷ 7 ∷ 0 ∷ 0 ∷ 0 ∷ 0 ∷ 0 ∷ 0 ∷ 0 ∷ 4 ∷ 255 ∷ []

wire-IsByte : All IsByte wire
wire-IsByte = omega arith

decode-wire : decode wire ≡ ok (right, 18)
unfolding decode get_be
decode-wire = refl

decode_sound_example :
    IsCanonical right × Fits right × (18 ≤ length wire) × (encode right ≡ take 18 wire)
decode_sound_example = decode_sound wire right 18 wire-IsByte decode-wire
