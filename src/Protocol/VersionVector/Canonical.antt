-- ===== src/Protocol/VersionVector/Canonical.antt =====
-- The canonical form that every vector of the program has, and reading one pointwise.
use merkle_lan_sync.Base.{ℕ, ◌+◌, ◌≤◌, ◌<◌, ◌≡◌, refl, arith, [], ◌∷◌, ◌==◌, if◌then◌else◌}
use merkle_lan_sync.Protocol.VersionVector.{VersionVector, get}

-- Sorted by strictly ascending IDs, all at least `lo`, and no counter is zero.
abbrev pub IsAscending : ℕ → VersionVector → Type 0
IsAscending lo [] = Unit {0}
IsAscending lo (c ∷ cs) = (lo ≤ c.id) × (0 < c.value) × IsAscending (c.id + 1) cs

abbrev pub IsCanonical : VersionVector → Type 0
IsCanonical vv = IsAscending 0 vv

pub IsAscending-mono :
    (lo hi : ℕ) (vv : VersionVector) → lo ≤ hi → IsAscending hi vv → IsAscending lo vv
IsAscending-mono lo hi [] le h = tt
IsAscending-mono lo hi (c ∷ cs) le h = (omega arith, h.1, h.2)

-- A counter that is not there reads as 0.
unfoldable pub value_of : VersionVector → ℕ → ℕ
value_of [] id = 0
value_of (c ∷ cs) id = if c.id == id then c.value else value_of cs id

pub value_of-below :
    (vv : VersionVector) (lo id : ℕ) → IsAscending lo vv → id < lo → value_of vv id ≡ 0
unfolding value_of
value_of-below [] lo id h lt = refl
value_of-below (c ∷ cs) lo id h lt = ground (arith, value_of-below cs (c.id + 1) id h.2)

-- On a sorted vector the search finds the counter of the ID, if there is one.
pub get-value_of : (vv : VersionVector) (lo id : ℕ) → IsAscending lo vv → get vv id ≡ value_of vv id
unfolding get value_of
get-value_of [] lo id h = refl
get-value_of (c ∷ cs) lo id h =
    ground (arith, get-value_of cs (c.id + 1) id h.2, value_of-below cs (c.id + 1) id h.2)
