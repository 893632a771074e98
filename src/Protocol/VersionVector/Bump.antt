-- ===== src/Protocol/VersionVector/Bump.antt =====
-- `Bump` counts one more authored change of one device.
use merkle_lan_sync.Base.{
  ℕ, ◌+◌, ◌≤◌, ◌<◌, ◌^◌, ◌≡◌, refl, arith, [], ◌∷◌, if◌then◌else◌, ◌==◌, leb, Bool-cases, inl, inr,
  ◌%◌, true, false,
}
use merkle_lan_sync.Protocol.VersionVector.{
  Counter, VersionVector, get, bump, dominates, dominated_by, causality,
}
use merkle_lan_sync.Protocol.VersionVector.Canonical.{
  IsAscending, IsCanonical, value_of, value_of-below, get-value_of,
}
use merkle_lan_sync.Protocol.VersionVector.Order.{Leq, causality-Leq}

bump-cons_below :
    (c : Counter) (cs : VersionVector) (self : ℕ)
    → leb self c.id ≡ false
    → bump (c ∷ cs) self ≡ c ∷ bump cs self
unfolding bump
bump-cons_below c cs self h = ground arith

bump-cons_at :
    (c : Counter) (cs : VersionVector) (self : ℕ)
    → leb self c.id ≡ true
    → bump (c ∷ cs) self ≡ (
        if c.id == self
        then record c { value = (c.value + 1) % 2 ^ 64 } ∷ cs
        else record { id = self; value = 1 } ∷ c ∷ cs)
unfolding bump
bump-cons_at c cs self h = ground arith

bump-nil : (self : ℕ) → bump [] self ≡ record { id = self; value = 1 } ∷ []
unfolding bump
bump-nil self = refl

bump-IsAscending :
    (vv : VersionVector) (lo self : ℕ)
    → IsAscending lo vv
    → lo ≤ self
    → value_of vv self + 1 < 2 ^ 64
    → IsAscending lo (bump vv self)
unfolding value_of
bump-IsAscending [] lo self h le room = rw bump-nil (omega arith)
bump-IsAscending (c ∷ cs) lo self h le room = elim (Bool-cases (leb self c.id)) [
  | inl at ↦ rw (bump-cons_at c cs self at) (ground arith)
  | inr below ↦
      rw (bump-cons_below c cs self below) (ground (arith, bump-IsAscending cs (c.id + 1) self h.2))
]

value_of-bump :
    (vv : VersionVector) (lo self id : ℕ)
    → IsAscending lo vv
    → value_of vv self + 1 < 2 ^ 64
    → value_of (bump vv self) id ≡ (if id == self then value_of vv id + 1 else value_of vv id)
unfolding value_of
value_of-bump [] lo self id h room = rw bump-nil (ground arith)
value_of-bump (c ∷ cs) lo self id h room = elim (Bool-cases (leb self c.id)) [
  | inl at ↦ rw (bump-cons_at c cs self at) (ground (arith, value_of-below cs (c.id + 1) id h.2))
  | inr below ↦
      rw (bump-cons_below c cs self below) (ground (arith, value_of-bump cs (c.id + 1) self id h.2))
]

-- `Bump` of a canonical vector whose own counter is not at the largest uint64 is canonical, and
-- adds one to the own counter and leaves every other as it was.
pub get-bump :
    (vv : VersionVector) (self : ℕ)
    → IsCanonical vv
    → get vv self + 1 < 2 ^ 64
    → IsCanonical (bump vv self)
      × ((id : ℕ) → get (bump vv self) id ≡ (if id == self then get vv id + 1 else get vv id))
get-bump vv self h room =
    let room' : value_of vv self + 1 < 2 ^ 64 = omega (arith, get-value_of vv 0 self h) in
    let canonical : IsCanonical (bump vv self) = bump-IsAscending vv 0 self h (omega arith) room' in
    (
      canonical,
      λ id.
          rw (get-value_of (bump vv self) 0 id canonical, get-value_of vv 0 id h)
            (value_of-bump vv 0 self id h room'),
    )

-- A bumped vector is causally newer than the vector it was made from: `Compare` answers
-- `dominates` in one direction and `dominated_by` in the other.
pub causality-bump :
    (vv : VersionVector) (self : ℕ)
    → IsCanonical vv
    → get vv self + 1 < 2 ^ 64
    → (causality (bump vv self) vv ≡ dominates) × (causality vv (bump vv self) ≡ dominated_by)
causality-bump vv self h room =
    let (hb, gb) = get-bump vv self h room in
    let up : Leq vv (bump vv self) = λ id. ground (arith, gb id) in
    let not_down : ¬ Leq (bump vv self) vv = λ le. ground (arith, gb self, le self) in
    (
      (causality-Leq (bump vv self) vv hb h).1.1 (not_down, up),
      (causality-Leq vv (bump vv self) h hb).2.1 (up, not_down),
    )
