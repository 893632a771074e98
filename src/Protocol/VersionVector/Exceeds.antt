-- ===== src/Protocol/VersionVector/Exceeds.antt =====
-- The flags of the loop of `Compare`: whether some counter of one vector is above the other's.
use merkle_lan_sync.Base.{
  ℕ, ◌+◌, ◌≤◌, ◌<◌, ◌≡◌, refl, ap, sym, ◌∙◌, arith, ◌⊎◌, inl, inr, Bool, true, false, ◌&&◌, ◌||◌,
  [], ◌∷◌, if◌then◌else◌, ltb, compare, Ordering, Bool-cases,
}
use merkle_lan_sync.Protocol.VersionVector.{
  Counter, VersionVector, concurrent, verdict, compare_loop,
}
use merkle_lan_sync.Protocol.VersionVector.Canonical.{
  IsAscending, IsAscending-mono, value_of, value_of-below,
}

order_cases : (a b : ℕ) → (a < b) ⊎ ((b < a) ⊎ (a ≡ b))
order_cases a b = omega arith

lt_compare : (a b : ℕ) → a < b → compare a b ≡ Ordering.lt
lt_compare a b h = ground arith

gt_compare : (a b : ℕ) → b < a → compare a b ≡ Ordering.gt
gt_compare a b h = ground arith

eq_compare : (a b : ℕ) → a ≡ b → compare a b ≡ Ordering.eq
eq_compare a b h = ground arith

-- Some counter of the first vector is above the second's.
unfoldable pub exceeds : VersionVector → VersionVector → Bool
exceeds [] ys = false
exceeds (c ∷ cs) ys = ltb (value_of ys c.id) c.value || exceeds cs ys

exceeds-cons :
    (xs ys : VersionVector) (c : Counter) (lo : ℕ)
    → IsAscending lo xs
    → c.id < lo
    → exceeds xs (c ∷ ys) ≡ exceeds xs ys
unfolding exceeds value_of
exceeds-cons [] ys c lo h lt = refl
exceeds-cons (x ∷ xs) ys c lo h lt = ground (arith, exceeds-cons xs ys c (x.id + 1) h.2)

-- What the two sides exceed one another by, in each of the three cases of the IDs in front.
exceeds_lt :
    (x : Counter) (xs ys : VersionVector) (lo : ℕ)
    → 0 < x.value
    → IsAscending lo ys
    → x.id < lo
    → (exceeds (x ∷ xs) ys ≡ true) × (exceeds ys (x ∷ xs) ≡ exceeds ys xs)
unfolding exceeds
exceeds_lt x xs ys lo pos hy lt =
    (ground (arith, value_of-below ys lo x.id hy lt), exceeds-cons ys xs x lo hy lt)

exceeds_eq :
    (x y : Counter) (xs ys : VersionVector)
    → IsAscending (x.id + 1) xs
    → IsAscending (y.id + 1) ys
    → x.id ≡ y.id
    → exceeds (x ∷ xs) (y ∷ ys) ≡ (ltb y.value x.value || exceeds xs ys)
unfolding exceeds value_of
exceeds_eq x y xs ys hx hy e = ground (arith, exceeds-cons xs ys y (x.id + 1) hx)

round_lt :
    (x y : Counter) (xs ys : VersionVector) (a b c : Bool)
    → x.id < y.id
    → compare_loop xs (y ∷ ys) true b ≡ verdict true (b || c)
    → compare_loop (x ∷ xs) (y ∷ ys) a b ≡ verdict (a || true) (b || c)
unfolding compare_loop
round_lt x y xs ys a true c lt rest = rw (lt_compare x.id y.id lt, compare_loop) (ground arith)
round_lt x y xs ys a false c lt rest = rw (lt_compare x.id y.id lt, compare_loop) (ground arith)

round_gt :
    (x y : Counter) (xs ys : VersionVector) (a b c : Bool)
    → y.id < x.id
    → compare_loop (x ∷ xs) ys a true ≡ verdict (a || c) true
    → compare_loop (x ∷ xs) (y ∷ ys) a b ≡ verdict (a || c) (b || true)
unfolding compare_loop
round_gt x y xs ys true b c lt rest = rw (gt_compare x.id y.id lt, compare_loop) (ground arith)
round_gt x y xs ys false b c lt rest =
    rw (gt_compare x.id y.id lt, compare_loop) (rest ∙ ground arith)

-- The early return takes nothing away.
early_return :
    (a b c d : Bool)
    → (if a && b then concurrent else verdict (a || c) (b || d)) ≡ verdict (a || c) (b || d)
unfolding verdict
early_return true true c d = refl
early_return true false c d = refl
early_return false b c d = refl

flags_eq :
    (v w : ℕ) (a b c d : Bool)
    → verdict
        ((if ltb w v then true else a) || c)
        ((if ltb w v then b else if ltb v w then true else b) || d)
      ≡ verdict (a || (ltb w v || c)) (b || (ltb v w || d))
flags_eq v w true true c d = ground arith
flags_eq v w true false c d = ground arith
flags_eq v w false true c d = ground arith
flags_eq v w false false c d = ground arith

round_eq :
    (x y : Counter) (xs ys : VersionVector) (a b c d : Bool)
    → x.id ≡ y.id
    → ((a' b' : Bool) → compare_loop xs ys a' b' ≡ verdict (a' || c) (b' || d))
    → compare_loop (x ∷ xs) (y ∷ ys) a b
      ≡ verdict (a || (ltb y.value x.value || c)) (b || (ltb x.value y.value || d))
unfolding compare_loop
round_eq x y xs ys a b c d e rest =
    rw (eq_compare x.id y.id e, compare_loop)
      (ap (λ m. if a' && b' then concurrent else m) (rest a' b')
        ∙ early_return a' b' c d
        ∙ flags_eq x.value y.value a b c d)
  where
    a' : Bool
    a' = if ltb y.value x.value then true else a

    b' : Bool
    b' = if ltb y.value x.value then b else if ltb x.value y.value then true else b

abbrev Claim : VersionVector → VersionVector → ℕ → Type 0
Claim xs ys lo =
    (a b : Bool)
    → IsAscending lo xs
    → IsAscending lo ys
    → compare_loop xs ys a b ≡ verdict (a || exceeds xs ys) (b || exceeds ys xs)

compare_loop_round :
    (x y : Counter) (xs ys : VersionVector) (lo : ℕ) (a b : Bool)
    → IsAscending lo (x ∷ xs)
    → IsAscending lo (y ∷ ys)
    → Claim xs (y ∷ ys) (x.id + 1)
    → Claim (x ∷ xs) ys (y.id + 1)
    → Claim xs ys (x.id + 1)
    → compare_loop (x ∷ xs) (y ∷ ys) a b
      ≡ verdict (a || exceeds (x ∷ xs) (y ∷ ys)) (b || exceeds (y ∷ ys) (x ∷ xs))
compare_loop_round x y xs ys lo a b hx hy keep_y keep_x both = elim (order_cases x.id y.id) [
  | inl lt ↦
      let (up, down) = exceeds_lt x xs (y ∷ ys) y.id hx.1 (omega arith, hy.1, hy.2) lt in
      rw (up, down) (round_lt x y xs ys a b _ lt (keep_y true b hx.2 (omega arith, hy.1, hy.2)))
  | inr (inl gt) ↦
      let (up, down) = exceeds_lt y ys (x ∷ xs) x.id hy.1 (omega arith, hx.1, hx.2) gt in
      rw (up, down) (round_gt x y xs ys a b _ gt (keep_x a true (omega arith, hx.1, hx.2) hy.2))
  | inr (inr e) ↦
      rw (exceeds_eq x y xs ys hx.2 hy.2 e, exceeds_eq y x ys xs hy.2 hx.2 (sym e))
        (round_eq x y xs ys a b _ _ e
          (λ a' b'. both a' b' hx.2 (IsAscending-mono _ _ ys (omega arith) hy.2)))
]

pub compare_loop-exceeds :
    (xs ys : VersionVector) (lo : ℕ) (a b : Bool)
    → IsAscending lo xs
    → IsAscending lo ys
    → compare_loop xs ys a b ≡ verdict (a || exceeds xs ys) (b || exceeds ys xs)
unfolding compare_loop exceeds value_of
compare_loop-exceeds [] [] lo a b hx hy = ground arith
compare_loop-exceeds [] (y ∷ ys) lo a b hx hy = ground arith
compare_loop-exceeds (x ∷ xs) [] lo a b hx hy = ground arith
compare_loop-exceeds (x ∷ xs) (y ∷ ys) lo a b hx hy =
    compare_loop_round x y xs ys lo a b hx hy (compare_loop-exceeds xs (y ∷ ys) (x.id + 1))
      (compare_loop-exceeds (x ∷ xs) ys (y.id + 1)) (compare_loop-exceeds xs ys (x.id + 1))

pub exceeds-value_of :
    (xs ys : VersionVector) → exceeds xs ys ≡ false → (id : ℕ) → value_of xs id ≤ value_of ys id
unfolding exceeds value_of
exceeds-value_of [] ys h id = omega arith
exceeds-value_of (c ∷ cs) ys h id = ground (arith, exceeds-value_of cs ys (ground arith) id)

pub exceeds_witness :
    (xs ys : VersionVector) (lo : ℕ)
    → IsAscending lo xs
    → exceeds xs ys ≡ true
    → (id : ℕ) × (value_of ys id < value_of xs id)
unfolding exceeds value_of
exceeds_witness [] ys lo h e = cc
exceeds_witness (c ∷ cs) ys lo h e = elim (Bool-cases (ltb (value_of ys c.id) c.value)) [
  | inl above ↦ (c.id, ground arith)
  | inr below ↦
      let (id, lt) = exceeds_witness cs ys (c.id + 1) h.2 (ground arith) in
      (id, ground (arith, value_of-below cs (c.id + 1) id h.2))
]
