-- ===== src/Protocol/VersionVector/Order.antt =====
-- `Compare` against the pointwise order of the counters, a missing counter being 0.
use merkle_lan_sync.Base.{
  ℕ, ◌+◌, ◌≤◌, ◌≡◌, refl, sym, ◌∙◌, arith, inl, inr, ◌↔◌, Bool, true, false, [], ◌∷◌, Bool-cases,
}
use merkle_lan_sync.Protocol.VersionVector.{
  VersionVector, get, Causality, equal, dominates, dominated_by, concurrent, verdict, causality,
}
use merkle_lan_sync.Protocol.VersionVector.Canonical.{
  IsAscending, IsCanonical, IsAscending-mono, value_of, value_of-below, get-value_of,
}
use merkle_lan_sync.Protocol.VersionVector.Exceeds.{
  exceeds, compare_loop-exceeds, exceeds-value_of, exceeds_witness,
}

-- `a` knows of no event that `b` does not know of.
abbrev pub Leq : VersionVector → VersionVector → Type 0
Leq a b = (id : ℕ) → get a id ≤ get b id

pub exceeds-Leq :
    (a b : VersionVector) → IsCanonical a → IsCanonical b → (exceeds a b ≡ false) ↔ Leq a b
exceeds-Leq a b ha hb = (
  λ h id. rw (get-value_of a 0 id ha, get-value_of b 0 id hb) (exceeds-value_of a b h id),
  λ h. elim (Bool-cases (exceeds a b)) [
    | inl e ↦
        let (id, lt) = exceeds_witness a b 0 ha e in
        absurd (omega (arith, h id, get-value_of a 0 id ha, get-value_of b 0 id hb))
    | inr e ↦ e
  ],
)

pub causality-exceeds :
    (a b : VersionVector)
    → IsCanonical a
    → IsCanonical b
    → causality a b ≡ verdict (exceeds a b) (exceeds b a)
unfolding causality
causality-exceeds a b ha hb = compare_loop-exceeds a b 0 false false ha hb

verdict_iff :
    (p q : Bool)
    → ((verdict p q ≡ equal) ↔ ((p ≡ false) × (q ≡ false)))
      × ((verdict p q ≡ dominates) ↔ ((p ≡ true) × (q ≡ false)))
      × ((verdict p q ≡ dominated_by) ↔ ((p ≡ false) × (q ≡ true)))
      × ((verdict p q ≡ concurrent) ↔ ((p ≡ true) × (q ≡ true)))
unfolding verdict
verdict_iff true true = ground arith
verdict_iff true false = ground arith
verdict_iff false true = ground arith
verdict_iff false false = ground arith

through : {A P Q P' Q' : Type 0} → A ↔ (P × Q) → P ↔ P' → Q ↔ Q' → A ↔ (P' × Q')
through e p q = (λ a. let (x, y) = e.0 a in (p.0 x, q.0 y), λ (x, y). e.1 (p.1 x, q.1 y))

refuted : (p : Bool) {P : Type 0} → (p ≡ false) ↔ P → (p ≡ true) ↔ (¬ P)
refuted true e = (λ _ x. cc (e.1 x), λ _. refl)
refuted false e = (λ h. cc, λ h. absurd (h (e.0 refl)))

-- What `Compare` answers on canonical vectors, in terms of the pointwise order of the counters:
-- `equal` exactly when each is below the other, `dominates` and `dominated_by` exactly when one
-- is below the other and not the other way round, `concurrent` exactly when neither is.
pub causality-Leq :
    (a b : VersionVector)
    → IsCanonical a
    → IsCanonical b
    → ((causality a b ≡ equal) ↔ (Leq a b × Leq b a))
      × ((causality a b ≡ dominates) ↔ ((¬ Leq a b) × Leq b a))
      × ((causality a b ≡ dominated_by) ↔ (Leq a b × (¬ Leq b a)))
      × ((causality a b ≡ concurrent) ↔ ((¬ Leq a b) × (¬ Leq b a)))
causality-Leq a b ha hb =
    let le = exceeds-Leq a b ha hb in
    let ge = exceeds-Leq b a hb ha in
    let (eq, dom, dom_by, conc) = verdict_iff (exceeds a b) (exceeds b a) in
    rw (causality-exceeds a b ha hb) (
      through eq le ge,
      through dom (refuted _ le) ge,
      through dom_by le (refuted _ ge),
      through conc (refuted _ le) (refuted _ ge),
    )

unfoldable pub swap_sides : Causality → Causality
swap_sides equal = equal
swap_sides dominates = dominated_by
swap_sides dominated_by = dominates
swap_sides concurrent = concurrent

-- `Compare` with the sides exchanged answers the mirrored outcome.
pub causality_swap :
    (a b : VersionVector)
    → IsCanonical a
    → IsCanonical b
    → causality b a ≡ swap_sides (causality a b)
unfolding verdict swap_sides
causality_swap a b ha hb =
    rw (causality-exceeds a b ha hb, causality-exceeds b a hb ha) (ground arith)

value_of-ext :
    (a b : VersionVector) (lo : ℕ)
    → IsAscending lo a
    → IsAscending lo b
    → ((id : ℕ) → value_of a id ≡ value_of b id)
    → a ≡ b
unfolding value_of
value_of-ext [] [] lo ha hb h = refl
value_of-ext [] (y ∷ ys) lo ha hb h = absurd (ground (arith, h y.id))
value_of-ext (x ∷ xs) [] lo ha hb h = absurd (ground (arith, h x.id))
value_of-ext (x ∷ xs) (y ∷ ys) lo ha hb h = ground (
  arith,
  same_id,
  same_value,
  value_of-ext xs ys (x.id + 1) ha.2 (IsAscending-mono _ _ ys (omega (arith, same_id)) hb.2) tails,
)
  where
    same_id : x.id ≡ y.id
    same_id = ground (
      arith,
      h x.id,
      h y.id,
      value_of-below ys (y.id + 1) x.id hb.2,
      value_of-below xs (x.id + 1) y.id ha.2,
    )

    same_value : x.value ≡ y.value
    same_value = ground (arith, h x.id, same_id)

    tails : (id : ℕ) → value_of xs id ≡ value_of ys id
    tails id = ground (
      arith,
      h id,
      same_id,
      value_of-below ys (y.id + 1) id hb.2,
      value_of-below xs (x.id + 1) id ha.2,
    )

-- Canonical vectors that read alike everywhere are one vector.
pub get-ext :
    (a b : VersionVector) → IsCanonical a → IsCanonical b → ((id : ℕ) → get a id ≡ get b id) → a ≡ b
get-ext a b ha hb h =
    value_of-ext a b 0 ha hb (λ id. sym (get-value_of a 0 id ha) ∙ h id ∙ get-value_of b 0 id hb)

-- `Compare` answers `equal` on canonical vectors only for a vector and itself.
pub causality-equal_iff :
    (a b : VersionVector) → IsCanonical a → IsCanonical b → (causality a b ≡ equal) ↔ (a ≡ b)
causality-equal_iff a b ha hb = (
  λ e.
      let (le, ge) = (causality-Leq a b ha hb).0.0 e in
      get-ext a b ha hb (λ id. omega (arith, le id, ge id)),
  λ e. (causality-Leq a b ha hb).0.1 (rw e (λ id. omega arith), rw e (λ id. omega arith)),
)
