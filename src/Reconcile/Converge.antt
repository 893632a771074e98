-- ===== src/Reconcile/Converge.antt =====
-- What two peers hold at a path after each has carried out its own verdict on the other's leaf.
use merkle_lan_sync.Base.{
  ℕ, ◌≡◌, ◌≢◌, refl, ap, sym, ◌∙◌, arith, ◌⊎◌, inl, inr, Bool, true, false, ◌&&◌, Option, none,
  some, List, if◌then◌else◌, Bool-cases, ok, bytes_eq, bytes_eq_iff, bytes_eq-ne, bytes_eq_ne,
}
use merkle_lan_sync.Protocol.VersionVector.{
  causality, merge, Causality, equal, dominates, dominated_by, concurrent,
}
use merkle_lan_sync.Protocol.VersionVector.Canonical.{IsCanonical}
use merkle_lan_sync.Protocol.VersionVector.Order.{
  causality-Leq, causality_swap, swap_sides, causality-equal_iff,
}
use merkle_lan_sync.Protocol.VersionVector.Merge.{merge_comm, merge-Leq}
use merkle_lan_sync.Merkle.FileInfo.{FileInfo}
use merkle_lan_sync.Reconcile.Conflict.{winner, loser_of, loser_author, conflict_name}
use merkle_lan_sync.Reconcile.Plan.{Plan, no_op, install, conflict, conflict_plan, resolve, eqb}
use merkle_lan_sync.Reconcile.Symmetry.{conflict_plan_comm}

-- The leaf at the path, and the copy beside it, once a plan is carried out.
abbrev pub settle : FileInfo → Plan → FileInfo
settle held no_op = held
settle held (install leaf) = leaf
settle held (conflict win copy) = win

abbrev pub copied : Plan → Option FileInfo
copied (conflict win copy) = copy
copied plan = none

-- Two leaves that no later comparison of the peers tells apart by content or history.
abbrev pub IsSame : FileInfo → FileInfo → Type 0
IsSame a b = (a.content_hash ≡ b.content_hash) × (a.deleted ≡ b.deleted) × (a.version ≡ b.version)

-- A leaf of each peer for one path: canonical vectors, and a content hash that a live leaf does
-- not share with a tombstone.
pub record IsPair (a b : FileInfo) : Type 0 where
  pub same_path : a.path ≡ b.path
  pub left_canonical : IsCanonical a.version
  pub right_canonical : IsCanonical b.version
  pub hash_decides : a.content_hash ≡ b.content_hash → a.deleted ≡ b.deleted

eqb_iff : (p q : Bool) → (eqb p q ≡ true → p ≡ q) × (p ≡ q → eqb p q ≡ true)
unfolding eqb
eqb_iff true q = ground arith
eqb_iff false q = ground arith

-- The test for the same content.
abbrev same_content : FileInfo → FileInfo → Bool
same_content a b = bytes_eq a.content_hash b.content_hash && eqb a.deleted b.deleted

same_content_cases :
    (a b : FileInfo)
    → IsPair a b
    → ((same_content a b ≡ true)
        × (same_content b a ≡ true)
        × (a.content_hash ≡ b.content_hash)
        × (a.deleted ≡ b.deleted))
      ⊎ ((same_content a b ≡ false)
          × (same_content b a ≡ false)
          × (a.content_hash ≢ b.content_hash))
same_content_cases a b P = elim (Bool-cases (bytes_eq a.content_hash b.content_hash)) [
  | inl e ↦
      let same = (bytes_eq_iff a.content_hash b.content_hash).0 e in
      let del = P.hash_decides same in
      inl (
        rw e ((eqb_iff a.deleted b.deleted).1 del),
        rw ((bytes_eq_iff b.content_hash a.content_hash).1 (sym same))
            ((eqb_iff b.deleted a.deleted).1 (sym del)),
        same,
        del,
      )
  | inr e ↦
      let ne = bytes_eq_ne a.content_hash b.content_hash e in
      inr
        (rw e refl, rw (bytes_eq-ne b.content_hash a.content_hash (λ same. ne (sym same))) refl, ne)
]

module _ (nfc : List ℕ → List ℕ) where
  -- The four rows of the table over `resolve`, for two leaves.
  resolve_rows :
      (a b : FileInfo)
      → (causality a.version b.version ≡ equal
          → resolve nfc (some a) (some b)
            ≡ (if same_content a b then no_op else conflict_plan nfc a b))
        × (causality a.version b.version ≡ dominates → resolve nfc (some a) (some b) ≡ no_op)
        × (causality a.version b.version ≡ dominated_by
            → resolve nfc (some a) (some b)
              ≡ install (record b { version = merge a.version b.version }))
        × (causality a.version b.version ≡ concurrent
            → resolve nfc (some a) (some b) ≡ (
                if same_content a b
                then install (record a { version = merge a.version b.version })
                else conflict_plan nfc a b))
  unfolding resolve
  resolve_rows a b = (
    (λ e. rw (resolve, e) refl),
    (λ e. rw (resolve, e) refl),
    (λ e. ground (arith, e)),
    (λ e. ground (arith, e)),
  )

  -- Where both sides plan the same conflict and its name can be formed, both hold the winner.
  conflict_meets :
      (a b : FileInfo) (name : List ℕ)
      → IsPair a b
      → a.content_hash ≢ b.content_hash
      → conflict_name nfc (loser_of a b) (loser_author (loser_of a b) (winner a b)) ≡ ok name
      → (settle a (conflict_plan nfc a b) ≡ settle b (conflict_plan nfc b a))
        × (copied (conflict_plan nfc a b) ≡ copied (conflict_plan nfc b a))
  conflict_meets a b name P ne named =
      rw (sym (conflict_plan_comm nfc a b P.same_path ne))
        ((unfold conflict_plan in ground (arith, named)), refl)

  -- The two peers agree on the leaf at the path, and on the copy beside it.
  abbrev Meets : FileInfo → FileInfo → Plan → Plan → Type 0
  Meets a b p q = IsSame (settle a p) (settle b q) × (copied p ≡ copied q)

  Meets-conflict :
      (a b : FileInfo) (name : List ℕ)
      → IsPair a b
      → a.content_hash ≢ b.content_hash
      → conflict_name nfc (loser_of a b) (loser_author (loser_of a b) (winner a b)) ≡ ok name
      → Meets a b (conflict_plan nfc a b) (conflict_plan nfc b a)
  Meets-conflict a b name P ne named =
      let (meets, copies) = conflict_meets a b name P ne named in
      (
        (ap (λ f. f.content_hash) meets, ap (λ f. f.deleted) meets, ap (λ f. f.version) meets),
        copies,
      )

  -- Each verdict of one peer against the mirrored verdict of the other.
  Meets-dominated :
      (a b : FileInfo)
      → IsPair a b
      → causality a.version b.version ≡ dominated_by
      → Meets a b (resolve nfc (some a) (some b)) (resolve nfc (some b) (some a))
  unfolding swap_sides
  Meets-dominated a b P e =
      let (le, _) = (causality-Leq a.version b.version P.left_canonical P.right_canonical).2.0 e in
      let back =
        causality_swap a.version b.version P.left_canonical P.right_canonical ∙ ap swap_sides e in
      rw ((resolve_rows a b).2 e) (
        rw ((resolve_rows b a).1 back)
          ((refl, refl, merge-Leq a.version b.version P.left_canonical P.right_canonical le), refl))

  Meets-dominating :
      (a b : FileInfo)
      → IsPair a b
      → causality a.version b.version ≡ dominates
      → Meets a b (resolve nfc (some a) (some b)) (resolve nfc (some b) (some a))
  unfolding swap_sides
  Meets-dominating a b P e =
      let (_, le) = (causality-Leq a.version b.version P.left_canonical P.right_canonical).1.0 e in
      let back =
        causality_swap a.version b.version P.left_canonical P.right_canonical ∙ ap swap_sides e in
      rw ((resolve_rows a b).1 e) (
        rw ((resolve_rows b a).2 back) (
          (refl, refl, sym (merge-Leq b.version a.version P.right_canonical P.left_canonical le)),
          refl,
        ))

  module _ (a b : FileInfo) (name : List ℕ) (P : IsPair a b)
      (named : conflict_name nfc (loser_of a b) (loser_author (loser_of a b) (winner a b))
        ≡ ok name) where
    Meets-equal :
        causality a.version b.version ≡ equal
        → Meets a b (resolve nfc (some a) (some b)) (resolve nfc (some b) (some a))
    unfolding swap_sides
    Meets-equal e =
        let back =
          causality_swap a.version b.version P.left_canonical P.right_canonical ∙ ap swap_sides e in
        let v = (causality-equal_iff a.version b.version P.left_canonical P.right_canonical).0 e in
        rw ((resolve_rows a b).0 e) (
          rw ((resolve_rows b a).0 back) (elim (same_content_cases a b P) [
            | inl (there, here, same, del) ↦ rw there (rw here ((same, del, v), refl))
            | inr (there, here, ne) ↦ rw there (rw here (Meets-conflict a b name P ne named))
          ]))

    Meets-concurrent :
        causality a.version b.version ≡ concurrent
        → Meets a b (resolve nfc (some a) (some b)) (resolve nfc (some b) (some a))
    unfolding swap_sides
    Meets-concurrent e =
        let back =
          causality_swap a.version b.version P.left_canonical P.right_canonical ∙ ap swap_sides e in
        let v = merge_comm a.version b.version P.left_canonical P.right_canonical in
        rw ((resolve_rows a b).3 e) (
          rw ((resolve_rows b a).3 back) (elim (same_content_cases a b P) [
            | inl (there, here, same, del) ↦ rw there (rw here ((same, del, v), refl))
            | inr (there, here, ne) ↦ rw there (rw here (Meets-conflict a b name P ne named))
          ]))

Causality-cases :
    (c : Causality) → (c ≡ equal) ⊎ ((c ≡ dominates) ⊎ ((c ≡ dominated_by) ⊎ (c ≡ concurrent)))
Causality-cases equal = inl refl
Causality-cases dominates = inr (inl refl)
Causality-cases dominated_by = inr (inr (inl refl))
Causality-cases concurrent = inr (inr (inr refl))

-- Two peers that exchange their leaves for a path converge there: when each has carried out
-- `resolve` of its own leaf against the other's, they hold the same content hash, deletion mark
-- and version vector at the path, and both plan the same conflict copy, or none. It is for
-- canonical vectors, for leaves of equal hash that are both live or both deleted, and for a
-- conflict copy whose name can be formed.
pub resolve_converges :
    (nfc : List ℕ → List ℕ)
    → (a b : FileInfo) (name : List ℕ) → IsPair a b
    → conflict_name nfc (loser_of a b) (loser_author (loser_of a b) (winner a b)) ≡ ok name
    → IsSame (settle a (resolve nfc (some a) (some b))) (settle b (resolve nfc (some b) (some a)))
      × (copied (resolve nfc (some a) (some b)) ≡ copied (resolve nfc (some b) (some a)))
resolve_converges nfc a b name P named = elim (Causality-cases (causality a.version b.version)) [
  | inl e ↦ Meets-equal nfc a b name P named e
  | inr (inl e) ↦ Meets-dominating nfc a b P e
  | inr (inr (inl e)) ↦ Meets-dominated nfc a b P e
  | inr (inr (inr e)) ↦ Meets-concurrent nfc a b name P named e
]
