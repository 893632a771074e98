-- ===== src/Reconcile/Kept.antt =====
-- What a verdict does to the bytes that a peer holds.
use merkle_lan_sync.Base.{
  ℕ, ◌≡◌, ◌≢◌, refl, ap, ◌∙◌, arith, ◌⊎◌, inl, inr, false, some, List, Bool-cases, Result-cases,
}
use merkle_lan_sync.Protocol.VersionVector.{causality, dominated_by}
use merkle_lan_sync.Merkle.FileInfo.{FileInfo}
use merkle_lan_sync.Reconcile.Conflict.{a_wins, winner, loser_of, loser_author, conflict_name}
use merkle_lan_sync.Reconcile.Plan.{Plan, conflict_plan, resolve}
use merkle_lan_sync.Reconcile.Converge.{settle, copied}

-- The content and the history of a leaf are at the path, or in the copy beside it.
abbrev pub IsKept : FileInfo → FileInfo → Plan → Type 0
IsKept leaf held plan =
    ((settle held plan).content_hash ≡ leaf.content_hash)
    ⊎ ((copy : FileInfo) × (copied plan ≡ some copy)
        × (copy.content_hash ≡ leaf.content_hash)
        × (copy.version ≡ leaf.version))

-- The winner is the leaf itself, or the loser is.
winner_cases : (a b : FileInfo) → (winner a b ≡ a) ⊎ (loser_of a b ≡ a)
unfolding winner loser_of
winner_cases a b = elim (Bool-cases (a_wins a b)) [
  | inl e ↦ inl (rw e refl)
  | inr e ↦ inr (rw e refl)
]

conflict_plan_keeps :
    (nfc : List ℕ → List ℕ) (a b : FileInfo)
    → a.deleted ≡ false
    → IsKept a a (conflict_plan nfc a b)
unfolding conflict_plan
conflict_plan_keeps nfc a b live =
    elim (Result-cases
      (conflict_name nfc (loser_of a b) (loser_author (loser_of a b) (winner a b)))) [
        | inl (name, named) ↦ elim (winner_cases a b) [
          | inl won ↦ inl (ground (arith, named, ap (λ f. f.content_hash) won))
          | inr lost ↦
              let stays = ap (λ f. f.deleted) lost ∙ live in
              inr (
                record (loser_of a b) { path = name },
                ground (arith, named, stays),
                ap (λ f. f.content_hash) lost,
                ap (λ f. f.version) lost,
              )
        ]
        | inr (e, refused) ↦ elim (winner_cases a b) [
          | inl won ↦ inl (ground (arith, refused, ap (λ f. f.content_hash) won))
          | inr lost ↦ inl (ground (arith, refused, ap (λ f. f.deleted) lost, live))
        ]
      ]

-- A verdict never drops the content of the live leaf that a peer holds, unless the other leaf is
-- causally newer: it stays at the path, or goes into the conflict copy with its version vector.
pub resolve_keeps :
    (nfc : List ℕ → List ℕ)
    → (a b : FileInfo) → a.deleted ≡ false
    → causality a.version b.version ≢ dominated_by
    → IsKept a a (resolve nfc (some a) (some b))
unfolding resolve
resolve_keeps nfc a b live newer = ground (arith, conflict_plan_keeps nfc a b live)
