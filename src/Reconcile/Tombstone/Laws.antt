-- ===== src/Reconcile/Tombstone/Laws.antt =====
-- What collecting a tombstone and dropping a counter keep.
use merkle_lan_sync.Base.{
  ℕ, ◌+◌, ◌≤◌, ◌≡◌, ◌≢◌, arith, ◌⊎◌, inl, inr, ◌↔◌, true, none, some, List, [], ◌∷◌, if◌then◌else◌,
  ◌==◌, Bool-cases, Option-cases, All,
}
use merkle_lan_sync.Protocol.VersionVector.{VersionVector, get, causality, equal, dominates}
use merkle_lan_sync.Protocol.VersionVector.Canonical.{
  IsAscending, IsCanonical, IsAscending-mono, value_of, get-value_of,
}
use merkle_lan_sync.Protocol.VersionVector.Order.{Leq, causality-Leq}
use merkle_lan_sync.Merkle.FileInfo.{FileInfo}
use merkle_lan_sync.Reconcile.Plan.{no_op, resolve}
use merkle_lan_sync.Reconcile.Tombstone.{Files, lookup, can_gc, acked_by_all, drop_from_vv}

can_gc_inv :
    (tomb : FileInfo) (index : Files)
    → can_gc tomb index ≡ true
    → (pf : FileInfo) × (lookup index tomb.path ≡ some pf)
      × (pf.deleted ≡ true)
      × ((causality pf.version tomb.version ≡ dominates)
          ⊎ (causality pf.version tomb.version ≡ equal))
unfolding can_gc
can_gc_inv tomb index h = elim (Option-cases (lookup index tomb.path)) [
  | inl missing ↦ absurd (ground (arith, missing))
  | inr (pf, found) ↦ (pf, found, ground (arith, found), ground (arith, found))
]

-- When a tombstone may be collected for a peer's index, the index holds a tombstone for its path
-- that has seen all that this one has, and `resolve` against it, with nothing left on the own side,
-- does nothing: the deletion is not undone. The version vectors of both are canonical.
pub can_gc_no_resurrection :
    (nfc : List ℕ → List ℕ)
    → (tomb : FileInfo) (index : Files) → IsCanonical tomb.version
    → ((pf : FileInfo) → lookup index tomb.path ≡ some pf → IsCanonical pf.version)
    → can_gc tomb index ≡ true
    → (pf : FileInfo) × (lookup index tomb.path ≡ some pf)
      × (pf.deleted ≡ true)
      × Leq tomb.version pf.version
      × (resolve nfc none (lookup index tomb.path) ≡ no_op)
can_gc_no_resurrection nfc tomb index ht hp h =
    let (pf, found, gone, newer) = can_gc_inv tomb index h in
    let rows = causality-Leq pf.version tomb.version (hp pf found) ht in
    (
      pf,
      found,
      gone,
      elim newer [ inl e ↦ (rows.1.0 e).1 | inr e ↦ (rows.0.0 e).1 ],
      rw found (unfold resolve in ground (arith, gone)),
    )

acked_by_all_iff :
    (fi : FileInfo) (peers : List Files)
    → (acked_by_all fi peers ≡ true) ↔ All (λ index. can_gc fi index ≡ true) peers
unfolding acked_by_all
acked_by_all_iff fi [] = ground arith
acked_by_all_iff fi (index ∷ peers) = ground (arith, acked_by_all_iff fi peers)

drop-IsAscending :
    (vv : VersionVector) (lo id : ℕ) → IsAscending lo vv → IsAscending lo (drop_from_vv vv id)
unfolding drop_from_vv
drop-IsAscending [] lo id h = tt
drop-IsAscending (c ∷ vv) lo id h = ground (
  arith,
  drop-IsAscending vv (c.id + 1) id h.2,
  IsAscending-mono lo (c.id + 1) (drop_from_vv vv id),
)

value_of-drop :
    (vv : VersionVector) (id j : ℕ)
    → value_of (drop_from_vv vv id) j ≡ (if j == id then 0 else value_of vv j)
unfolding drop_from_vv value_of
value_of-drop [] id j = ground arith
value_of-drop (c ∷ vv) id j = ground (arith, value_of-drop vv id j)

-- Dropping a device's counter from a canonical vector leaves a canonical vector in which that
-- device reads 0 and every other device reads as before.
pub get-drop_from_vv :
    (vv : VersionVector) (id : ℕ)
    → IsCanonical vv
    → IsCanonical (drop_from_vv vv id)
      × ((j : ℕ) → get (drop_from_vv vv id) j ≡ (if j == id then 0 else get vv j))
get-drop_from_vv vv id h =
    let canonical = drop-IsAscending vv 0 id h in
    (
      canonical,
      λ j.
          rw (get-value_of (drop_from_vv vv id) 0 j canonical, get-value_of vv 0 j h)
            (value_of-drop vv id j),
    )

-- The pointwise order on the devices other than one.
abbrev pub LeqOff : ℕ → VersionVector → VersionVector → Type 0
LeqOff id a b = (j : ℕ) → j ≢ id → get a j ≤ get b j

-- When two peers drop the counter of the same device, canonical vectors are ordered after it
-- exactly as they were before it on all the other devices: what the live devices have seen of each
-- other is not touched.
pub drop_from_vv-Leq :
    (a b : VersionVector) (id : ℕ)
    → IsCanonical a
    → IsCanonical b
    → Leq (drop_from_vv a id) (drop_from_vv b id) ↔ LeqOff id a b
drop_from_vv-Leq a b id ha hb =
    let (_, ga) = get-drop_from_vv a id ha in
    let (_, gb) = get-drop_from_vv b id hb in
    (
      λ le j other. ground (arith, ga j, gb j, le j),
      λ le j. elim (Bool-cases (j == id)) [
        | inl e ↦ ground (arith, ga j, gb j)
        | inr e ↦ let other : j ≢ id = ground arith in ground (arith, ga j, gb j, le j other)
      ],
    )
