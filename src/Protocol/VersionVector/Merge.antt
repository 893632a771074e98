-- ===== src/Protocol/VersionVector/Merge.antt =====
-- `Merge` is the least upper bound of two vectors, and keeps the canonical form.
use merkle_lan_sync.Base.{◌↔◌, ℕ, ◌+◌, ◌≡◌, ◌∙◌, arith, max, [], ◌∷◌, ltb, if◌then◌else◌}
use merkle_lan_sync.Protocol.VersionVector.{Counter, VersionVector, get, merge}
use merkle_lan_sync.Protocol.VersionVector.Canonical.{
  IsAscending, IsCanonical, IsAscending-mono, value_of, value_of-below, get-value_of,
}
use merkle_lan_sync.Protocol.VersionVector.Order.{Leq, get-ext}

-- The larger of two counter values, as the loop picks it.
abbrev larger : ℕ → ℕ → ℕ
larger v w = if ltb v w then w else v

larger-max : (v w : ℕ) → larger v w ≡ max v w
larger-max v w = ground arith

merge-IsAscending :
    (xs ys : VersionVector) (lo : ℕ)
    → IsAscending lo xs
    → IsAscending lo ys
    → IsAscending lo (merge xs ys)
unfolding merge
merge-IsAscending [] ys lo hx hy = hy
merge-IsAscending (x ∷ xs) [] lo hx hy = hx
merge-IsAscending (x ∷ xs) (y ∷ ys) lo hx hy = ground (
  arith,
  merge-IsAscending xs (y ∷ ys) (x.id + 1) hx.2,
  merge-IsAscending (x ∷ xs) ys (y.id + 1),
  merge-IsAscending xs ys (x.id + 1) hx.2,
  IsAscending-mono (x.id + 1) (y.id + 1) ys,
)

abbrev ReadsLarger : VersionVector → VersionVector → ℕ → ℕ → Type 0
ReadsLarger xs ys lo id =
    IsAscending lo xs
    → IsAscending lo ys
    → value_of (merge xs ys) id ≡ larger (value_of xs id) (value_of ys id)

-- One round of the loop, from the claims for what is left of the two vectors.
value_of-merge_round :
    (x y : Counter) (xs ys : VersionVector) (lo id : ℕ)
    → ReadsLarger xs (y ∷ ys) (x.id + 1) id
    → ReadsLarger (x ∷ xs) ys (y.id + 1) id
    → ReadsLarger xs ys (x.id + 1) id
    → ReadsLarger (x ∷ xs) (y ∷ ys) lo id
unfolding merge value_of
value_of-merge_round x y xs ys lo id keep_y keep_x both hx hy = ground (
  arith,
  keep_y hx.2,
  keep_x,
  both hx.2,
  IsAscending-mono (x.id + 1) (y.id + 1) ys,
  value_of-below xs (x.id + 1) id hx.2,
  value_of-below ys (y.id + 1) id hy.2,
)

value_of-merge : (xs ys : VersionVector) (lo id : ℕ) → ReadsLarger xs ys lo id
value_of-merge [] ys lo id hx hy = unfold merge value_of in ground arith
value_of-merge (x ∷ xs) [] lo id hx hy = unfold merge value_of in ground arith
value_of-merge (x ∷ xs) (y ∷ ys) lo id hx hy =
    value_of-merge_round x y xs ys lo id (value_of-merge xs (y ∷ ys) (x.id + 1) id)
      (value_of-merge (x ∷ xs) ys (y.id + 1) id) (value_of-merge xs ys (x.id + 1) id) hx hy

-- `Merge` of canonical vectors is canonical, and reads at each ID as the larger of the two counters.
pub get-merge :
    (a b : VersionVector)
    → IsCanonical a
    → IsCanonical b
    → IsCanonical (merge a b) × ((id : ℕ) → get (merge a b) id ≡ max (get a id) (get b id))
get-merge a b ha hb = (
  merge-IsAscending a b 0 ha hb,
  λ id.
      rw
        (
          get-value_of (merge a b) 0 id (merge-IsAscending a b 0 ha hb),
          get-value_of a 0 id ha,
          get-value_of b 0 id hb,
        )
        (value_of-merge a b 0 id ha hb ∙ larger-max _ _),
)

pub merge-IsCanonical :
    (a b : VersionVector) → IsCanonical a → IsCanonical b → IsCanonical (merge a b)
merge-IsCanonical a b ha hb = (get-merge a b ha hb).0

-- Both peers compute the same merged vector, whichever side they call their own.
pub merge_comm : (a b : VersionVector) → IsCanonical a → IsCanonical b → merge a b ≡ merge b a
merge_comm a b ha hb =
    let (hab, gab) = get-merge a b ha hb in
    let (hba, gba) = get-merge b a hb ha in
    get-ext _ _ hab hba (λ id. omega (arith, gab id, gba id))

-- A vector below the other adds nothing to it.
pub merge-Leq : (a b : VersionVector) → IsCanonical a → IsCanonical b → Leq a b → merge a b ≡ b
merge-Leq a b ha hb le =
    let (hab, gab) = get-merge a b ha hb in get-ext _ _ hab hb (λ id. omega (arith, gab id, le id))

-- The order in which histories are merged does not matter, and merging one twice changes nothing.
pub merge_laws :
    (a b c : VersionVector)
    → IsCanonical a
    → IsCanonical b
    → IsCanonical c
    → (merge (merge a b) c ≡ merge a (merge b c)) × (merge a b ≡ merge b a) × (merge a a ≡ a)
merge_laws a b c ha hb hc =
    let (hab, gab) = get-merge a b ha hb in
    let (hbc, gbc) = get-merge b c hb hc in
    let (hl, gl) = get-merge (merge a b) c hab hc in
    let (hr, gr) = get-merge a (merge b c) ha hbc in
    (
      get-ext _ _ hl hr (λ id. omega (arith, gl id, gab id, gr id, gbc id)),
      merge_comm a b ha hb,
      merge-Leq a a ha ha (λ id. omega arith),
    )

-- `Merge` is the least vector that both are below: it is below a third vector exactly when both
-- histories are.
pub merge_least :
    (a b c : VersionVector)
    → IsCanonical a
    → IsCanonical b
    → Leq (merge a b) c ↔ (Leq a c × Leq b c)
merge_least a b c ha hb =
    let (hab, gab) = get-merge a b ha hb in
    (
      λ le. ((λ id. omega (arith, gab id, le id)), (λ id. omega (arith, gab id, le id))),
      λ both id. omega (arith, gab id, both.0 id, both.1 id),
    )
