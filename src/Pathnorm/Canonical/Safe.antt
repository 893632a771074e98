-- ===== src/Pathnorm/Canonical/Safe.antt =====
-- A key that `CanonicalizeSlash` returns cannot leave the sync root.
use merkle_lan_sync.Base.{
  ℕ, ◌≡◌, refl, ap, ◌∙◌, arith, ◌⊎◌, inl, inr, Bool, true, false, List, [], ◌∷◌, ◌++◌, ok, ◌||◌,
  if◌then◌else◌, bytes_eq, bytes_eq_iff, All, All-append, Bool-cases, bytes_eq-ne, bytes_eq_ne,
}
use mathlib.Core.List.{map, reverse, reverse-append}
use merkle_lan_sync.Pathnorm.Slash.{
  slash, dot, dot_dot, split, join, has_prefix, clean_step, clean_loop, clean, IsFree, split-join,
  split-IsFree, dot_if_empty,
}
use merkle_lan_sync.Pathnorm.Canonical.{
  IsName, IsNormalisation, strip_volume_prefix, canonicalize_slash, normalize_component,
}

All-reverse : (ws : List (List ℕ)) → All IsName ws → All IsName (reverse ws)
All-reverse [] h = tt
All-reverse (w ∷ ws) h =
    rw (reverse-append (w ∷ []) ws)
      (All-append IsName (reverse ws) (w ∷ []) (All-reverse ws h.1) (h.0, tt))

-- The stack of `path.Clean` holds names, or climbs out of the directory at its bottom.
abbrev IsStack : List (List ℕ) → Type 0
IsStack stack = All IsName stack ⊎ ((s : List (List ℕ)) × (stack ≡ s ++ (dot_dot ∷ [])))

pub clean_step_name :
    (w : List ℕ) (stack : List (List ℕ)) → IsName w → clean_step w stack ≡ w ∷ stack
unfolding clean_step
clean_step_name w [] (some_byte, not_dot, not_up, free) =
    rw (bytes_eq-ne w [] some_byte) (rw (bytes_eq-ne w dot not_dot) refl)
clean_step_name w (top ∷ stack) (some_byte, not_dot, not_up, free) =
    rw (bytes_eq-ne w [] some_byte)
      (rw (bytes_eq-ne w dot not_dot) (rw (bytes_eq-ne w dot_dot not_up) refl))

clean_step_up :
    (top : List ℕ) (stack : List (List ℕ))
    → clean_step dot_dot (top ∷ stack)
      ≡ (if bytes_eq top dot_dot then dot_dot ∷ top ∷ stack else stack)
unfolding clean_step bytes_eq
clean_step_up top stack = refl

clean_step_same :
    (w : List ℕ) (stack : List (List ℕ)) → (w ≡ []) ⊎ (w ≡ dot) → clean_step w stack ≡ stack
unfolding clean_step bytes_eq
clean_step_same w [] (inl e) = rw e refl
clean_step_same w [] (inr e) = rw e refl
clean_step_same w (top ∷ stack) (inl e) = rw e refl
clean_step_same w (top ∷ stack) (inr e) = rw e refl

-- A component is dropped, climbs, or is a name.
component_cases :
    (w : List ℕ) → IsFree slash w → ((w ≡ []) ⊎ (w ≡ dot)) ⊎ ((w ≡ dot_dot) ⊎ IsName w)
component_cases w free = elim (Bool-cases (bytes_eq w [])) [
  | inl e ↦ inl (inl ((bytes_eq_iff w []).0 e))
  | inr some_byte ↦ elim (Bool-cases (bytes_eq w dot)) [
    | inl e ↦ inl (inr ((bytes_eq_iff w dot).0 e))
    | inr not_dot ↦ elim (Bool-cases (bytes_eq w dot_dot)) [
      | inl e ↦ inr (inl ((bytes_eq_iff w dot_dot).0 e))
      | inr not_up ↦ inr (
          inr (
            bytes_eq_ne w [] some_byte,
            bytes_eq_ne w dot not_dot,
            bytes_eq_ne w dot_dot not_up,
            free,
          ))
    ]
  ]
]

-- One step up from a stack of names, and from one that climbs.
up_names : (stack : List (List ℕ)) → All IsName stack → IsStack (clean_step dot_dot stack)
up_names [] h = inr ([], unfold clean_step bytes_eq in refl)
up_names (top ∷ stack) h =
    rw (clean_step_up top stack) (rw (bytes_eq-ne top dot_dot h.0.2) (inl h.1))

up_climbs : (s : List (List ℕ)) → IsStack (clean_step dot_dot (s ++ (dot_dot ∷ [])))
up_climbs [] = inr (dot_dot ∷ [], unfold clean_step bytes_eq in refl)
up_climbs (top ∷ s) = rw clean_step_up (elim (Bool-cases (bytes_eq top dot_dot)) [
  | inl e ↦ rw e (inr (dot_dot ∷ top ∷ s, refl))
  | inr e ↦ rw e (inr (s, refl))
])

up_IsStack : (stack : List (List ℕ)) → IsStack stack → IsStack (clean_step dot_dot stack)
up_IsStack stack (inl names) = up_names stack names
up_IsStack stack (inr (s, e)) = rw e (up_climbs s)

clean_step-IsStack :
    (w : List ℕ) (stack : List (List ℕ))
    → IsFree slash w
    → IsStack stack
    → IsStack (clean_step w stack)
clean_step-IsStack w stack free h = elim (component_cases w free) [
  | inl dropped ↦ rw (clean_step_same w stack dropped) h
  | inr (inl up) ↦ rw up (up_IsStack stack h)
  | inr (inr name) ↦
      rw (clean_step_name w stack name)
        (elim h [ inl names ↦ inl (name, names) | inr (s, e) ↦ inr (w ∷ s, ap (λ t. w ∷ t) e) ])
]

-- What the loop leaves: names only, or a path that begins by climbing.
abbrev IsCleaned : List (List ℕ) → Type 0
IsCleaned ws = All IsName ws ⊎ ((rest : List (List ℕ)) × (ws ≡ dot_dot ∷ rest))

reverse-IsCleaned : (stack : List (List ℕ)) → IsStack stack → IsCleaned (reverse stack)
reverse-IsCleaned stack (inl names) = inl (All-reverse stack names)
reverse-IsCleaned stack (inr (s, e)) =
    inr (reverse s, ap reverse e ∙ reverse-append s (dot_dot ∷ []))

clean_loop-IsCleaned :
    (ws stack : List (List ℕ))
    → All (IsFree slash) ws
    → IsStack stack
    → IsCleaned (clean_loop ws stack)
unfolding clean_loop
clean_loop-IsCleaned [] stack free h = reverse-IsCleaned stack h
clean_loop-IsCleaned (w ∷ ws) stack free h =
    clean_loop-IsCleaned ws (clean_step w stack) free.1 (clean_step-IsStack w stack free.0 h)

-- A key that is the root, or a path of names below it.
abbrev pub IsKey : List ℕ → Type 0
IsKey k =
    (k ≡ [])
    ⊎ ((w : List ℕ) × (ws : List (List ℕ)) × (k ≡ join slash (w ∷ ws)) × All IsName (w ∷ ws))

pub names-IsFree : (ws : List (List ℕ)) → All IsName ws → All (IsFree slash) ws
names-IsFree [] h = tt
names-IsFree (w ∷ ws) h = (h.0.3, names-IsFree ws h.1)

climbs_refused :
    (rest : List (List ℕ))
    → (bytes_eq (dot_if_empty (dot_dot ∷ rest)) dot_dot
        || has_prefix (dot_if_empty (dot_dot ∷ rest)) (b'.' ∷ b'.' ∷ slash ∷ []))
      ≡ true
unfolding dot_if_empty join has_prefix bytes_eq
climbs_refused [] = refl
climbs_refused (w ∷ rest) = refl

climbs-ne-dot : (rest : List (List ℕ)) → bytes_eq (dot_if_empty (dot_dot ∷ rest)) dot ≡ false
unfolding dot_if_empty join bytes_eq
climbs-ne-dot [] = refl
climbs-ne-dot (w ∷ rest) = refl

clean-IsCleaned : (s : List ℕ) → (ws : List (List ℕ)) × (clean s ≡ dot_if_empty ws) × IsCleaned ws
unfolding clean
clean-IsCleaned s = (
  clean_loop (split slash s) [],
  refl,
  clean_loop-IsCleaned (split slash s) [] (split-IsFree slash s) (inl tt),
)

pub map-IsName :
    (nfc : List ℕ → List ℕ)
    → IsNormalisation nfc
    → (ws : List (List ℕ)) → All IsName ws
    → All IsName (map (normalize_component nfc) ws)
unfolding normalize_component
map-IsName nfc N [] h = tt
map-IsName nfc N (w ∷ ws) h = (N.nfc-IsName w h.0, map-IsName nfc N ws h.1)

-- The root, or names below it that were normalised one by one.
abbrev pub IsKeyOf : (List ℕ → List ℕ) → List ℕ → Type 0
IsKeyOf nfc k =
    (k ≡ [])
    ⊎ ((w : List ℕ) × (ws : List (List ℕ)) × (k
          ≡ join slash (map (normalize_component nfc) (w ∷ ws)))
        × All IsName (w ∷ ws))

module _ (nfc : List ℕ → List ℕ) where
  canon_inv :
      (s k c : List ℕ)
      → clean (strip_volume_prefix s) ≡ c
      → canonicalize_slash nfc s ≡ ok k
      → (k ≡ [])
        ⊎ ((bytes_eq c dot ≡ false)
            × ((bytes_eq c dot_dot || has_prefix c (b'.' ∷ b'.' ∷ slash ∷ [])) ≡ false)
            × (k ≡ join slash (map (normalize_component nfc) (split slash c))))
  unfolding canonicalize_slash
  canon_inv s k c e got = ground arith

  -- The part of `canonFromComponents` behind the cleaning, on what the cleaning leaves.
  canon_cleaned :
      (k : List ℕ) (ws : List (List ℕ))
      → IsCleaned ws
      → bytes_eq (dot_if_empty ws) dot ≡ false
      → (bytes_eq (dot_if_empty ws) dot_dot
          || has_prefix (dot_if_empty ws) (b'.' ∷ b'.' ∷ slash ∷ []))
        ≡ false
      → k ≡ join slash (map (normalize_component nfc) (split slash (dot_if_empty ws)))
      → IsKeyOf nfc k
  canon_cleaned k [] (inl names) not_dot stays e = unfold dot_if_empty bytes_eq in cc
  canon_cleaned k (w ∷ ws) (inl names) not_dot stays e =
      inr (w, ws, e ∙ ap (λ l. join slash (map (normalize_component nfc) l)) parts, names)
    where
      parts : split slash (dot_if_empty (w ∷ ws)) ≡ w ∷ ws
      parts = unfold dot_if_empty in split-join slash w ws (names-IsFree (w ∷ ws) names)
  canon_cleaned k ws (inr (rest, up)) not_dot stays e = cc (climbs_refused rest, ap refusal up)
    where
      refusal : List (List ℕ) → Bool
      refusal l =
          bytes_eq (dot_if_empty l) dot_dot
          || has_prefix (dot_if_empty l) (b'.' ∷ b'.' ∷ slash ∷ [])

  pub canonicalize_slash_shape : (s k : List ℕ) → canonicalize_slash nfc s ≡ ok k → IsKeyOf nfc k
  canonicalize_slash_shape s k got =
      let (ws, e, cleaned) = clean-IsCleaned (strip_volume_prefix s) in
      elim (canon_inv s k (dot_if_empty ws) e got) [
        | inl root ↦ inl root
        | inr (not_dot, stays, shape) ↦ canon_cleaned k ws cleaned not_dot stays shape
      ]

-- Whatever string arrives, a key that `CanonicalizeSlash` returns is the root, or a path whose
-- components are not empty, not `.`, not `..` and hold no slash: it names something below the
-- sync root. The normalisation is relied on to keep a name a name, and to be idempotent.
pub canonicalize_slash-IsKey :
    (nfc : List ℕ → List ℕ)
    → IsNormalisation nfc
    → (s k : List ℕ) → canonicalize_slash nfc s ≡ ok k
    → IsKey k
canonicalize_slash-IsKey nfc N s k got = elim (canonicalize_slash_shape nfc s k got) [
  | inl root ↦ inl root
  | inr (w, ws, e, names) ↦ inr (
    normalize_component nfc w,
    map (normalize_component nfc) ws,
    e,
    map-IsName nfc N (w ∷ ws) names,
  )
]
