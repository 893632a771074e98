-- ===== src/Pathnorm/Slash.antt =====
-- `strings.Split`, `strings.Join`, `strings.HasPrefix` and `path.Clean`, as internal/pathnorm uses
-- them. A path is its bytes.
use merkle_lan_sync.Base.{
  ℕ, ◌≡◌, ◌≢◌, refl, ap, ◌∙◌, arith, Bool, true, false, List, [], ◌∷◌, ◌++◌, if◌then◌else◌, ◌==◌,
  All, bytes_eq, Bool-cases, inl, inr, ◌&&◌,
}
use mathlib.Core.List.{reverse}

abbrev pub slash : ℕ
slash = b'/'

abbrev pub dot : List ℕ
dot = b'.' ∷ []

abbrev pub dot_dot : List ℕ
dot_dot = b'.' ∷ b'.' ∷ []

-- A byte in front of the first piece.
unfoldable pub put_first : ℕ → List (List ℕ) → List (List ℕ)
put_first c [] = (c ∷ []) ∷ []
put_first c (w ∷ ws) = (c ∷ w) ∷ ws

-- `strings.Split`; the empty string has one piece.
unfoldable pub split : ℕ → List ℕ → List (List ℕ)
unfolding put_first
split sep [] = [] ∷ []
split sep (c ∷ cs) = let rest = split sep cs in if c == sep then [] ∷ rest else put_first c rest

unfoldable pub join : ℕ → List (List ℕ) → List ℕ
join sep [] = []
join sep (w ∷ []) = w
join sep (w ∷ x ∷ ws) = w ++ (sep ∷ join sep (x ∷ ws))

unfoldable pub has_prefix : List ℕ → List ℕ → Bool
has_prefix s [] = true
has_prefix [] (p ∷ ps) = false
has_prefix (c ∷ s) (p ∷ ps) = (c == p) && has_prefix s ps

-- What is left of the path at one more component; the stack has the last one on top.
unfoldable pub clean_step : List ℕ → List (List ℕ) → List (List ℕ)
unfolding bytes_eq
clean_step w [] = if bytes_eq w [] then [] else if bytes_eq w dot then [] else w ∷ []
clean_step w (top ∷ stack) =
    if bytes_eq w []
    then top ∷ stack
    else if bytes_eq w dot
    then top ∷ stack
    else if bytes_eq w dot_dot
    then if bytes_eq top dot_dot then w ∷ top ∷ stack else stack
    else w ∷ top ∷ stack

unfoldable pub clean_loop : List (List ℕ) → List (List ℕ) → List (List ℕ)
clean_loop [] stack = reverse stack
clean_loop (w ∷ ws) stack = clean_loop ws (clean_step w stack)

unfoldable pub dot_if_empty : List (List ℕ) → List ℕ
dot_if_empty [] = dot
dot_if_empty (w ∷ ws) = join slash (w ∷ ws)

-- `path.Clean` of a path that does not begin with a slash.
unfoldable pub clean : List ℕ → List ℕ
unfolding split clean_loop clean_step dot_if_empty join
clean s = dot_if_empty (clean_loop (split slash s) [])

-- No byte of the word is the separator.
abbrev pub IsFree : ℕ → List ℕ → Type 0
IsFree sep w = All (λ c. c ≢ sep) w

pub split_free : (sep : ℕ) (w : List ℕ) → IsFree sep w → split sep w ≡ w ∷ []
unfolding split
split_free sep [] h = refl
split_free sep (c ∷ w) h = rw (split_free sep w h.1) (ground (arith, h.0))

pub split-append :
    (sep : ℕ) (w rest : List ℕ) → IsFree sep w → split sep (w ++ (sep ∷ rest)) ≡ w ∷ split sep rest
unfolding split
split-append sep [] rest h = ground arith
split-append sep (c ∷ w) rest h = rw (split-append sep w rest h.1) (ground (arith, h.0))

-- Words without the separator come back from their join.
pub split-join :
    (sep : ℕ) (w : List ℕ) (ws : List (List ℕ))
    → All (IsFree sep) (w ∷ ws)
    → split sep (join sep (w ∷ ws)) ≡ w ∷ ws
unfolding join
split-join sep w [] h = split_free sep w h.0
split-join sep w (x ∷ ws) h =
    split-append sep w (join sep (x ∷ ws)) h.0 ∙ ap (λ t. w ∷ t) (split-join sep x ws h.1)

put_first-IsFree :
    (sep c : ℕ) (ws : List (List ℕ))
    → c ≢ sep
    → All (IsFree sep) ws
    → All (IsFree sep) (put_first c ws)
unfolding put_first
put_first-IsFree sep c [] ne h = ((ne, tt), tt)
put_first-IsFree sep c (w ∷ ws) ne h = ((ne, h.0), h.1)

pub split-IsFree : (sep : ℕ) (s : List ℕ) → All (IsFree sep) (split sep s)
unfolding split
split-IsFree sep [] = (tt, tt)
split-IsFree sep (c ∷ s) = elim (Bool-cases (c == sep)) [
  | inl at ↦ rw at (tt, split-IsFree sep s)
  | inr off ↦ rw off (put_first-IsFree sep c _ (ground arith) (split-IsFree sep s))
]

join-put_first : (sep c : ℕ) (ws : List (List ℕ)) → join sep (put_first c ws) ≡ c ∷ join sep ws
unfolding join put_first
join-put_first sep c [] = refl
join-put_first sep c (w ∷ []) = refl
join-put_first sep c (w ∷ x ∷ ws) = refl

put_first_cases :
    (c : ℕ) (ws : List (List ℕ)) → (w : List ℕ) × (ws' : List (List ℕ)) × (put_first c ws ≡ w ∷ ws')
unfolding put_first
put_first_cases c [] = (c ∷ [], [], refl)
put_first_cases c (w ∷ ws) = (c ∷ w, ws, refl)

split_cases : (sep : ℕ) (s : List ℕ) → (w : List ℕ) × (ws : List (List ℕ)) × (split sep s ≡ w ∷ ws)
unfolding split
split_cases sep [] = ([], [], refl)
split_cases sep (c ∷ s) = elim (Bool-cases (c == sep)) [
  | inl at ↦ rw at ([], split sep s, refl)
  | inr off ↦ rw off (put_first_cases c (split sep s))
]

join_gap :
    (sep : ℕ) (ws : List (List ℕ)) (w : List ℕ) (ws' : List (List ℕ))
    → ws ≡ w ∷ ws'
    → join sep ([] ∷ ws) ≡ sep ∷ join sep ws
unfolding join
join_gap sep ws w ws' e = rw e refl

-- The pieces joined again are the string.
pub join-split : (sep : ℕ) (s : List ℕ) → join sep (split sep s) ≡ s
unfolding split
join-split sep [] = unfold join in refl
join-split sep (c ∷ s) =
    let below = join-split sep s in
    elim (Bool-cases (c == sep)) [
      | inl at ↦ rw at (
          let (w, ws, shape) = split_cases sep s in
          join_gap sep (split sep s) w ws shape ∙ ground (arith, below))
      | inr off ↦ rw off (join-put_first sep c (split sep s) ∙ ap (λ t. c ∷ t) below)
    ]
