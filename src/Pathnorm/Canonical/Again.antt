-- ===== src/Pathnorm/Canonical/Again.antt =====
-- `CanonicalizeSlash` applied to a key that it has returned.
use merkle_lan_sync.Base.{
  ℕ, ◌≡◌, ◌≢◌, refl, ap, ◌∙◌, sym, arith, inl, inr, true, false, List, [], ◌∷◌, ◌++◌, append_assoc,
  append-nil, ok, bytes_eq, All, Bool-cases, bytes_eq-ne,
}
use mathlib.Core.List.{map, reverse, reverse-append}
use merkle_lan_sync.Pathnorm.Slash.{
  slash, dot, dot_dot, split, join, has_prefix, clean_step, clean_loop, clean, IsFree, split-join,
  dot_if_empty, split_free, split-append,
}
use merkle_lan_sync.Pathnorm.Canonical.{
  IsName, IsNormalisation, is_drive_letter, strip_volume_prefix, canonicalize_slash,
  normalize_component,
}
use merkle_lan_sync.Pathnorm.Canonical.Safe.{
  names-IsFree, map-IsName, clean_step_name, canonicalize_slash_shape,
}

clean_loop_names :
    (ws stack : List (List ℕ)) → All IsName ws → clean_loop ws stack ≡ reverse stack ++ ws
unfolding clean_loop
clean_loop_names [] stack h = sym (append-nil (reverse stack))
clean_loop_names (w ∷ ws) stack h =
    ap (clean_loop ws) (clean_step_name w stack h.0)
    ∙ clean_loop_names ws (w ∷ stack) h.1
    ∙ ap (λ l. l ++ ws) (reverse-append (w ∷ []) stack)
    ∙ append_assoc (reverse stack) (w ∷ []) ws

clean-join :
    (w : List ℕ) (ws : List (List ℕ))
    → All IsName (w ∷ ws)
    → clean (join slash (w ∷ ws)) ≡ join slash (w ∷ ws)
unfolding clean
clean-join w ws h =
    ap (λ l. dot_if_empty (clean_loop l [])) (split-join slash w ws (names-IsFree (w ∷ ws) h))
    ∙ ap dot_if_empty (clean_loop_names (w ∷ ws) [] h)

has_prefix_sound : (s p : List ℕ) → has_prefix s p ≡ true → (rest : List ℕ) × (s ≡ p ++ rest)
unfolding has_prefix
has_prefix_sound s [] h = (s, refl)
has_prefix_sound [] (p ∷ ps) h = cc
has_prefix_sound (c ∷ s) (p ∷ ps) h =
    let (rest, e) = has_prefix_sound s ps (ground arith) in (rest, ground (arith, e))

-- A path of names has its first name in front of its first slash.
module _ (w : List ℕ) (ws : List (List ℕ)) (h : All IsName (w ∷ ws)) where
  first_name :
      (v : List ℕ) (vs : List (List ℕ)) → split slash (join slash (w ∷ ws)) ≡ v ∷ vs → w ≡ v
  first_name v vs e = cc (split-join slash w ws (names-IsFree (w ∷ ws) h), e)

  join-ne : (v : List ℕ) → IsFree slash v → w ≢ v → bytes_eq (join slash (w ∷ ws)) v ≡ false
  join-ne v free ne =
      bytes_eq-ne _ v (λ e. ne (first_name v [] (ap (split slash) e ∙ split_free slash v free)))

  join_not_under :
      (v : List ℕ)
      → IsFree slash v
      → w ≢ v
      → has_prefix (join slash (w ∷ ws)) (v ++ (slash ∷ [])) ≡ false
  join_not_under v free ne =
      elim (Bool-cases (has_prefix (join slash (w ∷ ws)) (v ++ (slash ∷ [])))) [
        | inr e ↦ e
        | inl e ↦
            let (rest, shape) = has_prefix_sound _ (v ++ (slash ∷ [])) e in
            absurd (
              ne (
                first_name v (split slash rest) (
                  ap (split slash) (shape ∙ append_assoc v (slash ∷ []) rest)
                  ∙ split-append slash v rest free)))
      ]

-- A path of names, behind its volume prefix, is accepted and normalised component by component.
pub canonicalize_slash-join :
    (nfc : List ℕ → List ℕ) (s w : List ℕ) (ws : List (List ℕ))
    → All IsName (w ∷ ws)
    → strip_volume_prefix s ≡ join slash (w ∷ ws)
    → canonicalize_slash nfc s ≡ ok (join slash (map (normalize_component nfc) (w ∷ ws)))
unfolding canonicalize_slash
canonicalize_slash-join nfc s w ws h e = ground (
  arith,
  e,
  ap clean e ∙ clean-join w ws h,
  split-join slash w ws (names-IsFree (w ∷ ws) h),
  join-ne w ws h dot (omega arith) h.0.1,
  join-ne w ws h dot_dot (omega arith) h.0.2,
  join_not_under w ws h [] tt h.0.0,
  join_not_under w ws h dot_dot (omega arith) h.0.2,
)

map_again :
    (nfc : List ℕ → List ℕ)
    → IsNormalisation nfc
    → (ws : List (List ℕ))
    → map (normalize_component nfc) (map (normalize_component nfc) ws)
      ≡ map (normalize_component nfc) ws
unfolding normalize_component
map_again nfc N [] = refl
map_again nfc N (w ∷ ws) = rw (N.nfc_idem w) (ap (λ t. nfc w ∷ t) (map_again nfc N ws))

canonicalize_slash_root : (nfc : List ℕ → List ℕ) → canonicalize_slash nfc [] ≡ ok []
unfolding canonicalize_slash clean split clean_loop clean_step dot_if_empty join has_prefix bytes_eq
    strip_volume_prefix
canonicalize_slash_root nfc = refl

-- A key that `CanonicalizeSlash` has returned and that does not itself look like a path with a
-- volume prefix is returned unchanged when it is canonicalised again. The normalisation is relied
-- on to be idempotent and to keep a name a name.
pub canonicalize_slash_again :
    (nfc : List ℕ → List ℕ)
    → IsNormalisation nfc
    → (s k : List ℕ) → canonicalize_slash nfc s ≡ ok k
    → strip_volume_prefix k ≡ k
    → canonicalize_slash nfc k ≡ ok k
canonicalize_slash_again nfc N s k got plain = elim (canonicalize_slash_shape nfc s k got) [
  | inl root ↦ rw root (canonicalize_slash_root nfc)
  | inr (w, ws, e, names) ↦
      canonicalize_slash-join nfc k (normalize_component nfc w) (map (normalize_component nfc) ws)
        (map-IsName nfc N (w ∷ ws) names) (plain ∙ e)
      ∙ ap (λ l. ok (join slash l)) (map_again nfc N (w ∷ ws))
      ∙ ap ok (sym e)
]

strip_drive_once :
    (d : ℕ) (w : List ℕ) → is_drive_letter d ≡ true → strip_volume_prefix (d ∷ b':' ∷ w) ≡ w
unfolding strip_volume_prefix
strip_drive_once d w h = ground arith

-- `CanonicalizeSlash` is not idempotent: with a second drive prefix behind the first, the key it
-- returns is accepted again and loses that prefix too. For drive letters c and d and a name w that
-- the normalisation leaves alone, as it does `d:w`, `c:d:w` gives `d:w`, and `d:w` gives `w`.
pub canonicalize_slash_not_idem :
    (nfc : List ℕ → List ℕ)
    → (c d : ℕ) (w : List ℕ) → is_drive_letter c ≡ true
    → is_drive_letter d ≡ true
    → IsName w
    → nfc w ≡ w
    → nfc (d ∷ b':' ∷ w) ≡ d ∷ b':' ∷ w
    → (canonicalize_slash nfc (c ∷ b':' ∷ d ∷ b':' ∷ w) ≡ ok (d ∷ b':' ∷ w))
      × (canonicalize_slash nfc (d ∷ b':' ∷ w) ≡ ok w)
unfolding normalize_component join
canonicalize_slash_not_idem nfc c d w hc hd name fixed fixed_d = (
  canonicalize_slash-join nfc _ (d ∷ b':' ∷ w) [] (drive_name, tt)
        (strip_drive_once c (d ∷ b':' ∷ w) hc)
      ∙ ap ok fixed_d,
  canonicalize_slash-join nfc _ w [] (name, tt) (strip_drive_once d w hd) ∙ ap ok fixed,
)
  where
    drive_name : IsName (d ∷ b':' ∷ w)
    drive_name = (
      (λ e. cc e),
      (λ e. cc e),
      (λ e. ground (arith, e)),
      ((λ e. unfold is_drive_letter in ground (arith, hd, e)), ((λ e. omega (arith, e)), name.3)),
    )
