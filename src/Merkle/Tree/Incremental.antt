-- ===== src/Merkle/Tree/Incremental.antt =====
-- `Tree.Update` against a full `BuildTree`.
use mathlib.Core.Path.{subst}
use merkle_lan_sync.Base.{
  ℕ, ◌≡◌, refl, ap, ◌∙◌, arith, inl, inr, Option, none, some, List, [], ◌∷◌, ◌++◌, ok, Option-cases,
  Result-cases,
}
use merkle_lan_sync.Merkle.FileInfo.{FileInfo, zero_hash}
use merkle_lan_sync.Merkle.Tree.{
  Node, Children, leaf, dir, end, child, get_child, put_child, empty_dir, child_or_empty,
  split_path_components, place, build_loop, build_tree, rehash, rehash_children, hash_from_children,
  leaf_hash, cow_upsert, update, kids_of,
}
use merkle_lan_sync.Merkle.Tree.Build.{place_inv_here, place_inv_below, build_loop-append}
use merkle_lan_sync.Merkle.Tree.Map.{get_child-rehash, put_child-rehash}

module _ (sha256 : List ℕ → List ℕ) where
  -- The cached hash of a directory is not read.
  cow_upsert-hash :
      (kids : Children) (h g head : List ℕ) (rest : List (List ℕ)) (fi : FileInfo)
      → cow_upsert sha256 (dir kids h) head rest fi ≡ cow_upsert sha256 (dir kids g) head rest fi
  unfolding cow_upsert
  cow_upsert-hash kids h g head [] fi = refl
  cow_upsert-hash kids h g head (c ∷ rest) fi = refl

  cow_upsert-child :
      (kids : Children) (head c : List ℕ) (rest : List (List ℕ)) (fi : FileInfo)
      → cow_upsert sha256 (child_or_empty (get_child (rehash_children sha256 kids) head)) c rest fi
        ≡ cow_upsert sha256 (rehash sha256 (child_or_empty (get_child kids head))) c rest fi
  unfolding child_or_empty rehash
  cow_upsert-child kids head c rest fi = elim (Option-cases (get_child kids head)) [
    | inl e ↦ rw (get_child-rehash sha256 kids head) (rw e (cow_upsert-hash end _ _ c rest fi))
    | inr (n, e) ↦ rw (get_child-rehash sha256 kids head) (rw e refl)
  ]

  -- What `BuildTree` does for one more leaf, and `Update`, end in the same hashed tree.
  cow_upsert-place :
      (n n' : Node) (head : List ℕ) (rest : List (List ℕ)) (fi : FileInfo)
      → place n head rest fi ≡ ok n'
      → cow_upsert sha256 (rehash sha256 n) head rest fi ≡ ok (rehash sha256 n')
  unfolding place cow_upsert rehash
  cow_upsert-place (leaf f h) n' head rest fi e = cc
  cow_upsert-place (dir kids h) n' head [] fi e =
      let (absent, shape) = place_inv_here kids h head fi n' e in
      rw shape (
        rw (put_child-rehash sha256 kids head (leaf fi zero_hash))
          (ground (arith, get_child-rehash sha256 kids head, absent)))
  cow_upsert-place (dir kids h) n' head (c ∷ rest) fi e =
      let (m, done, shape) = place_inv_below kids h head c rest fi n' e in
      rw shape (
        rw (put_child-rehash sha256 kids head m) (
          ground (
            arith,
            cow_upsert-child kids head c rest fi,
            cow_upsert-place (child_or_empty (get_child kids head)) m c rest fi done,
          )))

  -- The hashes of a node are those that a rehash computes.
  abbrev pub IsHashed : Node → Type 0
  IsHashed n = rehash sha256 n ≡ n

  rehash_idem :
      (kids : Children)
      → rehash_children sha256 (rehash_children sha256 kids) ≡ rehash_children sha256 kids
  unfolding rehash
  rehash_idem end = refl
  rehash_idem (child k (leaf fi h) kids) = rw (rehash_idem kids) refl
  rehash_idem (child k (dir sub h) kids) = rw (rehash_idem sub) (rw (rehash_idem kids) refl)

  pub rehash-IsHashed : (n : Node) → IsHashed (rehash sha256 n)
  unfolding rehash
  rehash-IsHashed (leaf fi h) = refl
  rehash-IsHashed (dir kids h) = rw (rehash_idem kids) refl

  kids-IsHashed :
      (n : Node) → IsHashed n → rehash_children sha256 (kids_of (some n)) ≡ kids_of (some n)
  unfolding rehash kids_of
  kids-IsHashed (leaf fi h) e = refl
  kids-IsHashed (dir kids h) e = cc e

  child-IsHashed :
      (kids : Children) (head : List ℕ)
      → rehash_children sha256 kids ≡ kids
      → rehash_children sha256 (kids_of (some (child_or_empty (get_child kids head))))
        ≡ kids_of (some (child_or_empty (get_child kids head)))
  unfolding child_or_empty
  child-IsHashed kids head e = elim (Option-cases (get_child kids head)) [
    | inl absent ↦ rw absent (unfold kids_of rehash in refl)
    | inr (n, there) ↦ rw there (
        kids-IsHashed n
          (ground (arith, there, ap (λ k. get_child k head) e, get_child-rehash sha256 kids head)))
  ]

  pub upsert_inv_here :
      (kids : Children) (h head : List ℕ) (fi : FileInfo) (n' : Node)
      → cow_upsert sha256 (dir kids h) head [] fi ≡ ok n'
      → n'
        ≡ dir
            (put_child kids head (leaf fi (leaf_hash sha256 fi)))
            (hash_from_children sha256 (put_child kids head (leaf fi (leaf_hash sha256 fi))))
  unfolding cow_upsert
  upsert_inv_here kids h head fi n' e = ground arith

  pub upsert_inv_below :
      (kids : Children) (h head c : List ℕ) (rest : List (List ℕ)) (fi : FileInfo) (n' : Node)
      → cow_upsert sha256 (dir kids h) head (c ∷ rest) fi ≡ ok n'
      → (m : Node) × (cow_upsert sha256 (child_or_empty (get_child kids head)) c rest fi ≡ ok m)
        × (n' ≡ dir (put_child kids head m) (hash_from_children sha256 (put_child kids head m)))
  unfolding cow_upsert
  upsert_inv_below kids h head c rest fi n' e =
      elim (Result-cases (cow_upsert sha256 (child_or_empty (get_child kids head)) c rest fi)) [
        | inl (m, done) ↦ (m, done, ground (arith, done))
        | inr (x, failed) ↦ absurd (ground (arith, failed))
      ]

  dir-IsHashed :
      (kids : Children) (head : List ℕ) (n : Node)
      → rehash_children sha256 kids ≡ kids
      → IsHashed n
      → IsHashed (dir (put_child kids head n) (hash_from_children sha256 (put_child kids head n)))
  unfolding rehash
  dir-IsHashed kids head n hk hn =
      let same : rehash_children sha256 (put_child kids head n) ≡ put_child kids head n =
        put_child-rehash sha256 kids head n
        ∙ ap (λ k. put_child k head (rehash sha256 n)) hk
        ∙ ap (put_child kids head) hn in
      rw same refl

  cow_upsert-IsHashed :
      (n n' : Node) (head : List ℕ) (rest : List (List ℕ)) (fi : FileInfo)
      → rehash_children sha256 (kids_of (some n)) ≡ kids_of (some n)
      → cow_upsert sha256 n head rest fi ≡ ok n'
      → IsHashed n'
  unfolding kids_of
  cow_upsert-IsHashed (leaf f h) n' head rest fi hk e = unfold cow_upsert in cc
  cow_upsert-IsHashed (dir kids h) n' head [] fi hk e =
      rw (upsert_inv_here kids h head fi n' e) (dir-IsHashed kids head _ hk (unfold rehash in refl))
  cow_upsert-IsHashed (dir kids h) n' head (c ∷ rest) fi hk e =
      let (m, done, shape) = upsert_inv_below kids h head c rest fi n' e in
      rw shape (
        dir-IsHashed kids head m hk (
          cow_upsert-IsHashed (child_or_empty (get_child kids head)) m c rest fi
            (child-IsHashed kids head hk) done))

-- The invariant of a tree: each cached hash is the one that a full rehash computes.
abbrev pub IsTree : (List ℕ → List ℕ) → Option Node → Type 0
IsTree sha256 none = Unit {0}
IsTree sha256 (some n) = IsHashed sha256 n

pub update_inv :
    (sha256 : List ℕ → List ℕ) (t : Option Node) (fi : FileInfo) (n' : Node)
    → update sha256 t fi ≡ ok n'
    → (head : List ℕ) × (rest : List (List ℕ)) × (split_path_components fi.path ≡ ok (head, rest))
      × (cow_upsert sha256 (child_or_empty t) head rest fi ≡ ok n')
unfolding update
update_inv sha256 t fi n' e = elim (Result-cases (split_path_components fi.path)) [
  | inl ((head, rest), parts) ↦ (head, rest, parts, ground (arith, parts))
  | inr (x, failed) ↦ absurd (ground (arith, failed))
]

tree_kids :
    (sha256 : List ℕ → List ℕ) (t : Option Node)
    → IsTree sha256 t
    → rehash_children sha256 (kids_of (some (child_or_empty t))) ≡ kids_of (some (child_or_empty t))
unfolding child_or_empty
tree_kids sha256 none h = unfold kids_of rehash in refl
tree_kids sha256 (some n) h = kids-IsHashed sha256 n h

-- `Update` of a tree whose cached hashes are those of a full rehash, or of no tree, returns such a
-- tree: re-hashing only the changed path leaves no stale hash.
pub update-IsTree :
    (sha256 : List ℕ → List ℕ)
    → (t : Option Node) (fi : FileInfo) (n' : Node) → IsTree sha256 t
    → update sha256 t fi ≡ ok n'
    → IsTree sha256 (some n')
update-IsTree sha256 t fi n' h e =
    let (head, rest, parts, done) = update_inv sha256 t fi n' e in
    cow_upsert-IsHashed sha256 (child_or_empty t) n' head rest fi (tree_kids sha256 t h) done

-- Where `BuildTree` accepts a set of leaves with one more at its end, it accepts the set without
-- it, and `Update` of that tree with the leaf returns the very tree that the full build returns.
pub update-build_tree :
    (sha256 : List ℕ → List ℕ)
    → (set : List FileInfo) (fi : FileInfo) (t : Node) → build_tree sha256 (set ++ (fi ∷ [])) ≡ ok t
    → (before : Node) × (build_tree sha256 set ≡ ok before)
      × (update sha256 (some before) fi ≡ ok t)
unfolding build_tree update child_or_empty
update-build_tree sha256 set fi t e =
    elim (Result-cases (build_loop empty_dir (set ++ (fi ∷ [])))) [
      | inr (y, failed) ↦ absurd (ground (arith, failed))
      | inl (n, whole) ↦
          let (m, head, rest, built, parts, placed) = build_loop-append empty_dir n set fi whole in
          (
            rehash sha256 m,
            ground (arith, built),
            ground (arith, parts, whole, cow_upsert-place sha256 m n head rest fi placed),
          )
    ]

-- `BuildTree` returns a tree whose cached hashes are those of a full rehash.
pub build_tree-IsTree :
    (sha256 : List ℕ → List ℕ) (set : List FileInfo) (t : Node)
    → build_tree sha256 set ≡ ok t
    → IsTree sha256 (some t)
unfolding build_tree
build_tree-IsTree sha256 set t e = elim (Result-cases (build_loop empty_dir set)) [
  | inr (y, failed) ↦ absurd (ground (arith, failed))
  | inl (n, built) ↦
      let same : rehash sha256 n ≡ t = ground (arith, built) in
      subst (IsHashed sha256) same (rehash-IsHashed sha256 n)
]
