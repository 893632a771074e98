-- ===== src/Merkle/Tree/Build.antt =====
-- The steps of `BuildTree` read backwards.
use merkle_lan_sync.Base.{
  ℕ, ◌≡◌, refl, ap, ◌∙◌, arith, inl, inr, none, List, [], ◌∷◌, ◌++◌, ok, Result-cases,
}
use merkle_lan_sync.Merkle.FileInfo.{FileInfo, zero_hash}
use merkle_lan_sync.Merkle.Tree.{
  Node, Children, leaf, dir, get_child, put_child, child_or_empty, split_path_components, place,
  build_loop,
}

-- What a step that succeeded has done.
pub place_inv_here :
    (kids : Children) (h head : List ℕ) (fi : FileInfo) (n' : Node)
    → place (dir kids h) head [] fi ≡ ok n'
    → (get_child kids head ≡ none) × (n' ≡ dir (put_child kids head (leaf fi zero_hash)) h)
unfolding place
place_inv_here kids h head fi n' e = ground arith

pub place_inv_below :
    (kids : Children) (h head c : List ℕ) (rest : List (List ℕ)) (fi : FileInfo) (n' : Node)
    → place (dir kids h) head (c ∷ rest) fi ≡ ok n'
    → (m : Node) × (place (child_or_empty (get_child kids head)) c rest fi ≡ ok m)
      × (n' ≡ dir (put_child kids head m) h)
unfolding place
place_inv_below kids h head c rest fi n' e =
    elim (Result-cases (place (child_or_empty (get_child kids head)) c rest fi)) [
      | inl (m, done) ↦ (m, done, ground (arith, done))
      | inr (x, failed) ↦ absurd (ground (arith, failed))
    ]

-- One leaf of the loop of `BuildTree`.
pub build_loop_inv :
    (root t : Node) (x : FileInfo) (set : List FileInfo)
    → build_loop root (x ∷ set) ≡ ok t
    → (m : Node) × (head : List ℕ) × (rest : List (List ℕ)) × (split_path_components x.path
        ≡ ok (head, rest))
      × (place root head rest x ≡ ok m)
      × (build_loop m set ≡ ok t)
unfolding build_loop
build_loop_inv root t x set e = elim (Result-cases (split_path_components x.path)) [
  | inr (y, failed) ↦ absurd (ground (arith, failed))
  | inl ((head, rest), parts) ↦ elim (Result-cases (place root head rest x)) [
    | inr (y, failed) ↦ absurd (ground (arith, parts, failed))
    | inl (m, placed) ↦ (m, head, rest, parts, placed, ground (arith, parts, placed))
  ]
]

pub build_loop_step :
    (root m : Node) (x : FileInfo) (set : List FileInfo) (head : List ℕ) (rest : List (List ℕ))
    → split_path_components x.path ≡ ok (head, rest)
    → place root head rest x ≡ ok m
    → build_loop root (x ∷ set) ≡ build_loop m set
unfolding build_loop
build_loop_step root m x set head rest parts placed = ground (arith, parts, placed)

pub build_loop-append :
    (root t : Node) (set : List FileInfo) (fi : FileInfo)
    → build_loop root (set ++ (fi ∷ [])) ≡ ok t
    → (m : Node) × (head : List ℕ) × (rest : List (List ℕ)) × (build_loop root set ≡ ok m)
      × (split_path_components fi.path ≡ ok (head, rest))
      × (place m head rest fi ≡ ok t)
build_loop-append root t [] fi e =
    let (m, head, rest, parts, placed, done) = build_loop_inv root t fi [] e in
    let same : m ≡ t = unfold build_loop in cc done in
    (root, head, rest, (unfold build_loop in refl), parts, placed ∙ ap ok same)
build_loop-append root t (x ∷ set) fi e =
    let (m, head, rest, parts, placed, done) = build_loop_inv root t x (set ++ (fi ∷ [])) e in
    let (m', head', rest', built, parts', placed') = build_loop-append m t set fi done in
    (m', head', rest', build_loop_step root m x set head rest parts placed ∙ built, parts', placed')
