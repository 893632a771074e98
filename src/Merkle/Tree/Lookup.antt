-- ===== src/Merkle/Tree/Lookup.antt =====
-- What `Lookup` finds after an `Update`, and in a tree that `BuildTree` made.
use merkle_lan_sync.Base.{
  ℕ, ◌≡◌, refl, ap, sym, ◌∙◌, arith, inl, inr, false, Option, none, some, List, [], ◌∷◌, ok,
  Result-cases, Bool-cases, bytes_eq, bytes_eq_iff, bytes_eq_ne, if◌then◌else◌, length, ◌==◌,
}
use merkle_lan_sync.Pathnorm.Slash.{slash, split, join, join-split}
use merkle_lan_sync.Merkle.FileInfo.{FileInfo}
use merkle_lan_sync.Merkle.Tree.{
  Node, empty_dir, child_or_empty, split_path_components, first_and_rest, place, update, walk,
  lookup_path, build_loop, build_tree, rehash,
}
use merkle_lan_sync.Merkle.Tree.Build.{build_loop_inv}
use merkle_lan_sync.Merkle.Tree.Incremental.{update_inv}
use merkle_lan_sync.Merkle.Tree.Walk.{
  same_path, same_path_iff, walk_empty, walk-child_or_empty, walk-cow_upsert, walk-place,
  walk-rehash,
}

first_and_rest_inv :
    (cs : List (List ℕ)) (head : List ℕ) (rest : List (List ℕ))
    → first_and_rest cs ≡ ok (head, rest)
    → cs ≡ head ∷ rest
unfolding first_and_rest
first_and_rest_inv [] head rest e = cc
first_and_rest_inv (c ∷ cs) head rest e = cc

parts_inv :
    (path head : List ℕ) (rest : List (List ℕ))
    → split_path_components path ≡ ok (head, rest)
    → ((length path == 0) ≡ false) × (split slash path ≡ head ∷ rest)
unfolding split_path_components
parts_inv path head rest e = ground (arith, first_and_rest_inv (split slash path) head rest)

same_path-split : (p q : List ℕ) → same_path (split slash p) (split slash q) ≡ bytes_eq p q
same_path-split p q = elim (Bool-cases (bytes_eq p q)) [
  | inl e ↦
      (same_path_iff (split slash p) (split slash q)).1 (ap (split slash) ((bytes_eq_iff p q).0 e))
      ∙ sym e
  | inr e ↦ elim (Bool-cases (same_path (split slash p) (split slash q))) [
    | inr differ ↦ differ ∙ sym e
    | inl same ↦ absurd (
        bytes_eq_ne p q e (
          sym (join-split slash p)
          ∙ ap (join slash) ((same_path_iff (split slash p) (split slash q)).0 same)
          ∙ join-split slash q))
  ]
]

-- What a write of the leaf at its path does to a lookup.
lookup_path_step :
    (t n' : Option Node) (fi : FileInfo) (head : List ℕ) (rest : List (List ℕ))
    → split_path_components fi.path ≡ ok (head, rest)
    → ((ds : List (List ℕ))
        → walk n' ds ≡ (if same_path (head ∷ rest) ds then some fi else walk t ds))
    → (p : List ℕ) → lookup_path n' p ≡ (if bytes_eq fi.path p then some fi else lookup_path t p)
unfolding lookup_path
lookup_path_step t n' fi head rest parts written p =
    let (some_byte, comps) = parts_inv fi.path head rest parts in
    ground (
      arith,
      written (split slash p),
      ap (λ cs. same_path cs (split slash p)) (sym comps) ∙ same_path-split fi.path p,
      some_byte,
      bytes_eq_iff fi.path p,
    )

-- After an `Update` that succeeds, `Lookup` finds the new leaf at its path, and at every other path
-- what it found before.
pub lookup_path-update :
    (sha256 : List ℕ → List ℕ)
    → (t : Option Node) (fi : FileInfo) (n' : Node) (p : List ℕ) → update sha256 t fi ≡ ok n'
    → lookup_path (some n') p ≡ (if bytes_eq fi.path p then some fi else lookup_path t p)
lookup_path-update sha256 t fi n' p e =
    let (head, rest, parts, done) = update_inv sha256 t fi n' e in
    lookup_path_step t (some n') fi head rest parts
      (λ ds.
        walk-cow_upsert sha256 (child_or_empty t) n' head rest fi done ds
        ∙ ap (λ w. if same_path (head ∷ rest) ds then some fi else w) (walk-child_or_empty t ds))
      p

-- The leaf of a set with the given path, the last one if there are several.
unfoldable pub find_leaf : List FileInfo → List ℕ → Option FileInfo
find_leaf [] p = none
find_leaf (fi ∷ set) p = elim (find_leaf set p) [
  | some g ↦ some g
  | none ↦ if bytes_eq fi.path p then some fi else none
]

unfoldable pub find_leaf_or : Option FileInfo → Option FileInfo → Option FileInfo
find_leaf_or (some g) other = some g
find_leaf_or none other = other

lookup_path-place :
    (root m : Node) (fi : FileInfo) (head : List ℕ) (rest : List (List ℕ)) (p : List ℕ)
    → split_path_components fi.path ≡ ok (head, rest)
    → place root head rest fi ≡ ok m
    → lookup_path (some m) p ≡ (if bytes_eq fi.path p then some fi else lookup_path (some root) p)
lookup_path-place root m fi head rest p parts done =
    lookup_path_step (some root) (some m) fi head rest parts (walk-place root m head rest fi done) p

lookup_path-build_loop :
    (set : List FileInfo) (root t : Node) (p : List ℕ)
    → build_loop root set ≡ ok t
    → lookup_path (some t) p ≡ find_leaf_or (find_leaf set p) (lookup_path (some root) p)
unfolding find_leaf find_leaf_or
lookup_path-build_loop [] root t p e =
    let same : root ≡ t = unfold build_loop in cc e in ap (λ n. lookup_path (some n) p) (sym same)
lookup_path-build_loop (fi ∷ set) root t p e =
    let (m, head, rest, parts, done, later) = build_loop_inv root t fi set e in
    ground (
      arith,
      lookup_path-build_loop set m t p later,
      lookup_path-place root m fi head rest p parts done,
    )

lookup_path-rehash :
    (sha256 : List ℕ → List ℕ) (n : Node) (p : List ℕ)
    → lookup_path (some (rehash sha256 n)) p ≡ lookup_path (some n) p
unfolding lookup_path
lookup_path-rehash sha256 n p = rw (walk-rehash sha256 (split slash p) n) refl

lookup_path_empty : (p : List ℕ) → lookup_path (some empty_dir) p ≡ none
unfolding lookup_path
lookup_path_empty p = rw (walk_empty (split slash p)) (ground arith)

pub find_leaf_or-none : (o : Option FileInfo) → find_leaf_or o none ≡ o
unfolding find_leaf_or
find_leaf_or-none none = refl
find_leaf_or-none (some g) = refl

build_tree_inv :
    (sha256 : List ℕ → List ℕ) (set : List FileInfo) (t : Node)
    → build_tree sha256 set ≡ ok t
    → (m : Node) × (build_loop empty_dir set ≡ ok m) × (rehash sha256 m ≡ t)
unfolding build_tree
build_tree_inv sha256 set t e = elim (Result-cases (build_loop empty_dir set)) [
  | inr (x, failed) ↦ absurd (ground (arith, failed))
  | inl (m, done) ↦ (m, done, ground (arith, done))
]

-- When `BuildTree` of a set succeeds, `Lookup` in the tree finds at every path the set's leaf with
-- that path, and nothing where the set has none.
pub lookup_path-build_tree :
    (sha256 : List ℕ → List ℕ) (set : List FileInfo) (t : Node) (p : List ℕ)
    → build_tree sha256 set ≡ ok t
    → lookup_path (some t) p ≡ find_leaf set p
lookup_path-build_tree sha256 set t p e =
    let (m, done, same) = build_tree_inv sha256 set t e in
    ap (λ n. lookup_path (some n) p) (sym same)
    ∙ lookup_path-rehash sha256 m p
    ∙ lookup_path-build_loop set empty_dir m p done
    ∙ ap (find_leaf_or (find_leaf set p)) (lookup_path_empty p)
    ∙ find_leaf_or-none (find_leaf set p)
