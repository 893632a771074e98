-- ===== src/Merkle/Tree.antt =====
-- internal/merkle/node.go and tree.go: the tree of a set of leaves, with the structural hash of each
-- node. SHA-256 is a parameter, since crypto/sha256 is not part of the repository.
pub mod Map
pub mod Build
pub mod Incremental
pub mod Walk
pub mod Lookup
pub mod Commute
pub mod Permute
mod Tests
use merkle_lan_sync.Base.{
  ℕ, Bool, true, false, ◌||◌, Option, none, some, List, [], ◌∷◌, Result, ok, err, ltb, ◌==◌,
  if◌then◌else◌, length, ◌>>=◌, compare_bytes, Ordering,
}
use merkle_lan_sync.Pathnorm.Slash.{slash, split}
use merkle_lan_sync.Merkle.FileInfo.{FileInfo, zero_hash}
use merkle_lan_sync.Merkle.Codec.{ChildEntry, leaf_encoding, node_encoding}

pub data Error : Type 0 where
  tree_conflict : Error

-- A leaf or a directory, with its cached hash. A node's name is the key that its parent has it
-- under; the map of a directory is the list of its entries in the order of their names.
mutual
  pub data Node : Type 0 where
    leaf : FileInfo → List ℕ → Node
    dir : Children → List ℕ → Node

  pub data Children : Type 0 where
    end : Children
    child : List ℕ → Node → Children → Children

unfoldable pub node_hash : Node → List ℕ
node_hash (leaf fi hash) = hash
node_hash (dir kids hash) = hash

-- `children[name]`
unfoldable pub get_child : Children → List ℕ → Option Node
get_child end name = none
get_child (child k n kids) name = elim (compare_bytes name k) [
  | Ordering.eq ↦ some n
  | Ordering.lt ↦ get_child kids name
  | Ordering.gt ↦ get_child kids name
]

-- `children[name] = n`
unfoldable pub put_child : Children → List ℕ → Node → Children
put_child end name n = child name n end
put_child (child k m kids) name n = elim (compare_bytes name k) [
  | Ordering.lt ↦ child name n (child k m kids)
  | Ordering.eq ↦ child name n kids
  | Ordering.gt ↦ child k m (put_child kids name n)
]

-- The entries that `hashFromChildren` makes of the sorted names.
unfoldable pub child_entries : Children → List ChildEntry
child_entries end = []
child_entries (child k n kids) = record { name = k; hash = node_hash n } ∷ child_entries kids

-- A directory without children, as the code makes one on the way to a leaf.
abbrev pub empty_dir : Node
empty_dir = dir end zero_hash

unfoldable pub child_or_empty : Option Node → Node
child_or_empty none = empty_dir
child_or_empty (some n) = n

unfoldable pub bad_component : List (List ℕ) → Bool
bad_component [] = false
bad_component (c ∷ cs) = (length c == 0) || (ltb 0xFFFF (length c) || bad_component cs)

-- A path is its first component and the others; `strings.Split` returns no empty list.
unfoldable pub first_and_rest : List (List ℕ) → Result Error (List ℕ × List (List ℕ))
first_and_rest [] = err tree_conflict
first_and_rest (c ∷ cs) = ok (c, cs)

unfoldable pub split_path_components : List ℕ → Result Error (List ℕ × List (List ℕ))
split_path_components path =
    if length path == 0
    then err tree_conflict
    else if bad_component (split slash path)
    then err tree_conflict
    else first_and_rest (split slash path)

-- The loop of `BuildTree` over the components of one leaf, from the directory that it has reached.
unfoldable pub place : Node → List ℕ → List (List ℕ) → FileInfo → Result Error Node
place (leaf f h) head rest fi = err tree_conflict
place (dir kids h) head [] fi = elim (get_child kids head) [
  | some _ ↦ err tree_conflict
  | none ↦ ok (dir (put_child kids head (leaf fi zero_hash)) h)
]
place (dir kids h) head (c ∷ rest) fi =
    place (child_or_empty (get_child kids head)) c rest fi >>= λ n.
    ok (dir (put_child kids head n) h)

unfoldable pub build_loop : Node → List FileInfo → Result Error Node
build_loop root [] = ok root
build_loop root (fi ∷ set) = split_path_components fi.path >>= λ (head, rest).
    place root head rest fi >>= λ root'. build_loop root' set

module _ (sha256 : List ℕ → List ℕ) where
  unfoldable pub leaf_hash : FileInfo → List ℕ
  leaf_hash fi = sha256 (0 ∷ leaf_encoding fi)

  unfoldable pub dir_hash : List ChildEntry → List ℕ
  dir_hash children = sha256 (1 ∷ node_encoding children)

  unfoldable pub hash_from_children : Children → List ℕ
  hash_from_children kids = dir_hash (child_entries kids)

  unfoldable mutual
    pub rehash : Node → Node
    rehash (leaf fi h) = leaf fi (leaf_hash fi)
    rehash (dir kids h) = dir (rehash_children kids) (hash_from_children (rehash_children kids))

    pub rehash_children : Children → Children
    rehash_children end = end
    rehash_children (child k n kids) = child k (rehash n) (rehash_children kids)

  unfoldable pub build_tree : List FileInfo → Result Error Node
  build_tree set = build_loop empty_dir set >>= λ root. ok (rehash root)

  unfoldable pub cow_upsert : Node → List ℕ → List (List ℕ) → FileInfo → Result Error Node
  cow_upsert (leaf f h) head rest fi = err tree_conflict
  cow_upsert (dir kids h) head [] fi =
      let kids' = put_child kids head (leaf fi (leaf_hash fi)) in
      let upserted = ok (dir kids' (hash_from_children kids')) in
      elim (get_child kids head) [
        | none ↦ upserted
        | some n ↦ elim n [ dir _ _ ↦ err tree_conflict | leaf _ _ ↦ upserted ]
      ]
  cow_upsert (dir kids h) head (c ∷ rest) fi =
      cow_upsert (child_or_empty (get_child kids head)) c rest fi >>= λ n.
      ok (dir (put_child kids head n) (hash_from_children (put_child kids head n)))

  -- A tree that is nil, or whose root is, is none.
  unfoldable pub update : Option Node → FileInfo → Result Error Node
  update t fi =
      split_path_components fi.path >>= λ (head, rest). cow_upsert (child_or_empty t) head rest fi

unfoldable pub root_hash : Option Node → List ℕ
root_hash none = zero_hash
root_hash (some root) = node_hash root

-- The children of a directory; a leaf has none.
unfoldable pub kids_of : Option Node → Children
kids_of none = end
kids_of (some (leaf fi h)) = end
kids_of (some (dir kids h)) = kids

unfoldable pub leaf_of : Option Node → Option FileInfo
leaf_of none = none
leaf_of (some (leaf fi h)) = some fi
leaf_of (some (dir kids h)) = none

-- The loop of `Lookup`, and the leaf that it ends at.
unfoldable pub walk : Option Node → List (List ℕ) → Option FileInfo
walk n [] = leaf_of n
walk n (c ∷ cs) = walk (get_child (kids_of n) c) cs

unfoldable pub lookup_path : Option Node → List ℕ → Option FileInfo
lookup_path t path = if length path == 0 then none else walk t (split slash path)
