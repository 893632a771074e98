-- ===== src/Merkle/Tree/Tests.antt =====
-- Trees of two leaves in one directory. The stand-in for SHA-256 is a sum of the bytes.
use merkle_lan_sync.Base.{
  ℕ, ◌+◌, ◌*◌, compare_bytes, ◌%◌, ◌≡◌, refl, false, some, List, [], ◌∷◌, ok, replicate, pos,
}
use merkle_lan_sync.Pathnorm.Slash.{split}
use mathlib.Core.List.{Permᴰ}
use merkle_lan_sync.Merkle.FileInfo.{FileInfo, file}
use merkle_lan_sync.Merkle.Tree.{
  build_loop, split_path_components, bad_component, first_and_rest, place, child_or_empty,
  get_child, put_child, rehash, cow_upsert, Node, Children, leaf, dir, child, end, leaf_hash,
  hash_from_children, build_tree, update, lookup_path,
}
use merkle_lan_sync.Merkle.Tree.Incremental.{IsTree, build_tree-IsTree, update-build_tree}
use merkle_lan_sync.Merkle.Tree.Lookup.{find_leaf, lookup_path-build_tree}
use merkle_lan_sync.Merkle.Tree.Permute.{build_tree-perm}

abbrev weighted : ℕ → List ℕ → ℕ
weighted k [] = k
weighted k (b ∷ bs) = weighted ((k * 31 + b) % 65521) bs

abbrev checksum : List ℕ → List ℕ
checksum bs = weighted 7 bs ∷ replicate 31 0

abbrev leaf_named : List ℕ → ℕ → FileInfo
leaf_named name size = record {
  path = name;
  content_hash = replicate 32 size;
  size = size;
  mode = 420;
  mod_time_ns = pos 0;
  version = record { id = 1; value = size } ∷ [];
  deleted = false;
  file_type = file;
}

abbrev one : FileInfo
one = leaf_named (b'd' ∷ b'/' ∷ b'a' ∷ []) 3

abbrev two : FileInfo
two = leaf_named (b'd' ∷ b'/' ∷ b'b' ∷ []) 4

abbrev name_d : List ℕ
name_d = b'd' ∷ []

abbrev hashed : Children → Node
hashed kids = dir kids (hash_from_children checksum kids)

abbrev one_entry : Children → Children
one_entry rest = child (b'a' ∷ []) (leaf one (leaf_hash checksum one)) rest

abbrev before : Node
before = hashed (child name_d (hashed (one_entry end)) end)

abbrev both : Node
both = hashed (
    child name_d (hashed (one_entry (child (b'b' ∷ []) (leaf two (leaf_hash checksum two)) end)))
      end)

before_built : build_tree checksum (one ∷ []) ≡ ok before
unfolding build_tree build_loop split_path_components bad_component split first_and_rest place
    child_or_empty get_child put_child compare_bytes rehash
before_built = refl

both_built : build_tree checksum (one ∷ two ∷ []) ≡ ok both
unfolding build_tree build_loop split_path_components bad_component split first_and_rest place
    child_or_empty get_child put_child compare_bytes rehash
both_built = refl

two_put : update checksum (some before) two ≡ ok both
unfolding update split_path_components bad_component split first_and_rest cow_upsert child_or_empty
    get_child compare_bytes put_child
two_put = refl

before-IsTree : IsTree checksum (some before)
before-IsTree = build_tree-IsTree checksum (one ∷ []) before before_built

build_tree-perm_example :
    build_tree checksum (one ∷ two ∷ []) ≡ build_tree checksum (two ∷ one ∷ [])
build_tree-perm_example =
    build_tree-perm checksum (one ∷ two ∷ []) (two ∷ one ∷ []) (Permᴰ.swap refl refl)

update-build_tree_example :
    (m : Node) × (build_tree checksum (one ∷ []) ≡ ok m) × (update checksum (some m) two ≡ ok both)
update-build_tree_example = update-build_tree checksum (one ∷ []) two both both_built

lookup_path-build_tree_example :
    lookup_path (some both) two.path ≡ find_leaf (one ∷ two ∷ []) two.path
lookup_path-build_tree_example =
    lookup_path-build_tree checksum (one ∷ two ∷ []) both two.path both_built
