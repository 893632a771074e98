-- ===== src/Merkle/Differ/Tests.antt =====
-- A tree of a leaf and a directory, and one in which the directory is a leaf.
use merkle_lan_sync.Base.{
  ℕ, ◌≡◌, refl, true, false, some, none, List, [], ◌∷◌, replicate, pos, ◌||◌, All, bytes_eq,
  compare_bytes,
}
use merkle_lan_sync.Merkle.FileInfo.{FileInfo, file}
use merkle_lan_sync.Merkle.Tree.{Node, leaf, dir, child, end, node_hash, get_child, kids_of}
use merkle_lan_sync.Merkle.Differ.{
  DiffEntry, diff, diff_counted, diff_nodes, pruned, diff_unequal, diff_children, union_children,
  insert_children, insert_name, then_found, child_path, depth, tree_depth,
}
use merkle_lan_sync.Merkle.Differ.Entries.{IsTrue, diff-IsTrue, node_at, is_leaf}
use merkle_lan_sync.Merkle.Differ.Complete.{IsCovered, diff-IsCovered}
use merkle_lan_sync.Merkle.Differ.Returns.{diff_counted_returns}

abbrev leaf_named : List ℕ → FileInfo
leaf_named name = record {
  path = name;
  content_hash = replicate 32 5;
  size = 1;
  mode = 420;
  mod_time_ns = pos 0;
  version = record { id = 1; value = 1 } ∷ [];
  deleted = false;
  file_type = file;
}

abbrev shared : Node
shared = leaf (leaf_named (b'a' ∷ [])) (1 ∷ [])

abbrev folder : Node
folder = dir (child (b'x' ∷ []) (leaf (leaf_named (b'd' ∷ b'/' ∷ b'x' ∷ [])) (2 ∷ [])) end) (3 ∷ [])

abbrev with_folder : Node
with_folder = dir (child (b'a' ∷ []) shared (child (b'd' ∷ []) folder end)) (4 ∷ [])

abbrev with_leaf : Node
with_leaf =
    dir (child (b'a' ∷ []) shared (child (b'd' ∷ []) (leaf (leaf_named (b'd' ∷ [])) (5 ∷ [])) end))
      (6 ∷ [])

abbrev clash : DiffEntry
clash = record {
  path = b'd' ∷ [];
  local = none;
  remote = some (leaf_named (b'd' ∷ []));
  local_dir = true;
  remote_dir = false;
}

one_clash : diff (some with_folder) (some with_leaf) ≡ some (clash ∷ [])
unfolding diff diff_counted diff_nodes then_found pruned bytes_eq node_hash diff_unequal
    diff_children union_children insert_children insert_name compare_bytes tree_depth depth
    get_child child_path
one_clash = refl

diff-IsTrue_example : All (IsTrue [] (some with_folder) (some with_leaf)) (clash ∷ [])
diff-IsTrue_example = diff-IsTrue (some with_folder) (some with_leaf) (clash ∷ []) one_clash

leaf_at_d :
    (is_leaf (node_at (some with_folder) ((b'd' ∷ []) ∷ []))
      || is_leaf (node_at (some with_leaf) ((b'd' ∷ []) ∷ [])))
    ≡ true
unfolding node_at is_leaf get_child kids_of compare_bytes
leaf_at_d = refl

diff-IsCovered_example :
    IsCovered [] (some with_folder) (some with_leaf) (clash ∷ []) ((b'd' ∷ []) ∷ [])
diff-IsCovered_example =
    diff-IsCovered (some with_folder) (some with_leaf) (clash ∷ []) ((b'd' ∷ []) ∷ []) one_clash
      leaf_at_d

diff_counted_returns_example :
    (out : List DiffEntry) × (n : ℕ) × (diff_counted (some with_folder) (some with_leaf)
      ≡ some (out, n))
diff_counted_returns_example = diff_counted_returns (some with_folder) (some with_leaf)
