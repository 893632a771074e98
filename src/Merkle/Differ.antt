-- ===== src/Merkle/Differ.antt =====
-- internal/merkle/differ.go: the paths at which two trees differ. A tree is its root, or none when
-- it is nil.
pub mod Returns
pub mod Entries
pub mod Complete
pub mod Reached
mod Tests
use merkle_lan_sync.Base.{
  ℕ, zero, suc, ◌+◌, max, Bool, true, false, Option, none, some, List, [], ◌∷◌, ◌++◌, if◌then◌else◌,
  ◌==◌, ◌||◌, length, bytes_eq, compare_bytes, Ordering,
}
use merkle_lan_sync.Pathnorm.Slash.{slash}
use merkle_lan_sync.Merkle.FileInfo.{FileInfo}
use merkle_lan_sync.Merkle.Tree.{
  Node, Children, leaf, dir, end, child, node_hash, get_child, kids_of, leaf_of,
}

-- One path at which two trees differ.
pub record DiffEntry : Type 0 where
  pub path : List ℕ
  pub local : Option FileInfo
  pub remote : Option FileInfo
  pub local_dir : Bool
  pub remote_dir : Bool

unfoldable pub is_type_clash : DiffEntry → Bool
is_type_clash e = e.local_dir || e.remote_dir

-- The entries found and the node pairs compared; none is a walk that ran out of fuel.
abbrev pub Found : Type 0
Found = Option (List DiffEntry × ℕ)

unfoldable pub then_found : Found → Found → Found
then_found none more = none
then_found (some _) none = none
then_found (some (out, n)) (some (out', n')) = some (out ++ out', n + n')

-- A set of names in sorted order, and one name added.
unfoldable pub insert_name : List ℕ → List (List ℕ) → List (List ℕ)
insert_name name [] = name ∷ []
insert_name name (k ∷ names) = elim (compare_bytes name k) [
  | Ordering.lt ↦ name ∷ k ∷ names
  | Ordering.eq ↦ k ∷ names
  | Ordering.gt ↦ k ∷ insert_name name names
]

unfoldable pub insert_children : Children → List (List ℕ) → List (List ℕ)
insert_children end names = names
insert_children (child k n kids) names = insert_name k (insert_children kids names)

unfoldable pub union_children : Children → Children → List (List ℕ)
union_children l r = insert_children r (insert_children l [])

unfoldable pub child_path : List ℕ → List ℕ → List ℕ
child_path path name = if length path == 0 then name else path ++ (slash ∷ name)

-- `emit`: one leaf, or one on each side.
unfoldable pub emit : List ℕ → Option Node → Option Node → Found
emit path l r = some (
  record {
    path = path;
    local = leaf_of l;
    remote = leaf_of r;
    local_dir = false;
    remote_dir = false;
  }
      ∷ [],
  0,
)

-- The loop over the names of the children, each compared by the recursive call.
unfoldable pub diff_children :
    (List ℕ → Option Node → Option Node → Found)
    → List ℕ
    → Children
    → Children
    → List (List ℕ)
    → Found
diff_children rec path l r [] = some ([], 0)
diff_children rec path l r (name ∷ names) =
    then_found (rec (child_path path name) (get_child l name) (get_child r name))
      (diff_children rec path l r names)

-- Two nodes that are not both absent and have not one hash.
unfoldable pub diff_unequal :
    (List ℕ → Option Node → Option Node → Found) → List ℕ → Option Node → Option Node → Found
diff_unequal rec path (some (leaf f h)) (some (dir kids g)) = some (
  record { path = path; local = some f; remote = none; local_dir = false; remote_dir = true } ∷ [],
  0,
)
diff_unequal rec path (some (dir kids g)) (some (leaf f h)) = some (
  record { path = path; local = none; remote = some f; local_dir = true; remote_dir = false } ∷ [],
  0,
)
diff_unequal rec path none none = emit path none none
diff_unequal rec path none (some (leaf f h)) = emit path none (some (leaf f h))
diff_unequal rec path (some (leaf f h)) none = emit path (some (leaf f h)) none
diff_unequal rec path (some (leaf f h)) (some (leaf g k)) =
    emit path (some (leaf f h)) (some (leaf g k))
diff_unequal rec path none (some (dir kids g)) =
    diff_children rec path end kids (union_children end kids)
diff_unequal rec path (some (dir kids g)) none =
    diff_children rec path kids end (union_children kids end)
diff_unequal rec path (some (dir kids g)) (some (dir kids' g')) =
    diff_children rec path kids kids' (union_children kids kids')

-- The returns of `diffNodes` before it looks at the kinds: both absent, or one hash.
unfoldable pub pruned : Option Node → Option Node → Bool
pruned none none = true
pruned none (some m) = false
pruned (some n) none = false
pruned (some n) (some m) = bytes_eq (node_hash n) (node_hash m)

-- `diffNodes`, to a depth of the fuel.
unfoldable pub diff_nodes : ℕ → List ℕ → Option Node → Option Node → Found
diff_nodes zero path l r = none
diff_nodes (suc fuel) path l r =
    then_found (some ([], 1))
      (if pruned l r then some ([], 0) else diff_unequal (diff_nodes fuel) path l r)

-- The number of nodes on the longest way down.
unfoldable mutual
  pub depth : Node → ℕ
  depth (leaf f h) = 1
  depth (dir kids h) = 1 + children_depth kids

  pub children_depth : Children → ℕ
  children_depth end = 0
  children_depth (child k n kids) = max (depth n) (children_depth kids)

unfoldable pub tree_depth : Option Node → ℕ
tree_depth none = 0
tree_depth (some n) = depth n

unfoldable pub diff_counted : Option Node → Option Node → Found
diff_counted l r = diff_nodes (suc (max (tree_depth l) (tree_depth r))) [] l r

unfoldable pub diff : Option Node → Option Node → Option (List DiffEntry)
diff l r = elim (diff_counted l r) [ none ↦ none | some (out, n) ↦ some out ]
