-- ===== src/Merkle/Differ/Returns.antt =====
-- internal/merkle/differ.go: the walk returns on all trees.
use merkle_lan_sync.Base.{
  ℕ, zero, suc, ◌≤◌, ◌≡◌, refl, arith, Option, none, some, List, [], ◌∷◌, inl, inr, Bool-cases,
  if◌then◌else◌,
}
use merkle_lan_sync.Merkle.Tree.{Node, Children, leaf, dir, end, child, get_child}
use merkle_lan_sync.Merkle.Differ.{
  DiffEntry, Found, then_found, child_path, emit, diff_children, diff_unequal, pruned, diff_nodes,
  depth, children_depth, tree_depth, diff_counted,
}

-- The walk came to its end.
abbrev pub Returns : Found → Type 0
Returns found = (out : List DiffEntry) × (n : ℕ) × (found ≡ some (out, n))

then_found-Returns : (x y : Found) → Returns x → Returns y → Returns (then_found x y)
unfolding then_found
then_found-Returns x y (out, n, e) (out', n', e') = rw (e, e') (_, _, refl)

tree_depth-get_child :
    (kids : Children) (name : List ℕ) → tree_depth (get_child kids name) ≤ children_depth kids
unfolding tree_depth get_child depth
tree_depth-get_child end name = omega arith
tree_depth-get_child (child k n kids) name = ground (arith, tree_depth-get_child kids name)

diff_children-Returns :
    (rec : List ℕ → Option Node → Option Node → Found) (path : List ℕ) (l r : Children)
    (names : List (List ℕ))
    → ((p name : List ℕ) → Returns (rec p (get_child l name) (get_child r name)))
    → Returns (diff_children rec path l r names)
unfolding diff_children
diff_children-Returns rec path l r [] h = ([], 0, refl)
diff_children-Returns rec path l r (name ∷ names) h =
    then_found-Returns _ _ (h (child_path path name) name)
      (diff_children-Returns rec path l r names h)

diff_unequal-Returns :
    (fuel : ℕ) (path : List ℕ) (l r : Option Node)
    → tree_depth l ≤ suc fuel
    → tree_depth r ≤ suc fuel
    → ((p : List ℕ) (l' r' : Option Node)
        → tree_depth l' ≤ fuel
        → tree_depth r' ≤ fuel
        → Returns (diff_nodes (suc fuel) p l' r'))
    → Returns (diff_unequal (diff_nodes (suc fuel)) path l r)
unfolding diff_unequal emit tree_depth depth
diff_unequal-Returns fuel path none none hl hr below = (_, _, refl)
diff_unequal-Returns fuel path none (some (leaf f h)) hl hr below = (_, _, refl)
diff_unequal-Returns fuel path (some (leaf f h)) none hl hr below = (_, _, refl)
diff_unequal-Returns fuel path (some (leaf f h)) (some (leaf g k)) hl hr below = (_, _, refl)
diff_unequal-Returns fuel path (some (leaf f h)) (some (dir kids g)) hl hr below = (_, _, refl)
diff_unequal-Returns fuel path (some (dir kids g)) (some (leaf f h)) hl hr below = (_, _, refl)
diff_unequal-Returns fuel path none (some (dir kids g)) hl hr below =
    diff_children-Returns _ path end kids _ (λ p name.
      below p _ _ (omega (arith, tree_depth-get_child end name))
        (omega (arith, tree_depth-get_child kids name)))
diff_unequal-Returns fuel path (some (dir kids g)) none hl hr below =
    diff_children-Returns _ path kids end _ (λ p name.
      below p _ _ (omega (arith, tree_depth-get_child kids name))
        (omega (arith, tree_depth-get_child end name)))
diff_unequal-Returns fuel path (some (dir kids g)) (some (dir kids' g')) hl hr below =
    diff_children-Returns _ path kids kids' _ (λ p name.
      below p _ _ (omega (arith, tree_depth-get_child kids name))
        (omega (arith, tree_depth-get_child kids' name)))

diff_nodes_step :
    (rec : List ℕ → Option Node → Option Node → Found) (path : List ℕ) (l r : Option Node)
    → Returns (diff_unequal rec path l r)
    → Returns
        (then_found (some ([], 1)) (if pruned l r then some ([], 0) else diff_unequal rec path l r))
diff_nodes_step rec path l r h = elim (Bool-cases (pruned l r)) [
  | inl same ↦ rw same (then_found-Returns _ _ (_, _, refl) (_, _, refl))
  | inr differ ↦ rw differ (then_found-Returns _ _ (_, _, refl) h)
]

depth_pos : (n : Node) → 1 ≤ depth n
unfolding depth
depth_pos (leaf f h) = omega arith
depth_pos (dir kids h) = omega arith

diff_nodes-Returns :
    (fuel : ℕ) (path : List ℕ) (l r : Option Node)
    → tree_depth l ≤ fuel
    → tree_depth r ≤ fuel
    → Returns (diff_nodes (suc fuel) path l r)
unfolding diff_nodes tree_depth
diff_nodes-Returns zero path none none hl hr = unfold pruned then_found in (_, _, refl)
diff_nodes-Returns zero path (some n) r hl hr = absurd (omega (arith, depth_pos n))
diff_nodes-Returns zero path none (some n) hl hr = absurd (omega (arith, depth_pos n))
diff_nodes-Returns (suc fuel) path l r hl hr =
    let below = diff_nodes-Returns fuel in
    diff_nodes_step (diff_nodes (suc fuel)) path l r
      (diff_unequal-Returns fuel path l r hl hr below)

-- The fuel that the walk starts with is enough on all trees: it returns the entries and a count.
pub diff_counted_returns :
    (l r : Option Node) → (out : List DiffEntry) × (n : ℕ) × (diff_counted l r ≡ some (out, n))
unfolding diff_counted
diff_counted_returns l r = diff_nodes-Returns _ [] l r (omega arith) (omega arith)
