-- ===== src/Merkle/Differ/Entries.antt =====
-- internal/merkle/differ.go: what an entry says of the two trees.
use merkle_lan_sync.Base.{
  ℕ, zero, suc, ◌≡◌, refl, ap, sym, ◌∙◌, arith, Bool, true, false, Option, none, some, List, [],
  ◌∷◌, ◌++◌, ◌⊎◌, inl, inr, if◌then◌else◌, ◌||◌, All, All-append, All-map,
}
use mathlib.Core.Path.{subst}
use merkle_lan_sync.Merkle.Tree.{Node, leaf, dir, get_child, kids_of, leaf_of}
use merkle_lan_sync.Merkle.Differ.{
  DiffEntry, Found, then_found, union_children, child_path, emit, diff_children, diff_unequal,
  pruned, diff_nodes, diff_counted, diff,
}

-- The node that a list of components leads to.
unfoldable pub node_at : Option Node → List (List ℕ) → Option Node
node_at n [] = n
node_at n (c ∷ cs) = node_at (get_child (kids_of n) c) cs

unfoldable pub is_dir : Option Node → Bool
is_dir none = false
is_dir (some (leaf f h)) = false
is_dir (some (dir kids h)) = true

unfoldable pub is_leaf : Option Node → Bool
is_leaf none = false
is_leaf (some (leaf f h)) = true
is_leaf (some (dir kids h)) = false

-- The path of the components below a path.
unfoldable pub path_from : List ℕ → List (List ℕ) → List ℕ
path_from path [] = path
path_from path (c ∷ cs) = path_from (child_path path c) cs

-- The entry for two nodes at a path: the leaf of each side, and whether it is a directory.
unfoldable pub entry_of : List ℕ → Option Node → Option Node → DiffEntry
entry_of path l r = record {
  path = path;
  local = leaf_of l;
  remote = leaf_of r;
  local_dir = is_dir l;
  remote_dir = is_dir r;
}

-- An entry that is true of the trees: it is the one of the nodes at its path, of which one is a
-- leaf, and which have not the same hash.
unfoldable pub IsTrue : List ℕ → Option Node → Option Node → DiffEntry → Type 0
IsTrue path l r e =
    (cs : List (List ℕ)) × (e ≡ entry_of (path_from path cs) (node_at l cs) (node_at r cs))
    × (pruned (node_at l cs) (node_at r cs) ≡ false)
    × ((is_leaf (node_at l cs) || is_leaf (node_at r cs)) ≡ true)

pub then_found_inv :
    (x y : Found) (out : List DiffEntry) (n : ℕ)
    → then_found x y ≡ some (out, n)
    → (o₁ : List DiffEntry) × (n₁ : ℕ) × (o₂ : List DiffEntry) × (n₂ : ℕ) × (x ≡ some (o₁, n₁))
      × (y ≡ some (o₂, n₂))
      × (o₁ ++ o₂ ≡ out)
unfolding then_found
then_found_inv none y out n e = absurd (ground (arith, e))
then_found_inv (some (o₁, n₁)) none out n e = absurd (ground (arith, e))
then_found_inv (some (o₁, n₁)) (some (o₂, n₂)) out n e = (o₁, n₁, o₂, n₂, refl, refl, cc)

child-IsTrue :
    (path c : List ℕ) (l r : Option Node) (e : DiffEntry)
    → IsTrue (child_path path c) (get_child (kids_of l) c) (get_child (kids_of r) c) e
    → IsTrue path l r e
unfolding IsTrue node_at path_from
child-IsTrue path c l r e (cs, shape, unequal, some_leaf) = (c ∷ cs, shape, unequal, some_leaf)

diff_children-IsTrue :
    (rec : List ℕ → Option Node → Option Node → Found)
    → ((p : List ℕ) (l r : Option Node) (out : List DiffEntry) (n : ℕ)
        → rec p l r ≡ some (out, n)
        → All (IsTrue p l r) out)
    → (path : List ℕ) (l r : Option Node) (names : List (List ℕ)) (out : List DiffEntry) (n : ℕ)
    → diff_children rec path (kids_of l) (kids_of r) names ≡ some (out, n)
    → All (IsTrue path l r) out
unfolding diff_children
diff_children-IsTrue rec h path l r [] out n e =
    subst (All (IsTrue path l r)) (let same : [] ≡ out = cc e in same) tt
diff_children-IsTrue rec h path l r (c ∷ names) out n e =
    let (o₁, n₁, o₂, n₂, first, more, shape) = then_found_inv _ _ out n e in
    subst (All (IsTrue path l r)) shape (
      All-append _ o₁ o₂ (All-map _ _ (child-IsTrue path c l r) o₁ (h _ _ _ o₁ n₁ first))
        (diff_children-IsTrue rec h path l r names o₂ n₂ more))

here-IsTrue :
    (path : List ℕ) (l r : Option Node) (e : DiffEntry)
    → e ≡ entry_of path l r
    → pruned l r ≡ false
    → (is_leaf l || is_leaf r) ≡ true
    → IsTrue path l r e
unfolding IsTrue node_at path_from
here-IsTrue path l r e shape unequal some_leaf = ([], shape, unequal, some_leaf)

-- What is done with two nodes: one entry for them, or the loop over their children.
pub diff_unequal-cases :
    (rec : List ℕ → Option Node → Option Node → Found) (path : List ℕ) (l r : Option Node)
    → pruned l r ≡ false
    → ((diff_unequal rec path l r ≡ some (entry_of path l r ∷ [], 0))
        × ((is_leaf l || is_leaf r) ≡ true))
      ⊎ ((diff_unequal rec path l r
            ≡ diff_children rec path
                (kids_of l)
                (kids_of r)
                (union_children (kids_of l) (kids_of r)))
          × ((is_leaf l || is_leaf r) ≡ false))
unfolding diff_unequal entry_of is_leaf is_dir leaf_of kids_of emit
diff_unequal-cases rec path none none unequal = absurd (unfold pruned in cc unequal)
diff_unequal-cases rec path none (some (leaf f h)) unequal = inl (refl, refl)
diff_unequal-cases rec path (some (leaf f h)) none unequal = inl (refl, refl)
diff_unequal-cases rec path (some (leaf f h)) (some (leaf g k)) unequal = inl (refl, refl)
diff_unequal-cases rec path (some (leaf f h)) (some (dir kids g)) unequal = inl (refl, refl)
diff_unequal-cases rec path (some (dir kids g)) (some (leaf f h)) unequal = inl (refl, refl)
diff_unequal-cases rec path none (some (dir kids g)) unequal = inr (refl, refl)
diff_unequal-cases rec path (some (dir kids g)) none unequal = inr (refl, refl)
diff_unequal-cases rec path (some (dir kids g)) (some (dir kids' g')) unequal = inr (refl, refl)

round_inv :
    (same : Bool) (found : Found) (out : List DiffEntry) (n : ℕ)
    → then_found (some ([], 1)) (if same then some ([], 0) else found) ≡ some (out, n)
    → ((same ≡ true) × (out ≡ [])) ⊎ ((same ≡ false) × ((n' : ℕ) × (found ≡ some (out, n'))))
unfolding then_found
round_inv true found out n e = inl (refl, cc)
round_inv false none out n e = absurd (cc e)
round_inv false (some (o, m)) out n e =
    inr (refl, (m, (let same : o ≡ out = cc e in ap (λ x. some (x, m)) same)))

-- The two ways in which a round ends.
pub diff_nodes_inv :
    (fuel : ℕ) (path : List ℕ) (l r : Option Node) (out : List DiffEntry) (n : ℕ)
    → diff_nodes (suc fuel) path l r ≡ some (out, n)
    → ((pruned l r ≡ true) × (out ≡ []))
      ⊎ ((pruned l r ≡ false)
          × ((n' : ℕ) × (diff_unequal (diff_nodes fuel) path l r ≡ some (out, n'))))
unfolding diff_nodes
diff_nodes_inv fuel path l r out n e = round_inv (pruned l r) _ out n e

diff_unequal-IsTrue :
    (rec : List ℕ → Option Node → Option Node → Found)
    → ((p : List ℕ) (l r : Option Node) (out : List DiffEntry) (n : ℕ)
        → rec p l r ≡ some (out, n)
        → All (IsTrue p l r) out)
    → (path : List ℕ) (l r : Option Node) (out : List DiffEntry) (n : ℕ) → pruned l r ≡ false
    → diff_unequal rec path l r ≡ some (out, n)
    → All (IsTrue path l r) out
diff_unequal-IsTrue rec h path l r out n unequal e =
    elim (diff_unequal-cases rec path l r unequal) [
      | inl (shape, some_leaf) ↦
          let same : entry_of path l r ∷ [] ≡ out = cc in
          subst (All (IsTrue path l r)) same (here-IsTrue path l r _ refl unequal some_leaf, tt)
      | inr (shape, no_leaf) ↦ diff_children-IsTrue rec h path l r _ out n (sym shape ∙ e)
    ]

diff_nodes-IsTrue :
    (fuel : ℕ) (path : List ℕ) (l r : Option Node) (out : List DiffEntry) (n : ℕ)
    → diff_nodes fuel path l r ≡ some (out, n)
    → All (IsTrue path l r) out
diff_nodes-IsTrue zero path l r out n e = absurd (unfold diff_nodes in cc e)
diff_nodes-IsTrue (suc fuel) path l r out n e =
    let below = diff_nodes-IsTrue fuel in
    elim (diff_nodes_inv fuel path l r out n e) [
      | inl (same, empty) ↦ subst (All (IsTrue path l r)) (sym empty) tt
      | inr (differ, (n', found)) ↦
          diff_unequal-IsTrue (diff_nodes fuel) below path l r out n' differ found
    ]

pub diff_inv :
    (l r : Option Node) (out : List DiffEntry)
    → diff l r ≡ some out
    → (n : ℕ) × (diff_counted l r ≡ some (out, n))
unfolding diff
diff_inv l r out e = counted (diff_counted l r) e
  where
    counted :
        (found : Found)
        → (elim found [ none ↦ none | some (o, n) ↦ some o ]) ≡ some out
        → (n : ℕ) × (found ≡ some (out, n))
    counted none h = absurd (cc h)
    counted (some (o, n)) h = (n, (let same : o ≡ out = cc h in ap (λ x. some (x, n)) same))

-- Every entry that `Diff` returns is true of the two trees: it has the leaves and the directory
-- flags of the two nodes at its path, which are not both absent, are not of one hash, and of which
-- one is a leaf.
pub diff-IsTrue :
    (l r : Option Node) (out : List DiffEntry) → diff l r ≡ some out → All (IsTrue [] l r) out
unfolding diff_counted
diff-IsTrue l r out e =
    let (n, counted) = diff_inv l r out e in diff_nodes-IsTrue _ [] l r out n counted
