-- ===== src/Merkle/Differ/Complete.antt =====
-- internal/merkle/differ.go: the entries of `Diff`, for the leaves of the two trees.
use merkle_lan_sync.Base.{
  ℕ, ◌≡◌, refl, ap, ◌∙◌, arith, true, false, Option, none, some, List, [], ◌∷◌, ◌++◌, ◌⊎◌, inl, inr,
  ◌||◌, Any, bytes_eq_iff,
}
use merkle_lan_sync.Merkle.Tree.{Node, node_hash, get_child, kids_of}
use merkle_lan_sync.Merkle.Differ.{DiffEntry, pruned, diff_counted, diff}
use merkle_lan_sync.Merkle.Differ.Entries.{node_at, is_leaf, path_from, entry_of, diff_inv}
use merkle_lan_sync.Merkle.Differ.Reached.{IsReached, no_leaf_below, diff_nodes-IsReached}

-- Two nodes that are both there and have one hash.
abbrev pub IsSameHash : Option Node → Option Node → Type 0
IsSameHash l r = (n : Node) × (m : Node) × (l ≡ some n) × (r ≡ some m) × (node_hash n ≡ node_hash m)

-- The components, or the first of them, lead to two nodes of one hash or to nodes that have an
-- entry.
unfoldable pub IsCovered :
    List ℕ → Option Node → Option Node → List DiffEntry → List (List ℕ) → Type 0
IsCovered path l r out cs =
    (ds : List (List ℕ)) × (es : List (List ℕ)) × (cs ≡ ds ++ es)
    × (IsSameHash (node_at l ds) (node_at r ds)
        ⊎ Any (λ e. e ≡ entry_of (path_from path ds) (node_at l ds) (node_at r ds)) out)

pruned-cases : (l r : Option Node) → pruned l r ≡ true → ((l ≡ none) × (r ≡ none)) ⊎ IsSameHash l r
unfolding pruned
pruned-cases none none e = inl (refl, refl)
pruned-cases none (some m) e = absurd (cc e)
pruned-cases (some n) none e = absurd (cc e)
pruned-cases (some n) (some m) e =
    inr (n, m, refl, refl, (bytes_eq_iff (node_hash n) (node_hash m)).0 e)

node_at-append :
    (o : Option Node) (ds es : List (List ℕ)) → node_at o (ds ++ es) ≡ node_at (node_at o ds) es
unfolding node_at
node_at-append o [] es = refl
node_at-append o (d ∷ ds) es = node_at-append (get_child (kids_of o) d) ds es

gone_below :
    (o : Option Node) (ds es : List (List ℕ)) → node_at o ds ≡ none → node_at o (ds ++ es) ≡ none
gone_below o ds es gone = node_at-append o ds es ∙ ap (λ p. node_at p es) gone ∙ no_leaf_below es

no_leaf_in_none : (is_leaf none || is_leaf none) ≡ false
unfolding is_leaf
no_leaf_in_none = refl

-- Where no node is left at a prefix, there is no leaf at the components.
reached-IsCovered :
    (path : List ℕ) (l r : Option Node) (out : List DiffEntry) (cs : List (List ℕ))
    → (is_leaf (node_at l cs) || is_leaf (node_at r cs)) ≡ true
    → IsReached path l r out cs
    → IsCovered path l r out cs
unfolding IsReached IsCovered
reached-IsCovered path l r out cs h (ds, es, shape, inr found) = (ds, es, shape, inr found)
reached-IsCovered path l r out cs h (ds, es, shape, inl same) =
    elim (pruned-cases (node_at l ds) (node_at r ds) same) [
      | inr hashes ↦ (ds, es, shape, inl hashes)
      | inl (gone, gone') ↦
          let lost : node_at l cs ≡ none = ap (node_at l) shape ∙ gone_below l ds es gone in
          let lost' : node_at r cs ≡ none = ap (node_at r) shape ∙ gone_below r ds es gone' in
          absurd (ground (arith, h, lost, lost', no_leaf_in_none))
    ]

-- `Diff` passes over no leaf: each list of components at which one of the trees has a leaf leads,
-- itself or one that it begins with, to two nodes that have an entry, or to two nodes that are both
-- there and have one hash.
pub diff-IsCovered :
    (l r : Option Node) (out : List DiffEntry) (cs : List (List ℕ))
    → diff l r ≡ some out
    → (is_leaf (node_at l cs) || is_leaf (node_at r cs)) ≡ true
    → IsCovered [] l r out cs
unfolding diff_counted
diff-IsCovered l r out cs e h =
    let (n, counted) = diff_inv l r out e in
    reached-IsCovered [] l r out cs h (diff_nodes-IsReached _ [] l r out n cs counted h)
