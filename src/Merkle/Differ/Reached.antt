-- ===== src/Merkle/Differ/Reached.antt =====
-- internal/merkle/differ.go: the entries of the walk, for the leaves below the nodes that it starts at.
use merkle_lan_sync.Base.{
  ℕ, zero, suc, ◌≡◌, refl, ap, sym, ◌∙◌, arith, true, false, Option, none, some, List, [], ◌∷◌,
  ◌++◌, ◌⊎◌, inl, inr, Option-cases, ◌||◌, Any, Any-append_left, Any-append_right, compare_bytes,
  compare_bytes_eq, Ordering-cases,
}
use mathlib.Core.Path.{subst}
use merkle_lan_sync.Merkle.Tree.{Node, Children, end, child, get_child, kids_of}
use merkle_lan_sync.Merkle.Differ.{
  DiffEntry, Found, insert_name, insert_children, union_children, child_path, diff_children,
  diff_unequal, pruned, diff_nodes,
}
use merkle_lan_sync.Merkle.Differ.Entries.{
  node_at, is_leaf, path_from, entry_of, then_found_inv, diff_unequal-cases, diff_nodes_inv,
}

-- The components, or the first of them, lead to nodes that are pruned or that have an entry.
unfoldable pub IsReached :
    List ℕ → Option Node → Option Node → List DiffEntry → List (List ℕ) → Type 0
IsReached path l r out cs =
    (ds : List (List ℕ)) × (es : List (List ℕ)) × (cs ≡ ds ++ es)
    × ((pruned (node_at l ds) (node_at r ds) ≡ true)
        ⊎ Any (λ e. e ≡ entry_of (path_from path ds) (node_at l ds) (node_at r ds)) out)

insert_name_here :
    (name : List ℕ) (names : List (List ℕ)) → Any (λ k. name ≡ k) (insert_name name names)
unfolding insert_name
insert_name_here name [] = inl refl
insert_name_here name (k ∷ names) =
    let below = insert_name_here name names in
    elim (Ordering-cases (compare_bytes name k)) [
      | inl less ↦ rw (Any, less) (inl refl)
      | inr (inl same) ↦ rw (Any, same) (inl (compare_bytes_eq name k same))
      | inr (inr more) ↦ rw (Any, more) (inr below)
    ]

insert_name_there :
    (name x : List ℕ) (names : List (List ℕ))
    → Any (λ k. x ≡ k) names
    → Any (λ k. x ≡ k) (insert_name name names)
unfolding insert_name
insert_name_there name x [] h = absurd h.lower
insert_name_there name x (k ∷ names) (inl here) = elim (Ordering-cases (compare_bytes name k)) [
  | inl less ↦ rw (Any, less) (inr (inl here))
  | inr (inl same) ↦ rw (Any, same) (inl here)
  | inr (inr more) ↦ rw (Any, more) (inl here)
]
insert_name_there name x (k ∷ names) (inr there) =
    let below = insert_name_there name x names there in
    elim (Ordering-cases (compare_bytes name k)) [
      | inl less ↦ rw (Any, less) (inr (inr there))
      | inr (inl same) ↦ rw (Any, same) (inr there)
      | inr (inr more) ↦ rw (Any, more) (inr below)
    ]

insert_children_kept :
    (kids : Children) (x : List ℕ) (names : List (List ℕ))
    → Any (λ k. x ≡ k) names
    → Any (λ k. x ≡ k) (insert_children kids names)
unfolding insert_children
insert_children_kept end x names h = h
insert_children_kept (child k n kids) x names h =
    insert_name_there k x _ (insert_children_kept kids x names h)

insert_children_new :
    (kids : Children) (x : List ℕ) (n : Node) (names : List (List ℕ))
    → get_child kids x ≡ some n
    → Any (λ k. x ≡ k) (insert_children kids names)
unfolding insert_children get_child
insert_children_new end x n names e = absurd (cc e)
insert_children_new (child k m kids) x n names e =
    let below = insert_children_new kids x n names in
    elim (Ordering-cases (compare_bytes x k)) [
      | inr (inl same) ↦
          subst (λ y. Any (λ z. y ≡ z) (insert_name k (insert_children kids names)))
            (sym (compare_bytes_eq x k same)) (insert_name_here k (insert_children kids names))
      | inl less ↦ insert_name_there k x _ (below (ground (arith, e, less)))
      | inr (inr more) ↦ insert_name_there k x _ (below (ground (arith, e, more)))
    ]

union_children_new :
    (l r : Children) (x : List ℕ) (n : Node)
    → ((get_child l x ≡ some n) ⊎ (get_child r x ≡ some n))
    → Any (λ k. x ≡ k) (union_children l r)
unfolding union_children
union_children_new l r x n (inl e) = insert_children_kept r x _ (insert_children_new l x n [] e)
union_children_new l r x n (inr e) = insert_children_new r x n _ e

-- A covered path below a child is covered, with the child's entries among the others.
child-IsReached :
    (path c : List ℕ) (l r : Option Node) (o out : List DiffEntry) (cs : List (List ℕ))
    → ((P : DiffEntry → Type 0) → Any P o → Any P out)
    → IsReached (child_path path c) (get_child (kids_of l) c) (get_child (kids_of r) c) o cs
    → IsReached path l r out (c ∷ cs)
unfolding IsReached node_at path_from
child-IsReached path c l r o out cs among (ds, es, shape, inl same) =
    (c ∷ ds, es, ap (λ t. c ∷ t) shape, inl same)
child-IsReached path c l r o out cs among (ds, es, shape, inr found) =
    (c ∷ ds, es, ap (λ t. c ∷ t) shape, inr (among _ found))

wider-IsReached :
    (path : List ℕ) (l r : Option Node) (o out : List DiffEntry) (cs : List (List ℕ))
    → ((P : DiffEntry → Type 0) → Any P o → Any P out)
    → IsReached path l r o cs
    → IsReached path l r out cs
unfolding IsReached
wider-IsReached path l r o out cs among (ds, es, shape, inl same) = (ds, es, shape, inl same)
wider-IsReached path l r o out cs among (ds, es, shape, inr found) =
    (ds, es, shape, inr (among _ found))

diff_children-IsReached :
    (rec : List ℕ → Option Node → Option Node → Found) (c : List ℕ) (cs : List (List ℕ))
    → (path : List ℕ) (l r : Option Node) (names : List (List ℕ)) (out : List DiffEntry) (n : ℕ)
    → ((o : List DiffEntry) (m : ℕ)
        → rec (child_path path c) (get_child (kids_of l) c) (get_child (kids_of r) c) ≡ some (o, m)
        → IsReached (child_path path c) (get_child (kids_of l) c) (get_child (kids_of r) c) o cs)
    → diff_children rec path (kids_of l) (kids_of r) names ≡ some (out, n)
    → Any (λ k. c ≡ k) names
    → IsReached path l r out (c ∷ cs)
unfolding diff_children
diff_children-IsReached rec c cs path l r [] out n h e among = absurd among.lower
diff_children-IsReached rec c cs path l r (k ∷ names) out n h e (inl same) =
    let (o₁, n₁, o₂, n₂, first, more, shape) = then_found_inv _ _ out n e in
    child-IsReached path c l r o₁ out cs
      (λ P found. subst (Any P) shape (Any-append_left P o₁ o₂ found))
      (h o₁ n₁ (
        subst
          (λ x.
            rec (child_path path x) (get_child (kids_of l) x) (get_child (kids_of r) x)
            ≡ some (o₁, n₁))
          (sym same) first))
diff_children-IsReached rec c cs path l r (k ∷ names) out n h e (inr later) =
    let (o₁, n₁, o₂, n₂, first, more, shape) = then_found_inv _ _ out n e in
    wider-IsReached path l r o₂ out (c ∷ cs)
      (λ P found. subst (Any P) shape (Any-append_right P o₁ o₂ found))
      (diff_children-IsReached rec c cs path l r names o₂ n₂ h more later)

pub no_leaf_below : (cs : List (List ℕ)) → node_at none cs ≡ none
unfolding node_at kids_of get_child
no_leaf_below [] = refl
no_leaf_below (c ∷ cs) = no_leaf_below cs

-- Where a leaf is found below two nodes, one of them has the child that leads to it.
child_on_the_way :
    (l r : Option Node) (c : List ℕ) (cs : List (List ℕ))
    → (is_leaf (node_at l (c ∷ cs)) || is_leaf (node_at r (c ∷ cs))) ≡ true
    → (n : Node) × ((get_child (kids_of l) c ≡ some n) ⊎ (get_child (kids_of r) c ≡ some n))
unfolding node_at
child_on_the_way l r c cs e = elim (Option-cases (get_child (kids_of l) c)) [
  | inr (n, there) ↦ (n, inl there)
  | inl gone ↦ elim (Option-cases (get_child (kids_of r) c)) [
    | inr (n, there) ↦ (n, inr there)
    | inl gone' ↦ absurd (neither (rw (gone, gone', no_leaf_below cs) at e))
  ]
]
  where
    neither : (is_leaf none || is_leaf none) ≡ true → ⊥
    neither h = unfold is_leaf in cc h

here-IsReached :
    (path : List ℕ) (l r : Option Node) (out : List DiffEntry) (cs : List (List ℕ))
    → Any (λ x. x ≡ entry_of path l r) out
    → IsReached path l r out cs
unfolding IsReached node_at path_from
here-IsReached path l r out cs found = ([], cs, refl, inr found)

children-IsReached :
    (rec : List ℕ → Option Node → Option Node → Found)
    → (path : List ℕ) (l r : Option Node) (out : List DiffEntry) (n : ℕ) (cs : List (List ℕ))
    → diff_children rec path (kids_of l) (kids_of r) (union_children (kids_of l) (kids_of r))
      ≡ some (out, n)
    → (is_leaf l || is_leaf r) ≡ false
    → (is_leaf (node_at l cs) || is_leaf (node_at r cs)) ≡ true
    → ((p : List ℕ) (l' r' : Option Node) (o : List DiffEntry) (m : ℕ) (ds : List (List ℕ))
        → rec p l' r' ≡ some (o, m)
        → (is_leaf (node_at l' ds) || is_leaf (node_at r' ds)) ≡ true
        → IsReached p l' r' o ds)
    → IsReached path l r out cs
children-IsReached rec path l r out n [] e no_leaf h below = absurd (unfold node_at in cc)
children-IsReached rec path l r out n (c ∷ cs) e no_leaf h below =
    let (m, there) = child_on_the_way l r c cs h in
    diff_children-IsReached rec c cs path l r _ out n
      (λ o k found. below _ _ _ o k cs found (unfold node_at in h)) e
      (union_children_new (kids_of l) (kids_of r) c m there)

diff_unequal-IsReached :
    (rec : List ℕ → Option Node → Option Node → Found)
    → (path : List ℕ) (l r : Option Node) (out : List DiffEntry) (n : ℕ) (cs : List (List ℕ))
    → pruned l r ≡ false
    → diff_unequal rec path l r ≡ some (out, n)
    → (is_leaf (node_at l cs) || is_leaf (node_at r cs)) ≡ true
    → ((p : List ℕ) (l' r' : Option Node) (o : List DiffEntry) (m : ℕ) (ds : List (List ℕ))
        → rec p l' r' ≡ some (o, m)
        → (is_leaf (node_at l' ds) || is_leaf (node_at r' ds)) ≡ true
        → IsReached p l' r' o ds)
    → IsReached path l r out cs
diff_unequal-IsReached rec path l r out n cs differ e h below =
    elim (diff_unequal-cases rec path l r differ) [
      | inl (shape, some_leaf) ↦
          let same : entry_of path l r ∷ [] ≡ out = cc in
          here-IsReached path l r out cs (subst (Any (λ x. x ≡ entry_of path l r)) same (inl refl))
      | inr (shape, no_leaf) ↦
          children-IsReached rec path l r out n cs (sym shape ∙ e) no_leaf h below
    ]

pub diff_nodes-IsReached :
    (fuel : ℕ) (path : List ℕ) (l r : Option Node) (out : List DiffEntry) (n : ℕ)
    (cs : List (List ℕ))
    → diff_nodes fuel path l r ≡ some (out, n)
    → (is_leaf (node_at l cs) || is_leaf (node_at r cs)) ≡ true
    → IsReached path l r out cs
unfolding IsReached
diff_nodes-IsReached zero path l r out n cs e h = absurd (unfold diff_nodes in cc e)
diff_nodes-IsReached (suc fuel) path l r out n cs e h =
    let below = diff_nodes-IsReached fuel in
    elim (diff_nodes_inv fuel path l r out n e) [
      | inl (same, empty) ↦ ([], cs, refl, inl (unfold node_at in same))
      | inr (differ, (n', found)) ↦
          diff_unequal-IsReached (diff_nodes fuel) path l r out n' cs differ found h below
    ]
