-- ===== src/Merkle/Tree/Walk.antt =====
-- internal/merkle/tree.go: the loop of `Lookup` after one leaf was written.
use merkle_lan_sync.Base.{
  ℕ, ◌≡◌, refl, ap, sym, ◌∙◌, arith, inl, inr, Bool, true, false, Option, none, some, List, [], ◌∷◌,
  ok, Option-cases, Bool-cases, bytes_eq, bytes_eq_iff, bytes_eq_ne, if◌then◌else◌, ◌&&◌,
}
use merkle_lan_sync.Merkle.FileInfo.{FileInfo}
use merkle_lan_sync.Merkle.Tree.{
  Node, Children, leaf, dir, get_child, put_child, empty_dir, child_or_empty, place, cow_upsert,
  kids_of, leaf_of, walk, rehash, rehash_children,
}
use merkle_lan_sync.Merkle.Tree.Map.{
  get_child-put_child, get_child-put_child_other, get_child-rehash,
}
use merkle_lan_sync.Merkle.Tree.Build.{place_inv_here, place_inv_below}
use merkle_lan_sync.Merkle.Tree.Incremental.{upsert_inv_here, upsert_inv_below}

-- The same components.
unfoldable pub same_path : List (List ℕ) → List (List ℕ) → Bool
same_path [] [] = true
same_path [] (d ∷ ds) = false
same_path (c ∷ cs) [] = false
same_path (c ∷ cs) (d ∷ ds) = bytes_eq c d && same_path cs ds

pub same_path_iff :
    (cs ds : List (List ℕ))
    → (same_path cs ds ≡ true → cs ≡ ds) × (cs ≡ ds → same_path cs ds ≡ true)
unfolding same_path
same_path_iff [] [] = ground arith
same_path_iff [] (d ∷ ds) = ground arith
same_path_iff (c ∷ cs) [] = ground arith
same_path_iff (c ∷ cs) (d ∷ ds) = ground (arith, same_path_iff cs ds, bytes_eq_iff c d)

-- A path is not found below a place where there is nothing, or a leaf.
pub walk-end : (cs : List (List ℕ)) → walk none cs ≡ none
unfolding walk leaf_of kids_of get_child
walk-end [] = refl
walk-end (c ∷ cs) = walk-end cs

pub walk_empty : (cs : List (List ℕ)) → walk (some empty_dir) cs ≡ none
unfolding walk leaf_of kids_of get_child
walk_empty [] = refl
walk_empty (c ∷ cs) = walk-end cs

pub walk-child_or_empty :
    (n : Option Node) (cs : List (List ℕ)) → walk (some (child_or_empty n)) cs ≡ walk n cs
unfolding child_or_empty
walk-child_or_empty none cs = walk_empty cs ∙ sym (walk-end cs)
walk-child_or_empty (some n) cs = refl

-- Reading a directory in which one child was written.
walk-put_child :
    (kids : Children) (h head : List ℕ) (n : Node) (ds : List (List ℕ)) (d : List ℕ)
    → walk (some (dir (put_child kids head n) h)) (d ∷ ds)
      ≡ (if bytes_eq head d then walk (some n) ds else walk (get_child kids d) ds)
unfolding walk kids_of
walk-put_child kids h head n ds d = elim (Bool-cases (bytes_eq head d)) [
  | inl e ↦
      let same : head ≡ d = (bytes_eq_iff head d).0 e in
      rw e (
        ap (λ m. walk m ds)
          (ap (get_child (put_child kids head n)) (sym same) ∙ get_child-put_child kids head n))
  | inr e ↦
      rw e (ap (λ m. walk m ds) (get_child-put_child_other kids head d n (bytes_eq_ne head d e)))
]

-- One level of a write: the child holds the new leaf at the rest of the path.
walk_step :
    (kids : Children) (h g head : List ℕ) (m : Node) (rest : List (List ℕ)) (fi : FileInfo)
    → ((ds : List (List ℕ))
        → walk (some m) ds ≡ (if same_path rest ds then some fi else walk (get_child kids head) ds))
    → (ds : List (List ℕ))
    → walk (some (dir (put_child kids head m) h)) ds
      ≡ (if same_path (head ∷ rest) ds then some fi else walk (some (dir kids g)) ds)
unfolding same_path
walk_step kids h g head m rest fi below [] = unfold walk leaf_of in refl
walk_step kids h g head m rest fi below (d ∷ ds) =
    rw (walk-put_child kids h head m ds d) (elim (Bool-cases (bytes_eq head d)) [
      | inl e ↦
          let same : head ≡ d = (bytes_eq_iff head d).0 e in
          rw e (
            below ds
            ∙ ap (λ k. if same_path rest ds then some fi else walk (get_child kids k) ds) same
            ∙ (unfold walk kids_of in refl))
      | inr e ↦ rw e (unfold walk kids_of in refl)
    ])

walk-leaf :
    (fi : FileInfo) (g : List ℕ) (n : Option Node)
    → ((x : List ℕ) (ds : List (List ℕ)) → walk n (x ∷ ds) ≡ none)
    → (ds : List (List ℕ))
    → walk (some (leaf fi g)) ds ≡ (if same_path [] ds then some fi else walk n ds)
unfolding same_path
walk-leaf fi g n nothing [] = unfold walk leaf_of in refl
walk-leaf fi g n nothing (x ∷ ds) =
    let gone : walk (some (leaf fi g)) (x ∷ ds) ≡ none =
      unfold walk kids_of get_child in walk-end ds in
    gone ∙ sym (nothing x ds)

-- Where a leaf may be put there is nothing below.
nothing_below :
    (sha256 : List ℕ → List ℕ) (kids : Children) (h head : List ℕ) (fi : FileInfo) (n' : Node)
    → cow_upsert sha256 (dir kids h) head [] fi ≡ ok n'
    → (x : List ℕ) (ds : List (List ℕ)) → walk (get_child kids head) (x ∷ ds) ≡ none
unfolding cow_upsert
nothing_below sha256 kids h head fi n' e x ds = elim (Option-cases (get_child kids head)) [
  | inl absent ↦ rw absent (walk-end (x ∷ ds))
  | inr (leaf f g, there) ↦ rw there (unfold walk kids_of get_child in walk-end ds)
  | inr (dir sub g, there) ↦ absurd (ground (arith, there))
]

pub walk-cow_upsert :
    (sha256 : List ℕ → List ℕ) (n n' : Node) (head : List ℕ) (rest : List (List ℕ)) (fi : FileInfo)
    → cow_upsert sha256 n head rest fi ≡ ok n'
    → (ds : List (List ℕ))
    → walk (some n') ds ≡ (if same_path (head ∷ rest) ds then some fi else walk (some n) ds)
walk-cow_upsert sha256 (leaf f h) n' head rest fi e ds = unfold cow_upsert in cc
walk-cow_upsert sha256 (dir kids h) n' head [] fi e ds =
    rw (upsert_inv_here sha256 kids h head fi n' e) (
      walk_step kids _ h head _ [] fi
        (walk-leaf fi _ (get_child kids head) (nothing_below sha256 kids h head fi n' e)) ds)
walk-cow_upsert sha256 (dir kids h) n' head (c ∷ rest) fi e ds =
    let (m, done, shape) = upsert_inv_below sha256 kids h head c rest fi n' e in
    rw shape (
      walk_step kids _ h head m (c ∷ rest) fi
        (λ ds'.
          walk-cow_upsert sha256 (child_or_empty (get_child kids head)) m c rest fi done ds'
          ∙ ap (λ w. if same_path (c ∷ rest) ds' then some fi else w)
              (walk-child_or_empty (get_child kids head) ds'))
        ds)

pub walk-place :
    (n n' : Node) (head : List ℕ) (rest : List (List ℕ)) (fi : FileInfo)
    → place n head rest fi ≡ ok n'
    → (ds : List (List ℕ))
    → walk (some n') ds ≡ (if same_path (head ∷ rest) ds then some fi else walk (some n) ds)
walk-place (leaf f h) n' head rest fi e ds = unfold place in cc
walk-place (dir kids h) n' head [] fi e ds =
    let (absent, shape) = place_inv_here kids h head fi n' e in
    rw shape (
      walk_step kids _ h head _ [] fi
        (walk-leaf fi _ (get_child kids head) (λ x ds'. rw absent (walk-end (x ∷ ds')))) ds)
walk-place (dir kids h) n' head (c ∷ rest) fi e ds =
    let (m, done, shape) = place_inv_below kids h head c rest fi n' e in
    rw shape (
      walk_step kids _ h head m (c ∷ rest) fi
        (λ ds'.
          walk-place (child_or_empty (get_child kids head)) m c rest fi done ds'
          ∙ ap (λ w. if same_path (c ∷ rest) ds' then some fi else w)
              (walk-child_or_empty (get_child kids head) ds'))
        ds)

walk_dir :
    (sha256 : List ℕ → List ℕ) (kids : Children) (h d : List ℕ) (ds : List (List ℕ))
    (before after : Option Node)
    → get_child kids d ≡ before
    → get_child (rehash_children sha256 kids) d ≡ after
    → walk after ds ≡ walk before ds
    → walk (some (rehash sha256 (dir kids h))) (d ∷ ds) ≡ walk (some (dir kids h)) (d ∷ ds)
unfolding walk kids_of rehash
walk_dir sha256 kids h d ds before after was is below = rw (was, is) below

pub walk-rehash :
    (sha256 : List ℕ → List ℕ) (ds : List (List ℕ)) (n : Node)
    → walk (some (rehash sha256 n)) ds ≡ walk (some n) ds
walk-rehash sha256 [] (leaf fi h) = unfold rehash walk leaf_of in refl
walk-rehash sha256 [] (dir kids h) = unfold rehash walk leaf_of in refl
walk-rehash sha256 (d ∷ ds) (leaf fi h) = unfold rehash walk kids_of in refl
walk-rehash sha256 (d ∷ ds) (dir kids h) =
    let below = walk-rehash sha256 ds in
    elim (Option-cases (get_child kids d)) [
      | inl gone ↦
          walk_dir sha256 kids h d ds none none gone
            (ground (arith, gone, get_child-rehash sha256 kids d)) refl
      | inr (n, there) ↦
          walk_dir sha256 kids h d ds (some n) (some (rehash sha256 n)) there
            (ground (arith, there, get_child-rehash sha256 kids d)) (below n)
    ]
