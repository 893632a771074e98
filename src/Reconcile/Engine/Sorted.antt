-- ===== src/Reconcile/Engine/Sorted.antt =====
-- internal/reconcile/engine.go, `snapshotFilesLocked`: all that is recorded, and in the order of the
-- paths.
use merkle_lan_sync.Base.{
  ◌≡◌, ◌≢◌, refl, ap, arith, true, false, inl, inr, List, [], ◌∷◌, Bool, Bool-cases, All, length,
  suc, ◌∙◌, compare_bytes, compare_bytes_gt, Ordering,
}
use mathlib.Core.Path.{subst}
use mathlib.Core.List.{Permᴰ, map}
use mathlib.Core.List.Permᴰ
use merkle_lan_sync.Merkle.FileInfo.{FileInfo}
use merkle_lan_sync.Reconcile.Tombstone.{Files}
use merkle_lan_sync.Reconcile.Engine.{values, insert_leaf, sort_leaves, path_less, snapshot_files}

-- The first path of the list, if any, is not before that of the leaf.
abbrev pub IsAbove : FileInfo → List FileInfo → Type 0
IsAbove x [] = Unit {0}
IsAbove x (y ∷ ys) = compare_bytes x.path y.path ≢ Ordering.gt

-- Each path is not before the path that it follows.
abbrev pub IsAscending : List FileInfo → Type 0
IsAscending [] = Unit {0}
IsAscending (x ∷ xs) = IsAbove x xs × IsAscending xs

-- The recorded leaves, in the order in which they are kept.
abbrev pub leaves_of : Files → List FileInfo
leaves_of files = map (λ e. e.1) files

insert_leaf-perm :
    (less : FileInfo → FileInfo → Bool) (x : FileInfo) (ys : List FileInfo)
    → Permᴰ (x ∷ ys) (insert_leaf less x ys)
unfolding insert_leaf
insert_leaf-perm less x [] = Permᴰ.refl (x ∷ [])
insert_leaf-perm less x (y ∷ ys) = elim (Bool-cases (less y x)) [
  | inl before ↦
      subst (Permᴰ (x ∷ y ∷ ys))
        (let shape : y ∷ insert_leaf less x ys ≡ insert_leaf less x (y ∷ ys) =
            rw (insert_leaf, before) refl in
          shape)
        (Permᴰ.trans (Permᴰ.swap refl refl) (Permᴰ.cons refl (insert_leaf-perm less x ys)))
  | inr after ↦
      subst (Permᴰ (x ∷ y ∷ ys))
        (let shape : x ∷ y ∷ ys ≡ insert_leaf less x (y ∷ ys) = rw (insert_leaf, after) refl in
          shape)
        (Permᴰ.refl (x ∷ y ∷ ys))
]

sort_leaves-perm :
    (less : FileInfo → FileInfo → Bool) (xs : List FileInfo) → Permᴰ xs (sort_leaves less xs)
unfolding sort_leaves
sort_leaves-perm less [] = Permᴰ.nil
sort_leaves-perm less (x ∷ xs) =
    Permᴰ.trans (Permᴰ.cons refl (sort_leaves-perm less xs))
      (insert_leaf-perm less x (sort_leaves less xs))

values-map : (files : Files) → values files ≡ leaves_of files
unfolding values
values-map [] = refl
values-map ((k, fi) ∷ files) = ap (λ fs. fi ∷ fs) (values-map files)

-- Nothing that is recorded is left out, a tombstone no more than a live leaf, and nothing is added.
pub snapshot_files-perm : (files : Files) → Permᴰ (leaves_of files) (snapshot_files files)
unfolding snapshot_files
snapshot_files-perm files =
    subst (λ l. Permᴰ l (sort_leaves path_less (values files))) (values-map files)
      (sort_leaves-perm path_less (values files))

insert_leaf-IsAbove :
    (z x : FileInfo) (ys : List FileInfo)
    → compare_bytes z.path x.path ≢ Ordering.gt
    → IsAbove z ys
    → IsAbove z (insert_leaf path_less x ys)
unfolding insert_leaf
insert_leaf-IsAbove z x [] low above = low
insert_leaf-IsAbove z x (y ∷ ys) low above = elim (Bool-cases (path_less y x)) [
  | inl before ↦ rw (IsAbove, before) above
  | inr after ↦ rw (IsAbove, after) low
]

path_less-below :
    (y x : FileInfo) → path_less y x ≡ true → compare_bytes y.path x.path ≢ Ordering.gt
unfolding path_less
path_less-below y x e = ground (arith, e)

path_less-above :
    (y x : FileInfo) → path_less y x ≡ false → compare_bytes x.path y.path ≢ Ordering.gt
unfolding path_less
path_less-above y x e = ground (arith, e, compare_bytes_gt x.path y.path)

insert_leaf-IsAscending :
    (x : FileInfo) (ys : List FileInfo) → IsAscending ys → IsAscending (insert_leaf path_less x ys)
unfolding insert_leaf
insert_leaf-IsAscending x [] h = (tt, tt)
insert_leaf-IsAscending x (y ∷ ys) h =
    let below = insert_leaf-IsAscending x ys h.1 in
    elim (Bool-cases (path_less y x)) [
      | inl before ↦
          rw (IsAscending, before)
            (insert_leaf-IsAbove y x ys (path_less-below y x before) h.0, below)
      | inr after ↦ rw (IsAscending, after) (path_less-above y x after, h)
    ]

sort_leaves-IsAscending : (xs : List FileInfo) → IsAscending (sort_leaves path_less xs)
unfolding sort_leaves
sort_leaves-IsAscending [] = tt
sort_leaves-IsAscending (x ∷ xs) =
    insert_leaf-IsAscending x (sort_leaves path_less xs) (sort_leaves-IsAscending xs)

pub snapshot_files-IsAscending : (files : Files) → IsAscending (snapshot_files files)
unfolding snapshot_files
snapshot_files-IsAscending files = sort_leaves-IsAscending (values files)

pub All-perm : (P : FileInfo → Type 0) {xs ys : List FileInfo} → Permᴰ xs ys → All P xs → All P ys
All-perm P Permᴰ.nil h = tt
All-perm P (Permᴰ.cons e d) h = (subst P e h.0, All-perm P d h.1)
All-perm P (Permᴰ.swap e e') h = (subst P e' h.1.0, (subst P e h.0, h.1.1))
All-perm P (Permᴰ.trans d d') h = All-perm P d' (All-perm P d h)

pub length-perm : {xs ys : List FileInfo} → Permᴰ xs ys → length xs ≡ length ys
length-perm Permᴰ.nil = refl
length-perm (Permᴰ.cons e d) = ap suc (length-perm d)
length-perm (Permᴰ.swap e e') = refl
length-perm (Permᴰ.trans d d') = length-perm d ∙ length-perm d'

pub length-leaves_of : (files : Files) → length (leaves_of files) ≡ length files
length-leaves_of [] = refl
length-leaves_of (e ∷ files) = ap suc (length-leaves_of files)
