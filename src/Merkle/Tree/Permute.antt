-- ===== src/Merkle/Tree/Permute.antt =====
-- internal/merkle/tree.go, `BuildTree`: the order of the leaves does not matter.
use merkle_lan_sync.Base.{ℕ, ◌≡◌, refl, ap, sym, ◌∙◌, List, ◌∷◌, Result, ok, err, ◌>>=◌}
use mathlib.Core.List.{Permᴰ}
use merkle_lan_sync.Merkle.FileInfo.{FileInfo}
use merkle_lan_sync.Merkle.Tree.{
  Node, tree_conflict, empty_dir, split_path_components, place, build_loop, rehash, build_tree,
  Error,
}
use merkle_lan_sync.Merkle.Tree.Commute.{place_swap, then_conflict}

in_turn :
    (r : Result Error Node) (f g : Node → Result Error Node)
    → ((r >>= f) >>= g) ≡ (r >>= λ n. f n >>= g)
in_turn (err e) f g = refl
in_turn (ok n) f g = refl

-- Two rounds of the loop, in either order.
two_steps :
    (x y : Result Error (List ℕ × List (List ℕ))) (root : Node) (fi gi : FileInfo)
    (set : List FileInfo)
    → (x >>= λ (a, ra).
        place root a ra fi >>= λ m. y >>= λ (b, rb). place m b rb gi >>= λ n. build_loop n set)
      ≡ (y >>= λ (b, rb).
          place root b rb gi >>= λ m. x >>= λ (a, ra). place m a ra fi >>= λ n. build_loop n set)
two_steps (err tree_conflict) (err tree_conflict) root fi gi set = refl
two_steps (err tree_conflict) (ok (b, rb)) root fi gi set =
    sym (then_conflict (place root b rb gi) _ (λ m. refl))
two_steps (ok (a, ra)) (err tree_conflict) root fi gi set =
    then_conflict (place root a ra fi) _ (λ m. refl)
two_steps (ok (a, ra)) (ok (b, rb)) root fi gi set =
    sym (in_turn (place root a ra fi) (λ m. place m b rb gi) (λ n. build_loop n set))
    ∙ ap (λ r. r >>= λ n. build_loop n set) (place_swap root a b ra rb fi gi)
    ∙ in_turn (place root b rb gi) (λ m. place m a ra fi) (λ n. build_loop n set)

same_step :
    (x : Result Error (List ℕ × List (List ℕ))) (root : Node) (fi : FileInfo)
    (set set' : List FileInfo)
    → ((m : Node) → build_loop m set ≡ build_loop m set')
    → (x >>= λ (a, ra). place root a ra fi >>= λ m. build_loop m set)
      ≡ (x >>= λ (a, ra). place root a ra fi >>= λ m. build_loop m set')
same_step (err e) root fi set set' h = refl
same_step (ok (a, ra)) root fi set set' h = after (place root a ra fi)
  where
    after : (r : Result Error Node) → (r >>= λ m. build_loop m set) ≡ (r >>= λ m. build_loop m set')
    after (err e) = refl
    after (ok m) = h m

build_loop_cons :
    (root : Node) (fi : FileInfo) (set set' : List FileInfo)
    → ((m : Node) → build_loop m set ≡ build_loop m set')
    → build_loop root (fi ∷ set) ≡ build_loop root (fi ∷ set')
unfolding build_loop
build_loop_cons root fi set set' h = same_step (split_path_components fi.path) root fi set set' h

build_loop_swap :
    (root : Node) (fi gi : FileInfo) (set : List FileInfo)
    → build_loop root (fi ∷ gi ∷ set) ≡ build_loop root (gi ∷ fi ∷ set)
unfolding build_loop
build_loop_swap root fi gi set =
    two_steps (split_path_components fi.path) (split_path_components gi.path) root fi gi set

build_loop-perm :
    (set set' : List FileInfo)
    → Permᴰ set set'
    → (root : Node) → build_loop root set ≡ build_loop root set'
build_loop-perm _ _ Permᴰ.nil root = refl
build_loop-perm _ _ (Permᴰ.cons {a = a} {b = b} {l₁ = l₁} {l₂ = l₂} e d) root =
    build_loop_cons root a l₁ l₂ (build_loop-perm l₁ l₂ d) ∙ ap (λ x. build_loop root (x ∷ l₂)) e
build_loop-perm _ _ (Permᴰ.swap {a = a} {b = b} {b' = b'} {l = l} e e') root =
    build_loop_swap root a b l
    ∙ ap (λ x. build_loop root (b ∷ x ∷ l)) e
    ∙ ap (λ x. build_loop root (x ∷ b' ∷ l)) e'
build_loop-perm _ _ (Permᴰ.trans {l₁ = l₁} {l₂ = l₂} {l₃ = l₃} d d') root =
    build_loop-perm l₁ l₂ d root ∙ build_loop-perm l₂ l₃ d' root

-- `BuildTree` of a set in another order is the same tree with the same hashes, or the same error.
pub build_tree-perm :
    (sha256 : List ℕ → List ℕ) (set set' : List FileInfo)
    → Permᴰ set set'
    → build_tree sha256 set ≡ build_tree sha256 set'
unfolding build_tree
build_tree-perm sha256 set set' d =
    ap (λ r. r >>= λ root. ok (rehash sha256 root)) (build_loop-perm set set' d empty_dir)
