-- ===== src/Merkle/Tree/Map.antt =====
-- The map of a directory's children, read and written by name.
use merkle_lan_sync.Base.{
  ℕ, ◌≡◌, ◌≢◌, refl, arith, none, some, List, compare_bytes_self, compare_bytes_eq,
}
use merkle_lan_sync.Merkle.Tree.{
  Node, Children, end, child, get_child, put_child, rehash, rehash_children,
}

pub get_child-put_child :
    (kids : Children) (name : List ℕ) (n : Node) → get_child (put_child kids name n) name ≡ some n
unfolding get_child put_child
get_child-put_child end name n = ground (arith, compare_bytes_self name)
get_child-put_child (child k m kids) name n =
    ground (arith, compare_bytes_self name, get_child-put_child kids name n)

pub get_child-put_child_other :
    (kids : Children) (name other : List ℕ) (n : Node)
    → name ≢ other
    → get_child (put_child kids name n) other ≡ get_child kids other
unfolding get_child put_child
get_child-put_child_other end name other n ne = ground (arith, ne, compare_bytes_eq other name)
get_child-put_child_other (child k m kids) name other n ne = ground (
  arith,
  ne,
  compare_bytes_eq other name,
  compare_bytes_eq name k,
  compare_bytes_eq other k,
  get_child-put_child_other kids name other n ne,
)

module _ (sha256 : List ℕ → List ℕ) where
  pub get_child-rehash :
      (kids : Children) (name : List ℕ)
      → get_child (rehash_children sha256 kids) name
        ≡ (elim (get_child kids name) [ none ↦ none | some n ↦ some (rehash sha256 n) ])
  unfolding get_child rehash
  get_child-rehash end name = refl
  get_child-rehash (child k m kids) name = ground (arith, get_child-rehash kids name)

  pub put_child-rehash :
      (kids : Children) (name : List ℕ) (n : Node)
      → rehash_children sha256 (put_child kids name n)
        ≡ put_child (rehash_children sha256 kids) name (rehash sha256 n)
  unfolding put_child rehash
  put_child-rehash end name n = refl
  put_child-rehash (child k m kids) name n = ground (arith, put_child-rehash kids name n)
