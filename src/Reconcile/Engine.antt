-- ===== src/Reconcile/Engine.antt =====
-- internal/reconcile/engine.go and broadcast.go: the state that the engine's loop owns, and what it
-- sends. The loop is the only writer, so a handler is a function from state to state. SHA-256 is a
-- parameter of what builds the tree.
pub mod Local
pub mod Rescan
pub mod Current
pub mod Sorted
pub mod Echo
pub mod Authorship
pub mod Queue
pub mod Peers
pub mod Completions
pub mod Connections
pub mod Bounded
mod Tests
use merkle_lan_sync.Base.{
  ℕ, Bool, true, false, not, ◌&&◌, ◌||◌, Option, none, some, List, [], ◌∷◌, ◌++◌, Result, ok, err,
  if◌then◌else◌, ◌==◌, bytes_eq, length, compare_bytes, Ordering, ltb,
}
use merkle_lan_sync.Merkle.Codec.{Error, encode_file_infos}
use merkle_lan_sync.Merkle.FileInfo.{FileInfo}
use merkle_lan_sync.Merkle.Tree.{Node, build_tree}
use merkle_lan_sync.Reconcile.Plan.{eqb}
use merkle_lan_sync.Reconcile.Tombstone.{Files}

-- What the puller of a peer is asked to do.
pub record FetchTask : Type 0 where
  leaf : FileInfo
  advertise : Bool
  preserve : Option FileInfo
  preserve_advertise : Bool

-- The state of a connection: what the peer last advertised, the set of paths that are queued or
-- fetched, as the list of its members, and the queue of the puller.
pub record Peer : Type 0 where
  device : List ℕ
  short : ℕ
  index : Files
  inflight : List (List ℕ)
  fetch_queue : List FetchTask

-- The state of the engine, with the INDEX_UPDATE batches given to the connections so far, the first
-- one first, and the paths that it removed from the disk.
pub record State : Type 0 where
  files : Files
  tree : Option Node
  peers : List Peer
  reseed : Bool
  outbound : List (List FileInfo)
  removed : List (List ℕ)

unfoldable pub values : Files → List FileInfo
values [] = []
values ((k, fi) ∷ files) = fi ∷ values files

-- A stable sort by `less`.
unfoldable pub insert_leaf : (FileInfo → FileInfo → Bool) → FileInfo → List FileInfo → List FileInfo
insert_leaf less x [] = x ∷ []
insert_leaf less x (y ∷ ys) =
    let later = insert_leaf less x ys in if less y x then y ∷ later else x ∷ y ∷ ys

unfoldable pub sort_leaves : (FileInfo → FileInfo → Bool) → List FileInfo → List FileInfo
sort_leaves less [] = []
sort_leaves less (x ∷ xs) = insert_leaf less x (sort_leaves less xs)

unfoldable pub path_less : FileInfo → FileInfo → Bool
path_less a b = elim (compare_bytes a.path b.path) [
  | Ordering.lt ↦ true
  | Ordering.eq ↦ false
  | Ordering.gt ↦ false
]

unfoldable pub creates_first : FileInfo → FileInfo → Bool
creates_first a b = if not (eqb a.deleted b.deleted) then not a.deleted else path_less a b

unfoldable pub order_creates_before_deletes : List FileInfo → List FileInfo
order_creates_before_deletes delta = sort_leaves creates_first delta

-- `snapshotFilesLocked`
unfoldable pub snapshot_files : Files → List FileInfo
snapshot_files files = sort_leaves path_less (values files)

-- The batch is given to the connections, if it can be encoded.
unfoldable pub give_batch : State → List FileInfo → Result Error (List ℕ) → State
give_batch st set (err e) = st
give_batch st set (ok body) = record st { outbound = st.outbound ++ (set ∷ []) }

-- `broadcastUpdate`, up to the loop over the connections, without the counter for the tests.
unfoldable pub broadcast_update : State → List FileInfo → State
broadcast_update st [] = st
broadcast_update st (fi ∷ changed) =
    let set = order_creates_before_deletes (fi ∷ changed) in
    give_batch st set (encode_file_infos set)

unfoldable pub has_key : List (List ℕ) → List ℕ → Bool
has_key [] key = false
has_key (k ∷ keys) key = bytes_eq k key || has_key keys key

-- `inflightLocked`
unfoldable pub inflight : List Peer → List ℕ → Bool
inflight [] key = false
inflight (ps ∷ peers) key = has_key ps.inflight key || inflight peers key

module _ (sha256 : List ℕ → List ℕ) where
  -- `rebuildLocked`: where the files make no tree the old one is kept.
  unfoldable pub rebuild : State → State
  rebuild st = elim (build_tree sha256 (values st.files)) [
    | ok t ↦ record st { tree = some t }
    | err e ↦ st
  ]
