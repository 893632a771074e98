-- ===== src/Reconcile/Engine/Queue.antt =====
-- internal/reconcile/engine.go: the queue of a peer's puller, and what is done about one verdict.
use merkle_lan_sync.Base.{
  ℕ, Bool, true, false, not, ◌&&◌, ◌||◌, Option, none, some, List, [], ◌∷◌, ◌++◌, if◌then◌else◌,
  length, ltb, bytes_eq,
}
use merkle_lan_sync.Pathnorm.OsPath.{would_exceed_max_path}
use merkle_lan_sync.Protocol.VersionVector.{is_equal}
use merkle_lan_sync.Merkle.FileInfo.{FileInfo, file}
use merkle_lan_sync.Reconcile.Plan.{Plan, no_op, install, conflict}
use merkle_lan_sync.Reconcile.Tombstone.{Files, lookup}
use merkle_lan_sync.Reconcile.Startup.{put, same_type}
use merkle_lan_sync.Reconcile.Engine.{State, Peer, FetchTask, broadcast_update, has_key, rebuild}

abbrev pub fetch_queue_depth : ℕ
fetch_queue_depth = 256

-- The send that does not wait: on a full queue nothing happens, else the keys are in flight.
unfoldable pub enqueue : Peer → FetchTask → List (List ℕ) → Peer
enqueue ps task keys =
    if ltb (length ps.fetch_queue) fetch_queue_depth
    then record ps { fetch_queue = ps.fetch_queue ++ (task ∷ []); inflight = keys ++ ps.inflight }
    else ps

unfoldable pub enqueue_fetch : Peer → FileInfo → Bool → Peer
enqueue_fetch ps leaf advertise =
    if has_key ps.inflight leaf.path
    then ps
    else enqueue ps
        (record { leaf = leaf; advertise = advertise; preserve = none; preserve_advertise = false })
        (leaf.path ∷ [])

unfoldable pub enqueue_conflict : Peer → FileInfo → FileInfo → Peer
enqueue_conflict ps loser winner =
    if has_key ps.inflight winner.path
    then ps
    else enqueue ps
        (record {
          leaf = winner;
          advertise = false;
          preserve = some loser;
          preserve_advertise = true;
        })
        (winner.path ∷ [])

unfoldable pub enqueue_rename : Peer → FileInfo → FileInfo → Peer
enqueue_rename ps new_create old_tomb =
    if has_key ps.inflight new_create.path || has_key ps.inflight old_tomb.path
    then ps
    else enqueue ps
        (record {
          leaf = old_tomb;
          advertise = false;
          preserve = some new_create;
          preserve_advertise = false;
        })
        (old_tomb.path ∷ new_create.path ∷ [])

unfoldable pub has_local_content : Files → List ℕ → Bool
has_local_content [] hash = false
has_local_content ((k, fi) ∷ files) hash =
    (not fi.deleted && (same_type fi.file_type file && bytes_eq fi.content_hash hash))
    || has_local_content files hash

-- The recorded leaf is this very tombstone.
unfoldable pub is_redundant : Option FileInfo → FileInfo → Bool
is_redundant none t = false
is_redundant (some prev) t = prev.deleted && is_equal prev.version t.version

module _ (sha256 : List ℕ → List ℕ) where
  unfoldable pub apply_tombstone : State → FileInfo → State
  apply_tombstone st t =
      let st' =
        rebuild sha256
          (record st { files = put st.files t.path t; removed = st.removed ++ (t.path ∷ []) }) in
      if not (is_redundant (lookup st.files t.path) t) then broadcast_update st' (t ∷ []) else st'

  -- A leaf is taken over: a deletion is applied, a live leaf is fetched.
  unfoldable pub take_winner : State → Peer → FileInfo → State × Peer
  take_winner st ps winner =
      if winner.deleted
      then (apply_tombstone st winner, ps)
      else (st, enqueue_fetch ps winner false)

  unfoldable pub execute : List ℕ → State → Peer → Plan → State × Peer
  execute root st ps no_op = (st, ps)
  execute root st ps (install fi) = take_winner st ps fi
  execute root st ps (conflict winner none) = take_winner st ps winner
  execute root st ps (conflict winner (some loser)) =
      if has_local_content st.files loser.content_hash
      then if would_exceed_max_path root loser.path
        then (st, ps)
        else (st, enqueue_conflict ps loser winner)
      else take_winner st ps winner
