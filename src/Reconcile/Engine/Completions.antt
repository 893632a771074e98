-- ===== src/Reconcile/Engine/Completions.antt =====
-- internal/reconcile/engine.go: what the puller reports, what the loop does about it, and the two
-- index messages. What the disk and the network make of a fetch is given.
use merkle_lan_sync.Base.{
  ℕ, Bool, true, false, not, Option, none, some, List, [], ◌∷◌, ok, err, if◌then◌else◌, ◌==◌,
  bytes_eq,
}
use merkle_lan_sync.Merkle.FileInfo.{FileInfo, file}
use merkle_lan_sync.Merkle.Codec.{decode_file_infos}
use merkle_lan_sync.Reconcile.Startup.{put, put_all, same_type}
use merkle_lan_sync.Reconcile.Engine.{State, Peer, FetchTask, rebuild, broadcast_update}
use merkle_lan_sync.Reconcile.Engine.Local.{do_reseed}
use merkle_lan_sync.Reconcile.Engine.Queue.{apply_tombstone}
use merkle_lan_sync.Reconcile.Engine.Peers.{reconcile_with_peer}

pub record Completion : Type 0 where
  leaf : FileInfo
  is_ok : Bool
  clobber : Bool
  advertise : Bool
  apply_tomb : Bool
  conflict_abort : Bool
  peer : ℕ

-- What the attempt to bring a file's content to its path comes to.
pub data Outcome : Type 0 where
  landed clobbers failed : Outcome

-- A report on one file.
unfoldable pub fetched : ℕ → FileInfo → Bool → Bool → Bool → Completion
fetched short leaf advertise done clash = record {
  leaf = leaf;
  is_ok = done;
  clobber = clash;
  advertise = advertise;
  apply_tomb = false;
  conflict_abort = false;
  peer = short;
}

module _ (fetch : FileInfo → Outcome) where
  -- `materialise`: its return value and its report.
  unfoldable pub materialise : ℕ → FileInfo → Bool → Bool × Completion
  materialise short leaf advertise =
      if not (same_type leaf.file_type file)
      then (false, fetched short leaf advertise false false)
      else elim (fetch leaf) [
        | landed ↦ (true, fetched short leaf advertise true false)
        | clobbers ↦ (false, fetched short leaf advertise false true)
        | failed ↦ (false, fetched short leaf advertise false false)
      ]

  -- The destructive half of a coupled task, after its copy has landed.
  unfoldable pub after_copy : ℕ → FetchTask → List Completion
  after_copy short task =
      if task.leaf.deleted
      then record {
        leaf = task.leaf;
        is_ok = true;
        clobber = false;
        advertise = false;
        apply_tomb = true;
        conflict_abort = false;
        peer = short;
      }
        ∷ []
      else (materialise short task.leaf task.advertise).1 ∷ []

  -- `runFetch`: the reports in their order.
  unfoldable pub run_fetch : ℕ → FetchTask → List Completion
  run_fetch short task = elim task.preserve [
    | none ↦ (materialise short task.leaf task.advertise).1 ∷ []
    | some copy ↦
        let (copied, report) = materialise short copy task.preserve_advertise in
        if not copied
        then report
          ∷ record {
            leaf = task.leaf;
            is_ok = false;
            clobber = false;
            advertise = false;
            apply_tomb = false;
            conflict_abort = true;
            peer = short;
          }
          ∷ []
        else report ∷ after_copy short task
  ]

unfoldable pub peer_by_short : List Peer → ℕ → Option Peer
peer_by_short [] short = none
peer_by_short (ps ∷ peers) short = if ps.short == short then some ps else peer_by_short peers short

-- The peer that was found is written back.
-- The state of the peer, at its device.
unfoldable pub set_peer : List Peer → Peer → List Peer
set_peer [] new = []
set_peer (ps ∷ peers) new =
    let rest = set_peer peers new in
    if bytes_eq ps.device new.device then new ∷ peers else ps ∷ rest

unfoldable pub delete_key : List (List ℕ) → List ℕ → List (List ℕ)
delete_key [] key = []
delete_key (k ∷ keys) key =
    let rest = delete_key keys key in if bytes_eq k key then rest else k ∷ rest

unfoldable pub clear_inflight : State → ℕ → List ℕ → State
clear_inflight st short key = elim (peer_by_short st.peers short) [
  | none ↦ st
  | some ps ↦ record st {
    peers = set_peer st.peers (record ps { inflight = delete_key ps.inflight key });
  }
]

module _ (nfc sha256 : List ℕ → List ℕ) (self : ℕ) (root : List ℕ) where
  unfoldable pub reconcile_and_keep : State → Peer → State
  reconcile_and_keep st ps =
      let (st', ps') = reconcile_with_peer nfc sha256 root st ps in
      record st' { peers = set_peer st'.peers ps' }

  unfoldable pub reconcile_again : State → ℕ → State
  reconcile_again st short = elim (peer_by_short st.peers short) [
    | none ↦ st
    | some ps ↦ reconcile_and_keep st ps
  ]

  -- The leaf of a fetch that succeeded is recorded, and sent if it is to be advertised.
  unfoldable pub record_fetched : State → Completion → State
  record_fetched st c =
      if c.is_ok
      then (let st' = rebuild sha256 (record st { files = put st.files c.leaf.path c.leaf }) in
          if c.advertise then broadcast_update st' (c.leaf ∷ []) else st')
      else st

  unfoldable pub handle_completion : State → Completion → State
  handle_completion st c =
      if c.apply_tomb
      then reconcile_again (clear_inflight (apply_tombstone sha256 st c.leaf) c.peer c.leaf.path)
          c.peer
      else if c.conflict_abort
      then clear_inflight st c.peer c.leaf.path
      else reconcile_again (clear_inflight (record_fetched st c) c.peer c.leaf.path) c.peer

  -- `onIndex`
  unfoldable pub on_index : State → Peer → List ℕ → State
  on_index st ps body = elim (decode_file_infos nfc body) [
    | err e ↦ st
    | ok set ↦
        let ps' = record ps { index = put_all [] set } in
        let st' = record st { peers = set_peer st.peers ps' } in
        reconcile_and_keep (if st'.reseed then do_reseed sha256 self st' ps' else st') ps'
  ]

  -- `onIndexUpdate`
  unfoldable pub on_index_update : State → Peer → List ℕ → State
  on_index_update st ps body = elim (decode_file_infos nfc body) [
    | err e ↦ st
    | ok set ↦
        let ps' = record ps { index = put_all ps.index set } in
        reconcile_and_keep (record st { peers = set_peer st.peers ps' }) ps'
  ]
