-- ===== src/Reconcile/Engine/Peers.antt =====
-- internal/reconcile/engine.go: the reconciliation with a peer, and the messages and completions that
-- lead to it. A handler takes the state of the connection apart from the state of the engine.
use merkle_lan_sync.Base.{
  ℕ, Bool, true, false, not, ◌&&◌, ◌||◌, Option, none, some, List, [], ◌∷◌, ◌++◌, ok, err,
  if◌then◌else◌, bytes_eq,
}
use merkle_lan_sync.Merkle.FileInfo.{FileInfo, file}
use merkle_lan_sync.Merkle.Tree.{build_tree}
use merkle_lan_sync.Merkle.Differ.{DiffEntry, is_type_clash, diff}
use merkle_lan_sync.Reconcile.Plan.{Plan, no_op, install, conflict, resolve}
use merkle_lan_sync.Reconcile.Tombstone.{gc_tombstones}
use merkle_lan_sync.Reconcile.Startup.{same_type}
use merkle_lan_sync.Reconcile.Engine.{State, Peer, values, snapshot_files, has_key, rebuild}
use merkle_lan_sync.Reconcile.Engine.Local.{indexes}
use merkle_lan_sync.Reconcile.Engine.Queue.{enqueue_rename, execute}

-- `tombInstall`: the tombstone to install, and the content that this side still has at its path.
pub record TombInstall : Type 0 where
  pub leaf : FileInfo
  pub old_hash : Option (List ℕ)

-- What the loop over the differing paths carries.
pub record Round : Type 0 where
  pub st : State
  pub ps : Peer
  pub creates : List FileInfo
  pub tombs : List TombInstall

unfoldable pub old_content : Option FileInfo → Option (List ℕ)
old_content none = none
old_content (some local) =
    if not local.deleted && same_type local.file_type file then some local.content_hash else none

-- The old content is known, and is this one.
unfoldable pub holds : TombInstall → List ℕ → Bool
holds t hash = elim t.old_hash [ none ↦ false | some h ↦ bytes_eq h hash ]

-- One create and the tombstones, each with a mark that it is paired: the peer and the marks after
-- the first tombstone that serves the create, or none.
unfoldable pub pair_with :
    Peer → FileInfo → List (TombInstall × Bool) → Option (Peer × List (TombInstall × Bool))
pair_with ps c [] = none
pair_with ps c ((t, paired) ∷ tombs) =
    let later = pair_with ps c tombs in
    if not (paired || has_key ps.inflight t.leaf.path) && holds t c.content_hash
    then some (enqueue_rename ps c t.leaf, (t, true) ∷ tombs)
    else elim later [ none ↦ none | some (ps', marks) ↦ some (ps', (t, paired) ∷ marks) ]

-- One create: the peer, the marks, and the create if it is left to be executed by itself.
unfoldable pub pair_step :
    Peer → List (TombInstall × Bool) → FileInfo → Peer × List (TombInstall × Bool) × List FileInfo
pair_step ps marks c =
    if has_key ps.inflight c.path then (ps, marks, []) else elim (pair_with ps c marks) [
      | none ↦ (ps, marks, c ∷ [])
      | some (ps', marks') ↦ (ps', marks', [])
    ]

unfoldable pub pair_loop :
    Peer
    → List (TombInstall × Bool)
    → List FileInfo
    → Peer × List (TombInstall × Bool) × List FileInfo
pair_loop ps marks [] = (ps, marks, [])
pair_loop ps marks (c ∷ creates) =
    let (ps', marks', left) = pair_step ps marks c in
    let (ps'', marks'', more) = pair_loop ps' marks' creates in (ps'', marks'', left ++ more)

unfoldable pub unmarked : List TombInstall → List (TombInstall × Bool)
unmarked [] = []
unmarked (t ∷ tombs) = (t, false) ∷ unmarked tombs

module _ (nfc sha256 : List ℕ → List ℕ) (root : List ℕ) where
  unfoldable pub bucket : Round → DiffEntry → Plan → Round
  bucket r d (install fi) =
      if not fi.deleted then record r { creates = r.creates ++ (fi ∷ []) } else record r {
        tombs = r.tombs ++ (record { leaf = fi; old_hash = old_content d.local } ∷ []);
      }
  bucket r d no_op =
      let (st, ps) = execute sha256 root r.st r.ps no_op in record r { st = st; ps = ps }
  bucket r d (conflict winner loser) =
      let (st, ps) = execute sha256 root r.st r.ps (conflict winner loser) in
      record r { st = st; ps = ps }

  unfoldable pub bucket_loop : Round → List DiffEntry → Round
  bucket_loop r [] = r
  bucket_loop r (d ∷ entries) =
      bucket_loop (if is_type_clash d then r else bucket r d (resolve nfc d.local d.remote)) entries

  unfoldable pub install_all : State → Peer → List FileInfo → State × Peer
  install_all st ps [] = (st, ps)
  install_all st ps (fi ∷ creates) =
      let (st', ps') = execute sha256 root st ps (install fi) in install_all st' ps' creates

  unfoldable pub install_tombs : State → Peer → List (TombInstall × Bool) → State × Peer
  install_tombs st ps [] = (st, ps)
  install_tombs st ps ((t, paired) ∷ tombs) =
      let (st', ps') =
        if not paired && not (has_key ps.inflight t.leaf.path)
        then execute sha256 root st ps (install t.leaf)
        else (st, ps) in
      install_tombs st' ps' tombs

  unfoldable pub collect : State → State
  collect st =
      let (left, changed) = gc_tombstones st.files (indexes st.peers) in
      let st' = record st { files = left } in if changed then rebuild sha256 st' else st'

  -- `reconcileWithPeer` after the trees are compared
  unfoldable pub carry_out : State → Peer → List DiffEntry → State × Peer
  carry_out st ps entries =
      let r = bucket_loop (record { st = st; ps = ps; creates = []; tombs = [] }) entries in
      let (ps₁, marks, left) = pair_loop r.ps (unmarked r.tombs) r.creates in
      let (st₂, ps₂) = install_all r.st ps₁ left in
      let (st₃, ps₃) = install_tombs st₂ ps₂ marks in (collect st₃, ps₃)

  -- The differing paths of the two trees, unless one of them cannot be built.
  unfoldable pub differing_paths : State → Peer → Option (List DiffEntry)
  differing_paths st ps = elim (build_tree sha256 (snapshot_files st.files)) [
    | err e ↦ none
    | ok local ↦ elim (build_tree sha256 (values ps.index)) [
      | err e ↦ none
      | ok remote ↦ diff (some local) (some remote)
    ]
  ]

  unfoldable pub carry_out_found : State → Peer → Option (List DiffEntry) → State × Peer
  carry_out_found st ps none = (st, ps)
  carry_out_found st ps (some entries) = carry_out st ps entries

  unfoldable pub reconcile_with_peer : State → Peer → State × Peer
  reconcile_with_peer st ps = carry_out_found st ps (differing_paths st ps)
