-- ===== src/Reconcile/Engine/Local.antt =====
-- internal/reconcile/engine.go: what the engine does about a change on its own disk, seen by the
-- watcher or by a scan, and the reseed after a lost snapshot.
use merkle_lan_sync.Base.{
  ℕ, Bool, false, not, ◌&&◌, ◌||◌, Option, none, some, List, [], ◌∷◌, ◌++◌, if◌then◌else◌, ◌==◌,
  bytes_eq, length, eqb_ℤ,
}
use merkle_lan_sync.Protocol.VersionVector.{VersionVector, bump}
use merkle_lan_sync.Merkle.FileInfo.{FileInfo, set_deleted}
use merkle_lan_sync.Reconcile.Tombstone.{Files, lookup, gc_tombstones}
use merkle_lan_sync.Reconcile.Startup.{put, same_type, internal_file, drop_internal, has_path}
use merkle_lan_sync.Reconcile.Engine.{State, Peer, broadcast_update, inflight, rebuild}

-- What `Lstat` and the hash of a path give: no file, a directory, a file that cannot be read, or its
-- leaf, with an empty version.
pub data Observed : Type 0 where
  gone directory unreadable : Observed
  found : FileInfo → Observed

unfoldable pub version_of : Option FileInfo → VersionVector
version_of none = []
version_of (some prev) = prev.version

-- The recorded leaf has the observed content.
unfoldable pub is_echo : Option FileInfo → FileInfo → Bool
is_echo none s = false
is_echo (some prev) s =
    not prev.deleted
    && (bytes_eq prev.content_hash s.content_hash
        && (same_type prev.file_type s.file_type && (prev.size == s.size)))

-- The recorded leaf with the observed time, where only that has moved.
unfoldable pub touch : Files → List ℕ → Option FileInfo → FileInfo → Files
touch files key none s = files
touch files key (some prev) s =
    if eqb_ℤ prev.mod_time_ns s.mod_time_ns
    then files
    else put files key (record prev { mod_time_ns = s.mod_time_ns })

-- The leaf is recorded as authored here.
unfoldable pub authored : Option FileInfo → FileInfo → ℕ → FileInfo
authored prev s self = record s { version = bump (version_of prev) self }

unfoldable pub with_leaf : Option FileInfo → List FileInfo → List FileInfo
with_leaf none delta = delta
with_leaf (some fi) delta = fi ∷ delta

unfoldable pub indexes : List Peer → List Files
indexes [] = []
indexes (ps ∷ peers) = ps.index ∷ indexes peers

-- One leaf of `doReseed`, with what the peer advertises at its path.
unfoldable pub reseed_leaf : FileInfo → Option FileInfo → ℕ → Option FileInfo
reseed_leaf lf none self = none
reseed_leaf lf (some pf) self =
    if lf.deleted || not (length lf.version == 0)
    then none
    else if pf.deleted
    then none
    else if not (bytes_eq lf.content_hash pf.content_hash)
    then some (record lf { version = bump pf.version self })
    else some (record lf { version = pf.version })

-- The loop of `doReseed`: the files and the leaves with a new version.
unfoldable pub reseed_loop : Files → Files → ℕ → Files × List FileInfo
reseed_loop [] index self = ([], [])
reseed_loop ((k, lf) ∷ files) index self =
    let (rest, bumped) = reseed_loop files index self in
    elim (reseed_leaf lf (lookup index k) self) [
      | none ↦ ((k, lf) ∷ rest, bumped)
      | some fi ↦ ((k, fi) ∷ rest, fi ∷ bumped)
    ]

module _ (self : ℕ) where
  -- One scanned leaf: the files, and what is added to the delta.
  unfoldable pub scan_step : List Peer → Files → FileInfo → Files × Option FileInfo
  scan_step peers files s =
      let prev = lookup files s.path in
      if is_echo prev s
      then (touch files s.path prev s, none)
      else if inflight peers s.path
      then (files, none)
      else (put files s.path (authored prev s self), some (authored prev s self))

  -- The loop of `rescan` over the scanned leaves: the files and the delta.
  unfoldable pub scan_loop : List Peer → Files → List FileInfo → Files × List FileInfo
  scan_loop peers files [] = (files, [])
  scan_loop peers files (s ∷ scanned) =
      let (after, new) = scan_step peers files s in
      let (out, delta) = scan_loop peers after scanned in (out, with_leaf new delta)

  -- The loop of `rescan` over the files: a live one that the scan has not is deleted.
  unfoldable pub vanished_loop : List FileInfo → Files → Files × List FileInfo
  vanished_loop scanned [] = ([], [])
  vanished_loop scanned ((k, fi) ∷ files) =
      let (rest, delta) = vanished_loop scanned files in
      if fi.deleted
      then ((k, fi) ∷ rest, delta)
      else if has_path scanned k
      then ((k, fi) ∷ rest, delta)
      else ((k, set_deleted fi self) ∷ rest, set_deleted fi self ∷ delta)

  -- The two loops of `rescan`: the files and the delta.
  unfoldable pub rescan_files : List Peer → Files → List FileInfo → Files × List FileInfo
  rescan_files peers files scanned =
      let (entered, new) = scan_loop peers files scanned in
      let (left, tombs) = vanished_loop scanned entered in (left, new ++ tombs)

module _ (sha256 : List ℕ → List ℕ) (self : ℕ) where
  unfoldable pub record_and_broadcast : State → List ℕ → FileInfo → State
  record_and_broadcast st key fi =
      broadcast_update (rebuild sha256 (record st { files = put st.files key fi })) (fi ∷ [])

  unfoldable pub on_gone : State → List ℕ → Option FileInfo → State
  on_gone st key none = st
  on_gone st key (some prev) =
      if not prev.deleted then record_and_broadcast st key (set_deleted prev self) else st

  unfoldable pub on_found : State → List ℕ → Option FileInfo → FileInfo → State
  on_found st key prev s =
      if is_echo prev s
      then record st { files = touch st.files key prev s }
      else record_and_broadcast st key (authored prev s self)

  -- `onLocalChange`
  unfoldable pub on_local_change : State → List ℕ → Observed → State
  on_local_change st key seen =
      if internal_file key then st else if inflight st.peers key then st else elim seen [
        | gone ↦ on_gone st key (lookup st.files key)
        | directory ↦ st
        | unreadable ↦ st
        | found s ↦ on_found st key (lookup st.files key) s
      ]

  -- `rescan` after a scan that succeeded, up to the reconciliation with each peer.
  unfoldable pub rescan_local : State → List FileInfo → State
  rescan_local st all =
      let (files, delta) = rescan_files self st.peers st.files (drop_internal all) in
      let (left, collected) = gc_tombstones files (indexes st.peers) in
      let st' = record st { files = left } in
      broadcast_update (if not (length delta == 0) || collected then rebuild sha256 st' else st')
        delta

  -- `doReseed` from a peer
  unfoldable pub do_reseed : State → Peer → State
  do_reseed st ps =
      let (files, bumped) = reseed_loop st.files ps.index self in
      let st' = record st { files = files } in
      let st'' = if not (length bumped == 0) then rebuild sha256 st' else st' in
      broadcast_update (record st'' { reseed = false }) bumped
