-- ===== src/Reconcile/Startup.antt =====
-- internal/reconcile/engine.go, `startupReconcile`, with `SynthesizeDeletions` of
-- internal/merkle/scanner.go: what the engine knows after a restart. The loaded snapshot and the scan
-- of the folder are given.
pub mod Laws
use merkle_lan_sync.Base.{
  ℕ, Bool, true, false, not, ◌&&◌, ◌||◌, Option, none, some, List, [], ◌∷◌, ◌++◌, if◌then◌else◌,
  ◌==◌, bytes_eq, length, ℤ, eqb_ℤ,
}
use merkle_lan_sync.Pathnorm.Slash.{slash, dot, split, has_prefix}
use merkle_lan_sync.Protocol.VersionVector.{bump}
use merkle_lan_sync.Merkle.FileInfo.{FileInfo, FileType, file, symlink, set_deleted}
use merkle_lan_sync.Reconcile.Tombstone.{Files, lookup, sweep_depaired_counters}

-- `files[path] = fi`
unfoldable pub put : Files → List ℕ → FileInfo → Files
put [] path fi = (path, fi) ∷ []
put ((k, x) ∷ rest) path fi =
    let later = put rest path fi in if bytes_eq k path then (k, fi) ∷ rest else (k, x) ∷ later

-- The loop that enters each leaf under its path.
unfoldable pub put_all : Files → List FileInfo → Files
put_all files [] = files
put_all files (fi ∷ set) = put_all (put files fi.path fi) set

-- The last component that is not empty.
unfoldable pub last_component : List (List ℕ) → Option (List ℕ)
last_component [] = none
last_component (w ∷ ws) = elim (last_component ws) [
  | some x ↦ some x
  | none ↦ if length w == 0 then none else some w
]

-- `path.Base`
unfoldable pub base : List ℕ → List ℕ
base path =
    if length path == 0
    then dot
    else elim (last_component (split slash path)) [ some w ↦ w | none ↦ slash ∷ [] ]

abbrev pub internal_prefix : List ℕ
internal_prefix = b'.' ∷ b'm' ∷ b's' ∷ b'y' ∷ b'n' ∷ b'c' ∷ b'-' ∷ []

unfoldable pub internal_file : List ℕ → Bool
internal_file key = has_prefix (base key) internal_prefix

unfoldable pub drop_internal : List FileInfo → List FileInfo
drop_internal [] = []
drop_internal (fi ∷ set) =
    let rest = drop_internal set in if not (internal_file fi.path) then fi ∷ rest else rest

unfoldable pub same_type : FileType → FileType → Bool
same_type file file = true
same_type FileType.dir FileType.dir = true
same_type symlink symlink = true
same_type t u = false

-- One leaf of the scan, with the leaf of the snapshot at its path.
unfoldable pub restore_vv : Option FileInfo → FileInfo → ℕ → FileInfo
restore_vv none fi self = fi
restore_vv (some p) fi self =
    if p.deleted
    then record fi { version = bump p.version self }
    else if bytes_eq p.content_hash fi.content_hash && same_type p.file_type fi.file_type
    then record fi { version = p.version }
    else record fi { version = bump p.version self }

unfoldable pub restore_each : Files → List FileInfo → ℕ → List FileInfo
restore_each by_path [] self = []
restore_each by_path (fi ∷ cur) self =
    restore_vv (lookup by_path fi.path) fi self ∷ restore_each by_path cur self

unfoldable pub restore_vvs : List FileInfo → List FileInfo → ℕ → List FileInfo
restore_vvs [] cur self = cur
restore_vvs (p ∷ prev) cur self = restore_each (put_all [] (p ∷ prev)) cur self

unfoldable pub has_path : List FileInfo → List ℕ → Bool
has_path [] path = false
has_path (fi ∷ cur) path = bytes_eq fi.path path || has_path cur path

-- What the loop of `SynthesizeDeletions` over the snapshot appends.
unfoldable pub missing_from : List FileInfo → List FileInfo → ℕ → List FileInfo
missing_from cur [] self = []
missing_from cur (p ∷ prev) self =
    let rest = missing_from cur prev self in
    if has_path cur p.path then rest else if p.deleted then p ∷ rest else set_deleted p self ∷ rest

unfoldable pub synthesize_deletions : List FileInfo → List FileInfo → ℕ → List FileInfo
synthesize_deletions [] cur self = cur
synthesize_deletions (p ∷ prev) cur self = cur ++ missing_from cur (p ∷ prev) self

-- The entries of `files` before the counters of devices that are no longer paired are dropped.
unfoldable pub recovered_files : List FileInfo → List FileInfo → ℕ → Files
recovered_files prev scanned self =
    let cur = restore_vvs prev (drop_internal scanned) self in
    put_all [] (synthesize_deletions prev cur self)

-- `startupReconcile` of a snapshot and a scan: the files, and whether a reseed is due.
unfoldable pub startup_reconcile :
    List FileInfo → List FileInfo → ℕ → Option (List ℕ) → Files × Bool
startup_reconcile prev scanned self paired =
    ((sweep_depaired_counters (recovered_files prev scanned self) paired).0, length prev == 0)

-- `RescanCandidate`
unfoldable pub rescan_candidate : FileInfo → ℕ → ℤ → Bool
rescan_candidate prev size mtime = not (prev.size == size) || not (eqb_ℤ prev.mod_time_ns mtime)
