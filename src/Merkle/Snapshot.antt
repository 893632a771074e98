-- ===== src/Merkle/Snapshot.antt =====
-- internal/merkle/snapshot.go: the file of the last state. encoding/gob is a parameter, and what each
-- call to the operating system answers is given.
use merkle_lan_sync.Base.{
  ℕ, ◌≡◌, refl, ap, arith, ◌⊎◌, inl, inr, Bool, not, Option, none, some, List, Result, ok, err,
  if◌then◌else◌, ◌==◌,
}
use merkle_lan_sync.Merkle.FileInfo.{FileInfo}

abbrev pub snapshot_version : ℕ
snapshot_version = 1

pub record Snapshot : Type 0 where
  pub version : ℕ
  pub files : List FileInfo

-- `os.ReadFile`: no such file, another error, or the bytes.
pub data File : Type 0 where
  absent unreadable : File
  holds : List ℕ → File

pub data Error : Type 0 where
  snapshot_format read_failed encode_failed save_failed : Error

-- What encoding/gob does; it is `none` where it fails.
pub record Gob : Type 0 where
  pub encode : Snapshot → Option (List ℕ)
  pub decode : List ℕ → Option Snapshot

-- Which of the calls of `SaveSnapshot` succeed.
pub record Attempt : Type 0 where
  pub creates : Bool
  pub writes : Bool
  pub syncs : Bool
  pub closes : Bool
  pub renames : Bool

-- The steps behind the encoding. The rename alone touches the file.
unfoldable pub write_snapshot : Attempt → List ℕ → File → File × Option Error
write_snapshot a bytes old =
    if not a.creates
    then (old, some save_failed)
    else if not a.writes
    then (old, some save_failed)
    else if not a.syncs
    then (old, some save_failed)
    else if not a.closes
    then (old, some save_failed)
    else if not a.renames
    then (old, some save_failed)
    else (holds bytes, none)

unfoldable pub write_encoded : Attempt → Option (List ℕ) → File → File × Option Error
write_encoded a none old = (old, some encode_failed)
write_encoded a (some bytes) old = write_snapshot a bytes old

module _ (gob : Gob) where
  -- The file afterwards, and the error.
  unfoldable pub save_snapshot : Attempt → List FileInfo → File → File × Option Error
  save_snapshot a files old =
      write_encoded a (gob.encode (record { version = snapshot_version; files = files })) old

  unfoldable pub checked : Option Snapshot → Result Error (Option (List FileInfo))
  checked none = err snapshot_format
  checked (some s) =
      if not (s.version == snapshot_version) then err snapshot_format else ok (some s.files)

  -- A file that is not there is no error and no state.
  unfoldable pub load_snapshot : File → Result Error (Option (List FileInfo))
  load_snapshot absent = ok none
  load_snapshot unreadable = err read_failed
  load_snapshot (holds bytes) = checked (gob.decode bytes)

  write_snapshot_whole :
      (a : Attempt) (bytes : List ℕ) (old : File)
      → (write_snapshot a bytes old ≡ (old, some save_failed))
        ⊎ (write_snapshot a bytes old ≡ (holds bytes, none))
  unfolding write_snapshot
  write_snapshot_whole a bytes old = ground arith

  write_encoded_load :
      (a : Attempt) (files : List FileInfo) (encoded : Option (List ℕ)) (old : File)
      → ((bytes : List ℕ)
          → encoded ≡ some bytes
          → gob.decode bytes ≡ some (record { version = snapshot_version; files = files }))
      → let (after, e) = write_encoded a encoded old in
        ((e ≡ none) × (load_snapshot after ≡ ok (some files))) ⊎ (after ≡ old)
  unfolding write_encoded load_snapshot checked
  write_encoded_load a files none old reads = inr refl
  write_encoded_load a files (some bytes) old reads = elim (write_snapshot_whole a bytes old) [
    | inl kept ↦ inr (ap (λ p. p.0) kept)
    | inr done ↦ inl (ap (λ p. p.1) done, rw (done, reads bytes refl) refl)
  ]

  -- A save that is broken off, at whatever step, leaves the last snapshot as it was, and one that
  -- goes through is loaded as the files that were saved. It is relied on that encoding/gob decodes
  -- what it encodes.
  pub load_snapshot-save_snapshot :
      (a : Attempt) (files : List FileInfo) (old : File)
      → ((s : Snapshot) (bytes : List ℕ) → gob.encode s ≡ some bytes → gob.decode bytes ≡ some s)
      → let (after, e) = save_snapshot a files old in
        ((e ≡ none) × (load_snapshot after ≡ ok (some files))) ⊎ (after ≡ old)
  unfolding save_snapshot
  load_snapshot-save_snapshot a files old reads =
      let s : Snapshot = record { version = snapshot_version; files = files } in
      write_encoded_load a files (gob.encode s) old (λ bytes e. reads s bytes e)
