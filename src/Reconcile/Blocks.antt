-- ===== src/Reconcile/Blocks.antt =====
-- internal/reconcile/transfer.go: the source that serves blocks from its disk, the puller that asks
-- for them, and the file that it makes of them. What each call to the operating system answers is
-- given, and so is the time that a request may take.
mod Tests
pub mod Whole
pub mod Verified
use merkle_lan_sync.Base.{
  ℕ, zero, suc, ◌+◌, ◌%◌, ◌^◌, Bool, true, false, not, Option, none, some, List, [], ◌∷◌, ◌++◌,
  Result, ok, err, ◌>>=◌, if◌then◌else◌, ◌==◌, bytes_eq, length, take, drop, ltb,
}
use merkle_lan_sync.Protocol.Messages.{Request, Response, code_generic}
use merkle_lan_sync.Pathnorm.Canonical.{canonicalize_slash}
use merkle_lan_sync.Pathnorm.Canonical as Key
use merkle_lan_sync.Pathnorm.OsPath.{Target, to_os_path}
use merkle_lan_sync.Merkle.FileInfo.{FileInfo}
use merkle_lan_sync.Reconcile.Transfer.{num_blocks, validate_request, block_offset, block_len}

-- What a path of the operating system leads to.
pub data Entry : Type 0 where
  missing directory : Entry
  contents : List ℕ → Entry

abbrev pub Disk : Type 0
Disk = List ℕ → Entry

abbrev pub code_ok : ℕ
code_ok = 0

abbrev pub code_no_such_file : ℕ
code_no_such_file = 2

unfoldable pub decline : Request → ℕ → Response
decline req code = record { req_id = req.req_id; code = code; chunk = [] }

-- `ReadAt` of the whole length, which fails where the file ends before it.
unfoldable pub read_at : Request → List ℕ → Response
read_at req file =
    if ltb (length file) (req.offset + req.len)
    then decline req code_generic
    else record { req_id = req.req_id; code = code_ok; chunk = take req.len (drop req.offset file) }

-- `os.Open` and `ReadAt`.
unfoldable pub open_and_read : Request → Entry → Response
open_and_read req missing = decline req code_no_such_file
open_and_read req directory = decline req code_generic
open_and_read req (contents file) = read_at req file

-- `os.Stat` and the guard; the second entry is what is there when the file is opened.
unfoldable pub serve_entry : Request → Entry → Entry → Response
serve_entry req missing opened = decline req code_no_such_file
serve_entry req directory opened = decline req code_no_such_file
serve_entry req (contents file) opened =
    if not (validate_request req (length file))
    then decline req code_generic
    else open_and_read req opened

module _ (nfc : List ℕ → List ℕ) (root : List ℕ) (target : Target) where
  -- The file of a key; the disk may change between the two calls that read it.
  unfoldable pub serve_named : Disk → Disk → Request → Result Key.Error (List ℕ) → Response
  serve_named before after req (err e) = decline req code_generic
  serve_named before after req (ok key) =
      serve_entry req (before (to_os_path root key target)) (after (to_os_path root key target))

  -- The response of `serveRequest`.
  unfoldable pub serve_request : Disk → Disk → Request → Response
  serve_request before after req = serve_named before after req (canonicalize_slash nfc req.path)

pub data Error : Type 0 where
  verify_failed source_declined peer_gone request_timeout : Error
  write_failed make_failed sync_failed rename_failed : Error

-- The tests on a response to a request of this length.
unfoldable pub accept : ℕ → Response → Result Error (List ℕ)
accept len r =
    if not (r.code == code_ok)
    then err source_declined
    else if not (length r.chunk == len)
    then err source_declined
    else ok r.chunk

-- What `requestChunk` comes to for an offset and a length.
abbrev pub Source : Type 0
Source = ℕ → ℕ → Result Error Response

-- The loop of `fetchOverWire` from block `i` on, with the number of blocks that are left, up to the
-- bytes that were written. A write that fails ends the loop with an error, as a source that fails
-- does, and counts as one here.
unfoldable pub fetch_from : Source → ℕ → ℕ → ℕ → Result Error (List ℕ)
fetch_from source size i zero = ok []
fetch_from source size i (suc left) = do
  r ← source (block_offset i) (block_len size i)
  chunk ← accept (block_len size i) r
  rest ← fetch_from source size (suc i) left
  ok (chunk ++ rest)

unfoldable pub fetch_over_wire : Source → FileInfo → Result Error (List ℕ)
fetch_over_wire source leaf = fetch_from source leaf.size 0 (num_blocks leaf.size)

-- The request that `requestChunk` sends; its number is the next one of 32 bits.
unfoldable pub chunk_request : ℕ → FileInfo → ℕ → ℕ → Request
chunk_request id leaf offset len = record {
  req_id = id % 2 ^ 32;
  path = leaf.path;
  content_hash = leaf.content_hash;
  offset = offset;
  len = len;
}

-- Which of the calls of `atomicWriteVerify` succeed.
pub record Attempt : Type 0 where
  pub makes_dir : Bool
  pub creates : Bool
  pub syncs : Bool
  pub closes : Bool
  pub renames : Bool

-- The steps behind the fill: the hash is compared before the rename, which alone touches the file.
unfoldable pub commit : (List ℕ → List ℕ) → Attempt → List ℕ → List ℕ → Entry → Entry × Option Error
commit sha256 a expected bytes dst =
    if not (bytes_eq (sha256 bytes) expected)
    then (dst, some verify_failed)
    else if not a.syncs
    then (dst, some sync_failed)
    else if not a.closes
    then (dst, some sync_failed)
    else if not a.renames
    then (dst, some rename_failed)
    else (contents bytes, none)

unfoldable pub filled :
    (List ℕ → List ℕ) → Attempt → List ℕ → Result Error (List ℕ) → Entry → Entry × Option Error
filled sha256 a expected (err e) dst = (dst, some e)
filled sha256 a expected (ok bytes) dst = commit sha256 a expected bytes dst

-- `atomicWriteVerify`: what is at the path afterwards, and the error.
unfoldable pub atomic_write_verify :
    (List ℕ → List ℕ) → Attempt → List ℕ → Result Error (List ℕ) → Entry → Entry × Option Error
atomic_write_verify sha256 a expected fill dst =
    if not a.makes_dir
    then (dst, some make_failed)
    else if not a.creates
    then (dst, some make_failed)
    else filled sha256 a expected fill dst
