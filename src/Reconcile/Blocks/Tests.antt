-- ===== src/Reconcile/Blocks/Tests.antt =====
-- A small file and its source.
use merkle_lan_sync.Base.{
  ℕ, ◌<◌, ◌^◌, ◌≡◌, refl, arith, List, [], ◌∷◌, ok, length, replicate, false, true, pos,
}
use merkle_lan_sync.Pathnorm.Canonical.{
  canonicalize_slash, strip_volume_prefix, normalize_component,
}
use merkle_lan_sync.Pathnorm.Slash.{has_prefix, clean}
use merkle_lan_sync.Pathnorm.OsPath.{unix}
use merkle_lan_sync.Merkle.FileInfo.{FileInfo, file}
use merkle_lan_sync.Reconcile.Blocks.{
  contents, missing, Disk, Source, serve_request, fetch_over_wire, chunk_request, Attempt,
  atomic_write_verify,
}
use merkle_lan_sync.Reconcile.Blocks.Whole.{fetch_over_wire-serve_request}
use merkle_lan_sync.Reconcile.Blocks.Verified.{IsVerified, fetch_over_wire-IsVerified}

abbrev plain : List ℕ → List ℕ
plain w = w

abbrev text : List ℕ
text = b'h' ∷ b'i' ∷ []

abbrev note : FileInfo
note = record {
  path = b'a' ∷ [];
  content_hash = replicate 32 7;
  size = 2;
  mode = 0;
  mod_time_ns = pos 0;
  version = [];
  deleted = false;
  file_type = file;
}

abbrev disk : Disk
disk path = contents text

abbrev root : List ℕ
root = b'/' ∷ b'r' ∷ []

note_key : canonicalize_slash plain note.path ≡ ok (b'a' ∷ [])
unfolding canonicalize_slash has_prefix strip_volume_prefix clean normalize_component
note_key = refl

text_small : length text < 2 ^ 63
text_small = omega arith

abbrev number : ℕ → ℕ
number offset = 1

fetch_over_wire-serve_request_example :
    fetch_over_wire
      (λ offset len.
        ok
          (serve_request plain root unix disk disk (chunk_request (number offset) note offset len)))
      note
    ≡ ok text
fetch_over_wire-serve_request_example =
    fetch_over_wire-serve_request plain root unix disk note (b'a' ∷ []) text number note_key refl
      refl text_small

-- A hash that is of one value on all inputs, and a source that gives other bytes.
abbrev constant : List ℕ → List ℕ
constant bytes = replicate 32 8

abbrev liar : Source
liar offset len = ok (record { req_id = 1; code = 0; chunk = replicate len 9 })

abbrev all_well : Attempt
all_well = record { makes_dir = true; creates = true; syncs = true; closes = true; renames = true }

note_small : note.size < 2 ^ 63
note_small = omega arith

fetch_over_wire-IsVerified_example :
    IsVerified constant note missing
      (atomic_write_verify constant all_well note.content_hash (fetch_over_wire liar note) missing)
fetch_over_wire-IsVerified_example =
    fetch_over_wire-IsVerified constant all_well liar note missing note_small
