-- ===== src/Reconcile/Tests.antt =====
-- Two edits of one file, by the devices 3 and 7.
use merkle_lan_sync.Protocol.Messages.{Request}
use merkle_lan_sync.Reconcile.Transfer.{num_blocks, block_offset, block_len, block_len_lem}
use merkle_lan_sync.Base.{
  ◌^◌, ◌<◌, ℕ, ◌≡◌, ◌≢◌, refl, arith, true, false, none, some, List, [], ◌∷◌, ok, pos, negsuc,
  replicate, ◌==◌, if◌then◌else◌, ◌+◌, bytes_eq,
}
use mathlib.Core.Path.{subst}
use merkle_lan_sync.Protocol.VersionVector.{get, causality, dominated_by}
use merkle_lan_sync.Protocol.VersionVector.Canonical.{IsCanonical}
use merkle_lan_sync.Protocol.VersionVector.Order.{Leq}
use merkle_lan_sync.Merkle.FileInfo.{FileInfo, file}
use merkle_lan_sync.Pathnorm.Slash.{has_prefix, clean}
use merkle_lan_sync.Pathnorm.Canonical.{
  canonicalize_slash, strip_volume_prefix, normalize_component,
}
use merkle_lan_sync.Reconcile.Conflict.{
  a_wins, winner, loser_of, loser_author, conflict_name, timestamp, civil,
}
use merkle_lan_sync.Reconcile.Plan.{no_op, resolve}
use merkle_lan_sync.Reconcile.Converge.{settle, copied, IsSame, IsPair, resolve_converges}
use merkle_lan_sync.Reconcile.Kept.{IsKept, resolve_keeps}
use merkle_lan_sync.Reconcile.Tombstone.{Files, lookup, can_gc}
use merkle_lan_sync.Reconcile.Tombstone.Laws.{can_gc_no_resurrection}

abbrev same : List ℕ → List ℕ
same w = w

-- `d/a.b`
abbrev key : List ℕ
key = b'd' ∷ b'/' ∷ b'a' ∷ b'.' ∷ b'b' ∷ []

-- `d/a.sync-conflict-20201113-232640-0000000000000003.b`
abbrev copy_key : List ℕ
copy_key =
    b'd' ∷ b'/' ∷ b'a' ∷ b'.' ∷ b's' ∷ b'y' ∷ b'n' ∷ b'c' ∷ b'-' ∷ b'c' ∷ b'o' ∷ b'n' ∷ b'f' ∷ b'l'
    ∷ b'i' ∷ b'c' ∷ b't' ∷ b'-' ∷ b'2' ∷ b'0' ∷ b'2' ∷ b'0' ∷ b'1' ∷ b'1' ∷ b'1' ∷ b'3' ∷ b'-'
    ∷ b'2' ∷ b'3' ∷ b'2' ∷ b'6' ∷ b'4' ∷ b'0' ∷ b'-' ∷ b'0' ∷ b'0' ∷ b'0' ∷ b'0' ∷ b'0' ∷ b'0'
    ∷ b'0' ∷ b'0' ∷ b'0' ∷ b'0' ∷ b'0' ∷ b'0' ∷ b'0' ∷ b'0' ∷ b'0' ∷ b'3' ∷ b'.' ∷ b'b' ∷ []

abbrev mine : FileInfo
mine = record {
  path = key;
  content_hash = replicate 32 1;
  size = 3;
  mode = 420;
  mod_time_ns = pos 1605310000000000000;
  version = record { id = 3; value = 2 } ∷ [];
  deleted = false;
  file_type = file;
}

abbrev theirs : FileInfo
theirs = record mine {
  content_hash = replicate 32 2;
  mod_time_ns = pos 1605310000000000001;
  version = record { id = 3; value = 1 } ∷ record { id = 7; value = 1 } ∷ [];
}

timestamp_test :
    timestamp (negsuc 0)
    ≡ b'1' ∷ b'9' ∷ b'6' ∷ b'9' ∷ b'1' ∷ b'2' ∷ b'3' ∷ b'1' ∷ b'-' ∷ b'2' ∷ b'3' ∷ b'5' ∷ b'9'
      ∷ b'5' ∷ b'9' ∷ []
unfolding timestamp
timestamp_test = refl

-- A leap day.
civil_test : civil (719468 + 18321) ≡ (2020, 2, 29)
unfolding civil
civil_test = refl

named :
    conflict_name same
      (loser_of mine theirs)
      (loser_author (loser_of mine theirs) (winner mine theirs))
    ≡ ok copy_key
unfolding conflict_name loser_of winner loser_author canonicalize_slash has_prefix
    strip_volume_prefix a_wins clean get normalize_component
named = refl

pair : IsPair mine theirs
pair = record {
  same_path = refl;
  left_canonical = omega arith;
  right_canonical = omega arith;
  hash_decides = λ e. refl;
}

resolve_converges_example :
    IsSame
      (settle mine (resolve same (some mine) (some theirs)))
      (settle theirs (resolve same (some theirs) (some mine)))
    × (copied (resolve same (some mine) (some theirs))
        ≡ copied (resolve same (some theirs) (some mine)))
resolve_converges_example = resolve_converges same mine theirs copy_key pair named

concurrent_edits : causality mine.version theirs.version ≢ dominated_by
unfolding causality
concurrent_edits e = cc e

resolve_keeps_example : IsKept mine mine (resolve same (some mine) (some theirs))
resolve_keeps_example = resolve_keeps same mine theirs refl concurrent_edits

different : mine.content_hash ≢ theirs.content_hash
different e = ground (arith, e)

abbrev tomb : FileInfo
tomb = record mine { deleted = true; content_hash = replicate 32 0; size = 0 }

abbrev acked : FileInfo
acked = record tomb { version = record { id = 3; value = 2 } ∷ record { id = 7; value = 1 } ∷ [] }

abbrev advertised : Files
advertised = (copy_key, theirs) ∷ (key, acked) ∷ []

advertised-IsCanonical :
    (pf : FileInfo) → lookup advertised tomb.path ≡ some pf → IsCanonical pf.version
unfolding lookup bytes_eq
advertised-IsCanonical pf found =
    let e : acked ≡ pf = cc found in subst (λ f. IsCanonical f.version) e (omega arith)

acked_test : can_gc tomb advertised ≡ true
unfolding can_gc lookup bytes_eq causality
acked_test = refl

tomb-IsCanonical : IsCanonical tomb.version
tomb-IsCanonical = omega arith

can_gc_no_resurrection_example :
    (pf : FileInfo) × (lookup advertised tomb.path ≡ some pf)
    × (pf.deleted ≡ true)
    × Leq tomb.version pf.version
    × (resolve same none (lookup advertised tomb.path) ≡ no_op)
can_gc_no_resurrection_example =
    can_gc_no_resurrection same tomb advertised tomb-IsCanonical advertised-IsCanonical acked_test

theirs-IsCanonical : IsCanonical theirs.version
theirs-IsCanonical = omega arith

-- The second and last block of a file of 40000 bytes.
abbrev second_block : Request
second_block = record {
  req_id = 1;
  path = key;
  content_hash = replicate 32 1;
  offset = 32768;
  len = 7232;
}

file_small : 40000 < 2 ^ 63
file_small = omega arith

offset_fits : second_block.offset < 2 ^ 64
offset_fits = omega arith

len_fits : second_block.len < 2 ^ 32
len_fits = omega arith

second_block_there : 1 < num_blocks 40000
unfolding num_blocks
second_block_there = omega arith

second_block_offset : second_block.offset ≡ block_offset 1
unfolding block_offset
second_block_offset = refl

second_block_len : second_block.len ≡ block_len 40000 1
unfolding block_len
second_block_len = refl

block_len_lem_example :
    block_offset 1 + block_len 40000 1
    ≡ (if 1 + 1 == num_blocks 40000 then 40000 else block_offset (1 + 1))
block_len_lem_example = block_len_lem 40000 1 file_small second_block_there
