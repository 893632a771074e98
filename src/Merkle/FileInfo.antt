-- ===== src/Merkle/FileInfo.antt =====
-- internal/merkle/fileinfo.go: the leaf that the peers exchange for each path.
use merkle_lan_sync.Base.{
  ℕ, ◌+◌, ◌/◌, ◌%◌, ◌^◌, Bool, true, false, ◌&&◌, ◌||◌, List, ℤ, ◌==◌, if◌then◌else◌, replicate,
}
use merkle_lan_sync.Protocol.VersionVector.{VersionVector, bump}

pub data FileType : Type 0 where
  file dir symlink : FileType

unfoldable pub is_file : FileType → Bool
is_file file = true
is_file t = false

unfoldable pub is_symlink : FileType → Bool
is_symlink symlink = true
is_symlink t = false

-- `path` is a canonical key, `content_hash` has 32 bytes, `mode` is a uint32 and `mod_time_ns` an
-- int64.
pub record FileInfo : Type 0 where
  pub path : List ℕ
  pub content_hash : List ℕ
  pub size : ℕ
  pub mode : ℕ
  pub mod_time_ns : ℤ
  pub version : VersionVector
  pub deleted : Bool
  pub file_type : FileType

unfoldable pub bit : ℕ → ℕ → Bool
bit m k = m / 2 ^ k % 2 == 1

-- `Mode & 0o111 != 0`: one of the bits 0, 3 and 6.
unfoldable pub executable : FileInfo → Bool
unfolding is_file bit
executable fi = is_file fi.file_type && (bit fi.mode 0 || (bit fi.mode 3 || bit fi.mode 6))

unfoldable pub canonical_mode_byte : FileInfo → ℕ
unfolding executable is_symlink
canonical_mode_byte fi =
    (if executable fi then 1 else 0) + (if is_symlink fi.file_type then 2 else 0)

unfoldable pub is_tombstone : FileInfo → Bool
is_tombstone fi = fi.deleted

abbrev pub zero_hash : List ℕ
zero_hash = replicate 32 0

unfoldable pub set_deleted : FileInfo → ℕ → FileInfo
unfolding bump
set_deleted fi self = record fi {
  content_hash = zero_hash;
  size = 0;
  deleted = true;
  version = bump fi.version self;
}
