-- ===== src/Reconcile/Engine/Echo.antt =====
-- internal/reconcile/engine.go: what it means that a recorded leaf has the observed content, as
-- equations of the fields, and that the test of the engine decides it.
use merkle_lan_sync.Base.{◌≡◌, refl, arith, true, false, some, bytes_eq_iff}
use merkle_lan_sync.Merkle.FileInfo.{FileInfo, FileType}
use merkle_lan_sync.Reconcile.Startup.{same_type}
use merkle_lan_sync.Reconcile.Engine.Local.{is_echo}

-- The recorded leaf is live, with the hash, the type and the size of the observed one.
abbrev pub IsSame : FileInfo → FileInfo → Type 0
IsSame prev s =
    (prev.deleted ≡ false)
    × (prev.content_hash ≡ s.content_hash)
    × (prev.file_type ≡ s.file_type)
    × (prev.size ≡ s.size)

pub same_type_self : (t : FileType) → same_type t t ≡ true
unfolding same_type
same_type_self FileType.file = refl
same_type_self FileType.dir = refl
same_type_self FileType.symlink = refl

same_type_sound : (t u : FileType) → same_type t u ≡ true → t ≡ u
unfolding same_type
same_type_sound FileType.file FileType.file e = refl
same_type_sound FileType.dir FileType.dir e = refl
same_type_sound FileType.symlink FileType.symlink e = refl
same_type_sound FileType.file FileType.dir e = absurd (cc e)
same_type_sound FileType.file FileType.symlink e = absurd (cc e)
same_type_sound FileType.dir FileType.file e = absurd (cc e)
same_type_sound FileType.dir FileType.symlink e = absurd (cc e)
same_type_sound FileType.symlink FileType.file e = absurd (cc e)
same_type_sound FileType.symlink FileType.dir e = absurd (cc e)

pub is_echo_sound : (prev s : FileInfo) → is_echo (some prev) s ≡ true → IsSame prev s
unfolding is_echo
is_echo_sound prev s e = ground (
  arith,
  e,
  bytes_eq_iff prev.content_hash s.content_hash,
  same_type_sound prev.file_type s.file_type,
)

pub is_echo_complete : (prev s : FileInfo) → IsSame prev s → is_echo (some prev) s ≡ true
unfolding is_echo
is_echo_complete prev s (live, hash, type, size) = ground (
  arith,
  live,
  hash,
  type,
  size,
  bytes_eq_iff prev.content_hash s.content_hash,
  same_type_self s.file_type,
)
