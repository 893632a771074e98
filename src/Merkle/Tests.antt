-- ===== src/Merkle/Tests.antt =====
-- A leaf and a directory of two children.
use merkle_lan_sync.Base.{
  ℕ, ◌<◌, ◌^◌, ◌≡◌, refl, arith, ◌↔◌, false, List, [], ◌∷◌, ok, length, All, replicate, negsuc,
}
use merkle_lan_sync.Pathnorm.Slash.{has_prefix, clean}
use merkle_lan_sync.Pathnorm.Canonical.{
  canonicalize_slash, strip_volume_prefix, normalize_component,
}
use merkle_lan_sync.Merkle.FileInfo.{FileInfo, file, canonical_mode_byte, set_deleted}
use merkle_lan_sync.Merkle.Codec.{ChildEntry, leaf_encoding, encode_file_infos, decode_file_infos}
use merkle_lan_sync.Merkle.Codec.Wire.{IsLeaf, decode_file_infos-encode_file_infos}
use merkle_lan_sync.Merkle.Codec.Structure.{IsChild, leaf_encoding_iff}

abbrev same : List ℕ → List ℕ
same w = w

abbrev script : FileInfo
script = record {
  path = b'd' ∷ b'/' ∷ b'a' ∷ [];
  content_hash = replicate 32 7;
  size = 12;
  mode = 493;
  mod_time_ns = negsuc 4;
  version = record { id = 3; value = 2 } ∷ [];
  deleted = false;
  file_type = file;
}

script_key : canonicalize_slash same (b'd' ∷ b'/' ∷ b'a' ∷ []) ≡ ok (b'd' ∷ b'/' ∷ b'a' ∷ [])
unfolding canonicalize_slash has_prefix strip_volume_prefix clean normalize_component
script_key = refl

script-IsLeaf : IsLeaf same script
script-IsLeaf = record {
  is_key = script_key;
  path_short = omega arith;
  hash_size = refl;
  size_fits = omega arith;
  mode_fits = omega arith;
  time_fits = omega arith;
  version_canonical = omega arith;
  version_fits = omega arith;
}

-- Another size and another time.
abbrev touched : FileInfo
touched = record script { size = 13; mod_time_ns = negsuc 9 }

touched-IsLeaf : IsLeaf same touched
touched-IsLeaf = record {
  is_key = script_key;
  path_short = omega arith;
  hash_size = refl;
  size_fits = omega arith;
  mode_fits = omega arith;
  time_fits = omega arith;
  version_canonical = omega arith;
  version_fits = omega arith;
}

-- A file of mode 0755 is executable.
canonical_mode_byte_test : canonical_mode_byte script ≡ 1
unfolding canonical_mode_byte
canonical_mode_byte_test = refl

set_deleted_test : (set_deleted script 3).version ≡ record { id = 3; value = 3 } ∷ []
unfolding set_deleted
set_deleted_test = refl

abbrev scripts : List FileInfo
scripts = script ∷ script ∷ []

scripts-IsLeaf : All (IsLeaf same) scripts
scripts-IsLeaf = (script-IsLeaf, (script-IsLeaf, tt))

scripts_short : length scripts < 2 ^ 32
scripts_short = omega arith

decode_file_infos-encode_file_infos_example :
    (body : List ℕ) × (encode_file_infos scripts ≡ ok body)
    × (decode_file_infos same body ≡ ok scripts)
decode_file_infos-encode_file_infos_example =
    decode_file_infos-encode_file_infos same scripts scripts-IsLeaf scripts_short

leaf_encoding_iff_example : (leaf_encoding script ≡ leaf_encoding touched) ↔ (
    (script.content_hash ≡ touched.content_hash)
    × (canonical_mode_byte script ≡ canonical_mode_byte touched)
    × (script.deleted ≡ touched.deleted)
    × (script.version ≡ touched.version))
leaf_encoding_iff_example = leaf_encoding_iff same script touched script-IsLeaf touched-IsLeaf

abbrev children : List ChildEntry
children =
    record { name = b'a' ∷ []; hash = replicate 32 1 }
    ∷ record { name = b'b' ∷ []; hash = replicate 32 2 }
    ∷ []

children-IsChild : All IsChild children
children-IsChild = omega arith

children_few : length children < 2 ^ 32
children_few = omega arith
