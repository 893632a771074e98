-- ===== src/Merkle/Codec.antt =====
-- internal/merkle/codec.go: the wire form of a leaf, and the bytes that the structural hashes are
-- taken of. The reader's sticky error is the error of the chain: nothing between a short read and
-- the test of the error looks at the values read. The Unicode normalisation is a parameter.
pub mod Wire
pub mod Structure
use merkle_lan_sync.Base.{
  ℕ, zero, suc, ◌+◌, ◌^◌, Bool, true, false, List, [], ◌∷◌, ◌++◌, Result, ok, err, ltb, ◌==◌,
  if◌then◌else◌, length, take, drop, to_u64, of_u64, ◌>>=◌,
}
use merkle_lan_sync.Bytes.{put_be, get_be}
use merkle_lan_sync.Protocol.VersionVector.{encode, decode}
use merkle_lan_sync.Pathnorm.Canonical.{canonicalize_slash}
use merkle_lan_sync.Merkle.FileInfo.{FileInfo, FileType, file, dir, symlink, canonical_mode_byte}

pub data Error : Type 0 where
  malformed_file_info : Error

unfoldable pub bool_byte : Bool → ℕ
bool_byte true = 1
bool_byte false = 0

unfoldable pub leaf_encoding : FileInfo → List ℕ
leaf_encoding fi =
    fi.content_hash ++ (canonical_mode_byte fi ∷ bool_byte fi.deleted ∷ encode fi.version)

pub record ChildEntry : Type 0 where
  pub name : List ℕ
  pub hash : List ℕ

unfoldable pub encode_children : List ChildEntry → List ℕ
encode_children [] = []
encode_children (c ∷ cs) = put_be 2 (length c.name) ++ (c.name ++ (c.hash ++ encode_children cs))

unfoldable pub node_encoding : List ChildEntry → List ℕ
unfolding encode_children
node_encoding children = put_be 4 (length children) ++ encode_children children

-- `byte(fi.Type)`
unfoldable pub type_byte : FileType → ℕ
type_byte file = 0
type_byte dir = 1
type_byte symlink = 2

-- `FileType(ft)`, for a byte that is not above 2.
unfoldable pub type_of_byte : ℕ → FileType
type_of_byte t = if t == 0 then file else if t == 1 then dir else symlink

-- The fields behind the path's length.
unfoldable pub wire_fields : FileInfo → List ℕ
wire_fields fi =
    fi.path
    ++ (fi.content_hash
        ++ (put_be 8 fi.size
            ++ (put_be 4 fi.mode
                ++ (put_be 8 (to_u64 fi.mod_time_ns)
                    ++ (put_be 1 (type_byte fi.file_type)
                        ++ (put_be 1 (bool_byte fi.deleted) ++ encode fi.version))))))

unfoldable pub encode_file_info : FileInfo → Result Error (List ℕ)
encode_file_info fi =
    if ltb 0xFFFF (length fi.path)
    then err malformed_file_info
    else ok (put_be 2 (length fi.path) ++ wire_fields fi)

-- `take(n)` of the reader: what it reads, and what is left.
unfoldable pub read : ℕ → List ℕ → Result Error (List ℕ × List ℕ)
read n b = if ltb (length b) n then err malformed_file_info else ok (take n b, drop n b)

-- `malformed_file_info` wraps any error of the callees.
unfoldable pub wrap : {E A : Type 0} → Result E A → Result Error A
wrap (ok a) = ok a
wrap (err e) = err malformed_file_info

-- What `DecodeFileInfo` does once the fields up to the deleted byte are read, `b` being what is
-- left, and `off` how much is read.
unfoldable pub decode_checked :
    (List ℕ → List ℕ) → List ℕ → FileInfo → ℕ → ℕ → ℕ → List ℕ → Result Error (FileInfo × ℕ)
decode_checked nfc path fi ft del off b =
    let rest = wrap (decode b) >>= λ (vv, n). wrap (canonicalize_slash nfc path) >>= λ key. ok (
      record fi { path = key; file_type = type_of_byte ft; deleted = del == 1; version = vv },
      off + n,
    ) in
    if ltb 2 ft
    then err malformed_file_info
    else if ltb 1 del
    then err malformed_file_info
    else rest

-- The leaf, and the number of bytes consumed.
unfoldable pub decode_file_info : (List ℕ → List ℕ) → List ℕ → Result Error (FileInfo × ℕ)
decode_file_info nfc b = read 2 b >>= λ (len, b₁). read (get_be len) b₁ >>= λ (path, b₂).
    read 32 b₂ >>= λ (content_hash, b₃). read 8 b₃ >>= λ (size, b₄). read 4 b₄ >>= λ (mode, b₅).
    read 8 b₅ >>= λ (mtime, b₆). read 1 b₆ >>= λ (ft, b₇). read 1 b₇ >>= λ (del, b₈).
    decode_checked nfc path
      (record {
        path = [];
        content_hash = content_hash;
        size = get_be size;
        mode = get_be mode;
        mod_time_ns = of_u64 (get_be mtime);
        version = [];
        deleted = false;
        file_type = file;
      })
      (get_be ft) (get_be del) (2 + get_be len + 54) b₈

unfoldable pub encode_each : List FileInfo → Result Error (List ℕ)
encode_each [] = ok []
encode_each (fi ∷ set) =
    let rest = encode_each set in encode_file_info fi >>= λ enc. rest >>= λ encs. ok (enc ++ encs)

unfoldable pub encode_file_infos : List FileInfo → Result Error (List ℕ)
encode_file_infos set = encode_each set >>= λ encs. ok (put_be 4 (length set) ++ encs)

-- The loop over `count` entries, `b` being `b[off:]`: the leaves, and what is left.
unfoldable pub decode_each : (List ℕ → List ℕ) → ℕ → List ℕ → Result Error (List FileInfo × List ℕ)
decode_each nfc zero b = ok ([], b)
decode_each nfc (suc count) b = decode_file_info nfc b >>= λ (fi, n).
    decode_each nfc count (drop n b) >>= λ (out, rest). ok (fi ∷ out, rest)

unfoldable pub decode_file_infos : (List ℕ → List ℕ) → List ℕ → Result Error (List FileInfo)
decode_file_infos nfc b =
    let entries = decode_each nfc (get_be (take 4 b)) (drop 4 b) >>= λ (out, rest).
    if length rest == 0 then ok out else err malformed_file_info in
    if ltb (length b) 4 then err malformed_file_info else entries
