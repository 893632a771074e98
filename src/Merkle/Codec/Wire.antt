-- ===== src/Merkle/Codec/Wire.antt =====
-- The wire form of a leaf, and of an index, read back.
use merkle_lan_sync.Base.{
  ℕ, ◌+◌, ◌<◌, ◌^◌, ◌≡◌, refl, ap, ◌∙◌, arith, Bool, true, false, List, [], ◌∷◌, ◌++◌, append_assoc,
  ok, ltb, ◌==◌, length, to_u64, to_u64-lt, of_u64-to_u64, IsInt64, length-append, take-append,
  drop-append, le→ltb, All,
}
use merkle_lan_sync.Bytes.{put_be}
use merkle_lan_sync.Bytes.Laws.{length-put_be, get_be-put_be}
use merkle_lan_sync.Protocol.VersionVector.{encode}
use merkle_lan_sync.Protocol.VersionVector.Canonical.{IsCanonical}
use merkle_lan_sync.Protocol.VersionVector.RoundTrip.{Fits, decode-encode}
use merkle_lan_sync.Pathnorm.Canonical.{canonicalize_slash}
use merkle_lan_sync.Merkle.FileInfo.{FileInfo, FileType, file, dir, symlink}
use merkle_lan_sync.Merkle.Codec.{
  bool_byte, type_byte, type_of_byte, wire_fields, encode_file_info, read, wrap, decode_checked,
  decode_file_info, encode_each, encode_file_infos, decode_each, decode_file_infos,
}

read_front : (xs rest : List ℕ) (n : ℕ) → length xs ≡ n → read n (xs ++ rest) ≡ ok (xs, rest)
unfolding read
read_front xs rest n size =
    rw
      (
        le→ltb (length (xs ++ rest)) n (rw length-append (omega arith)),
        take-append xs rest n size,
        drop-append xs rest n size,
      )
      refl

read-put_be : (w v : ℕ) (rest : List ℕ) → read w (put_be w v ++ rest) ≡ ok (put_be w v, rest)
read-put_be w v rest = read_front (put_be w v) rest w (length-put_be w v)

-- What a leaf of the program satisfies: a canonical key and vector, and the ranges of the fields.
pub record IsLeaf (nfc : List ℕ → List ℕ) (fi : FileInfo) : Type 0 where
  pub is_key : canonicalize_slash nfc fi.path ≡ ok fi.path
  pub path_short : length fi.path < 2 ^ 16
  pub hash_size : length fi.content_hash ≡ 32
  pub size_fits : fi.size < 2 ^ 64
  pub mode_fits : fi.mode < 2 ^ 32
  pub time_fits : IsInt64 fi.mod_time_ns
  pub version_canonical : IsCanonical fi.version
  pub version_fits : Fits fi.version

type_bytes :
    (t : FileType)
    → (type_of_byte (type_byte t) ≡ t) × (type_byte t < 256) × (ltb 2 (type_byte t) ≡ false)
unfolding type_of_byte type_byte
type_bytes file = (refl, omega arith, refl)
type_bytes dir = (refl, omega arith, refl)
type_bytes symlink = (refl, omega arith, refl)

bool_bytes :
    (b : Bool) → ((bool_byte b == 1) ≡ b) × (bool_byte b < 256) × (ltb 1 (bool_byte b) ≡ false)
unfolding bool_byte
bool_bytes true = (refl, omega arith, refl)
bool_bytes false = (refl, omega arith, refl)

module _ (nfc : List ℕ → List ℕ) (fi : FileInfo) (leaf : IsLeaf nfc fi) where
  -- The checks at the end pass, and put back the fields that they read.
  decode_checked_fine :
      (part : FileInfo) (off : ℕ) (rest : List ℕ)
      → record part {
        path = fi.path;
        file_type = fi.file_type;
        deleted = fi.deleted;
        version = fi.version;
      }
        ≡ fi
      → decode_checked nfc fi.path part
          (type_byte fi.file_type)
          (bool_byte fi.deleted)
          off
          (encode fi.version ++ rest)
        ≡ ok (fi, off + length (encode fi.version))
  unfolding decode_checked wrap
  decode_checked_fine part off rest whole =
      rw (decode-encode fi.version rest leaf.version_canonical leaf.version_fits) (
        rw leaf.is_key (
          rw
            (
              (type_bytes fi.file_type).2,
              (bool_bytes fi.deleted).2,
              (type_bytes fi.file_type).0,
              (bool_bytes fi.deleted).0,
            )
            (ap (λ f. ok (f, off + length (encode fi.version))) whole)))

  decode_file_info_fields :
      (rest : List ℕ)
      → decode_file_info nfc (
          put_be 2 (length fi.path)
          ++ (fi.path
              ++ (fi.content_hash
                  ++ (put_be 8 fi.size
                      ++ (put_be 4 fi.mode
                          ++ (put_be 8 (to_u64 fi.mod_time_ns)
                              ++ (put_be 1 (type_byte fi.file_type)
                                  ++ (put_be 1 (bool_byte fi.deleted)
                                      ++ (encode fi.version ++ rest)))))))))
        ≡ ok (fi, 2 + length fi.path + 54 + length (encode fi.version))
  unfolding decode_file_info
  decode_file_info_fields rest = rw (read-put_be 2 (length fi.path)) (
      rw (get_be-put_be 2 (length fi.path) leaf.path_short) (
        rw (read_front fi.path _ (length fi.path) refl) (
          rw (read_front fi.content_hash _ 32 leaf.hash_size) (
            rw (read-put_be 8 fi.size, read-put_be 4 fi.mode, read-put_be 8 (to_u64 fi.mod_time_ns))
              (rw (read-put_be 1 (type_byte fi.file_type), read-put_be 1 (bool_byte fi.deleted))
                (rw (get_be-put_be 8 fi.size leaf.size_fits, get_be-put_be 4 fi.mode leaf.mode_fits)
                  (rw
                    (
                      get_be-put_be 8 (to_u64 fi.mod_time_ns) (to_u64-lt fi.mod_time_ns),
                      of_u64-to_u64 fi.mod_time_ns leaf.time_fits,
                    )
                    (rw
                      (
                        get_be-put_be 1 (type_byte fi.file_type) (type_bytes fi.file_type).1,
                        get_be-put_be 1 (bool_byte fi.deleted) (bool_bytes fi.deleted).1,
                      )
                      (decode_checked_fine _ (2 + length fi.path + 54) rest refl)))))))))

  encode_file_info_lem : encode_file_info fi ≡ ok (put_be 2 (length fi.path) ++ wire_fields fi)
  unfolding encode_file_info
  encode_file_info_lem = rw (le→ltb 0xFFFF (length fi.path) (omega (arith, leaf.path_short))) refl

  length-wire_fields : length (wire_fields fi) ≡ length fi.path + 54 + length (encode fi.version)
  unfolding wire_fields
  length-wire_fields =
      rw
        (
          length-append, length-append, length-append, length-append, length-append, length-append,
          length-append,
        )
        (rw
          (
            length-put_be 8 fi.size,
            length-put_be 4 fi.mode,
            length-put_be 8 (to_u64 fi.mod_time_ns),
          )
          (rw
            (
              length-put_be 1 (type_byte fi.file_type),
              length-put_be 1 (bool_byte fi.deleted),
              leaf.hash_size,
            )
            (omega arith)))

  front :
      (rest : List ℕ)
      → (put_be 2 (length fi.path) ++ wire_fields fi) ++ rest
        ≡ put_be 2 (length fi.path)
          ++ (fi.path
              ++ (fi.content_hash
                  ++ (put_be 8 fi.size
                      ++ (put_be 4 fi.mode
                          ++ (put_be 8 (to_u64 fi.mod_time_ns)
                              ++ (put_be 1 (type_byte fi.file_type)
                                  ++ (put_be 1 (bool_byte fi.deleted)
                                      ++ (encode fi.version ++ rest))))))))
  unfolding wire_fields
  front rest = simp append_assoc

-- A leaf of the program is encoded, and is read back whole from the front of any bytes, with the
-- number of bytes that it takes up: its key is canonical, its vector is canonical and fits the
-- grammar, and its fields are in their Go ranges.
pub decode_file_info-encode_file_info :
    (nfc : List ℕ → List ℕ)
    → (fi : FileInfo) → IsLeaf nfc fi
    → (rest : List ℕ)
    → (enc : List ℕ) × (encode_file_info fi ≡ ok enc)
      × (decode_file_info nfc (enc ++ rest) ≡ ok (fi, length enc))
decode_file_info-encode_file_info nfc fi leaf rest = (
  put_be 2 (length fi.path) ++ wire_fields fi,
  encode_file_info_lem nfc fi leaf,
  rw (front nfc fi leaf rest) (
      decode_file_info_fields nfc fi leaf rest
      ∙ ap (λ n. ok (fi, n))
          (rw (length-append, length-put_be 2 (length fi.path), length-wire_fields nfc fi leaf)
            (omega arith))),
)

decode_each-encode_each :
    (nfc : List ℕ → List ℕ) (set : List FileInfo)
    → All (IsLeaf nfc) set
    → (encs : List ℕ) × (encode_each set ≡ ok encs)
      × (decode_each nfc (length set) encs ≡ ok (set, []))
unfolding encode_each decode_each
decode_each-encode_each nfc [] leaves = ([], refl, refl)
decode_each-encode_each nfc (fi ∷ set) leaves =
    let (encs, written, back) = decode_each-encode_each nfc set leaves.1 in
    let (enc, written_first, back_first) = decode_file_info-encode_file_info nfc fi leaves.0 encs in
    (
      enc ++ encs,
      rw written_first (rw written refl),
      rw back_first (rw (drop-append enc encs (length enc) refl) (rw back refl)),
    )

-- An index of fewer than 2 ^ 32 leaves of the program is encoded, and `DecodeFileInfos` gives back
-- those leaves in their order, with no bytes left over.
pub decode_file_infos-encode_file_infos :
    (nfc : List ℕ → List ℕ)
    → (set : List FileInfo) → All (IsLeaf nfc) set
    → length set < 2 ^ 32
    → (body : List ℕ) × (encode_file_infos set ≡ ok body) × (decode_file_infos nfc body ≡ ok set)
unfolding encode_file_infos decode_file_infos
decode_file_infos-encode_file_infos nfc set leaves short =
    let (encs, written, back) = decode_each-encode_each nfc set leaves in
    (
      put_be 4 (length set) ++ encs,
      rw written refl,
      rw
          (
            take-append (put_be 4 (length set)) encs 4 (length-put_be 4 (length set)),
            drop-append (put_be 4 (length set)) encs 4 (length-put_be 4 (length set)),
          )
          (rw (get_be-put_be 4 (length set) short) (
            rw back (
              rw
                (le→ltb (length (put_be 4 (length set) ++ encs)) 4
                  (rw (length-append, length-put_be 4 (length set)) (omega arith)))
                refl))),
    )
