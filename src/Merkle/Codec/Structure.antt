-- ===== src/Merkle/Codec/Structure.antt =====
-- What the structural encodings tell apart.
use merkle_lan_sync.Base.{
  ℕ, ◌<◌, ◌^◌, ◌≡◌, refl, ap, sym, ◌∙◌, arith, ◌↔◌, Bool, true, false, List, [], ◌∷◌, ◌++◌, length,
  take, drop, take-append, drop-append, All,
}
use merkle_lan_sync.Bytes.{put_be, get_be}
use merkle_lan_sync.Bytes.Laws.{length-put_be, get_be-put_be}
use merkle_lan_sync.Protocol.VersionVector.{VersionVector, encode, decode}
use merkle_lan_sync.Protocol.VersionVector.Canonical.{IsCanonical}
use merkle_lan_sync.Protocol.VersionVector.RoundTrip.{Fits, decode-encode}
use merkle_lan_sync.Merkle.FileInfo.{FileInfo, canonical_mode_byte}
use merkle_lan_sync.Merkle.Codec.{
  bool_byte, leaf_encoding, ChildEntry, encode_children, node_encoding,
}
use merkle_lan_sync.Merkle.Codec.Wire.{IsLeaf}

-- Equal strings whose first parts have one length have equal parts.
split_equal :
    (n : ℕ) (xs ys a b : List ℕ)
    → length xs ≡ n
    → length ys ≡ n
    → xs ++ a ≡ ys ++ b
    → (xs ≡ ys) × (a ≡ b)
split_equal n xs ys a b hx hy e = (
  sym (take-append xs a n hx) ∙ ap (take n) e ∙ take-append ys b n hy,
  sym (drop-append xs a n hx) ∙ ap (drop n) e ∙ drop-append ys b n hy,
)

encode_injective :
    (v w : VersionVector)
    → IsCanonical v
    → Fits v
    → IsCanonical w
    → Fits w
    → encode v ≡ encode w
    → v ≡ w
encode_injective v w hv fv hw fw e =
    let same =
      sym (decode-encode v [] hv fv) ∙ ap (λ b. decode (b ++ [])) e ∙ decode-encode w [] hw fw in
    cc same

bool_byte_injective : (p q : Bool) → bool_byte p ≡ bool_byte q → p ≡ q
unfolding bool_byte
bool_byte_injective true q e = ground arith
bool_byte_injective false q e = ground arith

-- The bytes that the structural hash of a leaf is taken of are equal for two leaves of the program
-- exactly when they agree on the content hash, the portable mode, the deletion mark and the version
-- vector: no other field, and no other reading of the bytes, enters the hash.
pub leaf_encoding_iff :
    (nfc : List ℕ → List ℕ)
    → (fi gi : FileInfo) → IsLeaf nfc fi
    → IsLeaf nfc gi
    → (leaf_encoding fi ≡ leaf_encoding gi) ↔ (
        (fi.content_hash ≡ gi.content_hash)
        × (canonical_mode_byte fi ≡ canonical_mode_byte gi)
        × (fi.deleted ≡ gi.deleted)
        × (fi.version ≡ gi.version))
unfolding leaf_encoding
leaf_encoding_iff nfc fi gi f g = (
  λ e.
      let (hash, rest) =
        split_equal 32 fi.content_hash gi.content_hash _ _ f.hash_size g.hash_size e in
      let (mode, (del, vv)) : (canonical_mode_byte fi ≡ canonical_mode_byte gi)
          × ((bool_byte fi.deleted ≡ bool_byte gi.deleted)
              × (encode fi.version ≡ encode gi.version)) =
        (cc rest, (cc rest, cc rest)) in
      (
        hash,
        mode,
        bool_byte_injective fi.deleted gi.deleted del,
        encode_injective fi.version gi.version f.version_canonical f.version_fits
            g.version_canonical g.version_fits vv,
      ),
  λ (hash, mode, del, vv). cc (hash, mode, del, vv),
)

-- The ranges of a child's name and hash.
abbrev pub IsChild : ChildEntry → Type 0
IsChild c = (length c.name < 2 ^ 16) × (length c.hash ≡ 32)

put_be_injective : (w a b : ℕ) → a < 256 ^ w → b < 256 ^ w → put_be w a ≡ put_be w b → a ≡ b
put_be_injective w a b ha hb e = sym (get_be-put_be w a ha) ∙ ap get_be e ∙ get_be-put_be w b hb

encode_children_injective :
    (cs ds : List ChildEntry)
    → All IsChild cs
    → All IsChild ds
    → length cs ≡ length ds
    → encode_children cs ≡ encode_children ds
    → cs ≡ ds
unfolding encode_children
encode_children_injective [] [] hc hd size e = refl
encode_children_injective [] (d ∷ ds) hc hd size e = absurd (omega arith)
encode_children_injective (c ∷ cs) [] hc hd size e = absurd (omega arith)
encode_children_injective (c ∷ cs) (d ∷ ds) hc hd size e =
    let (len_bytes, e₁) =
      split_equal 2 _ _ _ _ (length-put_be 2 (length c.name)) (length-put_be 2 (length d.name)) e in
    let len = put_be_injective 2 (length c.name) (length d.name) hc.0.0 hd.0.0 len_bytes in
    let (name, e₂) = split_equal (length c.name) c.name d.name _ _ refl (sym len) e₁ in
    let (hash, e₃) = split_equal 32 c.hash d.hash _ _ hc.0.1 hd.0.1 e₂ in
    let rest = encode_children_injective cs ds hc.1 hd.1 (omega arith) e₃ in cc (name, hash, rest)

-- The bytes that the structural hash of a directory is taken of determine the names and the hashes
-- of its children, for fewer than 2 ^ 32 children with names of fewer than 2 ^ 16 bytes and hashes
-- of 32.
pub node_encoding_injective :
    (cs ds : List ChildEntry)
    → All IsChild cs
    → All IsChild ds
    → length cs < 2 ^ 32
    → length ds < 2 ^ 32
    → node_encoding cs ≡ node_encoding ds
    → cs ≡ ds
unfolding node_encoding
node_encoding_injective cs ds hc hd sc sd e =
    let (count, rest) =
      split_equal 4 _ _ _ _ (length-put_be 4 (length cs)) (length-put_be 4 (length ds)) e in
    encode_children_injective cs ds hc hd (put_be_injective 4 (length cs) (length ds) sc sd count)
      rest
