-- ===== src/Discovery/Announce.antt =====
-- internal/discovery/announce.go: the datagram in which a peer names itself.
pub mod Laws
use merkle_lan_sync.Base.{
  ℕ, ◌+◌, not, List, [], ◌∷◌, ◌++◌, Result, ok, err, ltb, ◌==◌, if◌then◌else◌, length, take, drop,
  bytes_eq,
}
use merkle_lan_sync.Bytes.{put_be, get_be}

pub data Error : Type 0 where
  announce_too_short announce_magic announce_version announce_port : Error

abbrev pub announce_size : ℕ
announce_size = 39

abbrev pub version_byte : ℕ
version_byte = 1

abbrev pub magic : List ℕ
magic = b'M' ∷ b'S' ∷ b'Y' ∷ b'N' ∷ []

pub record Announcement : Type 0 where
  pub device_id : List ℕ
  pub tcp_port : ℕ

-- The four parts in their order, which fill the 39 bytes.
unfoldable pub encode_announce : Announcement → List ℕ
encode_announce a = magic ++ (put_be 1 version_byte ++ (a.device_id ++ put_be 2 a.tcp_port))

unfoldable pub decode_announce : List ℕ → Result Error Announcement
decode_announce b =
    let port = get_be (take 2 (drop 37 b)) in
    if ltb (length b) announce_size
    then err announce_too_short
    else if not (bytes_eq (take 4 b) magic)
    then err announce_magic
    else if not (get_be (take 1 (drop 4 b)) == version_byte)
    then err announce_version
    else if port == 0
    then err announce_port
    else ok (record { device_id = take 32 (drop 5 b); tcp_port = port })
