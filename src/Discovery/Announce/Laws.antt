-- ===== src/Discovery/Announce/Laws.antt =====
-- Announcements read back.
use merkle_lan_sync.Base.{
  ℕ, ◌<◌, ◌≤◌, ◌^◌, ◌≡◌, refl, ap, ◌∙◌, arith, List, ◌++◌, append_assoc, ok, length, length-append,
  take-append, drop-append, take, drop, bytes_eq_iff,
}
use merkle_lan_sync.Bytes.{put_be, get_be}
use merkle_lan_sync.Bytes.Laws.{length-put_be, get_be-put_be}
use merkle_lan_sync.Discovery.Announce.{Announcement, magic, encode_announce, decode_announce}

-- The fields of a datagram whose parts have their lengths.
decode_announce_of_parts :
    (b : List ℕ) (a : Announcement)
    → 39 ≤ length b
    → take 4 b ≡ magic
    → get_be (take 1 (drop 4 b)) ≡ 1
    → take 32 (drop 5 b) ≡ a.device_id
    → get_be (take 2 (drop 37 b)) ≡ a.tcp_port
    → 0 < a.tcp_port
    → decode_announce b ≡ ok a
unfolding decode_announce
decode_announce_of_parts b a long e₁ e₂ e₃ e₄ pos =
    ground (arith, (bytes_eq_iff (take 4 b) magic).1 e₁)

-- An announcement of a 32-byte identifier and a port of 1 to 65535 is read back from its datagram,
-- and from it with any bytes behind it.
pub decode_announce-encode_announce :
    (a : Announcement) (rest : List ℕ)
    → length a.device_id ≡ 32
    → 0 < a.tcp_port
    → a.tcp_port < 2 ^ 16
    → decode_announce (encode_announce a ++ rest) ≡ ok a
unfolding encode_announce put_be get_be
decode_announce-encode_announce a rest size pos fits =
    decode_announce_of_parts _ a
      (omega (
        arith,
        length-append a.device_id (put_be 2 a.tcp_port),
        length-append (a.device_id ++ put_be 2 a.tcp_port) rest,
        length-put_be 2 a.tcp_port,
      ))
      refl refl
      (ap (take 32) (append_assoc a.device_id (put_be 2 a.tcp_port) rest)
        ∙ take-append a.device_id _ 32 size)
      (ap (λ l. get_be (take 2 (drop 32 l))) (append_assoc a.device_id (put_be 2 a.tcp_port) rest)
        ∙ ap (λ l. get_be (take 2 l))
            (drop-append a.device_id (put_be 2 a.tcp_port ++ rest) 32 size)
        ∙ ap get_be (take-append (put_be 2 a.tcp_port) rest 2 (length-put_be 2 a.tcp_port))
        ∙ get_be-put_be 2 a.tcp_port fits)
      pos
