-- ===== src/Discovery/Registry/Datagram.antt =====
-- What the reader passes on of a peer's own datagram.
use merkle_lan_sync.Base.{
  ℕ, ◌<◌, ◌≤◌, ◌≡◌, ◌^◌, refl, sym, ap, ◌∙◌, arith, none, some, List, [], ◌∷◌, ◌++◌, append-nil, ok,
  if◌then◌else◌, length, length-append, take, bytes_eq, zero, suc,
}
use merkle_lan_sync.Bytes.{put_be}
use merkle_lan_sync.Bytes.Laws.{length-put_be}
use merkle_lan_sync.Discovery.Announce.{Announcement, encode_announce, decode_announce}
use merkle_lan_sync.Discovery.Announce.Laws.{decode_announce-encode_announce}
use merkle_lan_sync.Discovery.Registry.{AddrPort, pass_on, read_datagram, unmap, max_datagram}

take_all : (n : ℕ) (xs : List ℕ) → length xs ≤ n → take n xs ≡ xs
take_all zero [] h = refl
take_all zero (x ∷ xs) h = absurd (omega arith)
take_all (suc n) [] h = refl
take_all (suc n) (x ∷ xs) h = rw (take_all n xs (omega arith)) refl

length-encode_announce :
    (a : Announcement) → length a.device_id ≡ 32 → length (encode_announce a) ≡ 39
unfolding encode_announce
length-encode_announce a h = omega (
  arith,
  length-append {0} (put_be 1 1) (a.device_id ++ put_be 2 a.tcp_port),
  length-append {0} a.device_id (put_be 2 a.tcp_port),
  length-put_be 1 1,
  length-put_be 2 a.tcp_port,
  h,
)

-- A peer's announcement that arrives from an address is passed on with the peer's identifier, that
-- address taken out of its IPv6 form, the announced port and the time, and the own one is dropped.
-- The identifier has 32 bytes, and the port is 1 to 65535.
pub read_datagram-encode_announce :
    (self : List ℕ) (src : AddrPort) (a : Announcement) (now : ℕ)
    → length a.device_id ≡ 32
    → 0 < a.tcp_port
    → a.tcp_port < 2 ^ 16
    → read_datagram self src (encode_announce a) now ≡ (
        if bytes_eq a.device_id self
        then none
        else some (record {
          device_id = a.device_id;
          addr = record { addr = unmap src.addr; port = a.tcp_port };
          at = now;
        }))
unfolding read_datagram pass_on
read_datagram-encode_announce self src a now size pos fits =
    let whole : take max_datagram (encode_announce a) ≡ encode_announce a =
      take_all max_datagram (encode_announce a) (omega (arith, length-encode_announce a size)) in
    let back : decode_announce (encode_announce a ++ []) ≡ ok a =
      decode_announce-encode_announce a [] size pos fits in
    let plain : decode_announce (encode_announce a) ≡ ok a =
      ap decode_announce (sym (append-nil (encode_announce a))) ∙ back in
    ap (pass_on self src now) (ap decode_announce whole ∙ plain)
