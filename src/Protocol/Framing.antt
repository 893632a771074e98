-- ===== src/Protocol/Framing.antt =====
-- internal/protocol/framing.go: length-prefixed frames. A reader is the bytes that are left of
-- its stream, a writer the bytes that one `Write` was given.
pub mod Laws
use merkle_lan_sync.Base.{
  ℕ, zero, suc, ◌+◌, ◌-◌, ◌*◌, ◌^◌, ◌<◌, ◌≤◌, List, [], ◌∷◌, ◌++◌, Result, ok, err, ltb, leb, ◌==◌,
  if◌then◌else◌, length, take, drop, ◌>>=◌,
}
use merkle_lan_sync.Bytes.{put_be, get_be}
use merkle_lan_sync.Protocol.Errors.{Error, frame_too_large, zero_length, eof, unexpected_eof}

abbrev pub max_frame_len : ℕ
max_frame_len = 16 * 2 ^ 20

abbrev pub frame_type_len : ℕ
frame_type_len = 1

abbrev pub response_header_len : ℕ
response_header_len = 5

abbrev pub max_chunk_len : ℕ
max_chunk_len = max_frame_len - frame_type_len - response_header_len

abbrev pub frame_header_len : ℕ
frame_header_len = 4

-- `io.ReadFull` into a buffer of `n` bytes: what it read or its error, and what is left. At the
-- end of the stream it answers EOF if it read nothing, and else has used up all that there was.
unfoldable pub read_full : ℕ → List ℕ → Result Error (List ℕ) × List ℕ
read_full n r =
    if leb n (length r)
    then (ok (take n r), drop n r)
    else if length r == 0
    then (err eof, r)
    else (err unexpected_eof, [])

-- The type byte and the payload are `body[0]` and `body[1:]`; the length was tested to be above 0.
unfoldable pub split_body : List ℕ → ℕ × List ℕ
split_body [] = (0, [])
split_body (t ∷ payload) = (t, payload)

-- The body of a frame whose length has passed the tests.
unfoldable pub read_body : ℕ → List ℕ → Result Error (ℕ × List ℕ) × List ℕ
read_body len r = let (body, r') = read_full len r in (body >>= λ b. ok (split_body b), r')

-- The message type and the payload, or the error, and what is left of the stream.
unfoldable pub read_frame : List ℕ → Result Error (ℕ × List ℕ) × List ℕ
read_frame r =
    let (header, r') = read_full frame_header_len r in
    elim header [
      | err e ↦ (err e, r')
      | ok hdr ↦
          let len = get_be hdr in
          let body = read_body len r' in
          if len == 0
          then (err zero_length, r')
          else if ltb max_frame_len len
          then (err frame_too_large, r')
          else body
    ]

-- The bytes of the one `Write`; an oversized frame writes none.
unfoldable pub write_frame : ℕ → List ℕ → Result Error (List ℕ)
write_frame t payload =
    let len = frame_type_len + length payload in
    if ltb max_frame_len len then err frame_too_large else ok (put_be 4 len ++ (t ∷ payload))
