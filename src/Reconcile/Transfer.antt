-- ===== src/Reconcile/Transfer.antt =====
-- internal/reconcile/transfer.go: the blocks of a file, and the guard of the source that serves them.
use merkle_lan_sync.Base.{
  ℕ, ◌+◌, ◌-◌, ◌*◌, ◌/◌, ◌%◌, ◌^◌, ◌<◌, ◌≤◌, ◌≡◌, arith, ◌↔◌, Bool, true, false, ◌||◌, ltb, ◌==◌,
  if◌then◌else◌,
}
use merkle_lan_sync.Protocol.Framing.{max_chunk_len}
use merkle_lan_sync.Protocol.Messages.{Request}

abbrev pub block_size : ℕ
block_size = 32 * 1024

-- A uint64 size; the sum wraps.
unfoldable pub num_blocks : ℕ → ℕ
num_blocks size = if size == 0 then 0 else (size + block_size - 1) % 2 ^ 64 / block_size

unfoldable pub validate_request : Request → ℕ → Bool
validate_request req size =
    if req.len == 0 || ltb max_chunk_len req.len
    then false
    else if ltb size req.offset || ltb size ((req.offset + req.len) % 2 ^ 64)
    then false
    else true

-- The offset and the length of the request for block `i` in the loop of `fetchOverWire`.
unfoldable pub block_offset : ℕ → ℕ
block_offset i = i * block_size

unfoldable pub block_len : ℕ → ℕ → ℕ
unfolding block_offset
block_len size i =
    let remaining = size - block_offset i in
    let len = if ltb remaining block_size then remaining else block_size in
    if ltb max_chunk_len len then max_chunk_len else len

-- For a file of less than 2 ^ 63 bytes and a request with fields in their Go ranges, the guard
-- accepts exactly the requests of 1 to MaxChunkLen bytes that lie within the file.
pub validate_request_iff :
    (req : Request) (size : ℕ)
    → size < 2 ^ 63
    → req.offset < 2 ^ 64
    → req.len < 2 ^ 32
    → (validate_request req size ≡ true)
      ↔ ((0 < req.len) × (req.len ≤ max_chunk_len) × (req.offset + req.len ≤ size))
unfolding validate_request
validate_request_iff req size small ho hl = ground arith

-- Each block that the puller asks for is accepted by the guard of a source that holds a file of the
-- size in the leaf, for sizes below 2 ^ 63.
pub validate_request-block :
    (req : Request) (size i : ℕ)
    → size < 2 ^ 63
    → i < num_blocks size
    → req.offset ≡ block_offset i
    → req.len ≡ block_len size i
    → validate_request req size ≡ true
unfolding num_blocks block_len block_offset
validate_request-block req size i small below at long =
    (validate_request_iff req size small (ground arith) (ground arith)).1 (ground arith)

-- The blocks cover the file and do not overlap: each begins where the one before it ends, and the
-- last ends at the size, which is below 2 ^ 63.
pub block_len_lem :
    (size i : ℕ)
    → size < 2 ^ 63
    → i < num_blocks size
    → block_offset i + block_len size i
      ≡ (if i + 1 == num_blocks size then size else block_offset (i + 1))
unfolding num_blocks block_len block_offset
block_len_lem size i small below = ground arith
