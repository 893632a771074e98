-- ===== src/Protocol/Messages/Buffers.antt =====
-- `encbuf` and `decbuf` of internal/protocol/messages.go: buffers with a sticky error.
use merkle_lan_sync.Base.{
  ℕ, ◌+◌, ◌-◌, List, [], ◌++◌, Option, none, some, ltb, if◌then◌else◌, length, take, drop,
  replicate,
}
use merkle_lan_sync.Bytes.{put_be, get_be}
use merkle_lan_sync.Protocol.Errors.{Error, short_payload, string_too_long}

pub record EncBuf : Type 0 where
  pub bytes : List ℕ
  pub failure : Option Error

-- The first error stays.
unfoldable pub enc_fail : Error → EncBuf → EncBuf
enc_fail x e = elim e.failure [ none ↦ record e { failure = some x } | some _ ↦ e ]

unfoldable pub enc_raw : List ℕ → EncBuf → EncBuf
enc_raw p e = elim e.failure [ none ↦ record e { bytes = e.bytes ++ p } | some _ ↦ e ]

-- `u8`, `u16`, `u32` and `u64`, by their width in bytes.
unfoldable pub enc_uint : ℕ → ℕ → EncBuf → EncBuf
unfolding enc_raw
enc_uint w v = enc_raw (put_be w v)

unfoldable pub enc_len_prefixed : List ℕ → EncBuf → EncBuf
unfolding enc_raw enc_fail enc_uint
enc_len_prefixed s e = elim e.failure [
  | some _ ↦ e
  | none ↦
      if ltb 0xFFFF (length s)
      then enc_fail string_too_long e
      else enc_raw s (enc_uint 2 (length s) e)
]

pub record DecBuf : Type 0 where
  pub payload : List ℕ
  pub off : ℕ
  pub failure : Option Error

-- A read returns its value and the buffer behind it.
abbrev pub Decoder : Type 0 → Type 0
Decoder A = DecBuf → A × DecBuf

infixl 5 ◌>>=◌
unfoldable pub ◌>>=◌ : {A B : Type 0} → Decoder A → (A → Decoder B) → Decoder B
◌>>=◌ m f d = f (m d).0 (m d).1

unfoldable pub pure : {A : Type 0} → A → Decoder A
pure a d = (a, d)

unfoldable pub dec_fail : Error → DecBuf → DecBuf
dec_fail x d = elim d.failure [ none ↦ record d { failure = some x } | some _ ↦ d ]

-- `u8`, `u16`, `u32` and `u64`, by their width in bytes.
unfoldable pub dec_uint : ℕ → Decoder ℕ
unfolding dec_fail
dec_uint w d = elim d.failure [
  | some _ ↦ (0, d)
  | none ↦
      if ltb (length d.payload) (d.off + w)
      then (0, dec_fail short_payload d)
      else (get_be (take w (drop d.off d.payload)), record d { off = d.off + w })
]

-- `raw(n)`; a nil slice is the empty one. The source also refuses a negative `n`.
unfoldable pub dec_raw : ℕ → Decoder (List ℕ)
unfolding dec_fail
dec_raw n d = elim d.failure [
  | some _ ↦ ([], d)
  | none ↦
      if ltb (length d.payload) (d.off + n)
      then ([], dec_fail short_payload d)
      else (take n (drop d.off d.payload), record d { off = d.off + n })
]

-- `copy(a[:], v)` into a zero array.
unfoldable pub copy32 : List ℕ → List ℕ
copy32 v = take 32 v ++ replicate (32 - length v) 0

unfoldable pub dec_array32 : Decoder (List ℕ)
dec_array32 = do v ← dec_raw 32; pure (copy32 v)

unfoldable pub dec_len_prefixed : Decoder (List ℕ)
dec_len_prefixed = do n ← dec_uint 2; dec_raw n

unfoldable pub dec_rest : Decoder (List ℕ)
dec_rest d = elim d.failure [
  | some _ ↦ ([], d)
  | none ↦ (drop d.off d.payload, record d { off = length d.payload })
]
