-- ===== src/Protocol/Messages.antt =====
-- internal/protocol/messages.go: the seven messages, and the policy for a received type byte.
-- A string is its bytes, an array of 32 bytes is a list of that length.
pub mod Buffers
pub mod Codec
pub mod Reads
pub mod Layout
pub mod RoundTrip
pub mod Framed
pub mod Errors
use merkle_lan_sync.Base.{ℕ, ◌<◌, ◌≤◌, ◌^◌, List, ◌==◌, leb, ◌&&◌, if◌then◌else◌, ◌≡◌, length, All}
use merkle_lan_sync.Bytes.{IsByte}

pub record Hello : Type 0 where
  pub proto_version : ℕ
  pub device_id : List ℕ
  pub folder_id : List ℕ
  pub root_hash : List ℕ
  pub feature_flags : ℕ

pub record Index : Type 0 where
  pub folder_id : List ℕ
  pub count : ℕ
  pub body : List ℕ

pub record Request : Type 0 where
  pub req_id : ℕ
  pub path : List ℕ
  pub content_hash : List ℕ
  pub offset : ℕ
  pub len : ℕ

-- The code is any uint8; the named ones are 0 to 3.
pub record Response : Type 0 where
  pub req_id : ℕ
  pub code : ℕ
  pub chunk : List ℕ

pub data Message : Type 0 where
  hello : Hello → Message
  index : Index → Message
  index_update : Index → Message
  request : Request → Message
  response : Response → Message
  ping : Message
  close : List ℕ → Message

-- `Type()`
abbrev pub msg_type : Message → ℕ
msg_type (hello _) = 0x01
msg_type (index _) = 0x02
msg_type (index_update _) = 0x03
msg_type (request _) = 0x04
msg_type (response _) = 0x05
msg_type ping = 0x06
msg_type (close _) = 0x07

pub data RecvAction : Type 0 where
  fatal dispatch skip : RecvAction

unfoldable pub recv_action : ℕ → RecvAction
recv_action t = if t == 0x00 then fatal else if leb 0x01 t && leb t 0x07 then dispatch else skip

abbrev pub code_generic : ℕ
code_generic = 1

abbrev pub IsArray32 : List ℕ → Type 0
IsArray32 a = length a ≡ 32

-- The ranges of the fields' Go types.
abbrev pub IsTyped : Message → Type 0
IsTyped (hello h) =
    (h.proto_version < 2 ^ 16)
    × IsArray32 h.device_id
    × IsArray32 h.root_hash
    × (h.feature_flags < 2 ^ 32)
IsTyped (index m) = m.count < 2 ^ 32
IsTyped (index_update m) = m.count < 2 ^ 32
IsTyped (request r) =
    (r.req_id < 2 ^ 32) × IsArray32 r.content_hash × (r.offset < 2 ^ 64) × (r.len < 2 ^ 32)
IsTyped (response r) = (r.req_id < 2 ^ 32) × (r.code < 2 ^ 8)
IsTyped ping = Unit {0}
IsTyped (close reason) = Unit {0}
