-- ===== src/Transport/Conn.antt =====
-- internal/transport/conn.go: one connection, as the record of what its goroutines share.
pub mod Stages
use merkle_lan_sync.Base.{
  ℕ, ◌+◌, Bool, true, false, not, ◌&&◌, ◌||◌, Option, none, some, List, [], ◌∷◌, ◌++◌, Result, ok,
  err, if◌then◌else◌, ltb, length,
}
use merkle_lan_sync.Protocol.Errors as Protocol
use merkle_lan_sync.Protocol.Messages.{
  Hello, Message, RecvAction, fatal, dispatch, skip, recv_action,
}
use merkle_lan_sync.Protocol.Messages.Codec.{decode_message}
use merkle_lan_sync.Transport.Errors.{Error, outbound_overflow, fatal_frame, protocol, write_failed}

-- How far `register` has come with a connection: it is made, refused because the transport is
-- closing, entered into the table, announced to the engine, or its gate `registered` is open.
pub data Stage : Type 0 where
  fresh refused listed announced opened : Stage

-- How far `superviseConn` has come: it waits for the reader and the writer, has taken the connection
-- out of the table, or has reported the disconnect.
pub data Supervisor : Type 0 where
  waiting deregistered reported : Supervisor

-- The cause of a close is none while the connection is open; it is `some none` for a close without
-- a recorded error. The reader holds the message that it waits to deliver.
pub record Conn : Type 0 where
  pub device_id : List ℕ
  pub hello : Hello
  pub outbound : List Message
  pub stage : Stage
  pub closed : Option (Option Error)
  pub reading : Bool
  pub holding : Option Message
  pub writing : Bool
  pub supervisor : Supervisor

-- `newConn`
unfoldable pub new_conn : List ℕ → Hello → Conn
new_conn id hello = record {
  device_id = id;
  hello = hello;
  outbound = [];
  stage = fresh;
  closed = none;
  reading = true;
  holding = none;
  writing = true;
  supervisor = waiting;
}

-- `closeWith`: the first cause stays.
unfoldable pub close_with : Option Error → Conn → Conn
close_with cause c = elim c.closed [ none ↦ record c { closed = some cause } | some first ↦ c ]

unfoldable pub is_closed : Conn → Bool
is_closed c = elim c.closed [ none ↦ false | some cause ↦ true ]

-- `Send` into a buffer of the given depth, and what it answers. Where the connection is closed and
-- the buffer has room, `lost` chooses the arm.
unfoldable pub send : ℕ → Bool → Message → Conn → Conn × Bool
send depth lost m c =
    if ltb (length c.outbound) depth
    then if is_closed c && lost
      then (c, false)
      else (record c { outbound = c.outbound ++ (m ∷ []) }, true)
    else if is_closed c
    then (c, false)
    else (close_with (some outbound_overflow) c, false)

-- The deferred `closeWith(nil)` of the reader, when it returns.
unfoldable pub stop_reading : Conn → Conn
stop_reading c = record (close_with none c) { reading = false; holding = none }

unfoldable pub stop_writing : Conn → Conn
stop_writing c = record (close_with none c) { writing = false }

-- `ReadFrame` failed. The end of the stream leaves no cause, and neither does a closed socket, which
-- is taken for the end of its stream here.
unfoldable pub read_failed : Protocol.Error → Conn → Conn
read_failed Protocol.eof c = stop_reading c
read_failed e c = stop_reading (close_with (some (protocol e)) c)

unfoldable pub on_dispatch : Result Protocol.Error Message → Conn → Conn
on_dispatch (err e) c = stop_reading (close_with (some (protocol e)) c)
on_dispatch (ok m) c = record c { holding = some m }

-- The `switch` on what is done with a frame of the type.
unfoldable pub on_action : RecvAction → Result Protocol.Error Message → Conn → Conn
on_action fatal r c = stop_reading (close_with (some fatal_frame) c)
on_action skip r c = c
on_action dispatch r c = on_dispatch r c

-- One round of `readLoop` up to `deliver`, on what `ReadFrame` gave.
unfoldable pub on_frame : Result Protocol.Error (ℕ × List ℕ) → Conn → Conn
on_frame (err e) c = read_failed e c
on_frame (ok (typ, payload)) c = on_action (recv_action typ) (decode_message typ payload) c

-- The reader takes a frame when it holds no message.
unfoldable pub is_free : Conn → Bool
is_free c = elim c.holding [ none ↦ c.reading | some m ↦ false ]

unfoldable pub read_one : Result Protocol.Error (ℕ × List ℕ) → Conn → Conn
read_one f c = if is_free c then on_frame f c else c

-- The writer takes the first message of the buffer, and the socket takes it or fails.
unfoldable pub write_one : Bool → List Message → Conn → Conn
write_one taken [] c = c
write_one taken (m ∷ rest) c =
    let sent = record c { outbound = rest } in
    if not c.writing
    then c
    else if taken
    then sent
    else stop_writing (close_with (some write_failed) sent)

-- The other arms of the writer's `select`.
unfoldable pub notice : Bool → Conn → Conn
notice cancelled c = if is_closed c || cancelled then stop_writing c else c
