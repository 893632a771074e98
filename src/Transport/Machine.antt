-- ===== src/Transport/Machine.antt =====
-- The life of the connections of a transport: `register`, `superviseConn`, `deregister`, `emit` and
-- `teardown` of internal/transport/transport.go, and the loops of conn.go. An action is one step of
-- one goroutine, up to where it waits for another; one that cannot go on leaves the state as it is.
pub mod Steps
pub mod Order
pub mod Close
pub mod Drain
use merkle_lan_sync.Base.{
  ℕ, suc, ◌+◌, ◌==◌, Bool, true, false, not, ◌&&◌, ◌||◌, Option, none, some, List, [], ◌∷◌, ◌++◌,
  Result, ok, err, if◌then◌else◌, Dict, find, store, number_key,
}
use merkle_lan_sync.Protocol.Errors as Protocol
use merkle_lan_sync.Protocol.Messages.{Hello, Message}
use merkle_lan_sync.Transport.Errors.{Error, transport_closed}
use merkle_lan_sync.Transport.Conn.{
  Conn, Stage, fresh, refused, listed, announced, opened, Supervisor, waiting, deregistered,
  reported, new_conn, close_with, is_closed, send, stop_reading, read_one, write_one, notice,
}

-- A connection is named by its number.
pub data Event : Type 0 where
  peer_connected : ℕ → List ℕ → Event
  peer_disconnected : List ℕ → Option Error → Event
  peer_message : ℕ → List ℕ → Message → Event

-- All connections that were made, the table `conns` of those that are registered, and the events
-- that were emitted, the last one first.
pub record State : Type 0 where
  pub closing : Bool
  pub closed : Bool
  pub cancelled : Bool
  pub next_conn_id : ℕ
  pub heap : Dict ℕ Conn
  pub conns : List ℕ
  pub events : List Event

-- `lost` chooses the other arm of a `select`, the one for a shutdown.
pub data Action : Type 0 where
  connect : List ℕ → Hello → Action
  register open_gate notice_close deregister : ℕ → Action
  emit_connected emit_disconnected deliver : ℕ → Bool → Action
  frame : ℕ → Result Protocol.Error (ℕ × List ℕ) → Action
  send_message : ℕ → Bool → Message → Action
  write : ℕ → Bool → Action
  cancel begin_teardown finish_teardown : Action

unfoldable pub init : State
init = record {
  closing = false;
  closed = false;
  cancelled = false;
  next_conn_id = 0;
  heap = [];
  conns = [];
  events = [];
}

unfoldable pub put : ℕ → Conn → State → State
put id c st = record st { heap = store id c st.heap }

unfoldable pub remove_id : ℕ → List ℕ → List ℕ
remove_id id [] = []
remove_id id (x ∷ xs) = let rest = remove_id id xs in if x == id then rest else x ∷ rest

-- `emit`: the event goes out, or is lost to a shutdown.
unfoldable pub emit : Event → Bool → State → State
emit ev lost st = if lost then st else record st { events = ev ∷ st.events }

-- `register` up to the release of the lock.
unfoldable pub on_register : ℕ → Conn → State → State
on_register id c st = elim c.stage [
  | fresh ↦
      if st.closing
      then put id (record (close_with (some transport_closed) c) { stage = refused }) st
      else put id (record c { stage = listed }) (record st { conns = id ∷ st.conns })
  | refused ↦ st
  | listed ↦ st
  | announced ↦ st
  | opened ↦ st
]

unfoldable pub on_emit_connected : ℕ → Bool → Conn → State → State
on_emit_connected id lost c st = elim c.stage [
  | listed ↦
      if lost && not st.closed
      then st
      else emit (peer_connected id c.device_id) lost (put id (record c { stage = announced }) st)
  | fresh ↦ st
  | refused ↦ st
  | announced ↦ st
  | opened ↦ st
]

unfoldable pub on_open_gate : ℕ → Conn → State → State
on_open_gate id c st = elim c.stage [
  | announced ↦ put id (record c { stage = opened }) st
  | fresh ↦ st
  | refused ↦ st
  | listed ↦ st
  | opened ↦ st
]

unfoldable pub is_opened : Stage → Bool
is_opened opened = true
is_opened fresh = false
is_opened refused = false
is_opened listed = false
is_opened announced = false

-- `deliver`, with the return of the reader where it answers false.
unfoldable pub on_deliver : ℕ → Bool → Conn → State → State
on_deliver id lost c st = elim c.holding [
  | none ↦ st
  | some m ↦
      if lost
      then if is_closed c || st.closed then put id (stop_reading c) st else st
      else if is_opened c.stage
      then emit (peer_message id c.device_id m) false (put id (record c { holding = none }) st)
      else st
]

-- The supervisor is started when the connection is entered into the table.
unfoldable pub is_supervised : Stage → Bool
is_supervised fresh = false
is_supervised refused = false
is_supervised listed = true
is_supervised announced = true
is_supervised opened = true

unfoldable pub on_deregister : ℕ → Conn → State → State
on_deregister id c st = elim c.supervisor [
  | waiting ↦
      if is_supervised c.stage && not (c.reading || c.writing)
      then put id (record c { supervisor = deregistered })
          (record st { conns = remove_id id st.conns })
      else st
  | deregistered ↦ st
  | reported ↦ st
]

-- `closeErr`, of which a close without a cause has none.
unfoldable pub cause_of : Conn → Option Error
cause_of c = elim c.closed [ none ↦ none | some cause ↦ cause ]

unfoldable pub on_emit_disconnected : ℕ → Bool → Conn → State → State
on_emit_disconnected id lost c st = elim c.supervisor [
  | deregistered ↦
      if lost && not st.closed
      then st
      else emit (peer_disconnected c.device_id (cause_of c)) lost
          (put id (record c { supervisor = reported }) st)
  | waiting ↦ st
  | reported ↦ st
]

-- The loop of `teardown` over the connections of the table.
unfoldable pub close_all : List ℕ → Dict ℕ Conn → Dict ℕ Conn
close_all [] heap = heap
close_all (id ∷ ids) heap = close_all ids (elim (find id heap) [
  | none ↦ heap
  | some c ↦ store id (close_with (some transport_closed) c) heap
])

-- A step of a connection that there is.
unfoldable pub at : ℕ → State → (Conn → State → State) → State
at id st f = elim (find id st.heap) [ none ↦ st | some c ↦ f c st ]

module _ (out_buf : ℕ) where
  unfoldable pub step : State → Action → State
  step st (connect device hello) =
      let id = suc st.next_conn_id in
      put id (new_conn device hello) (record st { next_conn_id = id })
  step st (register id) = at id st (on_register id)
  step st (emit_connected id lost) = at id st (on_emit_connected id lost)
  step st (open_gate id) = at id st (on_open_gate id)
  step st (frame id f) = at id st (λ c s. put id (read_one f c) s)
  step st (deliver id lost) = at id st (on_deliver id lost)
  step st (send_message id lost m) = at id st (λ c s. put id (send out_buf lost m c).0 s)
  step st (write id taken) = at id st (λ c s. put id (write_one taken c.outbound c) s)
  step st (notice_close id) = at id st (λ c s. put id (notice s.cancelled c) s)
  step st (deregister id) = at id st (on_deregister id)
  step st (emit_disconnected id lost) = at id st (on_emit_disconnected id lost)
  step st cancel = record st { cancelled = true }
  step st begin_teardown = record st { closing = true }
  step st finish_teardown =
      if st.closing
      then record st { closed = true; cancelled = true; heap = close_all st.conns st.heap }
      else st

  unfoldable pub run : State → List Action → State
  run st [] = st
  run st (a ∷ actions) = run (step st a) actions
