-- ===== src/Transport/Machine/Close.antt =====
-- The cause of a close, and what a transport that shuts down leaves.
use merkle_lan_sync.Base.{
  Dict, ℕ, suc, ◌≤◌, ◌≡◌, arith, inl, inr, Bool, true, false, Option, none, some, List, [], ◌∷◌,
  Option-cases, if◌then◌else◌,
}
use merkle_lan_sync.Base.Maps.{find, store, number_key, find-store}
use merkle_lan_sync.Transport.Errors.{Error, transport_closed}
use merkle_lan_sync.Transport.Conn.{
  Conn, refused, listed, announced, opened, deregistered, reported, close_with, send, stop_reading,
  read_one, write_one, notice, new_conn,
}
use merkle_lan_sync.Transport.Conn.Stages.{
  IsLater, close_with-IsLater, stop_reading-IsLater, send-IsLater, read_one-IsLater,
  write_one-IsLater, notice-IsLater,
}
use merkle_lan_sync.Transport.Machine.{
  State, Action, connect, register, open_gate, notice_close, deregister, emit_connected,
  emit_disconnected, deliver, frame, send_message, write, cancel, begin_teardown, finish_teardown,
  put, emit, on_register, on_emit_connected, on_open_gate, on_deliver, on_deregister,
  on_emit_disconnected, is_opened, close_all, step, run,
}
use merkle_lan_sync.Transport.Machine.Steps.{at-keeps}

-- The cause with which the connection of a number was closed.
abbrev pub cause : Option Conn → Option (Option Error)
cause none = none
cause (some c) = c.closed

record IsClosed (id : ℕ) (e : Option Error) (st : State) : Type 0 where
  caused : cause (find id st.heap) ≡ some e
  born : id ≤ st.next_conn_id

cause-store :
    (id i : ℕ) (e : Option Error) (c c' : Conn) (heap : Dict ℕ Conn)
    → find i heap ≡ some c
    → IsLater c c'
    → cause (find id heap) ≡ some e
    → cause (find id (store i c' heap)) ≡ some e
cause-store id i e c c' heap found later h =
    ground (arith, find-store id i c' heap, later.cause_kept e)

put-IsClosed :
    (id i : ℕ) (e : Option Error) (c c' : Conn) (st : State)
    → find i st.heap ≡ some c
    → IsLater c c'
    → IsClosed id e st
    → IsClosed id e (put i c' st)
unfolding put
put-IsClosed id i e c c' st found later h = record {
  caused = cause-store id i e c c' st.heap found later h.caused;
  born = h.born;
}

module _ (id i : ℕ) (e : Option Error) (c : Conn) (st : State) (found : find i st.heap ≡ some c)
    (h : IsClosed id e st) where
  on_register-IsClosed : IsClosed id e (on_register i c st)
  unfolding on_register put
  on_register-IsClosed =
      let barred = record (close_with (some transport_closed) c) { stage = refused } in
      let entered = record c { stage = listed } in
      let a = find-store id i barred st.heap in
      let b = find-store id i entered st.heap in
      record {
        caused =
            ground
              (arith, h.caused, found, (close_with-IsLater (some transport_closed) c).cause_kept e);
        born = ground (arith, h.born);
      }

  on_emit_connected-IsClosed : (lost : Bool) → IsClosed id e (on_emit_connected i lost c st)
  unfolding on_emit_connected emit put
  on_emit_connected-IsClosed lost =
      let now = find-store id i (record c { stage = announced }) st.heap in
      record { caused = ground (arith, h.caused, found); born = ground (arith, h.born) }

  on_open_gate-IsClosed : IsClosed id e (on_open_gate i c st)
  unfolding on_open_gate put
  on_open_gate-IsClosed =
      let now = find-store id i (record c { stage = opened }) st.heap in
      record { caused = ground (arith, h.caused, found); born = ground (arith, h.born) }

  on_deliver-IsClosed : (lost : Bool) → IsClosed id e (on_deliver i lost c st)
  unfolding on_deliver emit put is_opened
  on_deliver-IsClosed lost =
      let handed = find-store id i (record c { holding = none }) st.heap in
      let stopped = find-store id i (stop_reading c) st.heap in
      record {
        caused = ground (arith, h.caused, found, (stop_reading-IsLater c).cause_kept e);
        born = ground (arith, h.born);
      }

  on_deregister-IsClosed : IsClosed id e (on_deregister i c st)
  unfolding on_deregister put
  on_deregister-IsClosed =
      let now = find-store id i (record c { supervisor = deregistered }) st.heap in
      record { caused = ground (arith, h.caused, found); born = ground (arith, h.born) }

  on_emit_disconnected-IsClosed : (lost : Bool) → IsClosed id e (on_emit_disconnected i lost c st)
  unfolding on_emit_disconnected emit put
  on_emit_disconnected-IsClosed lost =
      let now = find-store id i (record c { supervisor = reported }) st.heap in
      record { caused = ground (arith, h.caused, found); born = ground (arith, h.born) }

pub cause-close_all :
    (id : ℕ) (e : Option Error) (ids : List ℕ) (heap : Dict ℕ Conn)
    → cause (find id heap) ≡ some e
    → cause (find id (close_all ids heap)) ≡ some e
unfolding close_all
cause-close_all id e [] heap h = h
cause-close_all id e (x ∷ ids) heap h = elim (Option-cases (find x heap)) [
  | inl missing ↦ rw missing (cause-close_all id e ids heap h)
  | inr (c, found) ↦ rw found (
      cause-close_all id e ids _ (
        cause-store id x e c (close_with (some transport_closed) c) heap found
          (close_with-IsLater (some transport_closed) c) h))
]

finish_teardown-IsClosed :
    (id : ℕ) (e : Option Error) (st : State) (closing : Bool)
    → IsClosed id e st
    → IsClosed id e (
        if closing
        then record st { closed = true; cancelled = true; heap = close_all st.conns st.heap }
        else st)
finish_teardown-IsClosed id e st false h = h
finish_teardown-IsClosed id e st true h = record {
  caused = cause-close_all id e st.conns st.heap h.caused;
  born = h.born;
}

connect-IsClosed :
    (id : ℕ) (e : Option Error) (c : Conn) (st : State)
    → IsClosed id e st
    → IsClosed id e (put (suc st.next_conn_id) c (record st { next_conn_id = suc st.next_conn_id }))
unfolding put
connect-IsClosed id e c st h =
    let made = find-store id (suc st.next_conn_id) c st.heap in
    record { caused = ground (arith, h.caused, h.born); born = omega (arith, h.born) }

module _ (out_buf : ℕ) (id : ℕ) (e : Option Error) where
  step-IsClosed : (st : State) (a : Action) → IsClosed id e st → IsClosed id e (step out_buf st a)
  unfolding step
  step-IsClosed st (connect device greeting) h =
      connect-IsClosed id e (new_conn device greeting) st h
  step-IsClosed st (register i) h =
      at-keeps (IsClosed id e) i st (on_register i) h (λ c f. on_register-IsClosed id i e c st f h)
  step-IsClosed st (emit_connected i lost) h =
      at-keeps (IsClosed id e) i st (on_emit_connected i lost) h
        (λ c f. on_emit_connected-IsClosed id i e c st f h lost)
  step-IsClosed st (open_gate i) h =
      at-keeps (IsClosed id e) i st (on_open_gate i) h
        (λ c f. on_open_gate-IsClosed id i e c st f h)
  step-IsClosed st (frame i r) h =
      at-keeps (IsClosed id e) i st (λ c s. put i (read_one r c) s) h
        (λ c f. put-IsClosed id i e c (read_one r c) st f (read_one-IsLater r c) h)
  step-IsClosed st (deliver i lost) h =
      at-keeps (IsClosed id e) i st (on_deliver i lost) h
        (λ c f. on_deliver-IsClosed id i e c st f h lost)
  step-IsClosed st (send_message i lost m) h =
      at-keeps (IsClosed id e) i st (λ c s. put i (send out_buf lost m c).0 s) h
        (λ c f.
          put-IsClosed id i e c (send out_buf lost m c).0 st f (send-IsLater out_buf lost m c) h)
  step-IsClosed st (write i taken) h =
      at-keeps (IsClosed id e) i st (λ c s. put i (write_one taken c.outbound c) s) h
        (λ c f.
          put-IsClosed id i e c (write_one taken c.outbound c) st f
            (write_one-IsLater taken c.outbound c) h)
  step-IsClosed st (notice_close i) h =
      at-keeps (IsClosed id e) i st (λ c s. put i (notice s.cancelled c) s) h
        (λ c f.
          put-IsClosed id i e c (notice st.cancelled c) st f (notice-IsLater st.cancelled c) h)
  step-IsClosed st (deregister i) h =
      at-keeps (IsClosed id e) i st (on_deregister i) h
        (λ c f. on_deregister-IsClosed id i e c st f h)
  step-IsClosed st (emit_disconnected i lost) h =
      at-keeps (IsClosed id e) i st (on_emit_disconnected i lost) h
        (λ c f. on_emit_disconnected-IsClosed id i e c st f h lost)
  step-IsClosed st cancel h = record { caused = h.caused; born = h.born }
  step-IsClosed st begin_teardown h = record { caused = h.caused; born = h.born }
  step-IsClosed st finish_teardown h = finish_teardown-IsClosed id e st st.closing h

  -- The first cause of a close stays: whatever the goroutines do after a connection was closed, and
  -- however often it is closed again, the cause that it was closed with is the one that it has.
  pub cause-run :
      (st : State) (actions : List Action)
      → cause (find id st.heap) ≡ some e
      → id ≤ st.next_conn_id
      → cause (find id (run out_buf st actions).heap) ≡ some e
  unfolding run
  cause-run st [] h born = h
  cause-run st (a ∷ actions) h born =
      let now : IsClosed id e st = record { caused = h; born = born } in
      let then_ = step-IsClosed st a now in
      cause-run (step out_buf st a) actions then_.caused then_.born
