-- ===== src/Transport/Machine/Order.antt =====
-- The order of the events of one connection.
use merkle_lan_sync.Base.{
  Dict, ℕ, suc, ◌<◌, ◌≤◌, ◌==◌, ◌≡◌, refl, arith, inl, inr, Bool, true, false, Option, none, some,
  List, [], ◌∷◌, Option-cases, if◌then◌else◌,
}
use merkle_lan_sync.Base.Maps.{find, number_key, find-store}
use merkle_lan_sync.Transport.Conn.{
  Conn, fresh, refused, listed, announced, opened, deregistered, reported, close_with, send,
  stop_reading, read_one, write_one, notice, new_conn,
}
use merkle_lan_sync.Transport.Errors.{transport_closed}
use merkle_lan_sync.Transport.Conn.Stages.{
  IsLater, stop_reading-IsLater, send-IsLater, read_one-IsLater, write_one-IsLater, notice-IsLater,
}
use merkle_lan_sync.Transport.Machine.Steps.{at-keeps}
use merkle_lan_sync.Transport.Machine.{
  Event, peer_connected, peer_disconnected, peer_message, State, Action, connect, register,
  open_gate, notice_close, deregister, emit_connected, emit_disconnected, deliver, frame,
  send_message, write, cancel, begin_teardown, finish_teardown, init, put, emit, on_register,
  on_emit_connected, on_open_gate, on_deliver, on_deregister, on_emit_disconnected, is_opened,
  close_all, step, run,
}

-- How often the connection was announced.
abbrev pub connects : ℕ → List Event → ℕ
connects id [] = 0
connects id (peer_connected i d ∷ evs) = if i == id then suc (connects id evs) else connects id evs
connects id (peer_disconnected d e ∷ evs) = connects id evs
connects id (peer_message i d m ∷ evs) = connects id evs

-- Each message of the connection has its announcement before it; the list has the last event first.
abbrev pub IsOrdered : ℕ → List Event → Type 0
IsOrdered id [] = Unit {0}
IsOrdered id (peer_connected i d ∷ evs) = IsOrdered id evs
IsOrdered id (peer_disconnected d e ∷ evs) = IsOrdered id evs
IsOrdered id (peer_message i d m ∷ evs) =
    ((i == id) ≡ true → connects id evs ≡ 1) × IsOrdered id evs

-- The number of announcements that fits a connection at its stage.
abbrev announcements : Option Conn → ℕ
announcements none = 0
announcements (some c) = elim c.stage [
  | fresh ↦ 0
  | refused ↦ 0
  | listed ↦ 0
  | announced ↦ 1
  | opened ↦ 1
]

-- Until the transport is closed, for one number.
record IsSound (id : ℕ) (st : State) : Type 0 where
  ordered : st.closed ≡ false → IsOrdered id st.events
  counted : st.closed ≡ false → connects id st.events ≡ announcements (find id st.heap)
  unborn : st.next_conn_id < id → find id st.heap ≡ none

-- A step that changes a connection without its stage.
quiet-IsSound :
    (id i : ℕ) (c c' : Conn) (st : State)
    → find i st.heap ≡ some c
    → IsLater c c'
    → IsSound id st
    → IsSound id (put i c' st)
unfolding put
quiet-IsSound id i c c' st found later h = record {
  ordered = h.ordered;
  counted = λ o. ground (arith, h.counted o, find-store id i c' st.heap, later.stage_kept);
  unborn = λ u. ground (arith, h.unborn u, find-store id i c' st.heap);
}

on_register-IsSound :
    (id i : ℕ) (c : Conn) (st : State)
    → find i st.heap ≡ some c
    → IsSound id st
    → IsSound id (on_register i c st)
unfolding on_register put
on_register-IsSound id i c st found h =
    let barred = record (close_with (some transport_closed) c) { stage = refused } in
    let entered = record c { stage = listed } in
    let a = find-store id i barred st.heap in
    let b = find-store id i entered st.heap in
    record {
      ordered = λ o. ground (arith, h.ordered);
      counted = λ o. ground (arith, h.counted);
      unborn = λ u. ground (arith, h.unborn);
    }

on_emit_connected-IsSound :
    (id i : ℕ) (lost : Bool) (c : Conn) (st : State)
    → find i st.heap ≡ some c
    → IsSound id st
    → IsSound id (on_emit_connected i lost c st)
unfolding on_emit_connected emit put
on_emit_connected-IsSound id i lost c st found h =
    let now = find-store id i (record c { stage = announced }) st.heap in
    record {
      ordered = λ o. ground (arith, h.ordered);
      counted = λ o. ground (arith, h.counted);
      unborn = λ u. ground (arith, h.unborn);
    }

on_open_gate-IsSound :
    (id i : ℕ) (c : Conn) (st : State)
    → find i st.heap ≡ some c
    → IsSound id st
    → IsSound id (on_open_gate i c st)
unfolding on_open_gate put
on_open_gate-IsSound id i c st found h =
    let now = find-store id i (record c { stage = opened }) st.heap in
    record {
      ordered = λ o. ground (arith, h.ordered);
      counted = λ o. ground (arith, h.counted);
      unborn = λ u. ground (arith, h.unborn);
    }

on_deliver-IsSound :
    (id i : ℕ) (lost : Bool) (c : Conn) (st : State)
    → find i st.heap ≡ some c
    → IsSound id st
    → IsSound id (on_deliver i lost c st)
unfolding on_deliver emit put is_opened
on_deliver-IsSound id i lost c st found h =
    let handed = find-store id i (record c { holding = none }) st.heap in
    let stopped = find-store id i (stop_reading c) st.heap in
    let same = (stop_reading-IsLater c).stage_kept in
    record {
      ordered = λ o. ground (arith, h.ordered, h.counted);
      counted = λ o. ground (arith, h.counted);
      unborn = λ u. ground (arith, h.unborn);
    }

on_deregister-IsSound :
    (id i : ℕ) (c : Conn) (st : State)
    → find i st.heap ≡ some c
    → IsSound id st
    → IsSound id (on_deregister i c st)
unfolding on_deregister put
on_deregister-IsSound id i c st found h =
    let now = find-store id i (record c { supervisor = deregistered }) st.heap in
    record {
      ordered = λ o. ground (arith, h.ordered);
      counted = λ o. ground (arith, h.counted);
      unborn = λ u. ground (arith, h.unborn);
    }

on_emit_disconnected-IsSound :
    (id i : ℕ) (lost : Bool) (c : Conn) (st : State)
    → find i st.heap ≡ some c
    → IsSound id st
    → IsSound id (on_emit_disconnected i lost c st)
unfolding on_emit_disconnected emit put
on_emit_disconnected-IsSound id i lost c st found h =
    let now = find-store id i (record c { supervisor = reported }) st.heap in
    record {
      ordered = λ o. ground (arith, h.ordered);
      counted = λ o. ground (arith, h.counted);
      unborn = λ u. ground (arith, h.unborn);
    }

close_all-none :
    (id : ℕ) (ids : List ℕ) (heap : Dict ℕ Conn)
    → find id heap ≡ none
    → find id (close_all ids heap) ≡ none
unfolding close_all
close_all-none id [] heap h = h
close_all-none id (x ∷ ids) heap h = elim (Option-cases (find x heap)) [
  | inl missing ↦ rw missing (close_all-none id ids heap h)
  | inr (c, found) ↦ rw found (
      close_all-none id ids _
        (ground (arith, find-store id x (close_with (some transport_closed) c) heap)))
]

finish_teardown-IsSound :
    (id : ℕ) (st : State) (closing : Bool)
    → IsSound id st
    → IsSound id (
        if closing
        then record st { closed = true; cancelled = true; heap = close_all st.conns st.heap }
        else st)
finish_teardown-IsSound id st false h = h
finish_teardown-IsSound id st true h = record {
  ordered = λ o. cc;
  counted = λ o. cc;
  unborn = λ u. close_all-none id st.conns st.heap (h.unborn u);
}

connect-IsSound :
    (id : ℕ) (c : Conn) (st : State)
    → c.stage ≡ fresh
    → IsSound id st
    → IsSound id (put (suc st.next_conn_id) c (record st { next_conn_id = suc st.next_conn_id }))
unfolding put
connect-IsSound id c st first h =
    let made = find-store id (suc st.next_conn_id) c st.heap in
    record {
      ordered = h.ordered;
      counted = λ o. ground (arith, h.counted, h.unborn);
      unborn = λ u. ground (arith, h.unborn);
    }

init-IsSound : (id : ℕ) → IsSound id init
unfolding init find
init-IsSound id = record { ordered = λ o. tt; counted = λ o. refl; unborn = λ u. refl }

most : {n : ℕ} (c : Option Conn) → n ≡ announcements c → n ≤ 1
most none h = omega arith
most (some c) h = ground arith

module _ (out_buf : ℕ) where
  step-IsSound : (id : ℕ) (st : State) (a : Action) → IsSound id st → IsSound id (step out_buf st a)
  unfolding step new_conn
  step-IsSound id st (connect device greeting) h =
      connect-IsSound id (new_conn device greeting) st refl h
  step-IsSound id st (register i) h =
      at-keeps (IsSound id) i st (on_register i) h (λ c e. on_register-IsSound id i c st e h)
  step-IsSound id st (emit_connected i lost) h =
      at-keeps (IsSound id) i st (on_emit_connected i lost) h
        (λ c e. on_emit_connected-IsSound id i lost c st e h)
  step-IsSound id st (open_gate i) h =
      at-keeps (IsSound id) i st (on_open_gate i) h (λ c e. on_open_gate-IsSound id i c st e h)
  step-IsSound id st (frame i f) h =
      at-keeps (IsSound id) i st (λ c s. put i (read_one f c) s) h
        (λ c e. quiet-IsSound id i c (read_one f c) st e (read_one-IsLater f c) h)
  step-IsSound id st (deliver i lost) h =
      at-keeps (IsSound id) i st (on_deliver i lost) h
        (λ c e. on_deliver-IsSound id i lost c st e h)
  step-IsSound id st (send_message i lost m) h =
      at-keeps (IsSound id) i st (λ c s. put i (send out_buf lost m c).0 s) h
        (λ c e.
          quiet-IsSound id i c (send out_buf lost m c).0 st e (send-IsLater out_buf lost m c) h)
  step-IsSound id st (write i taken) h =
      at-keeps (IsSound id) i st (λ c s. put i (write_one taken c.outbound c) s) h
        (λ c e.
          quiet-IsSound id i c (write_one taken c.outbound c) st e
            (write_one-IsLater taken c.outbound c) h)
  step-IsSound id st (notice_close i) h =
      at-keeps (IsSound id) i st (λ c s. put i (notice s.cancelled c) s) h
        (λ c e. quiet-IsSound id i c (notice st.cancelled c) st e (notice-IsLater st.cancelled c) h)
  step-IsSound id st (deregister i) h =
      at-keeps (IsSound id) i st (on_deregister i) h (λ c e. on_deregister-IsSound id i c st e h)
  step-IsSound id st (emit_disconnected i lost) h =
      at-keeps (IsSound id) i st (on_emit_disconnected i lost) h
        (λ c e. on_emit_disconnected-IsSound id i lost c st e h)
  step-IsSound id st cancel h = record {
    ordered = h.ordered;
    counted = h.counted;
    unborn = h.unborn;
  }
  step-IsSound id st begin_teardown h = record {
    ordered = h.ordered;
    counted = h.counted;
    unborn = h.unborn;
  }
  step-IsSound id st finish_teardown h = finish_teardown-IsSound id st st.closing h

  run-IsSound :
      (id : ℕ) (st : State) (actions : List Action)
      → IsSound id st
      → IsSound id (run out_buf st actions)
  unfolding run
  run-IsSound id st [] h = h
  run-IsSound id st (a ∷ later) h =
      run-IsSound id (step out_buf st a) later (step-IsSound id st a h)

  -- In every interleaving of the goroutines, up to the close of the transport, a connection is
  -- announced at most once, and each message of it that is emitted comes behind that announcement.
  pub run-IsOrdered :
      (id : ℕ) (actions : List Action)
      → (run out_buf init actions).closed ≡ false
      → IsOrdered id (run out_buf init actions).events
        × (connects id (run out_buf init actions).events ≤ 1)
  run-IsOrdered id actions alive =
      let h = run-IsSound id init actions (init-IsSound id) in
      (h.ordered alive, most (find id (run out_buf init actions).heap) (h.counted alive))
