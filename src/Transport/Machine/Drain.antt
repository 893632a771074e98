-- ===== src/Transport/Machine/Drain.antt =====
-- A connection that was closed is always brought to its end.
use merkle_lan_sync.Base.{
  ℕ, ◌≡◌, refl, arith, inl, inr, Bool, true, false, Option, none, some, List, [], ◌∷◌, err,
  Option-cases,
}
use merkle_lan_sync.Base.Maps.{find, number_key, find-store}
use merkle_lan_sync.Protocol.Errors as Protocol
use merkle_lan_sync.Transport.Errors.{Error}
use merkle_lan_sync.Protocol.Messages.{Message}
use merkle_lan_sync.Transport.Conn.{
  Conn, waiting, deregistered, close_with, is_closed, stop_reading, stop_writing, is_free,
  read_failed, on_frame, read_one, notice,
}
use merkle_lan_sync.Transport.Machine.{
  State, peer_disconnected, Action, deliver, frame, notice_close, deregister, emit_disconnected,
  put, at, emit, on_deliver, on_deregister, on_emit_disconnected, cause_of, is_supervised,
  remove_id, step, run,
}

-- The reader gives up the message that it holds, or meets the closed socket; the writer sees the
-- close; the supervisor takes the connection out of the table and reports it.
abbrev pub wind_down : ℕ → List Action
wind_down id =
    deliver id true
    ∷ frame id (err Protocol.eof)
    ∷ notice_close id
    ∷ deregister id
    ∷ emit_disconnected id false
    ∷ []

at_found :
    (id : ℕ) (st : State) (f : Conn → State → State) (c : Conn)
    → find id st.heap ≡ some c
    → at id st f ≡ f c st
unfolding at
at_found id st f c found = rw (at, found) refl

-- A state on the way down from another, with the connection as it is there.
record IsFalling (id : ℕ) (e : Option Error) (from : State) (was : Conn) (st : State) (c : Conn)
    : Type 0 where
  there : find id st.heap ≡ some c
  caused : c.closed ≡ some e
  device : c.device_id ≡ was.device_id
  staged : is_supervised c.stage ≡ true
  supervised : c.supervisor ≡ waiting
  table : st.conns ≡ from.conns
  log : st.events ≡ from.events

put-IsFalling :
    (id : ℕ) (e : Option Error) (from : State) (was c c' : Conn) (st : State)
    → IsFalling id e from was st c
    → c'.closed ≡ some e
    → c'.device_id ≡ c.device_id
    → c'.stage ≡ c.stage
    → c'.supervisor ≡ c.supervisor
    → IsFalling id e from was (put id c' st) c'
unfolding put
put-IsFalling id e from was c c' st h closed device stage supervisor = record {
  there = ground (arith, find-store id id c' st.heap);
  caused = closed;
  device = ground (arith, h.device);
  staged = ground (arith, h.staged);
  supervised = ground (arith, h.supervised);
  table = h.table;
  log = h.log;
}

-- The connection is as it was but for its goroutines.
abbrev IsAlike : Option Error → Conn → Conn → Type 0
IsAlike e c c' =
    (c'.closed ≡ some e)
    × (c'.device_id ≡ c.device_id)
    × (c'.stage ≡ c.stage)
    × (c'.supervisor ≡ c.supervisor)

stop_reading_closed :
    (e : Option Error) (c : Conn) → c.closed ≡ some e → IsAlike e c (stop_reading c)
unfolding stop_reading close_with
stop_reading_closed e c closed = ground arith

read_closed :
    (e : Option Error) (c : Conn)
    → c.closed ≡ some e
    → c.holding ≡ none
    → IsAlike e c (read_one (err Protocol.eof) c)
      × ((read_one (err Protocol.eof) c).reading ≡ false)
unfolding read_one is_free on_frame read_failed stop_reading close_with
read_closed e c closed free = ground arith

notice_closed :
    (e : Option Error) (cancelled : Bool) (c : Conn)
    → c.closed ≡ some e
    → c.reading ≡ false
    → IsAlike e c (notice cancelled c)
      × ((notice cancelled c).reading ≡ false)
      × ((notice cancelled c).writing ≡ false)
unfolding notice is_closed stop_writing close_with
notice_closed e cancelled c closed still = ground arith

lost_free : (id : ℕ) (c : Conn) (st : State) → c.holding ≡ none → on_deliver id true c st ≡ st
unfolding on_deliver
lost_free id c st free = ground arith

lost_held :
    (id : ℕ) (e : Option Error) (m : Message) (c : Conn) (st : State)
    → c.holding ≡ some m
    → c.closed ≡ some e
    → on_deliver id true c st ≡ put id (stop_reading c) st
unfolding on_deliver is_closed
lost_held id e m c st held closed = ground arith

holding-stop_reading : (c : Conn) → (stop_reading c).holding ≡ none
unfolding stop_reading
holding-stop_reading c = refl

alike-IsFalling :
    (id : ℕ) (e : Option Error) (from : State) (was c c' : Conn) (st : State)
    → IsFalling id e from was st c
    → IsAlike e c c'
    → IsFalling id e from was (put id c' st) c'
alike-IsFalling id e from was c c' st h (closed, device, stage, supervisor) =
    put-IsFalling id e from was c c' st h closed device stage supervisor

give_up :
    (id : ℕ) (e : Option Error) (from : State) (was c : Conn) (st : State)
    → IsFalling id e from was st c
    → (c' : Conn) × IsFalling id e from was (on_deliver id true c st) c' × (c'.holding ≡ none)
give_up id e from was c st h = elim (Option-cases c.holding) [
  | inl free ↦ (c, rw (lost_free id c st free) h, free)
  | inr (m, held) ↦ (
    stop_reading c,
    rw (lost_held id e m c st held h.caused)
        (alike-IsFalling id e from was c (stop_reading c) st h (stop_reading_closed e c h.caused)),
    holding-stop_reading c,
  )
]

removed : ℕ → Conn → State → State
removed id c st =
    put id (record c { supervisor = deregistered }) (record st { conns = remove_id id st.conns })

deregister_lem :
    (id : ℕ) (c : Conn) (st : State)
    → is_supervised c.stage ≡ true
    → c.supervisor ≡ waiting
    → c.reading ≡ false
    → c.writing ≡ false
    → on_deregister id c st ≡ removed id c st
unfolding on_deregister removed
deregister_lem id c st staged waits read written = ground arith

find-removed :
    (id : ℕ) (c : Conn) (st : State)
    → find id (removed id c st).heap ≡ some (record c { supervisor = deregistered })
unfolding removed put
find-removed id c st =
    ground (arith, find-store id id (record c { supervisor = deregistered }) st.heap)

report_lem :
    (id : ℕ) (e : Option Error) (c : Conn) (st : State)
    → c.closed ≡ some e
    → let after =
        on_emit_disconnected id false (record c { supervisor = deregistered }) (removed id c st) in
      (after.conns ≡ remove_id id st.conns)
      × (after.events ≡ peer_disconnected c.device_id e ∷ st.events)
unfolding on_emit_disconnected removed put emit cause_of
report_lem id e c st closed = ground arith

-- The last two steps.
leave :
    (out_buf id : ℕ) (e : Option Error) (from : State) (was c : Conn) (st : State)
    → IsFalling id e from was st c
    → c.reading ≡ false
    → c.writing ≡ false
    → let after = run out_buf st (deregister id ∷ emit_disconnected id false ∷ []) in
      (after.conns ≡ remove_id id from.conns)
      × (after.events ≡ peer_disconnected was.device_id e ∷ from.events)
unfolding run step
leave out_buf id e from was c st h read written =
    let gone : Conn = record c { supervisor = deregistered } in
    rw
      (
        at_found id st (on_deregister id) c h.there,
        deregister_lem id c st h.staged h.supervised read written,
        at_found id (removed id c st) (on_emit_disconnected id false) gone (find-removed id c st),
        ← h.table,
        ← h.log,
        ← h.device,
      )
      (report_lem id e c st h.caused)

-- A connection that was closed, whose supervisor waits, is wound down in five steps of its own
-- goroutines, whatever it was about: it is out of the table, and the last event tells the engine
-- that its device is disconnected, with the cause of the close.
pub run-wind_down :
    (out_buf id : ℕ) (e : Option Error) (c : Conn) (st : State)
    → find id st.heap ≡ some c
    → c.closed ≡ some e
    → is_supervised c.stage ≡ true
    → c.supervisor ≡ waiting
    → ((run out_buf st (wind_down id)).conns ≡ remove_id id st.conns)
      × ((run out_buf st (wind_down id)).events ≡ peer_disconnected c.device_id e ∷ st.events)
unfolding run step
run-wind_down out_buf id e c st found closed staged waits =
    let start : IsFalling id e st c st c = record {
      there = found;
      caused = closed;
      device = refl;
      staged = staged;
      supervised = waits;
      table = refl;
      log = refl;
    } in
    let (c₁, h₁, free) = give_up id e st c c st start in
    let st₁ : State = on_deliver id true c st in
    let (read, r) = read_closed e c₁ h₁.caused free in
    let c₂ : Conn = read_one (err Protocol.eof) c₁ in
    let st₂ : State = put id c₂ st₁ in
    let h₂ = alike-IsFalling id e st c c₁ c₂ st₁ h₁ read in
    let (noticed, r', w) = notice_closed e st₂.cancelled c₂ h₂.caused r in
    let c₃ : Conn = notice st₂.cancelled c₂ in
    let st₃ : State = put id c₃ st₂ in
    let h₃ = alike-IsFalling id e st c c₂ c₃ st₂ h₂ noticed in
    rw
      (
        at_found id st (on_deliver id true) c found,
        at_found id st₁ (λ c s. put id (read_one (err Protocol.eof) c) s) c₁ h₁.there,
        at_found id st₂ (λ c s. put id (notice s.cancelled c) s) c₂ h₂.there,
      )
      (leave out_buf id e st c c₃ st₃ h₃ r' w)
