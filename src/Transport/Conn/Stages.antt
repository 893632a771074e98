-- ===== src/Transport/Conn/Stages.antt =====
-- What the operations on one connection leave as it is: its stage, and the cause of a close.
use merkle_lan_sync.Base.{
  ℕ, ◌≡◌, refl, arith, Bool, Option, none, some, Result, ok, err, List, [], ◌∷◌, true, false, not,
  ◌||◌, if◌then◌else◌,
}
use merkle_lan_sync.Protocol.Errors as Protocol
use merkle_lan_sync.Protocol.Messages.{Message, RecvAction, fatal, skip, dispatch, recv_action}
use merkle_lan_sync.Protocol.Messages.Codec.{decode_message}
use merkle_lan_sync.Transport.Errors.{Error, write_failed}
use merkle_lan_sync.Transport.Conn.{
  Conn, close_with, send, stop_reading, stop_writing, read_failed, on_dispatch, on_action, on_frame,
  is_closed, is_free, read_one, write_one, notice,
}

-- The stage is the same, and a cause of a close that was there still is.
pub record IsLater (c c' : Conn) : Type 0 where
  pub stage_kept : c'.stage ≡ c.stage
  pub cause_kept : (cause : Option Error) → c.closed ≡ some cause → c'.closed ≡ some cause

pub IsLater-self : (c : Conn) → IsLater c c
IsLater-self c = record { stage_kept = refl; cause_kept = λ cause h. h }

pub IsLater-trans : (a b c : Conn) → IsLater a b → IsLater b c → IsLater a c
IsLater-trans a b c h k = record {
  stage_kept = ground (arith, h.stage_kept, k.stage_kept);
  cause_kept = λ cause e. k.cause_kept cause (h.cause_kept cause e);
}

pub close_with-IsLater : (cause : Option Error) (c : Conn) → IsLater c (close_with cause c)
unfolding close_with
close_with-IsLater cause c = record {
  stage_kept = ground arith;
  cause_kept = λ first h. ground arith;
}

pub stop_reading-IsLater : (c : Conn) → IsLater c (stop_reading c)
unfolding stop_reading
stop_reading-IsLater c =
    let h = close_with-IsLater none c in
    record { stage_kept = h.stage_kept; cause_kept = h.cause_kept }

pub stop_writing-IsLater : (c : Conn) → IsLater c (stop_writing c)
unfolding stop_writing
stop_writing-IsLater c =
    let h = close_with-IsLater none c in
    record { stage_kept = h.stage_kept; cause_kept = h.cause_kept }

pub send-IsLater :
    (depth : ℕ) (lost : Bool) (m : Message) (c : Conn) → IsLater c (send depth lost m c).0
unfolding send close_with
send-IsLater depth lost m c = record {
  stage_kept = ground arith;
  cause_kept = λ cause h. ground arith;
}

close_and_stop : (e : Error) (c : Conn) → IsLater c (stop_reading (close_with (some e) c))
close_and_stop e c =
    IsLater-trans c (close_with (some e) c) (stop_reading (close_with (some e) c))
      (close_with-IsLater (some e) c) (stop_reading-IsLater (close_with (some e) c))

read_failed-IsLater : (e : Protocol.Error) (c : Conn) → IsLater c (read_failed e c)
unfolding read_failed
read_failed-IsLater Protocol.eof c = stop_reading-IsLater c
read_failed-IsLater Protocol.frame_too_large c = close_and_stop _ c
read_failed-IsLater Protocol.zero_length c = close_and_stop _ c
read_failed-IsLater Protocol.chunk_too_large c = close_and_stop _ c
read_failed-IsLater Protocol.unknown_msg_type c = close_and_stop _ c
read_failed-IsLater Protocol.short_payload c = close_and_stop _ c
read_failed-IsLater Protocol.string_too_long c = close_and_stop _ c
read_failed-IsLater Protocol.malformed_version_vector c = close_and_stop _ c
read_failed-IsLater Protocol.invalid_device_id c = close_and_stop _ c
read_failed-IsLater Protocol.unexpected_eof c = close_and_stop _ c

on_dispatch-IsLater : (r : Result Protocol.Error Message) (c : Conn) → IsLater c (on_dispatch r c)
unfolding on_dispatch
on_dispatch-IsLater (err e) c = close_and_stop _ c
on_dispatch-IsLater (ok m) c = record { stage_kept = refl; cause_kept = λ cause h. h }

on_action-IsLater :
    (a : RecvAction) (r : Result Protocol.Error Message) (c : Conn) → IsLater c (on_action a r c)
unfolding on_action
on_action-IsLater fatal r c = close_and_stop _ c
on_action-IsLater skip r c = IsLater-self c
on_action-IsLater dispatch r c = on_dispatch-IsLater r c

pub on_frame-IsLater :
    (f : Result Protocol.Error (ℕ × List ℕ)) (c : Conn) → IsLater c (on_frame f c)
unfolding on_frame
on_frame-IsLater (err e) c = read_failed-IsLater e c
on_frame-IsLater (ok (typ, payload)) c =
    on_action-IsLater (recv_action typ) (decode_message typ payload) c

either-IsLater :
    (b : Bool) (c x y : Conn) → IsLater c x → IsLater c y → IsLater c (if b then x else y)
either-IsLater true c x y h k = h
either-IsLater false c x y h k = k

pub read_one-IsLater :
    (f : Result Protocol.Error (ℕ × List ℕ)) (c : Conn) → IsLater c (read_one f c)
unfolding read_one
read_one-IsLater f c =
    either-IsLater (is_free c) c (on_frame f c) c (on_frame-IsLater f c) (IsLater-self c)

sent-IsLater : (rest : List Message) (c : Conn) → IsLater c (record c { outbound = rest })
sent-IsLater rest c = record { stage_kept = refl; cause_kept = λ cause h. h }

pub write_one-IsLater :
    (taken : Bool) (out : List Message) (c : Conn) → IsLater c (write_one taken out c)
unfolding write_one
write_one-IsLater taken [] c = IsLater-self c
write_one-IsLater taken (m ∷ rest) c =
    let sent : Conn = record c { outbound = rest } in
    let closed : Conn = close_with (some write_failed) sent in
    let failed = IsLater-trans c sent (stop_writing closed) (sent-IsLater rest c) (
      IsLater-trans sent closed (stop_writing closed) (close_with-IsLater (some write_failed) sent)
        (stop_writing-IsLater closed)) in
    either-IsLater (not c.writing) c c _ (IsLater-self c)
      (either-IsLater taken c sent (stop_writing closed) (sent-IsLater rest c) failed)

pub notice-IsLater : (cancelled : Bool) (c : Conn) → IsLater c (notice cancelled c)
unfolding notice
notice-IsLater cancelled c =
    either-IsLater (is_closed c || cancelled) c (stop_writing c) c (stop_writing-IsLater c)
      (IsLater-self c)
