-- ===== src/Transport/Stream/Ends.antt =====
-- The reader comes to its end on any bytes.
use merkle_lan_sync.Base.{
  ℕ, zero, suc, ◌+◌, ◌<◌, ◌≤◌, ◌≡◌, ◌≢◌, sym, ap, ◌∙◌, arith, List, [], ◌∷◌, ◌++◌, Result, ok, err,
  All, length, length-append, Result-cases, inl, inr,
}
use merkle_lan_sync.Bytes.{IsByte, put_be}
use merkle_lan_sync.Bytes.Laws.{length-put_be}
use merkle_lan_sync.Protocol.Errors as Protocol
use merkle_lan_sync.Protocol.Framing.{read_frame, write_frame}
use merkle_lan_sync.Protocol.Framing.Laws.{read_frame_sound}
use merkle_lan_sync.Protocol.Messages.{Message, RecvAction, fatal, skip, dispatch, recv_action}
use merkle_lan_sync.Protocol.Messages.Codec.{decode_message}
use merkle_lan_sync.Transport.Stream.{
  Stop, out_of_fuel, read_stop, dispatched, acted, round, read_loop,
}

All-rest : (xs ys : List ℕ) → All IsByte (xs ++ ys) → All IsByte ys
All-rest [] ys h = h
All-rest (x ∷ xs) ys h = All-rest xs ys h.1

length-write_frame_pos :
    (t : ℕ) (payload buf : List ℕ) → write_frame t payload ≡ ok buf → 4 ≤ length buf
unfolding write_frame
length-write_frame_pos t payload buf e =
    let parts = length-append {0} (put_be 4 (1 + length payload)) (t ∷ payload) in
    ground (arith, parts, length-put_be 4 (1 + length payload))

read_stop_ends : (e : Protocol.Error) → read_stop e ≢ out_of_fuel
unfolding read_stop
read_stop_ends e h = ground arith

acted_ends :
    (a : RecvAction) (r : Result Protocol.Error Message) (later : List Message × Stop)
    → later.1 ≢ out_of_fuel
    → (acted a r later).1 ≢ out_of_fuel
unfolding acted dispatched
acted_ends fatal r later h e = cc
acted_ends skip r later h e = h e
acted_ends dispatch (err x) later h e = cc
acted_ends dispatch (ok m) later h e = h e

-- A reader of a stream of bytes always stops, at its end or by dropping the peer, whatever was sent:
-- as many rounds as the stream has bytes, and one more, are enough.
pub read_loop_ends :
    (r : List ℕ) (fuel : ℕ) → All IsByte r → length r < fuel → (read_loop fuel r).1 ≢ out_of_fuel
unfolding read_loop round
read_loop_ends r zero bytes enough = absurd (omega arith)
read_loop_ends r (suc fuel) bytes enough = elim (Result-cases (read_frame r).0) [
  | inr (e, failed) ↦ rw failed (read_stop_ends e)
  | inl ((typ, payload), framed) ↦
      let r' : List ℕ = (read_frame r).1 in
      let (small, buf, wrote, parts) =
        read_frame_sound r typ payload r' bytes (ground (arith, framed)) in
      let long = length-write_frame_pos typ payload buf wrote in
      let size : length buf + length r' ≡ length r =
        sym (length-append {0} buf r') ∙ ap length parts in
      rw framed (
        acted_ends (recv_action typ) (decode_message typ payload) (read_loop fuel r')
          (read_loop_ends r' fuel (All-rest buf r' (rw parts bytes)) (omega arith)))
]
