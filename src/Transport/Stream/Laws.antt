-- ===== src/Transport/Stream/Laws.antt =====
-- What is sent arrives, and a reader comes to its end.
use merkle_lan_sync.Base.{
  ℕ, zero, suc, ◌<◌, ◌≡◌, refl, arith, List, [], ◌∷◌, ◌++◌, ok, err, All, length, Result-cases, inl,
  inr,
}
use merkle_lan_sync.Protocol.Errors as Protocol
use merkle_lan_sync.Protocol.Framing.{read_frame, read_full}
use merkle_lan_sync.Protocol.Messages.{
  Message, hello, index, index_update, request, response, ping, close, msg_type, IsTyped, dispatch,
  recv_action,
}
use merkle_lan_sync.Protocol.Messages.Codec.{write_message}
use merkle_lan_sync.Protocol.Messages.Framed.{read_frame-write_message}
use merkle_lan_sync.Transport.Stream.{
  write_all, ended, read_stop, dispatched, acted, round, read_loop,
}

recv_action-msg_type : (m : Message) → recv_action (msg_type m) ≡ dispatch
unfolding recv_action
recv_action-msg_type (hello h) = refl
recv_action-msg_type (index i) = refl
recv_action-msg_type (index_update i) = refl
recv_action-msg_type (request r) = refl
recv_action-msg_type (response r) = refl
recv_action-msg_type ping = refl
recv_action-msg_type (close r) = refl

write_all_parts :
    (m : Message) (ms : List Message) (bytes : List ℕ)
    → write_all (m ∷ ms) ≡ ok bytes
    → (first rest : List ℕ) × (write_message m ≡ ok first)
      × (write_all ms ≡ ok rest)
      × (first ++ rest ≡ bytes)
unfolding write_all
write_all_parts m ms bytes e = elim (Result-cases (write_message m)) [
  | inl (first, wrote) ↦ elim (Result-cases (write_all ms)) [
    | inl (rest, later) ↦ (first, rest, wrote, later, ground (arith, wrote, later))
    | inr (x, failed) ↦ absurd (ground (arith, wrote, failed))
  ]
  | inr (x, failed) ↦ absurd (ground (arith, failed))
]

read_frame_nil : read_frame [] ≡ (err Protocol.eof, [])
unfolding read_frame read_full
read_frame_nil = refl

-- What a peer sends is what arrives: of the bytes that the writer puts on the wire for messages
-- whose fields are in their Go ranges, the reader delivers those messages, all of them and in their
-- order, and then meets the end of the stream. One round more than there are messages is enough.
pub read_loop-write_all :
    (ms : List Message) (bytes : List ℕ) (fuel : ℕ)
    → All IsTyped ms
    → write_all ms ≡ ok bytes
    → length ms < fuel
    → read_loop fuel bytes ≡ (ms, ended)
unfolding read_loop round read_stop
read_loop-write_all ms bytes zero typed e enough = absurd (omega arith)
read_loop-write_all [] bytes (suc fuel) typed e enough =
    let none_sent : bytes ≡ [] = unfold write_all in ground arith in
    rw (none_sent, read_frame_nil) refl
read_loop-write_all (m ∷ ms) bytes (suc fuel) typed e enough =
    let (first, rest, wrote, later, parts) = write_all_parts m ms bytes e in
    let (payload, framed, back) = read_frame-write_message m first rest typed.0 wrote in
    rw
      (
        ← parts,
        framed,
        recv_action-msg_type m,
        back,
        read_loop-write_all ms rest fuel typed.1 later (omega arith),
      )
      (unfold acted dispatched in refl)
