-- ===== src/Transport/Stream.antt =====
-- The two loops of internal/transport/conn.go over a whole stream: what `writeLoop` writes of the
-- messages that were sent, and what `readLoop` delivers of the bytes that arrive.
pub mod Laws
pub mod Ends
use merkle_lan_sync.Base.{ℕ, zero, suc, List, [], ◌∷◌, ◌++◌, Result, ok, err, ◌>>=◌}
use merkle_lan_sync.Protocol.Errors as Protocol
use merkle_lan_sync.Protocol.Framing.{read_frame}
use merkle_lan_sync.Protocol.Messages.{Message, RecvAction, fatal, dispatch, skip, recv_action}
use merkle_lan_sync.Protocol.Messages.Codec.{decode_message, write_message}
use merkle_lan_sync.Transport.Errors.{Error, fatal_frame, protocol}

-- The bytes that the writer puts on the wire, or the error that ends it.
unfoldable pub write_all : List Message → Result Protocol.Error (List ℕ)
write_all [] = ok []
write_all (m ∷ ms) = do bytes ← write_message m; rest ← write_all ms; ok (bytes ++ rest)

-- How a reader ends: at the end of the stream, or by dropping the peer.
pub data Stop : Type 0 where
  ended out_of_fuel : Stop
  dropped : Error → Stop

unfoldable pub read_stop : Protocol.Error → Stop
read_stop Protocol.eof = ended
read_stop e = dropped (protocol e)

unfoldable pub dispatched :
    Result Protocol.Error Message → List Message × Stop → List Message × Stop
dispatched (err e) later = ([], dropped (protocol e))
dispatched (ok m) (ms, stop) = (m ∷ ms, stop)

unfoldable pub acted :
    RecvAction → Result Protocol.Error Message → List Message × Stop → List Message × Stop
acted fatal r later = ([], dropped fatal_frame)
acted skip r later = later
acted dispatch r later = dispatched r later

-- One round, before what the rounds behind it deliver.
unfoldable pub round :
    Result Protocol.Error (ℕ × List ℕ) → List Message × Stop → List Message × Stop
round (err e) later = ([], read_stop e)
round (ok (typ, payload)) later = acted (recv_action typ) (decode_message typ payload) later

-- The messages that are delivered of a stream, in their order, and how the reader ends.
unfoldable pub read_loop : ℕ → List ℕ → List Message × Stop
read_loop zero r = ([], out_of_fuel)
read_loop (suc n) r = let (frame, r') = read_frame r in round frame (read_loop n r')
