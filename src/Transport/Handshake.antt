-- ===== src/Transport/Handshake.antt =====
-- `establish` and `readHello` of internal/transport/transport.go: what a socket goes through before
-- it is a connection. SHA-256 is a parameter, and so is what crypto/tls and the peer do.
pub mod Laws
use merkle_lan_sync.Base.{
  ℕ, Bool, true, false, not, Option, none, some, List, [], ◌∷◌, Result, ok, err, if◌then◌else◌,
  ◌==◌, bytes_eq, ◌>>=◌,
}
use merkle_lan_sync.Protocol.Errors as Protocol
use merkle_lan_sync.Protocol.DeviceId.{device_id_from_cert}
use merkle_lan_sync.Protocol.Framing.{read_frame}
use merkle_lan_sync.Protocol.Messages.{
  Hello, Message, hello, index, index_update, request, response, ping, close,
}
use merkle_lan_sync.Protocol.Messages.Codec.{decode_message, write_message}
use merkle_lan_sync.Transport.Errors.{
  Error, no_peer_cert, hello_device_mismatch, hello_expected, tls_handshake, write_failed, protocol,
}
use merkle_lan_sync.Transport.Allowlist.{Allowlist, pin_verifier}

-- What the other end of a socket does: whether the handshake fails of itself, the certificates that
-- it shows, whether it takes the bytes of the own HELLO, and the bytes that it sends.
pub record Socket : Type 0 where
  pub fails : Bool
  pub certs : List (List ℕ)
  pub takes : Bool
  pub stream : List ℕ

-- `HandshakeContext`: crypto/tls calls the callback of the configuration in each handshake, and an
-- error of it is an error of the handshake.
unfoldable pub handshake : (List ℕ → List ℕ) → Allowlist → Socket → Result Error (List (List ℕ))
handshake sha256 allow s =
    if s.fails
    then err tls_handshake
    else elim (pin_verifier sha256 allow s.certs) [ none ↦ ok s.certs | some e ↦ err e ]

unfoldable pub pinned_of : (List ℕ → List ℕ) → List (List ℕ) → Result Error (List ℕ)
pinned_of sha256 [] = err no_peer_cert
pinned_of sha256 (cert ∷ certs) = ok (device_id_from_cert sha256 cert)

-- The writing of the own HELLO, which names this device whatever the provider says.
unfoldable pub write_hello : List ℕ → Hello → Socket → Result Error (List ℕ)
write_hello own my_hello s = elim (write_message (hello (record my_hello { device_id = own }))) [
  | err e ↦ err (protocol e)
  | ok bytes ↦ if s.takes then ok bytes else err write_failed
]

-- `msg.(protocol.Hello)`
unfoldable pub as_hello : Message → Result Error Hello
as_hello (hello h) = ok h
as_hello (index m) = err hello_expected
as_hello (index_update m) = err hello_expected
as_hello (request r) = err hello_expected
as_hello (response r) = err hello_expected
as_hello ping = err hello_expected
as_hello (close reason) = err hello_expected

unfoldable pub hello_of_frame : ℕ → List ℕ → Result Error Hello
hello_of_frame typ payload =
    if not (typ == 0x01)
    then err hello_expected
    else elim (decode_message typ payload) [ err e ↦ err (protocol e) | ok msg ↦ as_hello msg ]

-- The HELLO, and what is left of the stream.
unfoldable pub read_hello : List ℕ → Result Error Hello × List ℕ
read_hello r =
    let (frame, r') = read_frame r in
    (elim frame [ err e ↦ err (protocol e) | ok (typ, payload) ↦ hello_of_frame typ payload ], r')

-- What `establish` knows of the peer when it makes the connection.
pub record Established : Type 0 where
  pub device_id : List ℕ
  pub peer_hello : Hello
  pub sent : List ℕ
  pub rest : List ℕ

unfoldable pub same_device : List ℕ → Hello → Result Error Hello
same_device pinned h = if not (bytes_eq h.device_id pinned) then err hello_device_mismatch else ok h

-- `establish` up to `newConn`.
unfoldable pub establish :
    (List ℕ → List ℕ) → Allowlist → List ℕ → Hello → Socket → Result Error Established
establish sha256 allow own my_hello s = do
  certs ← handshake sha256 allow s
  pinned ← pinned_of sha256 certs
  sent ← write_hello own my_hello s
  h ← (read_hello s.stream).0
  peer_hello ← same_device pinned h
  ok (record {
    device_id = pinned;
    peer_hello = peer_hello;
    sent = sent;
    rest = (read_hello s.stream).1;
  })
