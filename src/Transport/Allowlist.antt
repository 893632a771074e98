-- ===== src/Transport/Allowlist.antt =====
-- internal/transport/tls.go: the devices that this one talks to, and the check of a certificate.
-- SHA-256 is a parameter.
pub mod Laws
use merkle_lan_sync.Base.{
  Bool, true, false, Option, none, some, List, [], ◌∷◌, ℕ, Dict, find, store, erase, bytes_key,
  if◌then◌else◌,
}
use merkle_lan_sync.Protocol.DeviceId.{device_id_from_cert}
use merkle_lan_sync.Transport.Errors.{Error, untrusted_device, no_peer_cert}

-- A `map[DeviceID]struct{}`.
abbrev pub Allowlist : Type 0
Allowlist = Dict (List ℕ) (Unit {0})

unfoldable pub add : List ℕ → Allowlist → Allowlist
add id a = store id tt a

unfoldable pub add_all : List (List ℕ) → Allowlist → Allowlist
add_all [] a = a
add_all (id ∷ ids) a = add_all ids (add id a)

unfoldable pub new_allowlist : List (List ℕ) → Allowlist
new_allowlist ids = add_all ids []

unfoldable pub remove : List ℕ → Allowlist → Allowlist
remove id a = erase id a

unfoldable pub allowed : List ℕ → Allowlist → Bool
allowed id a = elim (find id a) [ none ↦ false | some _ ↦ true ]

-- The callback of `pinVerifier` on the certificates that the peer showed: the error that aborts the
-- handshake, if it does.
unfoldable pub pin_verifier : (List ℕ → List ℕ) → Allowlist → List (List ℕ) → Option Error
pin_verifier sha256 a [] = some no_peer_cert
pin_verifier sha256 a (cert ∷ certs) =
    if allowed (device_id_from_cert sha256 cert) a then none else some untrusted_device
