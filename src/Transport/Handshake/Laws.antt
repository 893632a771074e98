-- ===== src/Transport/Handshake/Laws.antt =====
-- What a finished handshake has shown of the peer, and that two honest ends finish it.
use merkle_lan_sync.Base.{
  ℕ, ◌≡◌, refl, ap, arith, true, false, List, [], ◌∷◌, ◌++◌, Result, ok, Result-cases, bind_ok,
  bytes_eq_iff, Option-cases,
}
use merkle_lan_sync.Protocol.Messages.{Hello, hello, IsTyped}
use merkle_lan_sync.Protocol.Messages.Codec.{write_message}
use merkle_lan_sync.Protocol.Messages.Framed.{read_frame-write_message}
use merkle_lan_sync.Protocol.DeviceId.{device_id_from_cert}
use merkle_lan_sync.Transport.Errors.{Error}
use merkle_lan_sync.Transport.Allowlist.{Allowlist, allowed, pin_verifier}
use merkle_lan_sync.Transport.Handshake.{
  Socket, Established, handshake, pinned_of, write_hello, as_hello, hello_of_frame, read_hello,
  same_device, establish,
}

ok_injective : (a b : Established) → ◌≡◌ {A = Result Error Established} (ok a) (ok b) → a ≡ b
ok_injective a b e = cc

read_of :
    (r : Result Error Hello × List ℕ) (h peer : Hello) → r.0 ≡ ok h → peer ≡ h → r ≡ (ok peer, r.1)
read_of r h peer heard same = ground arith

module _ (sha256 : List ℕ → List ℕ) where
  handshake_sound :
      (allow : Allowlist) (s : Socket) (certs : List (List ℕ)) (pinned : List ℕ)
      → handshake sha256 allow s ≡ ok certs
      → pinned_of sha256 certs ≡ ok pinned
      → (cert : List ℕ) × (more : List (List ℕ)) × (s.certs ≡ cert ∷ more)
        × (pinned ≡ sha256 cert)
        × (allowed pinned allow ≡ true)
  unfolding handshake pinned_of pin_verifier device_id_from_cert
  handshake_sound allow s [] pinned e p = cc
  handshake_sound allow s (cert ∷ more) pinned e p =
      ground (arith, Option-cases (pin_verifier sha256 allow s.certs))

  same_device_sound :
      (pinned : List ℕ) (h peer : Hello)
      → same_device pinned h ≡ ok peer
      → (peer ≡ h) × (peer.device_id ≡ pinned)
  unfolding same_device
  same_device_sound pinned h peer e = ground (arith, bytes_eq_iff h.device_id pinned)

  write_hello_sound :
      (own : List ℕ) (my_hello : Hello) (s : Socket) (sent : List ℕ)
      → write_hello own my_hello s ≡ ok sent
      → write_message (hello (record my_hello { device_id = own })) ≡ ok sent
  unfolding write_hello
  write_hello_sound own my_hello s sent e =
      ground (arith, Result-cases (write_message (hello (record my_hello { device_id = own }))))

  known :
      (allow : Allowlist) (own : List ℕ) (my_hello : Hello) (s : Socket) (est : Established)
      (certs : List (List ℕ)) (pinned sent : List ℕ) (h peer : Hello)
      → (cert : List ℕ) × (more : List (List ℕ)) × (s.certs ≡ cert ∷ more)
        × (pinned ≡ sha256 cert)
        × (allowed pinned allow ≡ true)
      → write_message (hello (record my_hello { device_id = own })) ≡ ok sent
      → (read_hello s.stream).0 ≡ ok h
      → (peer ≡ h) × (peer.device_id ≡ pinned)
      → ◌≡◌ {A = Result Error Established}
          (ok (record {
            device_id = pinned;
            peer_hello = peer;
            sent = sent;
            rest = (read_hello s.stream).1;
          }))
          (ok est)
      → (cert : List ℕ) × (more : List (List ℕ)) × (s.certs ≡ cert ∷ more)
        × (est.device_id ≡ sha256 cert)
        × (allowed est.device_id allow ≡ true)
        × (read_hello s.stream ≡ (ok est.peer_hello, est.rest))
        × (est.peer_hello.device_id ≡ est.device_id)
        × (write_message (hello (record my_hello { device_id = own })) ≡ ok est.sent)
  known allow own my_hello s est certs pinned sent h peer (cert, more, shown, hashed, on) wrote
        heard same e =
      rw (← ok_injective _ _ e) (
        cert,
        more,
        shown,
        hashed,
        on,
        read_of (read_hello s.stream) h peer heard same.0,
        same.1,
        wrote,
      )

  -- A handshake that is finished has shown a certificate whose hash is on the allow-list and is the
  -- identity of the connection; the first frame of the peer was a HELLO that names the same
  -- identity; and the own HELLO that was sent names this device, whatever the provider wrote there.
  pub establish_sound :
      (allow : Allowlist) (own : List ℕ) (my_hello : Hello) (s : Socket) (est : Established)
      → establish sha256 allow own my_hello s ≡ ok est
      → (cert : List ℕ) × (more : List (List ℕ)) × (s.certs ≡ cert ∷ more)
        × (est.device_id ≡ sha256 cert)
        × (allowed est.device_id allow ≡ true)
        × (read_hello s.stream ≡ (ok est.peer_hello, est.rest))
        × (est.peer_hello.device_id ≡ est.device_id)
        × (write_message (hello (record my_hello { device_id = own })) ≡ ok est.sent)
  unfolding establish
  establish_sound allow own my_hello s est e =
      let (certs, shaken, e₁) = bind_ok (handshake sha256 allow s) _ est e in
      let (pinned, found, e₂) = bind_ok (pinned_of sha256 certs) _ est e₁ in
      let (sent, wrote, e₃) = bind_ok (write_hello own my_hello s) _ est e₂ in
      let (h, heard, e₄) = bind_ok (read_hello s.stream).0 _ est e₃ in
      let (peer, matches, e₅) = bind_ok (same_device pinned h) _ est e₄ in
      known allow own my_hello s est certs pinned sent h peer
        (handshake_sound allow s certs pinned shaken found)
        (write_hello_sound own my_hello s sent wrote) heard
        (same_device_sound pinned h peer matches) e₅

read_hello-write_message :
    (h : Hello) (bytes rest : List ℕ)
    → IsTyped (hello h)
    → write_message (hello h) ≡ ok bytes
    → read_hello (bytes ++ rest) ≡ (ok h, rest)
unfolding read_hello hello_of_frame as_hello
read_hello-write_message h bytes rest typed e =
    let (payload, framed, back) = read_frame-write_message (hello h) bytes rest typed e in
    ground (arith, framed, back)

write_hello_lem :
    (own : List ℕ) (my_hello : Hello) (s : Socket) (sent : List ℕ)
    → s.takes ≡ true
    → write_message (hello (record my_hello { device_id = own })) ≡ ok sent
    → write_hello own my_hello s ≡ ok sent
unfolding write_hello
write_hello_lem own my_hello s sent takes e = ground (arith, e)

same_device_lem : (pinned : List ℕ) (h : Hello) → h.device_id ≡ pinned → same_device pinned h ≡ ok h
unfolding same_device
same_device_lem pinned h names = ground (arith, bytes_eq_iff h.device_id pinned)

module _ (sha256 : List ℕ → List ℕ) where
  handshake_lem :
      (allow : Allowlist) (s : Socket) (cert : List ℕ) (more : List (List ℕ))
      → s.fails ≡ false
      → s.certs ≡ cert ∷ more
      → allowed (sha256 cert) allow ≡ true
      → handshake sha256 allow s ≡ ok (cert ∷ more)
  unfolding handshake pin_verifier device_id_from_cert
  handshake_lem allow s cert more fine shown on = rw (fine, shown, on) (ap ok shown)

  -- The end of a socket that an honest paired device is on gets its connection: the peer shows a
  -- certificate whose hash is on the allow-list, takes the own HELLO, and sends its own, which names
  -- that hash. The peer's HELLO, the identity and the bytes behind the HELLO are those of the peer.
  -- Both HELLOs can be written, and the fields of the peer's are in their Go ranges.
  pub establish_complete :
      (allow : Allowlist) (own : List ℕ) (my_hello : Hello) (cert : List ℕ) (more : List (List ℕ))
      (peer_hello : Hello) (sent bytes rest : List ℕ)
      → allowed (sha256 cert) allow ≡ true
      → peer_hello.device_id ≡ sha256 cert
      → IsTyped (hello peer_hello)
      → write_message (hello peer_hello) ≡ ok bytes
      → write_message (hello (record my_hello { device_id = own })) ≡ ok sent
      → let s : Socket = record {
        fails = false;
        certs = cert ∷ more;
        takes = true;
        stream = bytes ++ rest;
      } in
        establish sha256 allow own my_hello s
        ≡ ok (record { device_id = sha256 cert; peer_hello = peer_hello; sent = sent; rest = rest })
  unfolding establish pinned_of device_id_from_cert
  establish_complete allow own my_hello cert more peer_hello sent bytes rest on names typed wrote
        said =
      let s : Socket = record {
        fails = false;
        certs = cert ∷ more;
        takes = true;
        stream = bytes ++ rest;
      } in
      rw
        (
          handshake_lem allow s cert more refl refl on,
          write_hello_lem own my_hello s sent refl said,
          read_hello-write_message peer_hello bytes rest typed wrote,
          same_device_lem (sha256 cert) peer_hello names,
        )
        refl
