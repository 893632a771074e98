-- ===== src/Protocol/Messages/RoundTrip.antt =====
-- `DecodeMessage` reads back what `EncodeMessage` writes, and answers every type byte.
use merkle_lan_sync.Base.{
  ℕ, ◌≤◌, ◌<◌, ◌^◌, ◌≡◌, refl, ap, sym, ◌∙◌, arith, List, [], ◌++◌, append-nil, false, none, some,
  ok, ◌==◌, length, Option-cases, inl, inr,
}
use merkle_lan_sync.Bytes.{put_be}
use merkle_lan_sync.Protocol.Errors.{Error}
use merkle_lan_sync.Protocol.Messages.{
  Hello, Index, Request, Response, Message, hello, index, index_update, request, response, ping,
  close, msg_type, IsTyped,
}
use merkle_lan_sync.Protocol.Messages.Codec.{
  encode_message, run, decode_message, decode_hello, decode_index_body, decode_request,
  decode_response, decode_close,
}
use merkle_lan_sync.Protocol.Messages.Layout.{layout, obstacle, unless_refused, encode_message_lem}
use merkle_lan_sync.Protocol.Messages.Reads.{
  Reads, ReadsAll, prefixed, dec_uint-Reads, bind-Reads, map-Reads, dec_array32-Reads,
  dec_len_prefixed-Reads, dec_rest-ReadsAll, bind-ReadsAll, map-ReadsAll, run-Reads, run-ReadsAll,
}

decode_hello-Reads :
    (h : Hello)
    → IsTyped (hello h)
    → length h.folder_id ≤ 0xFFFF
    → Reads decode_hello (layout (hello h)) (hello h)
unfolding decode_hello
decode_hello-Reads h (version, device, root, flags) short =
    bind-Reads _ (dec_uint-Reads 2 h.proto_version version) (
      bind-Reads _ (dec_array32-Reads h.device_id device) (
        bind-Reads _ (dec_len_prefixed-Reads h.folder_id short) (
          bind-Reads _ (dec_array32-Reads h.root_hash root)
            (map-Reads _ (dec_uint-Reads 4 h.feature_flags flags)))))

decode_index_body-ReadsAll :
    (m : Index)
    → m.count < 2 ^ 32
    → length m.folder_id ≤ 0xFFFF
    → ReadsAll decode_index_body (prefixed m.folder_id ++ (put_be 4 m.count ++ m.body)) m
unfolding decode_index_body
decode_index_body-ReadsAll m count short =
    bind-ReadsAll _ (dec_len_prefixed-Reads m.folder_id short)
      (bind-ReadsAll _ (dec_uint-Reads 4 m.count count) (dec_rest-ReadsAll _ m.body))

decode_request-Reads :
    (r : Request)
    → IsTyped (request r)
    → length r.path ≤ 0xFFFF
    → Reads decode_request (layout (request r)) (request r)
unfolding decode_request
decode_request-Reads r (req_id, hash, offset, len) short =
    bind-Reads _ (dec_uint-Reads 4 r.req_id req_id) (
      bind-Reads _ (dec_len_prefixed-Reads r.path short) (
        bind-Reads _ (dec_array32-Reads r.content_hash hash) (
          bind-Reads _ (dec_uint-Reads 8 r.offset offset)
            (map-Reads _ (dec_uint-Reads 4 r.len len)))))

decode_response-ReadsAll :
    (r : Response)
    → IsTyped (response r)
    → ReadsAll decode_response (layout (response r)) (response r)
unfolding decode_response
decode_response-ReadsAll r (req_id, code) =
    bind-ReadsAll _ (dec_uint-Reads 4 r.req_id req_id)
      (bind-ReadsAll _ (dec_uint-Reads 1 r.code code) (dec_rest-ReadsAll _ r.chunk))

decode_close-Reads :
    (reason : List ℕ) → length reason ≤ 0xFFFF → Reads decode_close (prefixed reason) (close reason)
unfolding decode_close
decode_close-Reads reason short = map-Reads close (dec_len_prefixed-Reads reason short)

prefixed-ne-nil : (s : List ℕ) → (length (prefixed s) == 0) ≡ false
unfolding put_be
prefixed-ne-nil s = ground arith

-- The decoder of a message's own type, over its layout.
decode_message-layout :
    (m : Message) → IsTyped m → obstacle m ≡ none → decode_message (msg_type m) (layout m) ≡ ok m
unfolding decode_message
decode_message-layout (hello h) typed fine =
    ap (run decode_hello) (sym (append-nil _))
    ∙ run-Reads decode_hello _ [] _ (decode_hello-Reads h typed (ground arith))
decode_message-layout (index m) typed fine =
    run-ReadsAll _ _ _ (map-ReadsAll _ (decode_index_body-ReadsAll m typed (ground arith)))
decode_message-layout (index_update m) typed fine =
    run-ReadsAll _ _ _ (map-ReadsAll _ (decode_index_body-ReadsAll m typed (ground arith)))
decode_message-layout (request r) typed fine =
    ap (run decode_request) (sym (append-nil _))
    ∙ run-Reads decode_request _ [] _ (decode_request-Reads r typed (ground arith))
decode_message-layout (response r) typed fine =
    run-ReadsAll _ _ _ (decode_response-ReadsAll r typed)
decode_message-layout ping typed fine = refl
decode_message-layout (close reason) typed fine = rw (prefixed-ne-nil reason) (
    ap (run decode_close) (sym (append-nil _))
    ∙ run-Reads decode_close _ [] _ (decode_close-Reads reason (ground arith)))

-- A message whose fields are in their Go ranges, and that `EncodeMessage` accepts, comes back
-- whole from `DecodeMessage` under its own type byte.
pub decode_message-encode_message :
    (m : Message) (payload : List ℕ)
    → IsTyped m
    → encode_message m ≡ ok payload
    → decode_message (msg_type m) payload ≡ ok m
decode_message-encode_message m payload typed e = elim (Option-cases (obstacle m)) [
  | inl fine ↦
      let same : layout m ≡ payload = accepted_lem fine in
      rw (← same) (decode_message-layout m typed fine)
  | inr (x, refused) ↦ absurd (refused_lem x refused)
]
  where
    whole : unless_refused (obstacle m) (layout m) ≡ ok payload
    whole = sym (encode_message_lem m) ∙ e

    accepted_lem : obstacle m ≡ none → layout m ≡ payload
    accepted_lem fine = ground (arith, rw fine at whole)

    refused_lem : (x : Error) → obstacle m ≡ some x → ⊥
    refused_lem x refused = ground (arith, rw refused at whole)
