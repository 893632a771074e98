-- ===== src/Protocol/Messages/Errors.antt =====
-- The errors that decoding a payload can end in, and the policy for a type byte.
use merkle_lan_sync.Base.{
  ℕ, ◌≡◌, ◌≢◌, ◌⊎◌, arith, List, none, some, ok, err, inl, inr, ap, ◌∙◌, Result-cases,
}
use merkle_lan_sync.Protocol.Errors.{Error, short_payload, unknown_msg_type}
use merkle_lan_sync.Protocol.Messages.{Index, index, index_update, Message, recv_action, dispatch}
use merkle_lan_sync.Protocol.Messages.Buffers.{
  DecBuf, Decoder, ◌>>=◌, pure, dec_uint, dec_raw, dec_array32, dec_len_prefixed, dec_rest,
}
use merkle_lan_sync.Protocol.Messages.Codec.{
  run, decode_message, decode_hello, decode_index_body, decode_request, decode_response,
  decode_close,
}

-- The buffer has met no error but a payload that is too short.
abbrev IsSound : DecBuf → Type 0
IsSound d = (x : Error) → d.failure ≡ some x → x ≡ short_payload

record Keeps {A : Type 0} (m : Decoder A) : Type 0 where
  on : (d : DecBuf) → IsSound d → IsSound (m d).1

dec_uint-IsSound : (w : ℕ) (d : DecBuf) → IsSound d → IsSound (dec_uint w d).1
unfolding dec_uint
dec_uint-IsSound w d h x = ground (arith, h x)

dec_uint-Keeps : (w : ℕ) → Keeps (dec_uint w)
dec_uint-Keeps w = record { on = dec_uint-IsSound w }

dec_raw-IsSound : (n : ℕ) (d : DecBuf) → IsSound d → IsSound (dec_raw n d).1
unfolding dec_raw
dec_raw-IsSound n d h x = ground (arith, h x)

dec_raw-Keeps : (n : ℕ) → Keeps (dec_raw n)
dec_raw-Keeps n = record { on = dec_raw-IsSound n }

dec_rest-IsSound : (d : DecBuf) → IsSound d → IsSound (dec_rest d).1
unfolding dec_rest
dec_rest-IsSound d h x = ground (arith, h x)

dec_rest-Keeps : Keeps dec_rest
dec_rest-Keeps = record { on = dec_rest-IsSound }

pure-Keeps : {A : Type 0} (a : A) → Keeps (pure a)
unfolding pure
pure-Keeps a = record { on = λ d h. h }

bind-Keeps :
    {A B : Type 0} (m : Decoder A) (f : A → Decoder B)
    → Keeps m
    → ((a : A) → Keeps (f a))
    → Keeps (m >>= f)
unfolding ◌>>=◌
bind-Keeps m f first second = record { on = λ d h. (second (m d).0).on (m d).1 (first.on d h) }

dec_array32-Keeps : Keeps dec_array32
unfolding dec_array32
dec_array32-Keeps = bind-Keeps _ _ (dec_raw-Keeps 32) (λ a. pure-Keeps _)

dec_len_prefixed-Keeps : Keeps dec_len_prefixed
unfolding dec_len_prefixed
dec_len_prefixed-Keeps = bind-Keeps _ _ (dec_uint-Keeps 2) (λ n. dec_raw-Keeps n)

ruleset keeping = (
  bind-Keeps, dec_uint-Keeps, dec_raw-Keeps, dec_rest-Keeps, pure-Keeps, dec_array32-Keeps,
  dec_len_prefixed-Keeps,
)

decode_hello-Keeps : Keeps decode_hello
unfolding decode_hello
decode_hello-Keeps = search keeping depth 12

decode_index_body-Keeps : Keeps decode_index_body
unfolding decode_index_body
decode_index_body-Keeps = search keeping depth 12

decode_request-Keeps : Keeps decode_request
unfolding decode_request
decode_request-Keeps = search keeping depth 12

decode_response-Keeps : Keeps decode_response
unfolding decode_response
decode_response-Keeps = search keeping depth 12

decode_close-Keeps : Keeps decode_close
unfolding decode_close
decode_close-Keeps = search keeping depth 12

run_sound :
    {A : Type 0} (m : Decoder A) (payload : List ℕ) (x : Error)
    → Keeps m
    → run m payload ≡ err x
    → x ≡ short_payload
unfolding run
run_sound m payload x k e =
    ground (arith, k.on (record { payload = payload; off = 0; failure = none }) (λ y h. cc) x)

wrapped : (f : Index → Message) → Keeps (decode_index_body >>= λ m. pure (f m))
wrapped f = bind-Keeps _ _ decode_index_body-Keeps (λ m. pure-Keeps (f m))

error_kinds :
    (t : ℕ) (payload : List ℕ) (x : Error)
    → decode_message t payload ≡ err x
    → ((x ≡ short_payload) × (recv_action t ≡ dispatch))
      ⊎ ((x ≡ unknown_msg_type) × (recv_action t ≢ dispatch))
unfolding decode_message recv_action
error_kinds t payload x e = ground (
  arith,
  run_sound decode_hello payload x decode_hello-Keeps,
  run_sound (decode_index_body >>= λ m. pure (index m)) payload x (wrapped index),
  run_sound (decode_index_body >>= λ m. pure (index_update m)) payload x (wrapped index_update),
  run_sound decode_request payload x decode_request-Keeps,
  run_sound decode_response payload x decode_response-Keeps,
  run_sound decode_close payload x decode_close-Keeps,
)

undispatched :
    (t : ℕ) (payload : List ℕ)
    → recv_action t ≢ dispatch
    → decode_message t payload ≡ err unknown_msg_type
unfolding decode_message recv_action
undispatched t payload h = ground (arith, h)

dispatch-cases : (t : ℕ) → (recv_action t ≡ dispatch) ⊎ (recv_action t ≢ dispatch)
unfolding recv_action
dispatch-cases t = ground arith

-- Decoding a frame of any type and any payload: where `RecvAction` dispatches the type it ends in a
-- message or in `short_payload`, and for every other type it ends in `unknown_msg_type`.
pub decode_message_errors :
    (t : ℕ) (payload : List ℕ)
    → ((recv_action t ≡ dispatch)
        × (((m : Message) × (decode_message t payload ≡ ok m))
            ⊎ (decode_message t payload ≡ err short_payload)))
      ⊎ ((recv_action t ≢ dispatch) × (decode_message t payload ≡ err unknown_msg_type))
decode_message_errors t payload = elim (dispatch-cases t) [
  | inr skipped ↦ inr (skipped, undispatched t payload skipped)
  | inl known ↦ elim (Result-cases (decode_message t payload)) [
    | inl (m, decoded) ↦ inl (known, inl (m, decoded))
    | inr (x, failed) ↦ elim (error_kinds t payload x failed) [
      | inl (short, here) ↦ inl (known, inr (failed ∙ ap err short))
      | inr (unknown, other) ↦ absurd (other known)
    ]
  ]
]
