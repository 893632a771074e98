-- ===== src/Protocol/Framing/Laws.antt =====
-- Frames written and read again, and what a reader accepts.
use merkle_lan_sync.Base.{
  ℕ, ◌+◌, ◌≤◌, ◌<◌, ◌≡◌, refl, ap, sym, ◌∙◌, arith, List, [], ◌∷◌, ◌++◌, append_assoc, ok, err,
  length, length-append, take, drop, take-append, drop-append, All, take-append-drop, length-take,
  le→leb,
}
use merkle_lan_sync.Bytes.{IsByte, put_be, get_be}
use merkle_lan_sync.Bytes.Laws.{length-put_be, get_be-put_be, get_be-take}
use mathlib.Core.Path.{ap₂}
use merkle_lan_sync.Protocol.Errors.{frame_too_large}
use merkle_lan_sync.Protocol.Framing.{
  max_frame_len, read_full, split_body, read_body, read_frame, write_frame,
}

read_full_front :
    (front rest : List ℕ) (n : ℕ)
    → length front ≡ n
    → read_full n (front ++ rest) ≡ (ok front, rest)
unfolding read_full
read_full_front front rest n h =
    let enough : n ≤ length (front ++ rest) = rw length-append (omega arith) in
    rw (le→leb n _ enough, take-append front rest n h, drop-append front rest n h) refl

read_frame_of_parts :
    (r r' hdr body rest : List ℕ) (n : ℕ)
    → read_full 4 r ≡ (ok hdr, r')
    → get_be hdr ≡ n
    → 0 < n
    → n ≤ max_frame_len
    → read_full n r' ≡ (ok body, rest)
    → read_frame r ≡ (ok (split_body body), rest)
unfolding read_frame read_body
read_frame_of_parts r r' hdr body rest n e₁ e₂ pos le e₃ = ground arith

-- The two sizes of a frame.
write_frame_cases :
    (t : ℕ) (payload rest : List ℕ)
    → (1 + length payload ≤ max_frame_len
        → (buf : List ℕ) × (write_frame t payload ≡ ok buf)
          × (read_frame (buf ++ rest) ≡ (ok (t, payload), rest)))
      × (max_frame_len < 1 + length payload → write_frame t payload ≡ err frame_too_large)
unfolding write_frame
write_frame_cases t payload rest = (
  λ small. (
    put_be 4 (1 + length payload) ++ (t ∷ payload),
    ground arith,
    rw append_assoc (
        unfold split_body in
        read_frame_of_parts _ ((t ∷ payload) ++ rest) (put_be 4 (1 + length payload)) (t ∷ payload)
          rest (1 + length payload)
          (read_full_front (put_be 4 (1 + length payload)) ((t ∷ payload) ++ rest) 4
            (length-put_be 4 _))
          (get_be-put_be 4 (1 + length payload) (omega arith)) (omega arith) small
          (read_full_front (t ∷ payload) rest (1 + length payload) (omega arith))),
  ),
  λ large. ground arith,
)

-- What the reader has found when it accepts.
read_frame_inv :
    (r : List ℕ) (t : ℕ) (payload rest : List ℕ)
    → read_frame r ≡ (ok (t, payload), rest)
    → let n = get_be (take 4 r) in
      (4 ≤ length r)
      × (0 < n)
      × (n ≤ max_frame_len)
      × (n ≤ length (drop 4 r))
      × (split_body (take n (drop 4 r)) ≡ (t, payload))
      × (rest ≡ drop n (drop 4 r))
unfolding read_frame read_body read_full
read_frame_inv r t payload rest e = ground arith

split_body_sound :
    (b : List ℕ) (t : ℕ) (payload : List ℕ)
    → 0 < length b
    → split_body b ≡ (t, payload)
    → b ≡ t ∷ payload
unfolding split_body
split_body_sound [] t payload h e = absurd (omega arith)
split_body_sound (x ∷ xs) t payload h e = ground arith

-- Whatever bytes arrive, a frame that the reader accepts has at most `MaxFrameLen` bytes behind its
-- header, and what the reader took off the stream are exactly the bytes that a writer of that
-- frame sends.
pub read_frame_sound :
    (r : List ℕ) (t : ℕ) (payload rest : List ℕ)
    → All IsByte r
    → read_frame r ≡ (ok (t, payload), rest)
    → (1 + length payload ≤ max_frame_len)
      × (buf : List ℕ) × (write_frame t payload ≡ ok buf)
      × (buf ++ rest ≡ r)
unfolding write_frame
read_frame_sound r t payload rest hr e =
    let (header, pos, small, long, split, left) = read_frame_inv r t payload rest e in
    let n = get_be (take 4 r) in
    let body : take n (drop 4 r) ≡ t ∷ payload =
      split_body_sound (take n (drop 4 r)) t payload (rw length-take (omega arith)) split in
    let size : n ≡ 1 + length payload = omega (arith, length-take n (drop 4 r), ap length body) in
    let bytes : put_be 4 (1 + length payload) ≡ take 4 r =
      ap (put_be 4) (sym size) ∙ (get_be-take 4 r hr header).1 in
    (
      omega arith,
      put_be 4 (1 + length payload) ++ (t ∷ payload),
      ground arith,
      ap₂ (λ h b. (h ++ b) ++ rest) bytes (sym body)
          ∙ ap (λ l. (take 4 r ++ take n (drop 4 r)) ++ l) left
          ∙ append_assoc (take 4 r) (take n (drop 4 r)) (drop n (drop 4 r))
          ∙ ap (λ l. take 4 r ++ l) (take-append-drop n (drop 4 r))
          ∙ take-append-drop 4 r,
    )

-- A frame of the allowed size is written, and a reader gets back its type and its payload from
-- the front of the stream, with the stream behind the frame left.
pub read_frame-write_frame :
    (t : ℕ) (payload rest : List ℕ)
    → 1 + length payload ≤ max_frame_len
    → (buf : List ℕ) × (write_frame t payload ≡ ok buf)
      × (read_frame (buf ++ rest) ≡ (ok (t, payload), rest))
read_frame-write_frame t payload rest = (write_frame_cases t payload rest).0
