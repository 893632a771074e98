-- ===== src/Protocol/VersionVector/RoundTrip.antt =====
-- `DecodeVersionVector` reads back what `Encode` writes, and accepts nothing else.
use merkle_lan_sync.Base.{
  ℕ, zero, suc, ◌+◌, ◌*◌, ◌≤◌, ◌<◌, ◌^◌, ◌≡◌, refl, ap, sym, ◌∙◌, arith, List, [], ◌∷◌, ◌++◌,
  append_assoc, ok, length, length-append, take, drop, drop-append, All, inl, inr, ◌>>=◌, ◌⊎◌,
  take-add, drop-drop, All-drop, length-drop, Result-cases,
}
use merkle_lan_sync.Bytes.{IsByte, put_be, get_be}
use merkle_lan_sync.Bytes.Laws.{length-put_be, get_be-put_be, get_be-take, take-put_be, drop-put_be}
use mathlib.Core.Path.{ap₂}
use merkle_lan_sync.Protocol.VersionVector.{
  Counter, VersionVector, encode_counters, encode, decode_counters, decode,
}
use merkle_lan_sync.Protocol.VersionVector.Canonical.{IsAscending, IsCanonical}

abbrev pub IsWide : Counter → Type 0
IsWide c = (c.id < 2 ^ 64) × (c.value < 2 ^ 64)

-- Every ID and value is a uint64, and the count is a uint16.
abbrev pub Fits : VersionVector → Type 0
Fits vv = All IsWide vv × (length vv < 2 ^ 16)

length-encode_counters : (vv : VersionVector) → length (encode_counters vv) ≡ length vv * 16
unfolding encode_counters
length-encode_counters [] = refl
length-encode_counters (c ∷ cs) =
    rw (length-append, length-append, length-put_be, length-put_be)
      (omega (arith, length-encode_counters cs))

pub length-encode : (vv : VersionVector) → length (encode vv) ≡ 2 + length vv * 16
unfolding encode
length-encode vv = rw (length-append, length-put_be, length-encode_counters) refl

-- One round of the loop, at an ID and a value that pass the tests.
decode_counters_round :
    (n i prev id val : ℕ) (b more : List ℕ)
    → get_be (take 8 b) ≡ id
    → get_be (take 8 (drop 8 b)) ≡ val
    → drop 16 b ≡ more
    → 0 < val
    → (i ≡ 0) ⊎ (prev < id)
    → decode_counters (suc n) i prev b
      ≡ (decode_counters n (i + 1) id more >>= λ cs. ok (record { id = id; value = val } ∷ cs))
unfolding decode_counters
decode_counters_round n i prev id val b more e₁ e₂ e₃ pos up = rw (e₁, e₂, e₃) (ground arith)

-- A counter in front of what follows it.
abbrev counter_then : Counter → List ℕ → List ℕ
counter_then c more = put_be 8 c.id ++ (put_be 8 c.value ++ more)

encode_counters-cons :
    (c : Counter) (cs : VersionVector) (rest : List ℕ)
    → encode_counters (c ∷ cs) ++ rest ≡ counter_then c (encode_counters cs ++ rest)
unfolding encode_counters
encode_counters-cons c cs rest =
    append_assoc (put_be 8 c.id) (put_be 8 c.value ++ encode_counters cs) rest
    ∙ ap (λ b. put_be 8 c.id ++ b) (append_assoc (put_be 8 c.value) (encode_counters cs) rest)

drop-counter_then : (c : Counter) (more : List ℕ) → drop 16 (counter_then c more) ≡ more
drop-counter_then c more =
    ap (drop 16) (sym (append_assoc (put_be 8 c.id) (put_be 8 c.value) more))
    ∙ drop-append (put_be 8 c.id ++ put_be 8 c.value) more 16
        (length-append (put_be 8 c.id) (put_be 8 c.value) ∙ omega (arith, length-put_be))

decode_counters-counter_then :
    (n i prev : ℕ) (c : Counter) (more : List ℕ)
    → IsWide c
    → 0 < c.value
    → (i ≡ 0) ⊎ (prev < c.id)
    → decode_counters (suc n) i prev (counter_then c more)
      ≡ (decode_counters n (i + 1) c.id more >>= λ cs. ok (c ∷ cs))
decode_counters-counter_then n i prev c more w pos up =
    decode_counters_round n i prev c.id c.value (counter_then c more) more
      (ap get_be (take-put_be 8 c.id _) ∙ get_be-put_be 8 c.id w.0)
      (ap (λ b. get_be (take 8 b)) (drop-put_be 8 c.id _)
        ∙ ap get_be (take-put_be 8 c.value _)
        ∙ get_be-put_be 8 c.value w.1)
      (drop-counter_then c more) pos up

decode_counters-encode_counters :
    (vv : VersionVector) (i prev lo : ℕ) (rest : List ℕ)
    → IsAscending lo vv
    → (i ≡ 0) ⊎ (prev < lo)
    → All IsWide vv
    → decode_counters (length vv) i prev (encode_counters vv ++ rest) ≡ ok vv
decode_counters-encode_counters [] i prev lo rest h up w = unfold decode_counters in refl
decode_counters-encode_counters (c ∷ cs) i prev lo rest h up w =
    ap (decode_counters (suc (length cs)) i prev) (encode_counters-cons c cs rest)
    ∙ decode_counters-counter_then (length cs) i prev c (encode_counters cs ++ rest) w.0 h.1
        (omega arith)
    ∙ ap (λ r. r >>= λ vv. ok (c ∷ vv))
        (decode_counters-encode_counters cs (i + 1) c.id (c.id + 1) rest h.2 (omega arith) w.1)

decode_of_parts :
    (b body : List ℕ) (n : ℕ) (vv : VersionVector)
    → get_be (take 2 b) ≡ n
    → drop 2 b ≡ body
    → 2 + n * 16 ≤ length b
    → decode_counters n 0 0 body ≡ ok vv
    → length vv ≡ n
    → decode b ≡ ok (vv, 2 + n * 16)
unfolding decode
decode_of_parts b body n [] e₁ e₂ long got len = rw (e₁, e₂, got) (ground arith)
decode_of_parts b body n (c ∷ cs) e₁ e₂ long got len = rw (e₁, e₂, got) (ground arith)

-- The canonical vector that `Encode` wrote comes back from the front of any bytes, with the
-- number of bytes that it takes up.
pub decode-encode :
    (vv : VersionVector) (rest : List ℕ)
    → IsCanonical vv
    → Fits vv
    → decode (encode vv ++ rest) ≡ ok (vv, length (encode vv))
unfolding encode
decode-encode vv rest h (w, short) =
    rw (append_assoc, length-encode vv)
      (decode_of_parts _ (encode_counters vv ++ rest) (length vv) vv
        (ap get_be (take-put_be 2 (length vv) _) ∙ get_be-put_be 2 (length vv) short)
        (drop-put_be 2 (length vv) _)
        (rw (length-append, length-append, length-put_be, length-encode_counters) (omega arith))
        (decode_counters-encode_counters vv 0 0 0 rest h (omega arith) w) refl)

-- What one round of the loop has read when the decoder accepts.
decode_counters_inv :
    (n i prev : ℕ) (b : List ℕ) {vv : VersionVector}
    → decode_counters (suc n) i prev b ≡ ok vv
    → let id = get_be (take 8 b) in
      let val = get_be (take 8 (drop 8 b)) in
      (cs : VersionVector) × (vv ≡ record { id = id; value = val } ∷ cs)
      × (decode_counters n (i + 1) id (drop 16 b) ≡ ok cs)
      × (0 < val)
      × ((i ≡ 0) ⊎ (prev < id))
unfolding decode_counters
decode_counters_inv n i prev b e =
    elim (Result-cases (decode_counters n (i + 1) (get_be (take 8 b)) (drop 16 b))) [
      | inl (cs, got) ↦ (cs, ground arith, got, ground arith, ground arith)
      | inr (x, got) ↦ absurd (ground arith)
    ]

take_front :
    (n : ℕ) (b : List ℕ)
    → take (suc n * 16) b ≡ take 8 b ++ (take 8 (drop 8 b) ++ take (n * 16) (drop 16 b))
take_front n b =
    ap (λ k. take k b) (regroup n)
    ∙ take-add 8 (8 + n * 16) b
    ∙ ap (λ t. take 8 b ++ t)
        (take-add 8 (n * 16) (drop 8 b)
          ∙ ap (λ t. take 8 (drop 8 b) ++ take (n * 16) t) (drop-drop 8 8 b))
  where
    regroup : (n : ℕ) → suc n * 16 ≡ 8 + (8 + n * 16)
    regroup n = omega arith

-- The loop accepts only canonical counters, and only the bytes that encode them.
decode_counters_sound :
    (n i prev lo : ℕ) (b : List ℕ) (vv : VersionVector)
    → All IsByte b
    → n * 16 ≤ length b
    → ((i ≡ 0) × (lo ≡ 0)) ⊎ ((0 < i) × (lo ≡ prev + 1))
    → decode_counters n i prev b ≡ ok vv
    → IsAscending lo vv × All IsWide vv × (length vv ≡ n) × (encode_counters vv ≡ take (n * 16) b)
unfolding encode_counters decode_counters
decode_counters_sound zero i prev lo b [] hb len hlo e = (tt, tt, refl, refl)
decode_counters_sound zero i prev lo b (c ∷ cs) hb len hlo e = cc
decode_counters_sound (suc n) i prev lo b vv hb len hlo e =
    let (cs, shape, got, pos, up) = decode_counters_inv n i prev b e in
    let (id_wide, id_bytes) = get_be-take 8 b hb (omega arith) in
    let (val_wide, val_bytes) =
      get_be-take 8 (drop 8 b) (All-drop _ 8 b hb) (rw (length-drop 8 b) (omega arith)) in
    let (asc, wide, len', bytes) =
      decode_counters_sound n (i + 1) (get_be (take 8 b)) (get_be (take 8 b) + 1) (drop 16 b) cs
        (All-drop _ 16 b hb) (rw (length-drop 16 b) (omega arith)) (inr (omega arith, refl)) got in
    rw shape (
      (omega arith, pos, asc),
      ((id_wide, val_wide), wide),
      ap suc len',
      ap₂ (λ x y. x ++ y) id_bytes (ap₂ (λ x y. x ++ y) val_bytes bytes) ∙ sym (take_front n b),
    )

decode_counters_none : (b : List ℕ) → decode_counters 0 0 0 b ≡ ok []
unfolding decode_counters
decode_counters_none b = refl

decode_inv :
    (b : List ℕ) (vv : VersionVector) (n : ℕ)
    → decode b ≡ ok (vv, n)
    → let count = get_be (take 2 b) in
      (n ≡ 2 + count * 16)
      × (2 ≤ length b)
      × (n ≤ length b)
      × (decode_counters count 0 0 (drop 2 b) ≡ ok vv)
unfolding decode
decode_inv b vv n e = elim (Result-cases (decode_counters (get_be (take 2 b)) 0 0 (drop 2 b))) [
  | inl (cs, got) ↦ ground (arith, got, decode_counters_none (drop 2 b))
  | inr (x, got) ↦ ground (arith, got, decode_counters_none (drop 2 b))
]

-- Whatever bytes `DecodeVersionVector` accepts, the vector is canonical and fits the grammar, the
-- count of bytes is that of its encoding, and those bytes are its encoding: a vector has one
-- accepted form.
pub decode_sound :
    (b : List ℕ) (vv : VersionVector) (n : ℕ)
    → All IsByte b
    → decode b ≡ ok (vv, n)
    → IsCanonical vv × Fits vv × (n ≤ length b) × (encode vv ≡ take n b)
unfolding encode
decode_sound b vv n hb e =
    let (size, two, all, got) = decode_inv b vv n e in
    let (count_wide, count_bytes) = get_be-take 2 b hb two in
    let (asc, wide, len, bytes) =
      decode_counters_sound _ 0 0 0 (drop 2 b) vv (All-drop _ 2 b hb)
        (rw (length-drop 2 b) (omega arith)) (inl (refl, refl)) got in
    (
      asc,
      (wide, omega arith),
      all,
      ap₂ (λ x y. x ++ y) (ap (put_be 2) len ∙ count_bytes) bytes
          ∙ sym (ap (λ k. take k b) size ∙ take-add 2 _ b),
    )
