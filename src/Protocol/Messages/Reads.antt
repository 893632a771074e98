-- ===== src/Protocol/Messages/Reads.antt =====
-- Decoders as readers of the front of a payload, whatever follows it.
use merkle_lan_sync.Base.{
  ℕ, ◌+◌, ◌-◌, ◌≤◌, ◌<◌, ◌^◌, ◌≡◌, refl, ap, sym, ◌∙◌, arith, List, [], ◌++◌, append_assoc,
  append-nil, none, ok, le→ltb, length, length-append, take, drop, replicate, take-append,
  drop-append, drop-drop,
}
use mathlib.Core.Path.{subst}
use merkle_lan_sync.Bytes.{put_be, get_be}
use merkle_lan_sync.Bytes.Laws.{length-put_be, get_be-put_be, take-put_be}
use merkle_lan_sync.Protocol.Messages.{IsArray32}
use merkle_lan_sync.Protocol.Messages.Buffers.{
  DecBuf, Decoder, ◌>>=◌, pure, dec_uint, dec_raw, copy32, dec_array32, dec_len_prefixed, dec_rest,
}
use merkle_lan_sync.Protocol.Messages.Codec.{run}

-- The buffer has met no error, and `more` is what it has not read.
abbrev pub At : DecBuf → List ℕ → Type 0
At d more =
    (d.failure ≡ none) × (drop d.off d.payload ≡ more) × (d.off + length more ≡ length d.payload)

-- In front of anything, the decoder reads `xs` as `a`.
pub record Reads {A : Type 0} (m : Decoder A) (xs : List ℕ) (a : A) : Type 0 where
  pub on : (d : DecBuf) (more : List ℕ) → At d (xs ++ more) → ((m d).0 ≡ a) × At (m d).1 more

At-step :
    (d : DecBuf) (xs more : List ℕ) (n : ℕ)
    → length xs ≡ n
    → At d (xs ++ more)
    → (d.off + n ≤ length d.payload) × At (record d { off = d.off + n }) more
At-step d xs more n size (fine, left, total) = (
  omega (arith, length-append xs more),
  (
    fine,
    sym (drop-drop d.off n d.payload) ∙ ap (drop n) left ∙ drop-append xs more n size,
    omega (arith, length-append xs more),
  ),
)

dec_uint-At :
    (w v : ℕ) (d : DecBuf) (more : List ℕ)
    → v < 256 ^ w
    → At d (put_be w v ++ more)
    → ((dec_uint w d).0 ≡ v) × At (dec_uint w d).1 more
unfolding dec_uint
dec_uint-At w v d more h (fine, left, total) =
    let (fits, after) = At-step d (put_be w v) more w (length-put_be w v) (fine, left, total) in
    rw (fine, dec_uint)
      (rw (le→ltb _ _ fits) (
        ap (λ l. get_be (take w l)) left ∙ ap get_be (take-put_be w v more) ∙ get_be-put_be w v h,
        after,
      ))

pub dec_uint-Reads : (w v : ℕ) → v < 256 ^ w → Reads (dec_uint w) (put_be w v) v
dec_uint-Reads w v h = record { on = λ d more. dec_uint-At w v d more h }

dec_raw-At :
    (xs : List ℕ) (n : ℕ) (d : DecBuf) (more : List ℕ)
    → length xs ≡ n
    → At d (xs ++ more)
    → ((dec_raw n d).0 ≡ xs) × At (dec_raw n d).1 more
unfolding dec_raw
dec_raw-At xs n d more size (fine, left, total) =
    let (fits, after) = At-step d xs more n size (fine, left, total) in
    rw (fine, dec_raw) (rw (le→ltb _ _ fits) (ap (take n) left ∙ take-append xs more n size, after))

dec_raw-Reads : (xs : List ℕ) (n : ℕ) → length xs ≡ n → Reads (dec_raw n) xs xs
dec_raw-Reads xs n size = record { on = λ d more. dec_raw-At xs n d more size }

bind-At :
    {A B : Type 0} (m : Decoder A) (f : A → Decoder B) (xs ys : List ℕ) (a : A) (b : B)
    → Reads m xs a
    → Reads (f a) ys b
    → (d : DecBuf) (more : List ℕ) → At d ((xs ++ ys) ++ more)
    → ((f (m d).0 (m d).1).0 ≡ b) × At (f (m d).0 (m d).1).1 more
bind-At m f xs ys a b first second d more at =
    let (got, after) = first.on d (ys ++ more) (subst (At d) (append_assoc xs ys more) at) in
    subst (λ a'. ((f a' (m d).1).0 ≡ b) × At (f a' (m d).1).1 more) (sym got)
      (second.on (m d).1 more after)

pub bind-Reads :
    {A B : Type 0} {m : Decoder A} (f : A → Decoder B) {xs ys : List ℕ} {a : A} {b : B}
    → Reads m xs a
    → Reads (f a) ys b
    → Reads (m >>= f) (xs ++ ys) b
unfolding ◌>>=◌
bind-Reads f first second = record { on = bind-At _ f _ _ _ _ first second }

-- A last step that reads nothing.
pub map-Reads :
    {A B : Type 0} {m : Decoder A} (f : A → B) {xs : List ℕ} {a : A}
    → Reads m xs a
    → Reads (m >>= λ x. pure (f x)) xs (f a)
unfolding ◌>>=◌ pure
map-Reads f first = record {
  on = λ d more at. let (got, after) = first.on d more at in (ap f got, after);
}

copy32_lem : (a : List ℕ) → IsArray32 a → copy32 a ≡ a
unfolding copy32
copy32_lem a h =
    ap (λ t. t ++ replicate (32 - length a) 0)
      (ap (take 32) (sym (append-nil a)) ∙ take-append a [] 32 h)
    ∙ ap (λ n. a ++ replicate n 0) no_room
    ∙ append-nil a
  where
    no_room : 32 - length a ≡ 0
    no_room = omega (arith, h)

pub dec_array32-Reads : (a : List ℕ) → IsArray32 a → Reads dec_array32 a a
unfolding dec_array32
dec_array32-Reads a h =
    subst (Reads dec_array32 a) (copy32_lem a h) (map-Reads copy32 (dec_raw-Reads a 32 h))

abbrev pub prefixed : List ℕ → List ℕ
prefixed s = put_be 2 (length s) ++ s

pub dec_len_prefixed-Reads :
    (s : List ℕ) → length s ≤ 0xFFFF → Reads dec_len_prefixed (prefixed s) s
unfolding dec_len_prefixed
dec_len_prefixed-Reads s h =
    bind-Reads dec_raw (dec_uint-Reads 2 (length s) (omega arith)) (dec_raw-Reads s (length s) refl)

-- The same, for a decoder that reads to the end.
pub record ReadsAll {A : Type 0} (m : Decoder A) (xs : List ℕ) (a : A) : Type 0 where
  pub on : (d : DecBuf) → At d xs → ((m d).0 ≡ a) × ((m d).1.failure ≡ none)

dec_rest-At :
    (xs : List ℕ) (d : DecBuf) → At d xs → ((dec_rest d).0 ≡ xs) × ((dec_rest d).1.failure ≡ none)
unfolding dec_rest
dec_rest-At xs d (fine, left, total) = rw (fine, dec_rest) (left, fine)

pub dec_rest-ReadsAll :
    {A : Type 0} (f : List ℕ → A) (xs : List ℕ) → ReadsAll (dec_rest >>= λ b. pure (f b)) xs (f xs)
unfolding ◌>>=◌ pure
dec_rest-ReadsAll f xs = record {
  on = λ d at. let (got, fine) = dec_rest-At xs d at in (ap f got, fine);
}

bind_all-At :
    {A B : Type 0} (m : Decoder A) (f : A → Decoder B) (xs ys : List ℕ) (a : A) (b : B)
    → Reads m xs a
    → ReadsAll (f a) ys b
    → (d : DecBuf) → At d (xs ++ ys)
    → ((f (m d).0 (m d).1).0 ≡ b) × ((f (m d).0 (m d).1).1.failure ≡ none)
bind_all-At m f xs ys a b first second d at =
    let (got, after) = first.on d ys at in
    subst (λ a'. ((f a' (m d).1).0 ≡ b) × ((f a' (m d).1).1.failure ≡ none)) (sym got)
      (second.on (m d).1 after)

pub bind-ReadsAll :
    {A B : Type 0} {m : Decoder A} (f : A → Decoder B) {xs ys : List ℕ} {a : A} {b : B}
    → Reads m xs a
    → ReadsAll (f a) ys b
    → ReadsAll (m >>= f) (xs ++ ys) b
unfolding ◌>>=◌
bind-ReadsAll f first second = record { on = bind_all-At _ f _ _ _ _ first second }

pub map-ReadsAll :
    {A B : Type 0} {m : Decoder A} (f : A → B) {xs : List ℕ} {a : A}
    → ReadsAll m xs a
    → ReadsAll (m >>= λ x. pure (f x)) xs (f a)
unfolding ◌>>=◌ pure
map-ReadsAll f first = record { on = λ d at. let (got, fine) = first.on d at in (ap f got, fine) }

pub run-ReadsAll :
    {A : Type 0} (m : Decoder A) (xs : List ℕ) (a : A) → ReadsAll m xs a → run m xs ≡ ok a
unfolding run
run-ReadsAll m xs a h =
    let (got, fine) =
      h.on (record { payload = xs; off = 0; failure = none }) (refl, refl, omega arith) in
    rw (fine, run) (ap ok got)

-- A decoder looks only at what it reads.
pub run-Reads :
    {A : Type 0} (m : Decoder A) (xs more : List ℕ) (a : A)
    → Reads m xs a
    → run m (xs ++ more) ≡ ok a
run-Reads m xs more a h =
    run-ReadsAll m (xs ++ more) a
      (record { on = λ d at. let (got, after) = h.on d more at in (got, after.0) })
