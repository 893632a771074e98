-- ===== src/Bytes/Laws.antt =====
-- Widths, ranges and the round trip of big-endian integers.
use merkle_lan_sync.Base.{
  ℕ, zero, suc, ◌+◌, ◌*◌, ◌/◌, ◌%◌, ◌^◌, ◌<◌, ◌≡◌, refl, ap, sym, ◌∙◌, arith, ◌≤◌, ◌++◌, take, drop,
  take-append, drop-append, length-take, All-take,
}
use mathlib.Core.Path.{ap₂}
use merkle_lan_sync.Base.{List, [], ◌∷◌, length, All}
use merkle_lan_sync.Bytes.{IsByte, put_be, be_from, get_be}
use native.Mathlib.Nat.{
  pow-suc, div-add-mod, mod-lt, mod-eq_of_lt, add-mul-mod_self_left, le_trans, mul-add-div_right,
  div-eq_of_lt,
}

pub length-put_be : (w v : ℕ) → length (put_be w v) ≡ w
unfolding put_be
length-put_be zero v = refl
length-put_be (suc w) v = ap suc (length-put_be w v)

pub put_be-IsByte : (w v : ℕ) → All IsByte (put_be w v)
unfolding put_be
put_be-IsByte zero v = tt
put_be-IsByte (suc w) v = (omega arith, put_be-IsByte w v)

pow-pos : (w : ℕ) → 0 < 256 ^ w
pow-pos zero = omega arith
pow-pos (suc w) = rw pow-suc (omega (arith, pow-pos w))

-- The lowest `w + 1` digits are the digit above the lowest `w`, and those.
mod_split : (v p : ℕ) → 0 < p → v % (p * 256) ≡ v / p % 256 * p + v % p
mod_split v p h =
    ap (λ (t : ℕ). t % (p * 256)) split
    ∙ add-mul-mod_self_left low (p * 256) (v / p / 256)
    ∙ mod-eq_of_lt low_lt
  where
    low : ℕ
    low = v / p % 256 * p + v % p

    split : v ≡ low + p * 256 * (v / p / 256)
    split = omega (arith, div-add-mod v p, ap (λ (t : ℕ). p * t) (div-add-mod (v / p) 256))

    low_lt : low < p * 256
    low_lt = grind (arith, mod-lt v h, mod-lt (v / p) {m = 256} (omega arith))

be_from-put_be : (w acc v : ℕ) → be_from acc (put_be w v) ≡ acc * 256 ^ w + v % 256 ^ w
unfolding put_be be_from
be_from-put_be zero acc v = omega arith
be_from-put_be (suc w) acc v =
    be_from-put_be w (acc * 256 + v / 256 ^ w % 256) v
    ∙ rw (pow-suc 256 w, mod_split v (256 ^ w) (pow-pos w)) (omega arith)

-- The low `w` bytes come back.
pub get_be-put_be : (w v : ℕ) → v < 256 ^ w → get_be (put_be w v) ≡ v
unfolding get_be
get_be-put_be w v h = be_from-put_be w 0 v ∙ rw (mod-eq_of_lt h) (omega arith)

be_from-lt : (acc : ℕ) (bs : List ℕ) → All IsByte bs → be_from acc bs < (acc + 1) * 256 ^ length bs
unfolding be_from
be_from-lt acc [] h = omega arith
be_from-lt acc (b ∷ bs) h =
    rw pow-suc (le_trans (be_from-lt (acc * 256 + b) bs h.1) (grind (arith, pow-pos (length bs))))

pub get_be-lt : (bs : List ℕ) → All IsByte bs → get_be bs < 256 ^ length bs
unfolding get_be
get_be-lt bs h = omega (arith, be_from-lt 0 bs h)

be_from-acc : (acc : ℕ) (bs : List ℕ) → be_from acc bs ≡ acc * 256 ^ length bs + get_be bs
unfolding get_be
be_from-acc acc [] = omega arith
be_from-acc acc (b ∷ bs) =
    be_from-acc (acc * 256 + b) bs
    ∙ rw (be_from-acc (0 * 256 + b) bs, pow-suc 256 (length bs)) (omega arith)

get_be-cons : (b : ℕ) (bs : List ℕ) → get_be (b ∷ bs) ≡ b * 256 ^ length bs + get_be bs
unfolding get_be
get_be-cons b bs = be_from-acc (0 * 256 + b) bs ∙ omega arith

-- Only the low `w` bytes are written.
put_be-mod : (w a v : ℕ) → put_be w (a * 256 ^ w + v) ≡ put_be w v
unfolding put_be
put_be-mod zero a v = refl
put_be-mod (suc w) a v =
    ap (put_be (suc w)) regroup
    ∙ ap₂ (λ d ds. d ∷ ds)
        (ap (λ (t : ℕ). t % 256) (mul-add-div_right (pow-pos w) (a * 256) v) ∙ omega arith)
        (put_be-mod w (a * 256) v)
  where
    regroup : a * 256 ^ suc w + v ≡ a * 256 * 256 ^ w + v
    regroup = rw pow-suc (omega arith)

-- The other way round: writing what was read gives the bytes back.
pub put_be-get_be : (bs : List ℕ) → All IsByte bs → put_be (length bs) (get_be bs) ≡ bs
unfolding put_be
put_be-get_be [] h = refl
put_be-get_be (b ∷ bs) h =
    ap (put_be (suc (length bs))) (get_be-cons b bs)
    ∙ ap₂ (λ d ds. d ∷ ds) top (put_be-mod (length bs) b (get_be bs) ∙ put_be-get_be bs h.1)
  where
    top : (b * 256 ^ length bs + get_be bs) / 256 ^ length bs % 256 ≡ b
    top =
        ap (λ (t : ℕ). t % 256)
          (mul-add-div_right (pow-pos (length bs)) b (get_be bs)
            ∙ ap (λ (t : ℕ). b + t) (div-eq_of_lt (get_be-lt bs h.1)))
        ∙ omega (arith, h.0)

-- `w` bytes, read as a number and written again.
pub get_be-take :
    (w : ℕ) (b : List ℕ)
    → All IsByte b
    → w ≤ length b
    → (get_be (take w b) < 256 ^ w) × (put_be w (get_be (take w b)) ≡ take w b)
get_be-take w b hb len =
    let size : length (take w b) ≡ w = length-take w b ∙ omega arith in
    let bytes : All IsByte (take w b) = All-take _ w b hb in
    (
      rw size at (get_be-lt (take w b) bytes),
      ap (λ k. put_be k (get_be (take w b))) (sym size) ∙ put_be-get_be (take w b) bytes,
    )

pub take-put_be : (w v : ℕ) (rest : List ℕ) → take w (put_be w v ++ rest) ≡ put_be w v
take-put_be w v rest = take-append (put_be w v) rest w (length-put_be w v)

pub drop-put_be : (w v : ℕ) (rest : List ℕ) → drop w (put_be w v ++ rest) ≡ rest
drop-put_be w v rest = drop-append (put_be w v) rest w (length-put_be w v)
