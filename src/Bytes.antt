-- ===== src/Bytes.antt =====
-- encoding/binary's big-endian integers, over byte slices as lists of numbers below 256.
use merkle_lan_sync.Base.{ℕ, zero, suc, ◌+◌, ◌*◌, ◌/◌, ◌%◌, ◌^◌, ◌<◌, List, [], ◌∷◌, All}
pub mod Laws

abbrev pub IsByte : ℕ → Type 0
IsByte b = b < 256

-- The last `w` bytes of `v` in front of `rest`, most significant first.
unfoldable pub put_be : ℕ → ℕ → List ℕ
put_be zero v = []
put_be (suc w) v = (v / 256 ^ w % 256) ∷ put_be w v

-- The number that all bytes of the list spell.
unfoldable pub be_from : ℕ → List ℕ → ℕ
be_from acc [] = acc
be_from acc (b ∷ bs) = be_from (acc * 256 + b) bs

unfoldable pub get_be : List ℕ → ℕ
unfolding be_from
get_be bs = be_from 0 bs
