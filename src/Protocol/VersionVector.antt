-- ===== src/Protocol/VersionVector.antt =====
-- internal/protocol/versionvector.go: a causal clock for each file. A device is named by its
-- ShortID, a uint64; a vector is the slice of its counters.
pub mod Canonical
pub mod Exceeds
pub mod Order
pub mod Merge
pub mod Bump
pub mod RoundTrip
mod Tests
use merkle_lan_sync.Base.{
  ℕ, zero, suc, ◌+◌, ◌-◌, ◌*◌, ◌%◌, ◌^◌, ◌<◌, compare, Ordering, Bool, true, false, not, ◌&&◌, ◌||◌,
  Option, none, some, List, [], ◌∷◌, ◌++◌, Result, ok, err, ltb, leb, ◌==◌, if◌then◌else◌, length,
  get_elem?, set, take, drop, ◌>>=◌,
}
use merkle_lan_sync.Bytes.{put_be, get_be}
use merkle_lan_sync.Protocol.Errors.{Error, malformed_version_vector}

pub record Counter : Type 0 where
  pub id : ℕ
  pub value : ℕ

abbrev pub VersionVector : Type 0
VersionVector = List Counter

-- The four outcomes of `Compare`.
pub data Causality : Type 0 where
  equal dominates dominated_by concurrent : Causality

-- `sort.Search(len(vv), vv[i].ID >= id)`: the least index whose ID is not below `id`, as that
-- call is documented to return on a sorted slice; the length if there is none.
unfoldable pub search : VersionVector → ℕ → ℕ
search [] id = 0
search (c ∷ cs) id = let rest = suc (search cs id) in if leb id c.id then 0 else rest

unfoldable pub get : VersionVector → ℕ → ℕ
unfolding search
get vv id = elim (get_elem? vv (search vv id)) [
  | none ↦ 0
  | some c ↦ if c.id == id then c.value else 0
]

insert_at : VersionVector → ℕ → ℕ → VersionVector
insert_at vv i self = take i vv ++ (record { id = self; value = 1 } ∷ drop i vv)

-- `out[i].Value++` on a uint64 wraps.
unfoldable pub bump : VersionVector → ℕ → VersionVector
unfolding search insert_at
bump vv self =
    let i = search vv self in
    elim (get_elem? vv i) [
      | none ↦ insert_at vv i self
      | some c ↦
          if c.id == self
          then set vv i (record c { value = (c.value + 1) % 2 ^ 64 })
          else insert_at vv i self
    ]

-- The two indices of the loop are what is left of the two slices.
unfoldable pub merge : VersionVector → VersionVector → VersionVector
merge [] ys = ys
merge (x ∷ xs) [] = x ∷ xs
merge (x ∷ xs) (y ∷ ys) = elim (compare x.id y.id) [
  | Ordering.lt ↦ x ∷ merge xs (y ∷ ys)
  | Ordering.gt ↦ y ∷ merge (x ∷ xs) ys
  | Ordering.eq ↦
      record { id = x.id; value = if ltb x.value y.value then y.value else x.value } ∷ merge xs ys
]

-- The last switch of `Compare`, over the flags `aGreater` and `bGreater`.
unfoldable pub verdict : Bool → Bool → Causality
verdict false false = equal
verdict true false = dominates
verdict false true = dominated_by
verdict true true = concurrent

-- The loop of `Compare`, with its early return, and the two tests behind it.
unfoldable pub compare_loop : VersionVector → VersionVector → Bool → Bool → Causality
unfolding verdict
compare_loop [] [] a b = verdict a b
compare_loop [] (y ∷ ys) a b = verdict a true
compare_loop (x ∷ xs) [] a b = verdict true b
compare_loop (x ∷ xs) (y ∷ ys) a b = elim (compare x.id y.id) [
  | Ordering.lt ↦ let more = compare_loop xs (y ∷ ys) true b in if b then concurrent else more
  | Ordering.gt ↦ let more = compare_loop (x ∷ xs) ys a true in if a then concurrent else more
  | Ordering.eq ↦
      let a' = if ltb y.value x.value then true else a in
      let b' = if ltb y.value x.value then b else if ltb x.value y.value then true else b in
      let more = compare_loop xs ys a' b' in if a' && b' then concurrent else more
]

unfoldable pub causality : VersionVector → VersionVector → Causality
unfolding compare_loop
causality vv other = compare_loop vv other false false

-- The loop of `IsEqual` compares IDs and values; the length test stands before it.
unfoldable pub same_counters : VersionVector → VersionVector → Bool
same_counters [] ys = true
same_counters (x ∷ xs) [] = true
same_counters (x ∷ xs) (y ∷ ys) = (x.id == y.id) && (x.value == y.value) && same_counters xs ys

unfoldable pub is_equal : VersionVector → VersionVector → Bool
unfolding same_counters
is_equal vv other = if length vv == length other then same_counters vv other else false

unfoldable pub drop_zeros : List Counter → VersionVector
drop_zeros [] = []
drop_zeros (c ∷ cs) = let rest = drop_zeros cs in if c.value == 0 then rest else c ∷ rest

sort_in : Counter → VersionVector → VersionVector
sort_in c [] = c ∷ []
sort_in c (d ∷ ds) = let rest = sort_in c ds in if ltb d.id c.id then d ∷ rest else c ∷ d ∷ ds

sort_by_id : VersionVector → VersionVector
unfolding sort_in
sort_by_id [] = []
sort_by_id (c ∷ cs) = sort_in c (sort_by_id cs)

-- The map is the list of its entries, in the order in which the range visits them.
unfoldable pub new_version_vector : List Counter → VersionVector
unfolding drop_zeros sort_by_id
new_version_vector m = sort_by_id (drop_zeros m)

encode_counters : VersionVector → List ℕ
encode_counters [] = []
encode_counters (c ∷ cs) = put_be 8 c.id ++ (put_be 8 c.value ++ encode_counters cs)

-- `put_be` cuts a number to its width, as the conversion `uint16(len(vv))` does.
unfoldable pub encode : VersionVector → List ℕ
unfolding encode_counters
encode vv = put_be 2 (length vv) ++ encode_counters vv

-- The loop over `count` counters: `i` of them are read, `prev` is the last ID, `b` is `b[off:]`.
decode_counters : ℕ → ℕ → ℕ → List ℕ → Result Error VersionVector
decode_counters zero i prev b = ok []
decode_counters (suc n) i prev b =
    let id = get_be (take 8 b) in
    let val = get_be (take 8 (drop 8 b)) in
    let rest = decode_counters n (i + 1) id (drop 16 b) in
    if val == 0
    then err malformed_version_vector
    else if ltb 0 i && leb id prev
    then err malformed_version_vector
    else rest >>= λ cs. ok (record { id = id; value = val } ∷ cs)

-- The vector, and the number of bytes that it takes up.
unfoldable pub decode : List ℕ → Result Error (VersionVector × ℕ)
unfolding decode_counters
decode b =
    let count = get_be (take 2 b) in
    let need = 2 + count * 16 in
    let counters = decode_counters count 0 0 (drop 2 b) in
    if ltb (length b) 2
    then err malformed_version_vector
    else if ltb (length b) need
    then err malformed_version_vector
    else if count == 0
    then ok ([], need)
    else counters >>= λ vv. ok (vv, need)
