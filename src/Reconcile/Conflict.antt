-- ===== src/Reconcile/Conflict.antt =====
-- internal/reconcile/conflict.go: the winner of a conflict, and the name of the loser's copy. The
-- Unicode normalisation of the key is a parameter.
use merkle_lan_sync.Base.{
  ℕ, zero, suc, ◌+◌, ◌-◌, ◌*◌, ◌/◌, ◌%◌, ◌^◌, Bool, true, false, not, ◌&&◌, Option, none, some,
  List, [], ◌∷◌, ◌++◌, compare, Ordering, ℤ, pos, negsuc, ltb_ℤ, eqb_ℤ, ltb, leb, ◌==◌,
  if◌then◌else◌, Result, length,
}
use merkle_lan_sync.Protocol.VersionVector.{VersionVector, get}
use merkle_lan_sync.Pathnorm.Canonical.{Error, canonicalize_slash}
use merkle_lan_sync.Merkle.FileInfo.{FileInfo}

-- The loop of `authorOf` over the rest of a's vector; `best` holds the two variables.
unfoldable pub author_loop : VersionVector → VersionVector → Option ℕ → Option ℕ
author_loop [] b best = best
author_loop (c ∷ cs) b best =
    let next =
      if ltb (get b c.id) c.value
      then (elim best [ none ↦ some c.id | some i ↦ if ltb i c.id then some c.id else some i ])
      else best in
    author_loop cs b next

-- `none` stands for `ok == false`.
unfoldable pub author_of : FileInfo → FileInfo → Option ℕ
unfolding author_loop
author_of a b = author_loop a.version b.version none

-- `bytes.Compare(xs, ys) < 0`.
unfoldable pub bytes_lt : List ℕ → List ℕ → Bool
bytes_lt xs [] = false
bytes_lt [] (y ∷ ys) = true
bytes_lt (x ∷ xs) (y ∷ ys) = elim (compare x y) [
  | Ordering.lt ↦ true
  | Ordering.gt ↦ false
  | Ordering.eq ↦ bytes_lt xs ys
]

unfoldable pub a_wins : FileInfo → FileInfo → Bool
unfolding author_of bytes_lt
a_wins a b =
    let by_hash = bytes_lt a.content_hash b.content_hash in
    if not (eqb_ℤ a.mod_time_ns b.mod_time_ns)
    then ltb_ℤ b.mod_time_ns a.mod_time_ns
    else elim (author_of a b) [
      | none ↦ by_hash
      | some auth_a ↦ elim (author_of b a) [
        | none ↦ by_hash
        | some auth_b ↦ if not (auth_a == auth_b) then ltb auth_a auth_b else by_hash
      ]
    ]

unfoldable pub winner : FileInfo → FileInfo → FileInfo
winner a b = if a_wins a b then a else b

unfoldable pub loser_of : FileInfo → FileInfo → FileInfo
loser_of a b = if a_wins a b then b else a

unfoldable pub max_short_id_loop : VersionVector → ℕ → ℕ
max_short_id_loop [] m = m
max_short_id_loop (c ∷ cs) m = max_short_id_loop cs (if ltb m c.id then c.id else m)

unfoldable pub max_short_id : VersionVector → ℕ
unfolding max_short_id_loop
max_short_id vv = max_short_id_loop vv 0

-- `loserAuthor` of apply.go.
unfoldable pub loser_author : FileInfo → FileInfo → ℕ
unfolding author_of max_short_id
loser_author l w = elim (author_of l w) [ some a ↦ a | none ↦ max_short_id l.version ]

-- `path.Split`: what is up to the last slash, and what is behind it.
unfoldable pub split_base : List ℕ → List ℕ × List ℕ
split_base [] = ([], [])
split_base (c ∷ s) =
    let (dir, base) = split_base s in
    if length dir == 0 && not (c == b'/') then ([], c ∷ base) else (c ∷ dir, base)

-- A name cut at its last dot, as `path.Ext` and `strings.TrimSuffix` cut it; without a dot the
-- extension is empty.
unfoldable pub cut_ext : List ℕ → List ℕ × List ℕ
cut_ext [] = ([], [])
cut_ext (c ∷ s) =
    let (stem, ext) = cut_ext s in
    if length ext == 0 then if c == b'.' then ([], c ∷ s) else (c ∷ stem, []) else (c ∷ stem, ext)

-- The digits of a number in a field of `width` digits to the base `base`, filled with zeros.
unfoldable pub field : ℕ → ℕ → ℕ → List ℕ
field base zero n = []
field base (suc width) n =
    let rest = field base width n in
    let digit = n / base ^ width % base in
    (if ltb digit 10 then b'0' + digit else b'a' + (digit - 10)) ∷ rest

-- Seconds since 1 March of the year 0, from nanoseconds since 1970, rounded down.
unfoldable pub whole_seconds : ℤ → ℕ
whole_seconds (pos n) = 719468 * 86400 + n / 10 ^ 9
whole_seconds (negsuc n) = 719468 * 86400 - (n / 10 ^ 9 + 1)

-- The civil date of a day counted from 1 March of the year 0: year, month and day.
unfoldable pub civil : ℕ → ℕ × ℕ × ℕ
civil days =
    let era = days / 146097 in
    let doe = days % 146097 in
    let yoe = (doe - doe / 1460 + doe / 36524 - doe / 146096) / 365 in
    let doy = doe - (365 * yoe + yoe / 4 - yoe / 100) in
    let mp = (5 * doy + 2) / 153 in
    let day = doy - (153 * mp + 2) / 5 + 1 in
    let month = if ltb mp 10 then mp + 3 else mp - 9 in
    (yoe + era * 400 + (if leb month 2 then 1 else 0), month, day)

-- The time in UTC, in the layout `20060102-150405`.
unfoldable pub timestamp : ℤ → List ℕ
unfolding field whole_seconds civil
timestamp ns =
    let secs = whole_seconds ns in
    let (year, month, day) = civil (secs / 86400) in
    let clock = secs % 86400 in
    field 10 4 year
    ++ (field 10 2 month
        ++ (field 10 2 day
            ++ (b'-'
                ∷ (field 10 2 (clock / 3600)
                    ++ (field 10 2 (clock / 60 % 60) ++ field 10 2 (clock % 60))))))

-- `.sync-conflict-`
abbrev infix_text : List ℕ
infix_text =
    b'.' ∷ b's' ∷ b'y' ∷ b'n' ∷ b'c' ∷ b'-' ∷ b'c' ∷ b'o' ∷ b'n' ∷ b'f' ∷ b'l' ∷ b'i' ∷ b'c' ∷ b't'
    ∷ b'-' ∷ []

unfoldable pub conflict_name : (List ℕ → List ℕ) → FileInfo → ℕ → Result Error (List ℕ)
unfolding split_base cut_ext timestamp field
conflict_name nfc loser author =
    let (dir, base) = split_base loser.path in
    let (stem, ext) = cut_ext base in
    canonicalize_slash nfc (
      dir
      ++ (stem
          ++ (infix_text ++ (timestamp loser.mod_time_ns ++ (b'-' ∷ (field 16 16 author ++ ext))))))
