-- ===== src/Reconcile/Tombstone.antt =====
-- internal/reconcile/tombstone.go: when a tombstone is forgotten, and the counters of devices that
-- are no longer paired.
pub mod Laws
use merkle_lan_sync.Base.{
  ℕ, Bool, true, false, not, ◌&&◌, ◌||◌, Option, none, some, List, [], ◌∷◌, if◌then◌else◌, ◌==◌,
  bytes_eq,
}
use merkle_lan_sync.Protocol.VersionVector.{
  Counter, VersionVector, causality, Causality, equal, dominates, dominated_by, concurrent,
  is_equal,
}
use merkle_lan_sync.Merkle.FileInfo.{FileInfo}

-- A `map[string]FileInfo` is the list of its entries.
abbrev pub Files : Type 0
Files = List (List ℕ × FileInfo)

unfoldable pub lookup : Files → List ℕ → Option FileInfo
lookup [] path = none
lookup ((k, fi) ∷ rest) path =
    let later = lookup rest path in if bytes_eq k path then some fi else later

unfoldable pub can_gc : FileInfo → Files → Bool
can_gc tomb peer_index = elim (lookup peer_index tomb.path) [
  | none ↦ false
  | some pf ↦ if not pf.deleted then false else elim (causality pf.version tomb.version) [
    | dominates ↦ true
    | equal ↦ true
    | dominated_by ↦ false
    | concurrent ↦ false
  ]
]

-- The inner loop over the peers, each given by its index, with its `break`.
unfoldable pub acked_by_all : FileInfo → List Files → Bool
acked_by_all fi [] = true
acked_by_all fi (index ∷ peers) =
    let rest = acked_by_all fi peers in if can_gc fi index then rest else false

-- The loop over the files: what is left of them, and whether anything went.
unfoldable pub gc_loop : Files → List Files → Files × Bool
gc_loop [] peers = ([], false)
gc_loop ((path, fi) ∷ rest) peers =
    let (kept, changed) = gc_loop rest peers in
    if not fi.deleted
    then ((path, fi) ∷ kept, changed)
    else if acked_by_all fi peers
    then (kept, true)
    else ((path, fi) ∷ kept, changed)

unfoldable pub gc_tombstones : Files → List Files → Files × Bool
gc_tombstones files [] = (files, false)
gc_tombstones files (index ∷ peers) = gc_loop files (index ∷ peers)

unfoldable pub drop_from_vv : VersionVector → ℕ → VersionVector
drop_from_vv [] id = []
drop_from_vv (c ∷ vv) id = let rest = drop_from_vv vv id in if c.id == id then rest else c ∷ rest

unfoldable pub drop_counter : Files → ℕ → Files × Bool
drop_counter [] id = ([], false)
drop_counter ((path, fi) ∷ rest) id =
    let (kept, changed) = drop_counter rest id in
    let nv = drop_from_vv fi.version id in
    if is_equal nv fi.version
    then ((path, fi) ∷ kept, changed)
    else ((path, record fi { version = nv }) ∷ kept, true)

-- A set of ShortIDs, as the maps `pairedShorts` and `seen` are, is the list of its members.
unfoldable pub has_id : List ℕ → ℕ → Bool
has_id [] id = false
has_id (x ∷ xs) id = (x == id) || has_id xs id

-- The two loops that collect `dead`; the devices seen so far are those collected.
unfoldable pub dead_in_vv : VersionVector → List ℕ → List ℕ → List ℕ
dead_in_vv [] paired dead = dead
dead_in_vv (c ∷ vv) paired dead =
    dead_in_vv vv paired
      (if not (has_id paired c.id) && not (has_id dead c.id) then c.id ∷ dead else dead)

unfoldable pub dead_in : Files → List ℕ → List ℕ → List ℕ
dead_in [] paired dead = dead
dead_in ((path, fi) ∷ rest) paired dead = dead_in rest paired (dead_in_vv fi.version paired dead)

unfoldable pub drop_counters : Files → List ℕ → Files × Bool
drop_counters files [] = (files, false)
drop_counters files (id ∷ dead) =
    let (dropped, changed) = drop_counter files id in
    let (swept, more) = drop_counters dropped dead in (swept, changed || more)

-- `paired` is none when no paired set is known.
unfoldable pub sweep_depaired_counters : Files → Option (List ℕ) → Files × Bool
sweep_depaired_counters files none = (files, false)
sweep_depaired_counters files (some paired) = drop_counters files (dead_in files paired [])
