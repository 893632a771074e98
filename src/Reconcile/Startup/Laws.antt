-- ===== src/Reconcile/Startup/Laws.antt =====
-- internal/reconcile/engine.go, `startupReconcile`: what the files hold at each path.
use merkle_lan_sync.Base.{
  ℕ, ◌+◌, ◌^◌, ◌<◌, ◌≡◌, refl, ap, sym, ◌∙◌, arith, Bool, true, false, not, ◌&&◌, Option, none,
  some, List, [], ◌∷◌, ◌++◌, if◌then◌else◌, inl, inr, Bool-cases, Option-cases, bytes_eq,
  bytes_eq_iff,
}
use merkle_lan_sync.Protocol.VersionVector.{bump, causality, equal, dominates, get}
use merkle_lan_sync.Protocol.VersionVector.Canonical.{IsCanonical}
use merkle_lan_sync.Protocol.VersionVector.Bump.{causality-bump}
use merkle_lan_sync.Protocol.VersionVector.Order.{causality-equal_iff}
use merkle_lan_sync.Merkle.FileInfo.{FileInfo, set_deleted}
use merkle_lan_sync.Merkle.Tree.Lookup.{find_leaf, find_leaf_or, find_leaf_or-none}
use merkle_lan_sync.Reconcile.Tombstone.{sweep_depaired_counters, Files, lookup}
use merkle_lan_sync.Reconcile.Startup.{
  startup_reconcile, put, put_all, internal_file, drop_internal, restore_vv, restore_each,
  restore_vvs, same_type, has_path, missing_from, synthesize_deletions, recovered_files,
}

pub lookup-put :
    (files : Files) (path : List ℕ) (fi : FileInfo) (q : List ℕ)
    → lookup (put files path fi) q ≡ (if bytes_eq path q then some fi else lookup files q)
unfolding lookup put
lookup-put [] path fi q = refl
lookup-put ((k, x) ∷ rest) path fi q =
    ground
      (arith, lookup-put rest path fi q, bytes_eq_iff k path, bytes_eq_iff k q, bytes_eq_iff path q)

pub lookup-put_all :
    (set : List FileInfo) (files : Files) (q : List ℕ)
    → lookup (put_all files set) q ≡ find_leaf_or (find_leaf set q) (lookup files q)
unfolding put_all find_leaf find_leaf_or
lookup-put_all [] files q = refl
lookup-put_all (fi ∷ set) files q =
    ground (arith, lookup-put_all set (put files fi.path fi) q, lookup-put files fi.path fi q)

find_leaf-append :
    (a b : List FileInfo) (q : List ℕ)
    → find_leaf (a ++ b) q ≡ find_leaf_or (find_leaf b q) (find_leaf a q)
unfolding find_leaf find_leaf_or
find_leaf-append [] b q = sym (find_leaf_or-none (find_leaf b q))
find_leaf-append (x ∷ a) b q = ground (arith, find_leaf-append a b q)

-- What is done to a leaf that is there.
map_leaf : (FileInfo → FileInfo) → Option FileInfo → Option FileInfo
map_leaf f none = none
map_leaf f (some fi) = some (f fi)

restore_vv-path :
    (p : Option FileInfo) (fi : FileInfo) (self : ℕ) → (restore_vv p fi self).path ≡ fi.path
unfolding restore_vv
restore_vv-path none fi self = refl
restore_vv-path (some p) fi self = ground arith

find_leaf-restore_each :
    (by_path : Files) (cur : List FileInfo) (self : ℕ) (q : List ℕ)
    → find_leaf (restore_each by_path cur self) q
      ≡ map_leaf (λ fi. restore_vv (lookup by_path q) fi self) (find_leaf cur q)
unfolding find_leaf restore_each map_leaf
find_leaf-restore_each by_path [] self q = refl
find_leaf-restore_each by_path (fi ∷ cur) self q =
    let below = find_leaf-restore_each by_path cur self q in
    let kept = restore_vv-path (lookup by_path fi.path) fi self in
    elim (Option-cases (find_leaf cur q)) [
      | inr (g, later) ↦ ground (arith, below, later)
      | inl gone ↦ elim (Bool-cases (bytes_eq fi.path q)) [
        | inl here ↦
            let same : restore_vv (lookup by_path fi.path) fi self
                ≡ restore_vv (lookup by_path q) fi self =
              ap (λ k. restore_vv (lookup by_path k) fi self) ((bytes_eq_iff fi.path q).0 here) in
            ground (arith, below, gone, here, kept, same)
        | inr elsewhere ↦ ground (arith, below, gone, elsewhere, kept)
      ]
    ]

pub has_path-find_leaf :
    (cur : List FileInfo) (q : List ℕ)
    → has_path cur q ≡ (elim (find_leaf cur q) [ none ↦ false | some fi ↦ true ])
unfolding has_path find_leaf
has_path-find_leaf [] q = refl
has_path-find_leaf (fi ∷ cur) q = ground (arith, has_path-find_leaf cur q)

find_leaf-drop_internal :
    (set : List FileInfo) (q : List ℕ)
    → find_leaf (drop_internal set) q ≡ (if internal_file q then none else find_leaf set q)
unfolding find_leaf drop_internal
find_leaf-drop_internal [] q = ground arith
find_leaf-drop_internal (fi ∷ set) q =
    ground (arith, find_leaf-drop_internal set q, bytes_eq_iff fi.path q)

-- The deletion that a leaf of the snapshot stands for when the scan has no file there.
unfoldable pub tombstone_of : FileInfo → ℕ → FileInfo
tombstone_of p self = if p.deleted then p else set_deleted p self

find_leaf-missing_from :
    (cur prev : List FileInfo) (self : ℕ) (q : List ℕ)
    → find_leaf (missing_from cur prev self) q
      ≡ (if has_path cur q then none else map_leaf (λ p. tombstone_of p self) (find_leaf prev q))
unfolding find_leaf missing_from map_leaf tombstone_of set_deleted
find_leaf-missing_from cur [] self q = ground arith
find_leaf-missing_from cur (p ∷ prev) self q =
    ground (arith, find_leaf-missing_from cur prev self q, bytes_eq_iff p.path q)

-- What the files hold at a path, from what the snapshot and the scan hold there.
unfoldable pub recovered : Option FileInfo → Option FileInfo → ℕ → Option FileInfo
recovered p (some fi) self = some (restore_vv p fi self)
recovered none none self = none
recovered (some p) none self = some (tombstone_of p self)

entered : (set : List FileInfo) (q : List ℕ) → lookup (put_all [] set) q ≡ find_leaf set q
unfolding lookup
entered set q = lookup-put_all set [] q ∙ find_leaf_or-none (find_leaf set q)

-- The leaf of the scan with the snapshot's version, or else the deletion.
restored_or_missing :
    (p c : Option FileInfo) (self : ℕ) (present : Bool)
    → present ≡ (elim (map_leaf (λ fi. restore_vv p fi self) c) [ none ↦ false | some fi ↦ true ])
    → find_leaf_or
        (if present then none else map_leaf (λ x. tombstone_of x self) p)
        (map_leaf (λ fi. restore_vv p fi self) c)
      ≡ recovered p c self
unfolding find_leaf_or map_leaf recovered
restored_or_missing none none self present e = rw e refl
restored_or_missing (some p) none self present e = rw e refl
restored_or_missing p (some fi) self present e = rw e refl

recovered_here :
    (prev cur : List FileInfo) (self : ℕ) (q : List ℕ)
    → lookup (put_all [] (synthesize_deletions prev (restore_vvs prev cur self) self)) q
      ≡ recovered (find_leaf prev q) (find_leaf cur q) self
unfolding synthesize_deletions restore_vvs
recovered_here [] cur self q = entered cur q ∙ unsaved (find_leaf cur q)
  where
    unsaved : (c : Option FileInfo) → c ≡ recovered (find_leaf [] q) c self
    unsaved none = unfold recovered find_leaf in refl
    unsaved (some fi) = unfold recovered find_leaf restore_vv in refl
recovered_here (p ∷ prev) cur self q =
    let by_path = put_all [] (p ∷ prev) in
    let restored = restore_each by_path cur self in
    let found : find_leaf restored q
        ≡ map_leaf (λ fi. restore_vv (find_leaf (p ∷ prev) q) fi self) (find_leaf cur q) =
      find_leaf-restore_each by_path cur self q
      ∙ ap (λ o. map_leaf (λ fi. restore_vv o fi self) (find_leaf cur q)) (entered (p ∷ prev) q) in
    entered (restored ++ missing_from restored (p ∷ prev) self) q
    ∙ find_leaf-append restored (missing_from restored (p ∷ prev) self) q
    ∙ rw (find_leaf-missing_from restored (p ∷ prev) self q, found)
        (restored_or_missing (find_leaf (p ∷ prev) q) (find_leaf cur q) self (has_path restored q) (
          has_path-find_leaf restored q ∙ ap (λ o. elim o [ none ↦ false | some fi ↦ true ]) found))

-- After a restart the files hold at each path: where the scan has a file, other than one of the
-- engine's own, that file with the version that it gets from the snapshot's leaf at that path;
-- where it has none, the tombstone of the snapshot, or one made of its live leaf; else nothing.
pub lookup-recovered_files :
    (prev scanned : List FileInfo) (self : ℕ) (q : List ℕ)
    → lookup (recovered_files prev scanned self) q
      ≡ recovered (find_leaf prev q) (if internal_file q then none else find_leaf scanned q) self
unfolding recovered_files
lookup-recovered_files prev scanned self q =
    recovered_here prev (drop_internal scanned) self q
    ∙ ap (λ o. recovered (find_leaf prev q) o self) (find_leaf-drop_internal scanned q)

-- The path is as the snapshot has it: the same content, or still deleted.
unfoldable pub unchanged : FileInfo → Option FileInfo → Bool
unchanged p none = p.deleted
unchanged p (some fi) =
    not p.deleted && (bytes_eq p.content_hash fi.content_hash && same_type p.file_type fi.file_type)

version-recovered :
    (p : FileInfo) (c : Option FileInfo) (self : ℕ)
    → causality p.version p.version ≡ equal
    → causality (bump p.version self) p.version ≡ dominates
    → (r : FileInfo) × (recovered (some p) c self ≡ some r)
      × (causality r.version p.version ≡ (if unchanged p c then equal else dominates))
unfolding recovered unchanged restore_vv tombstone_of set_deleted
version-recovered p none self same newer = (tombstone_of p self, refl, ground (arith, same, newer))
version-recovered p (some fi) self same newer =
    (restore_vv (some p) fi self, refl, ground (arith, same, newer))

-- In what a restart records before it sweeps out the counters of devices that are no longer paired,
-- no path of the snapshot is forgotten, and its version is the old one where the path is as it was,
-- and a version that dominates the old one where the file was changed, deleted or created again while
-- the engine was down: for a snapshot that has a leaf at the path, with a canonical version whose own
-- counter can still be raised. Where the engine is given no set of paired devices, this is what the
-- restart records in the end.
pub version-recovered_files :
    (prev scanned : List FileInfo) (self : ℕ) (q : List ℕ) (p : FileInfo)
    → find_leaf prev q ≡ some p
    → IsCanonical p.version
    → get p.version self + 1 < 2 ^ 64
    → (r : FileInfo) × (lookup (recovered_files prev scanned self) q ≡ some r)
      × (causality r.version p.version ≡ (
          if unchanged p (if internal_file q then none else find_leaf scanned q)
          then equal
          else dominates))
      × (lookup (startup_reconcile prev scanned self none).0 q ≡ some r)
unfolding startup_reconcile sweep_depaired_counters
version-recovered_files prev scanned self q p saved canonical room =
    let (r, found, verdict) =
      version-recovered p (if internal_file q then none else find_leaf scanned q) self
        ((causality-equal_iff p.version p.version canonical canonical).1 refl)
        (causality-bump p.version self canonical room).0 in
    let entered : lookup (recovered_files prev scanned self) q ≡ some r =
      lookup-recovered_files prev scanned self q
      ∙ ap (λ o. recovered o (if internal_file q then none else find_leaf scanned q) self) saved
      ∙ found in
    (r, entered, verdict, entered)
