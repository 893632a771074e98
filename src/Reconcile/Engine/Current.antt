-- ===== src/Reconcile/Engine/Current.antt =====
-- internal/reconcile/engine.go, `rescan`: the files after a scan was taken in are as the disk is.
use merkle_lan_sync.Base.{
  ℕ, ◌≡◌, refl, ap, sym, ◌∙◌, arith, Bool, true, false, Option, none, some, List, [], ◌∷◌, inl, inr,
  Bool-cases, Option-cases, bytes_eq, bytes_eq_iff, All,
}
use merkle_lan_sync.Merkle.FileInfo.{FileInfo, set_deleted}
use merkle_lan_sync.Merkle.Tree.Lookup.{find_leaf}
use merkle_lan_sync.Reconcile.Tombstone.{Files, lookup}
use merkle_lan_sync.Reconcile.Startup.{has_path}
use merkle_lan_sync.Reconcile.Startup.Laws.{has_path-find_leaf}
use merkle_lan_sync.Reconcile.Engine.{Peer, inflight}
use merkle_lan_sync.Reconcile.Engine.Echo.{IsSame, same_type_self, is_echo_sound}
use merkle_lan_sync.Reconcile.Engine.Local.{is_echo, authored, rescan_files}
use merkle_lan_sync.Reconcile.Engine.Rescan.{
  touched, touched_leaf, scanned_leaf, IsDistinct, scanned_or_kept, vanished, rescanned,
}

-- The recorded leaf passes for that of the scan.
unfoldable is_current : Option FileInfo → Option FileInfo → Bool
is_current none none = true
is_current (some fi) none = fi.deleted
is_current recorded (some s) = is_echo recorded s

live_echo :
    (self : ℕ) (peers : List Peer) (prev : Option FileInfo) (s : FileInfo)
    → s.deleted ≡ false
    → inflight peers s.path ≡ false
    → is_echo (vanished self true (scanned_leaf peers self prev s)) s ≡ true
unfolding vanished scanned_leaf is_echo touched_leaf touched authored
live_echo self peers none s live free =
    ground
      (arith, live, free, bytes_eq_iff s.content_hash s.content_hash, same_type_self s.file_type)
live_echo self peers (some p) s live free =
    ground
      (arith, live, free, bytes_eq_iff s.content_hash s.content_hash, same_type_self s.file_type)

current :
    (self : ℕ) (peers : List Peer) (prev c : Option FileInfo) (present : Bool)
    → present ≡ (elim c [ none ↦ false | some s ↦ true ])
    → ((s : FileInfo) → c ≡ some s → (s.deleted ≡ false) × (inflight peers s.path ≡ false))
    → is_current (vanished self present (scanned_or_kept peers self prev c)) c ≡ true
unfolding is_current scanned_or_kept
current self peers none none present e h = unfold vanished in refl
current self peers (some p) none present e h = rw e (unfold vanished set_deleted in ground arith)
current self peers prev (some s) present e h =
    rw e (live_echo self peers prev s (h s refl).0 (h s refl).1)

found_facts :
    (peers : List Peer) (scanned : List FileInfo) (q : List ℕ)
    → All (λ s. s.deleted ≡ false) scanned
    → inflight peers q ≡ false
    → (s : FileInfo) → find_leaf scanned q ≡ some s
    → (s.deleted ≡ false) × (inflight peers s.path ≡ false)
unfolding find_leaf
found_facts peers [] q live free s e = absurd (cc e)
found_facts peers (x ∷ scanned) q live free s e =
    let below = found_facts peers scanned q live.1 free s in
    elim (Option-cases (find_leaf scanned q)) [
      | inr (g, later) ↦ below (ground (arith, e, later))
      | inl gone ↦ elim (Bool-cases (bytes_eq x.path q)) [
        | inr differ ↦ absurd (ground (arith, e, gone, differ))
        | inl same ↦
            let this : x ≡ s = ground (arith, e, gone, same) in
            (
              ap (λ y. y.deleted) (sym this) ∙ live.0,
              ap (λ y. inflight peers y.path) (sym this)
                  ∙ ap (inflight peers) ((bytes_eq_iff x.path q).0 same)
                  ∙ free,
            )
      ]
    ]

-- The recorded leaf is as the scan has the path: live with the hash, the type and the size of the
-- scanned leaf, or not live where the scan has no file.
abbrev pub IsCurrent : Option FileInfo → Option FileInfo → Type 0
IsCurrent none none = Unit {0}
IsCurrent none (some s) = ⊥
IsCurrent (some fi) none = fi.deleted ≡ true
IsCurrent (some fi) (some s) = IsSame fi s

is_current-IsCurrent :
    (recorded scanned : Option FileInfo)
    → is_current recorded scanned ≡ true
    → IsCurrent recorded scanned
unfolding is_current is_echo
is_current-IsCurrent none none e = tt
is_current-IsCurrent none (some s) e = cc e
is_current-IsCurrent (some fi) none e = e
is_current-IsCurrent (some fi) (some s) e = is_echo_sound fi s (unfold is_echo in e)

-- After a scan is taken in, what is recorded at a path is what the scan has there, if the path is
-- not in flight: a live leaf with the scanned hash, type and size, or nothing live where the scan has
-- no file. The scan has no two leaves of one path, and none that is deleted.
pub rescan_files-IsCurrent :
    (self : ℕ) (peers : List Peer) (files : Files) (scanned : List FileInfo) (q : List ℕ)
    → IsDistinct scanned
    → All (λ s. s.deleted ≡ false) scanned
    → inflight peers q ≡ false
    → IsCurrent (lookup (rescan_files self peers files scanned).0 q) (find_leaf scanned q)
rescan_files-IsCurrent self peers files scanned q distinct live free =
    is_current-IsCurrent (lookup (rescan_files self peers files scanned).0 q) (find_leaf scanned q)
      (rw (rescanned self peers files scanned q distinct) (
        current self peers (lookup files q) (find_leaf scanned q) (has_path scanned q)
          (has_path-find_leaf scanned q) (found_facts peers scanned q live free)))
