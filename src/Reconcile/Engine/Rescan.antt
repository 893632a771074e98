-- ===== src/Reconcile/Engine/Rescan.antt =====
-- internal/reconcile/engine.go, `rescan`: what is recorded at each path after a scan was taken in.
use merkle_lan_sync.Base.{
  ℕ, ◌≡◌, refl, ap, sym, ◌∙◌, arith, Bool, false, Option, none, some, List, [], ◌∷◌, if◌then◌else◌,
  inl, inr, Bool-cases, bytes_eq, bytes_eq_iff, eqb_ℤ,
}
use merkle_lan_sync.Merkle.FileInfo.{FileInfo, set_deleted}
use merkle_lan_sync.Merkle.Tree.Lookup.{find_leaf}
use merkle_lan_sync.Reconcile.Tombstone.{Files, lookup}
use merkle_lan_sync.Reconcile.Startup.{put, has_path}
use merkle_lan_sync.Reconcile.Startup.Laws.{lookup-put, has_path-find_leaf}
use merkle_lan_sync.Reconcile.Engine.{Peer, inflight}
use merkle_lan_sync.Reconcile.Engine.Local.{
  is_echo, touch, authored, scan_step, scan_loop, vanished_loop, rescan_files,
}

-- The leaf with the time that was seen, where only that may have moved.
unfoldable pub touched : FileInfo → FileInfo → FileInfo
touched prev s =
    if eqb_ℤ prev.mod_time_ns s.mod_time_ns
    then prev
    else record prev { mod_time_ns = s.mod_time_ns }

unfoldable pub touched_leaf : Option FileInfo → FileInfo → Option FileInfo
touched_leaf none s = none
touched_leaf (some prev) s = some (touched prev s)

-- What becomes of the leaf at a path for which the scan has a leaf.
unfoldable pub scanned_leaf : List Peer → ℕ → Option FileInfo → FileInfo → Option FileInfo
scanned_leaf peers self prev s =
    if is_echo prev s
    then touched_leaf prev s
    else if inflight peers s.path
    then prev
    else some (authored prev s self)

-- Where one key is written.
by_key :
    (key q : List ℕ) (new : Option FileInfo) (before after : List ℕ → Option FileInfo)
    → after key ≡ new
    → (bytes_eq key q ≡ false → after q ≡ before q)
    → after q ≡ (if bytes_eq key q then new else before q)
by_key key q new before after here elsewhere = elim (Bool-cases (bytes_eq key q)) [
  | inl same ↦ rw same (ap after (sym ((bytes_eq_iff key q).0 same)) ∙ here)
  | inr differ ↦ rw differ (elsewhere differ)
]

lookup-put_here :
    (files : Files) (key : List ℕ) (fi : FileInfo) → lookup (put files key fi) key ≡ some fi
lookup-put_here files key fi = ground (arith, lookup-put files key fi key, bytes_eq_iff key key)

pub lookup-touch :
    (files : Files) (key : List ℕ) (s : FileInfo) (q : List ℕ) (prev : Option FileInfo)
    → lookup files key ≡ prev
    → lookup (touch files key prev s) q
      ≡ (if bytes_eq key q then touched_leaf prev s else lookup files q)
unfolding touch touched_leaf touched
lookup-touch files key s q none e = by_key key q none (lookup files) (lookup files) e (λ _. refl)
lookup-touch files key s q (some prev) e =
    by_key key q (touched_leaf (some prev) s) (lookup files)
      (lookup (touch files key (some prev) s))
      (ground (arith, e, lookup-put_here files key (record prev { mod_time_ns = s.mod_time_ns })))
      (λ differ.
        ground
          (arith, e, differ, lookup-put files key (record prev { mod_time_ns = s.mod_time_ns }) q))

lookup-scan_step :
    (self : ℕ) (peers : List Peer) (files : Files) (s : FileInfo) (q : List ℕ)
    → lookup (scan_step self peers files s).0 q ≡ (
        if bytes_eq s.path q
        then scanned_leaf peers self (lookup files s.path) s
        else lookup files q)
unfolding scan_step scanned_leaf
lookup-scan_step self peers files s q = elim (Bool-cases (is_echo (lookup files s.path) s)) [
  | inl echo ↦ rw echo (lookup-touch files s.path s q (lookup files s.path) refl)
  | inr new ↦ rw new (elim (Bool-cases (inflight peers s.path)) [
    | inl busy ↦
        rw busy
          (by_key s.path q (lookup files s.path) (lookup files) (lookup files) refl (λ _. refl))
    | inr free ↦ rw free (lookup-put files s.path (authored (lookup files s.path) s self) q)
  ])
]

-- No two leaves of the scan have one path.
abbrev pub IsDistinct : List FileInfo → Type 0
IsDistinct [] = Unit {0}
IsDistinct (s ∷ scanned) = (has_path scanned s.path ≡ false) × IsDistinct scanned

unfoldable pub scanned_or_kept : List Peer → ℕ → Option FileInfo → Option FileInfo → Option FileInfo
scanned_or_kept peers self prev none = prev
scanned_or_kept peers self prev (some s) = scanned_leaf peers self prev s

absent_leaf :
    (scanned : List FileInfo) (q : List ℕ) → has_path scanned q ≡ false → find_leaf scanned q ≡ none
absent_leaf scanned q h = ground (arith, h, has_path-find_leaf scanned q)

scan_next :
    (self : ℕ) (peers : List Peer) (s : FileInfo) (scanned : List FileInfo) (files : Files)
    (q : List ℕ)
    → has_path scanned s.path ≡ false
    → scanned_or_kept peers self (lookup (scan_step self peers files s).0 q) (find_leaf scanned q)
      ≡ scanned_or_kept peers self (lookup files q) (find_leaf (s ∷ scanned) q)
unfolding find_leaf
scan_next self peers s scanned files q h = elim (Bool-cases (bytes_eq s.path q)) [
  | inr differ ↦
      let kept : lookup (scan_step self peers files s).0 q ≡ lookup files q =
        lookup-scan_step self peers files s q ∙ rw differ refl in
      let passed : find_leaf (s ∷ scanned) q ≡ find_leaf scanned q = ground (arith, differ) in
      ap (λ o. scanned_or_kept peers self o (find_leaf scanned q)) kept
      ∙ ap (scanned_or_kept peers self (lookup files q)) (sym passed)
  | inl same ↦
      let here : s.path ≡ q = (bytes_eq_iff s.path q).0 same in
      let absent : find_leaf scanned q ≡ none =
        absent_leaf scanned q (ap (has_path scanned) (sym here) ∙ h) in
      let met : find_leaf (s ∷ scanned) q ≡ some s = ground (arith, absent, same) in
      let entered : lookup (scan_step self peers files s).0 q
          ≡ scanned_leaf peers self (lookup files q) s =
        lookup-scan_step self peers files s q
        ∙ rw same (ap (λ k. scanned_leaf peers self (lookup files k) s) here) in
      ap (scanned_or_kept peers self (lookup (scan_step self peers files s).0 q)) absent
      ∙ (let chosen : scanned_or_kept peers self (lookup (scan_step self peers files s).0 q) none
              ≡ scanned_or_kept peers self (lookup files q) (some s) =
            unfold scanned_or_kept in entered in
          chosen)
      ∙ ap (scanned_or_kept peers self (lookup files q)) (sym met)
]

lookup-scan_loop :
    (self : ℕ) (peers : List Peer) (scanned : List FileInfo) (files : Files) (q : List ℕ)
    → IsDistinct scanned
    → lookup (scan_loop self peers files scanned).0 q
      ≡ scanned_or_kept peers self (lookup files q) (find_leaf scanned q)
unfolding scan_loop find_leaf
lookup-scan_loop self peers [] files q h = unfold scanned_or_kept in refl
lookup-scan_loop self peers (s ∷ scanned) files q h =
    lookup-scan_loop self peers scanned (scan_step self peers files s).0 q h.1
    ∙ scan_next self peers s scanned files q h.0

unfoldable pub vanished : ℕ → Bool → Option FileInfo → Option FileInfo
vanished self present none = none
vanished self present (some fi) =
    if fi.deleted then some fi else if present then some fi else some (set_deleted fi self)

lookup-vanished_loop :
    (self : ℕ) (scanned : List FileInfo) (files : Files) (q : List ℕ)
    → lookup (vanished_loop self scanned files).0 q
      ≡ vanished self (has_path scanned q) (lookup files q)
unfolding vanished_loop vanished lookup set_deleted
lookup-vanished_loop self scanned [] q = refl
lookup-vanished_loop self scanned ((k, fi) ∷ files) q =
    ground (arith, lookup-vanished_loop self scanned files q, bytes_eq_iff k q)

pub rescanned :
    (self : ℕ) (peers : List Peer) (files : Files) (scanned : List FileInfo) (q : List ℕ)
    → IsDistinct scanned
    → lookup (rescan_files self peers files scanned).0 q
      ≡ vanished self
          (has_path scanned q)
          (scanned_or_kept peers self (lookup files q) (find_leaf scanned q))
unfolding rescan_files
rescanned self peers files scanned q h =
    lookup-vanished_loop self scanned (scan_loop self peers files scanned).0 q
    ∙ ap (vanished self (has_path scanned q)) (lookup-scan_loop self peers scanned files q h)
