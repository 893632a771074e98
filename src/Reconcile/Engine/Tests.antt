-- ===== src/Reconcile/Engine/Tests.antt =====
-- An engine that knows one file, a snapshot of that file, and a scan without it.
use merkle_lan_sync.Base.{
  ℕ, ◌≡◌, ◌<◌, ◌+◌, ◌^◌, refl, arith, true, false, not, ◌||◌, none, some, List, [], ◌∷◌, replicate,
  pos, if◌then◌else◌, bytes_eq, ◌⊎◌,
}
use merkle_lan_sync.Protocol.VersionVector.{get, causality, equal, dominates}
use merkle_lan_sync.Protocol.VersionVector.Canonical.{IsCanonical}
use merkle_lan_sync.Merkle.FileInfo.{FileInfo, file}
use merkle_lan_sync.Merkle.Tree.Lookup.{find_leaf}
use merkle_lan_sync.Reconcile.Tombstone.{lookup}
use merkle_lan_sync.Reconcile.Startup.{recovered_files, startup_reconcile, internal_file, has_path}
use merkle_lan_sync.Reconcile.Startup.Laws.{unchanged, version-recovered_files}
use merkle_lan_sync.Reconcile.Engine.{State, Peer, has_key, inflight}
use merkle_lan_sync.Reconcile.Engine.Peers.{reconcile_with_peer}
use merkle_lan_sync.Reconcile.Engine.Bounded.{IsBounded, reconcile_with_peer-IsBounded}
use merkle_lan_sync.Reconcile.Engine.Local.{found, on_local_change, rescan_files}
use merkle_lan_sync.Reconcile.Engine.Current.{IsCurrent, rescan_files-IsCurrent}
use merkle_lan_sync.Reconcile.Engine.Authorship.{
  IsAuthored, IsSilent, IsNews, on_local_change_authorship,
}

abbrev self : ℕ
self = 3

abbrev name : List ℕ
name = b'n' ∷ []

abbrev note : FileInfo
note = record {
  path = name;
  content_hash = replicate 32 5;
  size = 1;
  mode = 420;
  mod_time_ns = pos 0;
  version = record { id = 3; value = 1 } ∷ [];
  deleted = false;
  file_type = file;
}

abbrev other : FileInfo
other = record note { path = b'o' ∷ [] }

abbrev running : State
running = record {
  files = (name, note) ∷ [];
  tree = none;
  peers = [];
  reseed = false;
  outbound = [];
  removed = [];
}

note_saved : find_leaf (note ∷ []) name ≡ some note
unfolding find_leaf bytes_eq
note_saved = refl

note-IsCanonical : IsCanonical note.version
note-IsCanonical = omega arith

note_room : get note.version self + 1 < 2 ^ 64
unfolding get
note_room = omega arith

other_alone : has_path [] other.path ≡ false
unfolding has_path
other_alone = refl

version-recovered_files_example :
    (r : FileInfo) × (lookup (recovered_files (note ∷ []) (other ∷ []) self) name ≡ some r)
    × (causality r.version note.version ≡ (
        if unchanged note (if internal_file name then none else find_leaf (other ∷ []) name)
        then equal
        else dominates))
    × (lookup (startup_reconcile (note ∷ []) (other ∷ []) self none).0 name ≡ some r)
version-recovered_files_example =
    version-recovered_files (note ∷ []) (other ∷ []) self name note note_saved note-IsCanonical
      note_room

nothing_in_flight : inflight [] name ≡ false
unfolding inflight
nothing_in_flight = refl

rescan_files-IsCurrent_example :
    IsCurrent
      (lookup (rescan_files self [] ((name, note) ∷ []) (other ∷ [])).0 name)
      (find_leaf (other ∷ []) name)
rescan_files-IsCurrent_example =
    rescan_files-IsCurrent self [] ((name, note) ∷ []) (other ∷ []) name (other_alone, tt)
      (refl, tt) nothing_in_flight

-- The note with other content.
abbrev edited : FileInfo
edited = record note { content_hash = replicate 32 6 }

on_local_change_authorship_example :
    let after = on_local_change (λ bs. bs) self running name (found edited) in
    let free = not (internal_file name || inflight [] name) in
    ((free ≡ true)
      × IsNews (lookup ((name, note) ∷ []) name) (found edited)
      × IsAuthored self name (found edited) running after)
    ⊎ (((free ≡ false) ⊎ (¬ IsNews (lookup ((name, note) ∷ []) name) (found edited)))
        × IsSilent running after)
on_local_change_authorship_example =
    on_local_change_authorship (λ bs. bs) self running name (found edited)

abbrev waiting : Peer
waiting = record {
  device = replicate 32 9;
  short = 5;
  index = (b'o' ∷ [], other) ∷ [];
  inflight = name ∷ [];
  fetch_queue =
      record { leaf = note; advertise = false; preserve = none; preserve_advertise = false } ∷ [];
}

waiting-IsBounded : IsBounded waiting
unfolding has_key bytes_eq
waiting-IsBounded = (omega arith, (refl, tt))

reconcile_with_peer-IsBounded_example :
    IsBounded (reconcile_with_peer (λ w. w) (λ bs. bs) (b'/' ∷ []) running waiting).1
reconcile_with_peer-IsBounded_example =
    reconcile_with_peer-IsBounded (λ w. w) (λ bs. bs) (b'/' ∷ []) running waiting waiting-IsBounded
