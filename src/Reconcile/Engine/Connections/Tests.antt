-- ===== src/Reconcile/Engine/Connections/Tests.antt =====
-- An engine with one file, and devices that connect.
use merkle_lan_sync.Base.{
  ℕ, ◌≡◌, ◌<◌, ◌^◌, refl, arith, none, All, true, false, pos, List, [], ◌∷◌, ok, replicate,
  if◌then◌else◌, bytes_eq, length,
}
use merkle_lan_sync.Protocol.Messages.{Hello, Index, Request, index, request}
use merkle_lan_sync.Base.Maps.{find, bytes_key}
use merkle_lan_sync.Pathnorm.Slash.{has_prefix, clean}
use merkle_lan_sync.Pathnorm.Canonical.{
  canonicalize_slash, strip_volume_prefix, normalize_component,
}
use merkle_lan_sync.Merkle.FileInfo.{FileInfo, file}
use merkle_lan_sync.Merkle.Codec.{decode_file_infos}
use merkle_lan_sync.Merkle.Codec.Wire.{IsLeaf}
use merkle_lan_sync.Merkle.Tree.{root_hash}
use merkle_lan_sync.Reconcile.Engine.Connections.{
  Hub, peer_connected, peer_disconnected, peer_message, on_peer_connected, handle_transport_event,
}
use merkle_lan_sync.Reconcile.Engine.Connections.Laws.{
  on_peer_connected-index, second_connection_forgotten,
}
use merkle_lan_sync.Reconcile.Engine.Connections.Queues.{IsServed, handle_transport_event-IsServed}
use merkle_lan_sync.Reconcile.Engine.Sorted.{leaves_of, IsAscending}
use mathlib.Core.List.{Permᴰ}

abbrev same : List ℕ → List ℕ
same w = w

abbrev zeros : List ℕ → List ℕ
zeros bytes = replicate 32 0

abbrev note : FileInfo
note = record {
  path = b'n' ∷ [];
  content_hash = replicate 32 7;
  size = 12;
  mode = 420;
  mod_time_ns = pos 4;
  version = record { id = 3; value = 1 } ∷ [];
  deleted = false;
  file_type = file;
}

note_key : canonicalize_slash same (b'n' ∷ []) ≡ ok (b'n' ∷ [])
unfolding canonicalize_slash has_prefix strip_volume_prefix clean normalize_component
note_key = refl

note-IsLeaf : IsLeaf same note
note-IsLeaf = record {
  is_key = note_key;
  path_short = omega arith;
  hash_size = refl;
  size_fits = omega arith;
  mode_fits = omega arith;
  time_fits = omega arith;
  version_canonical = omega arith;
  version_fits = omega arith;
}

-- A deleted file, whose path comes before that of the note.
abbrev buried : FileInfo
buried = record note { path = b'b' ∷ []; deleted = true }

buried_key : canonicalize_slash same (b'b' ∷ []) ≡ ok (b'b' ∷ [])
unfolding canonicalize_slash has_prefix strip_volume_prefix clean normalize_component
buried_key = refl

buried-IsLeaf : IsLeaf same buried
buried-IsLeaf = record {
  is_key = buried_key;
  path_short = omega arith;
  hash_size = refl;
  size_fits = omega arith;
  mode_fits = omega arith;
  time_fits = omega arith;
  version_canonical = omega arith;
  version_fits = omega arith;
}

abbrev hub : Hub
hub = record {
  core = record {
    files = (b'n' ∷ [], note) ∷ (b'b' ∷ [], buried) ∷ [];
    tree = none;
    peers = [];
    reseed = false;
    outbound = [];
    removed = [];
  };
  links = [];
  orphans = [];
  dialing = [];
  sent = [];
}

abbrev device : List ℕ
device = replicate 32 9

abbrev greeting : Hello
greeting = record {
  proto_version = 1;
  device_id = device;
  folder_id = [];
  root_hash = replicate 32 1;
  feature_flags = 0;
}

abbrev asked : Request
asked = record { req_id = 1; path = b'n' ∷ []; content_hash = replicate 32 7; offset = 0; len = 12 }

leaves_fine : All (IsLeaf same) (leaves_of hub.core.files)
leaves_fine = (note-IsLeaf, (buried-IsLeaf, tt))

leaves_few : length hub.core.files < 2 ^ 32
leaves_few = omega arith

on_peer_connected-index_example :
    (m : Index) × (set : List FileInfo) × ((on_peer_connected [] 1 device greeting hub).sent ≡ (
      if bytes_eq greeting.root_hash (root_hash hub.core.tree)
      then hub.sent
      else (1, index m) ∷ hub.sent))
    × (m.folder_id ≡ [])
    × (m.count ≡ length hub.core.files)
    × (decode_file_infos same m.body ≡ ok set)
    × Permᴰ (leaves_of hub.core.files) set
    × IsAscending set
on_peer_connected-index_example =
    on_peer_connected-index same [] 1 device greeting hub leaves_fine leaves_few

second_connection_forgotten_example :
    let handle = handle_transport_event same zeros 5 [] [] in
    let both =
      handle (peer_connected 2 device greeting) (handle (peer_connected 1 device greeting) hub) in
    let left = handle (peer_disconnected device) both in
    handle (peer_message device (request asked)) left ≡ left
second_connection_forgotten_example =
    second_connection_forgotten same zeros 5 [] [] device 1 2 greeting greeting (request asked) hub

-- A device with one request in its queue, and a second queue from an earlier connection.
abbrev linked : Hub
linked = record hub {
  links = (device, record { conn = 2; serve_queue = asked ∷ []; waiting = [] }) ∷ [];
  orphans = record { conn = 1; serve_queue = asked ∷ []; waiting = [] } ∷ [];
}

linked-IsServed : IsServed linked
unfolding find
linked-IsServed = (λ d. ground arith, (omega arith, tt))

handle_transport_event-IsServed_example :
    IsServed
      (handle_transport_event same zeros 5 [] [] (peer_message device (request asked)) linked)
handle_transport_event-IsServed_example =
    handle_transport_event-IsServed same zeros 5 [] [] (peer_message device (request asked)) linked
      linked-IsServed
