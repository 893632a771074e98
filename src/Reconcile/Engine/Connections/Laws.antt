-- ===== src/Reconcile/Engine/Connections/Laws.antt =====
-- A peer that connects, with its INDEX, and a second connection of one device.
use merkle_lan_sync.Base.{
  ℕ, ◌%◌, ◌^◌, ◌<◌, ◌≡◌, refl, sym, ◌∙◌, ap, arith, Bool, true, false, none, List, ◌∷◌, ok,
  if◌then◌else◌, All, bytes_eq, bytes_eq_iff, length,
}
use merkle_lan_sync.Base.Maps.{find, bytes_key, number_key, find-erase}
use merkle_lan_sync.Protocol.Messages.{Hello, Index, Message, index}
use merkle_lan_sync.Merkle.Codec.{decode_file_infos}
use merkle_lan_sync.Merkle.Codec.Wire.{IsLeaf, decode_file_infos-encode_file_infos}
use merkle_lan_sync.Merkle.Tree.{root_hash}
use merkle_lan_sync.Merkle.FileInfo.{FileInfo}
use merkle_lan_sync.Reconcile.Engine.{snapshot_files}
use mathlib.Core.List.{Permᴰ}
use merkle_lan_sync.Reconcile.Engine.Sorted.{
  leaves_of, IsAscending, snapshot_files-perm, snapshot_files-IsAscending, All-perm, length-perm,
  length-leaves_of,
}
use merkle_lan_sync.Reconcile.Engine.Connections.{
  Hub, peer_connected, peer_disconnected, peer_message, send, add_peer, drop_peer, remove_peer,
  index_of, build_index, send_index, on_peer_connected, handle_message, handle_transport_event,
}

sent_either :
    (b : Bool) (x y : Hub) (s t : List (ℕ × Message))
    → x.sent ≡ s
    → y.sent ≡ t
    → (if b then x else y).sent ≡ (if b then s else t)
sent_either true x y s t hx hy = hx
sent_either false x y s t hx hy = hy

-- A device that connects with another root hash is sent one INDEX, and a device that has this root
-- hash already is sent none. The INDEX counts all recorded leaves, the tombstones among them, and the
-- receiver decodes it to exactly them, each as often as it is recorded, in ascending order of their
-- paths. There are fewer than 2 ^ 32, all leaves of the program.
pub on_peer_connected-index :
    (nfc : List ℕ → List ℕ) (folder : List ℕ) (conn : ℕ) (device : List ℕ) (greeting : Hello)
    (h : Hub)
    → All (IsLeaf nfc) (leaves_of h.core.files)
    → length h.core.files < 2 ^ 32
    → (m : Index) × (set : List FileInfo) × ((on_peer_connected folder conn device greeting h).sent
        ≡ (if bytes_eq greeting.root_hash (root_hash h.core.tree)
            then h.sent
            else (conn, index m) ∷ h.sent))
      × (m.folder_id ≡ folder)
      × (m.count ≡ length h.core.files)
      × (decode_file_infos nfc m.body ≡ ok set)
      × Permᴰ (leaves_of h.core.files) set
      × IsAscending set
unfolding on_peer_connected add_peer build_index index_of send_index send
on_peer_connected-index nfc folder conn device greeting h leaves few =
    let set = snapshot_files h.core.files in
    let perm = snapshot_files-perm h.core.files in
    let counted : length set ≡ length h.core.files =
      sym (length-perm perm) ∙ length-leaves_of h.core.files in
    let (body, written, back) =
      decode_file_infos-encode_file_infos nfc set (All-perm (IsLeaf nfc) perm leaves)
        (omega arith) in
    let m : Index = record { folder_id = folder; count = length set % 2 ^ 32; body = body } in
    let h' : Hub = add_peer conn device h in
    let given = ap (λ r. (send_index conn (index_of folder set r) h').sent) written in
    (
      m,
      set,
      sent_either (bytes_eq greeting.root_hash (root_hash h.core.tree)) h' _ h.sent _ refl given,
      refl,
      omega arith,
      back,
      perm,
      snapshot_files-IsAscending h.core.files,
    )

remove_peer-find : (device : List ℕ) (h : Hub) → find device (remove_peer device h).links ≡ none
unfolding remove_peer drop_peer
remove_peer-find device h =
    ground (arith, find-erase device device h.links, bytes_eq_iff device device)

unknown_dropped :
    (nfc sha256 : List ℕ → List ℕ) (self : ℕ) (root device : List ℕ) (m : Message) (h : Hub)
    → find device h.links ≡ none
    → handle_message nfc sha256 self root device m h ≡ h
unfolding handle_message
unknown_dropped nfc sha256 self root device m h gone = rw (handle_message, gone) refl

-- Two connections of one device: when one of them is reported as disconnected, the other, which is
-- still there, is forgotten with it, and each message that comes by it is dropped.
pub second_connection_forgotten :
    (nfc sha256 : List ℕ → List ℕ) (self : ℕ) (root folder device : List ℕ) (conn conn' : ℕ)
    (greeting greeting' : Hello) (m : Message) (h : Hub)
    → let handle = handle_transport_event nfc sha256 self root folder in
      let both =
        handle
          (peer_connected conn' device greeting')
          (handle (peer_connected conn device greeting) h) in
      let left = handle (peer_disconnected device) both in
      handle (peer_message device m) left ≡ left
unfolding handle_transport_event
second_connection_forgotten nfc sha256 self root folder device conn conn' greeting greeting' m h =
    let both : Hub =
      on_peer_connected folder conn' device greeting'
        (on_peer_connected folder conn device greeting h) in
    unknown_dropped nfc sha256 self root device m (remove_peer device both)
      (remove_peer-find device both)
