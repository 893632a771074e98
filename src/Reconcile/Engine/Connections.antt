-- ===== src/Reconcile/Engine/Connections.antt =====
-- internal/reconcile/engine.go: what the loop does about the events of transport and of discovery.
mod Tests
pub mod Laws
pub mod Queues
use merkle_lan_sync.Base.{
  ℕ, ◌+◌, ◌%◌, ◌^◌, Bool, true, false, not, ◌&&◌, ◌||◌, Option, none, some, List, [], ◌∷◌, ◌++◌,
  Result, ok, err, if◌then◌else◌, ◌==◌, bytes_eq, ltb, length, Dict, find, store, erase, bytes_key,
  number_key,
}
use merkle_lan_sync.Discovery.Registry as Registry
use merkle_lan_sync.Discovery.Registry.{AddrPort}
use merkle_lan_sync.Protocol.DeviceId.{short}
use merkle_lan_sync.Protocol.Messages.{
  Hello, Index, Request, Response, Message, hello, index, index_update, request, response, ping,
  close, code_generic,
}
use merkle_lan_sync.Merkle.Codec.{Error, encode_file_infos}
use merkle_lan_sync.Merkle.FileInfo.{FileInfo}
use merkle_lan_sync.Merkle.Tree.{root_hash}
use merkle_lan_sync.Reconcile.Engine.{State, Peer, snapshot_files}
use merkle_lan_sync.Reconcile.Engine.Completions.{on_index, on_index_update}

abbrev pub serve_queue_depth : ℕ
serve_queue_depth = 64

-- What the loop and the goroutines of a peer share beside the state of the loop: the connection, the
-- requests that wait to be served, and for each request that was sent the buffer of its response.
pub record Link : Type 0 where
  pub conn : ℕ
  pub serve_queue : List Request
  pub waiting : Dict ℕ (Option Response)

-- The engine with its links, the links that a second connection of a device has pushed out of the
-- table, whose goroutines go on, the devices that are being dialled, and the messages that were given
-- to the connections, the last one first.
pub record Hub : Type 0 where
  pub core : State
  pub links : Dict (List ℕ) Link
  pub orphans : List Link
  pub dialing : Dict (List ℕ) (Unit {0})
  pub sent : List (ℕ × Message)

unfoldable pub send : ℕ → Message → Hub → Hub
send conn m h = record h { sent = (conn, m) ∷ h.sent }

-- `peerByDevice`
unfoldable pub peer_by_device : List Peer → List ℕ → Option Peer
peer_by_device [] device = none
peer_by_device (ps ∷ peers) device =
    let later = peer_by_device peers device in if bytes_eq ps.device device then some ps else later

unfoldable pub without : List ℕ → List Peer → List Peer
without device [] = []
without device (ps ∷ peers) =
    let rest = without device peers in if bytes_eq ps.device device then rest else ps ∷ rest

unfoldable pub new_peer : List ℕ → Peer
new_peer device = record {
  device = device;
  short = short device;
  index = [];
  inflight = [];
  fetch_queue = [];
}

unfoldable pub new_link : ℕ → Link
new_link conn = record { conn = conn; serve_queue = []; waiting = [] }

-- What the table had for the device stays beside it: nothing ends the goroutines of that link.
unfoldable pub pushed_out : Option Link → List Link → List Link
pushed_out none orphans = orphans
pushed_out (some link) orphans = link ∷ orphans

unfoldable pub add_peer : ℕ → List ℕ → Hub → Hub
add_peer conn device h = record h {
  core = record h.core { peers = new_peer device ∷ without device h.core.peers };
  links = store device (new_link conn) h.links;
  orphans = pushed_out (find device h.links) h.orphans;
}

unfoldable pub drop_peer : List ℕ → Hub → Hub
drop_peer device h = record h {
  core = record h.core { peers = without device h.core.peers };
  links = erase device h.links;
}

unfoldable pub remove_peer : List ℕ → Hub → Hub
remove_peer device h = elim (find device h.links) [ none ↦ h | some link ↦ drop_peer device h ]

unfoldable pub index_of : List ℕ → List FileInfo → Result Error (List ℕ) → Result Error Index
index_of folder set (err e) = err e
index_of folder set (ok body) =
    ok (record { folder_id = folder; count = length set % 2 ^ 32; body = body })

unfoldable pub build_index : List ℕ → State → Result Error Index
build_index folder st =
    index_of folder (snapshot_files st.files) (encode_file_infos (snapshot_files st.files))

unfoldable pub send_index : ℕ → Result Error Index → Hub → Hub
send_index conn (err e) h = h
send_index conn (ok m) h = send conn (index m) h

unfoldable pub on_peer_connected : List ℕ → ℕ → List ℕ → Hello → Hub → Hub
on_peer_connected folder conn device greeting h =
    let h' = add_peer conn device h in
    if bytes_eq greeting.root_hash (root_hash h'.core.tree)
    then h'
    else send_index conn (build_index folder h'.core) h'

-- A request is queued for the server, or declined at once where the queue is full.
unfoldable pub route_request : List ℕ → Link → Request → Hub → Hub
route_request device link req h =
    if ltb (length link.serve_queue) serve_queue_depth
    then record h {
      links = store device (record link { serve_queue = link.serve_queue ++ (req ∷ []) }) h.links;
    }
    else send link.conn (response (record { req_id = req.req_id; code = code_generic; chunk = [] }))
        h

-- The buffer of a request holds one response.
unfoldable pub buffered : ℕ → Option (Option Response) → Response → Link → Link
buffered id none resp link = link
buffered id (some none) resp link = record link { waiting = store id (some resp) link.waiting }
buffered id (some (some first)) resp link = link

unfoldable pub route_response : List ℕ → Link → Response → Hub → Hub
route_response device link resp h = record h {
  links = store device (buffered resp.req_id (find resp.req_id link.waiting) resp link) h.links;
}

-- The state of the loop after an index message of a device.
unfoldable pub with_index : (State → Peer → List ℕ → State) → List ℕ → List ℕ → Hub → Hub
with_index f device body h = elim (peer_by_device h.core.peers device) [
  | none ↦ h
  | some ps ↦ record h { core = f h.core ps body }
]

-- The events of transport.
pub data Event : Type 0 where
  peer_connected : ℕ → List ℕ → Hello → Event
  peer_disconnected : List ℕ → Event
  peer_message : List ℕ → Message → Event

module _ (nfc sha256 : List ℕ → List ℕ) (self : ℕ) (root : List ℕ) where
  unfoldable pub dispatch : List ℕ → Link → Message → Hub → Hub
  dispatch device link (index m) h = with_index (on_index nfc sha256 self root) device m.body h
  dispatch device link (index_update m) h =
      with_index (on_index_update nfc sha256 self root) device m.body h
  dispatch device link (request req) h = route_request device link req h
  dispatch device link (response resp) h = route_response device link resp h
  dispatch device link ping h = h
  dispatch device link (close reason) h = h
  dispatch device link (hello greeting) h = h

  unfoldable pub handle_message : List ℕ → Message → Hub → Hub
  handle_message device m h = elim (find device h.links) [
    | none ↦ h
    | some link ↦ dispatch device link m h
  ]

  unfoldable pub handle_transport_event : List ℕ → Event → Hub → Hub
  handle_transport_event folder (peer_connected conn device greeting) h =
      on_peer_connected folder conn device greeting h
  handle_transport_event folder (peer_disconnected device) h = remove_peer device h
  handle_transport_event folder (peer_message device m) h = handle_message device m h

unfoldable pub is_known : {A : Type 0} → Option A → Bool
is_known none = false
is_known (some a) = true

-- `Addr.IsValid`
unfoldable pub is_valid : AddrPort → Bool
is_valid a = length a.addr == 4 || length a.addr == 16

-- The state after a hint, and whether its device is dialled.
unfoldable pub on_peer_discovered : List ℕ → Registry.Event → Hub → Hub × Bool
on_peer_discovered own (Registry.peer_evicted device) h = (h, false)
on_peer_discovered own (Registry.peer_discovered device addr) h =
    if bytes_eq device own || not (is_valid addr)
    then (h, false)
    else if is_known (find device h.links) || is_known (find device h.dialing)
    then (h, false)
    else (record h { dialing = store device tt h.dialing }, true)

-- A dial has ended, one way or the other.
unfoldable pub on_dial_done : List ℕ → Hub → Hub
on_dial_done device h = record h { dialing = erase device h.dialing }
