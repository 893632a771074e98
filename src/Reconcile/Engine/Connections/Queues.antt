-- ===== src/Reconcile/Engine/Connections/Queues.antt =====
-- internal/reconcile/engine.go: the queues of requests for the servers, over the events of the loop.
use merkle_lan_sync.Base.{
  sym, ℕ, ◌≤◌, ◌≡◌, refl, arith, inl, inr, ◌⊎◌, Bool, true, false, Option, none, some, Option-cases,
  List, [], ◌∷◌, ◌++◌, Result, ok, err, if◌then◌else◌, All, bytes_eq, bytes_eq_iff, length,
  length-append,
}
use mathlib.Core.Path.{subst}
use merkle_lan_sync.Base.Maps.{find, bytes_key, number_key, find-store, find-erase}
use merkle_lan_sync.Protocol.Messages.{
  Hello, Index, Request, Response, Message, hello, index, index_update, request, response, ping,
  close, code_generic,
}
use merkle_lan_sync.Merkle.Codec.{Error}
use merkle_lan_sync.Merkle.Tree.{root_hash}
use merkle_lan_sync.Reconcile.Engine.{State, Peer}
use merkle_lan_sync.Reconcile.Engine.Connections.{
  Link, Hub, Event, peer_connected, peer_disconnected, peer_message, serve_queue_depth, send,
  add_peer, new_link, pushed_out, drop_peer, remove_peer, build_index, send_index,
  on_peer_connected, route_request, buffered, route_response, with_index, dispatch, handle_message,
  handle_transport_event,
}

-- A request is never dropped: it is the last in the queue of the server, or it is declined under its
-- own number on the connection that it came by.
pub route_request_answered :
    (device : List ℕ) (link : Link) (req : Request) (h : Hub)
    → let after = route_request device link req h in
      (find device after.links
        ≡ some (record link { serve_queue = link.serve_queue ++ (req ∷ []) }))
      ⊎ (after.sent
          ≡ (link.conn, response (record { req_id = req.req_id; code = code_generic; chunk = [] }))
            ∷ h.sent)
unfolding route_request send
route_request_answered device link req h = ground (
  arith,
  find-store device device (record link { serve_queue = link.serve_queue ++ (req ∷ []) }) h.links,
  bytes_eq_iff device device,
)

-- The length of the queue of a device.
abbrev pub queued : Option Link → ℕ
queued none = 0
queued (some link) = length link.serve_queue

-- The queue of the device in the table has at most its depth.
abbrev IsRoom : List ℕ → Hub → Type 0
IsRoom device h = queued (find device h.links) ≤ serve_queue_depth

route_request-IsRoom :
    (device other : List ℕ) (link : Link) (req : Request) (h : Hub)
    → IsRoom device h
    → IsRoom device (route_request other link req h)
unfolding route_request send
route_request-IsRoom device other link req h served =
    let next : Link = record link { serve_queue = link.serve_queue ++ (req ∷ []) } in
    ground
      (arith, find-store device other next h.links, length-append {0} link.serve_queue (req ∷ []))

same_queue :
    (id : ℕ) (b : Option (Option Response)) (resp : Response) (link : Link)
    → (buffered id b resp link).serve_queue ≡ link.serve_queue
unfolding buffered
same_queue id none resp link = refl
same_queue id (some none) resp link = refl
same_queue id (some (some first)) resp link = refl

route_response-IsRoom :
    (device other : List ℕ) (link : Link) (resp : Response) (h : Hub)
    → find other h.links ≡ some link
    → IsRoom device h
    → IsRoom device (route_response other link resp h)
unfolding route_response
route_response-IsRoom device other link resp h found served =
    let b = find resp.req_id link.waiting in
    ground (
      arith,
      bytes_eq_iff other device,
      found,
      same_queue resp.req_id b resp link,
      find-store device other (buffered resp.req_id b resp link) h.links,
    )

-- No queue for the server is past its depth: neither that of a device in the table, nor that of a
-- link that a second connection has pushed out of it.
abbrev pub IsServed : Hub → Type 0
IsServed h =
    ((device : List ℕ) → queued (find device h.links) ≤ serve_queue_depth)
    × All (λ link. length link.serve_queue ≤ serve_queue_depth) h.orphans

-- What leaves the links as they are.
same_links-IsServed :
    (h after : Hub)
    → after.links ≡ h.links
    → after.orphans ≡ h.orphans
    → IsServed h
    → IsServed after
same_links-IsServed h after links orphans served = (
  λ device. subst (λ l. queued (find device l) ≤ serve_queue_depth) (sym links) (served.0 device),
  subst (All (λ link. length link.serve_queue ≤ serve_queue_depth)) (sym orphans) served.1,
)

route_request-IsServed :
    (other : List ℕ) (link : Link) (req : Request) (h : Hub)
    → IsServed h
    → IsServed (route_request other link req h)
route_request-IsServed other link req h served = (
  λ device. route_request-IsRoom device other link req h (served.0 device),
  subst (All (λ link. length link.serve_queue ≤ serve_queue_depth)) (sym kept) served.1,
)
  where
    kept : (route_request other link req h).orphans ≡ h.orphans
    kept = unfold route_request send in ground arith

with_index-IsServed :
    (f : State → Peer → List ℕ → State) (device body : List ℕ) (h : Hub)
    → IsServed h
    → IsServed (with_index f device body h)
unfolding with_index
with_index-IsServed f device body h =
    same_links-IsServed h (with_index f device body h) (ground arith) (ground arith)

send_index-IsServed :
    (conn : ℕ) (r : Result Error Index) (h : Hub) → IsServed h → IsServed (send_index conn r h)
unfolding send_index send
send_index-IsServed conn (err e) h served = served
send_index-IsServed conn (ok m) h served = served

pushed_out-fits :
    (old : Option Link) (orphans : List Link)
    → queued old ≤ serve_queue_depth
    → All (λ link. length link.serve_queue ≤ serve_queue_depth) orphans
    → All (λ link. length link.serve_queue ≤ serve_queue_depth) (pushed_out old orphans)
unfolding pushed_out
pushed_out-fits none orphans short fits = fits
pushed_out-fits (some link) orphans short fits = (short, fits)

add_peer-IsServed :
    (conn : ℕ) (other : List ℕ) (h : Hub) → IsServed h → IsServed (add_peer conn other h)
unfolding add_peer new_link
add_peer-IsServed conn other h served = (
  λ device.
      let before = served.0 device in
      ground (arith, find-store device other (new_link conn) h.links),
  pushed_out-fits (find other h.links) h.orphans (served.0 other) served.1,
)

either-IsServed : (b : Bool) (x y : Hub) → IsServed x → IsServed y → IsServed (if b then x else y)
either-IsServed true x y hx hy = hx
either-IsServed false x y hx hy = hy

on_peer_connected-IsServed :
    (folder : List ℕ) (conn : ℕ) (other : List ℕ) (greeting : Hello) (h : Hub)
    → IsServed h
    → IsServed (on_peer_connected folder conn other greeting h)
unfolding on_peer_connected
on_peer_connected-IsServed folder conn other greeting h served =
    let h' : Hub = add_peer conn other h in
    let added : IsServed h' = add_peer-IsServed conn other h served in
    either-IsServed (bytes_eq greeting.root_hash (root_hash h'.core.tree)) h'
      (send_index conn (build_index folder h'.core) h') added
      (send_index-IsServed conn (build_index folder h'.core) h' added)

drop_peer-IsServed : (other : List ℕ) (h : Hub) → IsServed h → IsServed (drop_peer other h)
unfolding drop_peer
drop_peer-IsServed other h served = (
  λ device. let before = served.0 device in ground (arith, find-erase device other h.links),
  served.1,
)

remove_peer-IsServed : (other : List ℕ) (h : Hub) → IsServed h → IsServed (remove_peer other h)
unfolding remove_peer
remove_peer-IsServed other h served = elim (Option-cases (find other h.links)) [
  | inl gone ↦ rw (remove_peer, gone) served
  | inr (link, here) ↦ rw (remove_peer, here) (drop_peer-IsServed other h served)
]

module _ (nfc sha256 : List ℕ → List ℕ) (self : ℕ) (root : List ℕ) where
  dispatch-IsServed :
      (other : List ℕ) (link : Link) (m : Message) (h : Hub)
      → find other h.links ≡ some link
      → IsServed h
      → IsServed (dispatch nfc sha256 self root other link m h)
  unfolding dispatch route_response
  dispatch-IsServed other link (index m) h found served =
      with_index-IsServed _ other m.body h served
  dispatch-IsServed other link (index_update m) h found served =
      with_index-IsServed _ other m.body h served
  dispatch-IsServed other link (request req) h found served =
      route_request-IsServed other link req h served
  dispatch-IsServed other link (response resp) h found served =
      (λ device. route_response-IsRoom device other link resp h found (served.0 device), served.1)
  dispatch-IsServed other link ping h found served = served
  dispatch-IsServed other link (close reason) h found served = served
  dispatch-IsServed other link (hello greeting) h found served = served

  handle_message-IsServed :
      (other : List ℕ) (m : Message) (h : Hub)
      → IsServed h
      → IsServed (handle_message nfc sha256 self root other m h)
  unfolding handle_message
  handle_message-IsServed other m h served = elim (Option-cases (find other h.links)) [
    | inl gone ↦ rw (handle_message, gone) served
    | inr (link, here) ↦ rw (handle_message, here) (dispatch-IsServed other link m h here served)
  ]

  -- Whatever events the peers cause, no more than 64 requests wait in any one queue for the server:
  -- each event keeps this of the queue of each device, and of each queue that a second connection of
  -- its device has pushed out of the table.
  pub handle_transport_event-IsServed :
      (folder : List ℕ) (ev : Event) (h : Hub)
      → IsServed h
      → IsServed (handle_transport_event nfc sha256 self root folder ev h)
  unfolding handle_transport_event
  handle_transport_event-IsServed folder (peer_connected conn other greeting) h served =
      on_peer_connected-IsServed folder conn other greeting h served
  handle_transport_event-IsServed folder (peer_disconnected other) h served =
      remove_peer-IsServed other h served
  handle_transport_event-IsServed folder (peer_message other m) h served =
      handle_message-IsServed other m h served
