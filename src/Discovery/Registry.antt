-- ===== src/Discovery/Registry.antt =====
-- internal/discovery/registry.go, the table of the peers that were heard, and the body of `readLoop`
-- of internal/discovery/discovery.go, which feeds it. Times are nanoseconds of one clock.
pub mod Laws
pub mod Replay
pub mod Silence
mod Datagram
use merkle_lan_sync.Base.{
  ℕ, ◌-◌, ◌==◌, Bool, true, false, not, ◌&&◌, ◌||◌, Option, none, some, List, [], ◌∷◌, ◌++◌, Result,
  ok, err, ltb, if◌then◌else◌, length, take, drop, replicate, bytes_eq, Dict, find, store,
  bytes_key,
}
use merkle_lan_sync.Discovery.Announce.{Error, Announcement, decode_announce}

-- A `netip.AddrPort`: the 4 or 16 bytes of the address, and the port.
pub record AddrPort : Type 0 where
  pub addr : List ℕ
  pub port : ℕ

unfoldable pub same_addr : AddrPort → AddrPort → Bool
same_addr a b = bytes_eq a.addr b.addr && a.port == b.port

-- What goes to the engine: a hint where to dial, or that a peer went silent.
pub data Event : Type 0 where
  peer_discovered : List ℕ → AddrPort → Event
  peer_evicted : List ℕ → Event

pub record PeerEntry : Type 0 where
  pub addr : AddrPort
  pub last_seen : ℕ

pub record InAnnounce : Type 0 where
  pub device_id : List ℕ
  pub addr : AddrPort
  pub at : ℕ

abbrev pub Peers : Type 0
Peers = Dict (List ℕ) PeerEntry

pub record Registry : Type 0 where
  pub peers : Peers
  pub evict_timeout : ℕ

unfoldable pub is_news : Option PeerEntry → AddrPort → Bool
is_news none addr = true
is_news (some prev) addr = not (same_addr prev.addr addr)

-- The registry, and the events that it emits in their order.
unfoldable pub handle_announce : Registry → InAnnounce → Registry × List Event
handle_announce r i =
    let events =
      if is_news (find i.device_id r.peers) i.addr
      then peer_discovered i.device_id i.addr ∷ []
      else [] in
    (
      record r { peers = store i.device_id (record { addr = i.addr; last_seen = i.at }) r.peers },
      events,
    )

-- The loop of `sweep` over the peers: what is left of them, and the events.
unfoldable pub sweep_loop : ℕ → ℕ → Peers → Peers × List Event
sweep_loop timeout now [] = ([], [])
sweep_loop timeout now ((id, e) ∷ peers) =
    let (kept, events) = sweep_loop timeout now peers in
    if ltb timeout (now - e.last_seen)
    then (kept, peer_evicted id ∷ events)
    else ((id, e) ∷ kept, events)

unfoldable pub sweep : Registry → ℕ → Registry × List Event
sweep r now =
    let (kept, events) = sweep_loop r.evict_timeout now r.peers in
    (record r { peers = kept }, events)

-- What the actor takes off its channels.
pub data Command : Type 0 where
  announced : InAnnounce → Command
  evict_tick : ℕ → Command

unfoldable pub step : Registry → Command → Registry × List Event
step r (announced i) = handle_announce r i
step r (evict_tick now) = sweep r now

-- The loop of `run` over what arrives.
unfoldable pub run : Registry → List Command → Registry × List Event
run r [] = (r, [])
run r (c ∷ cs) =
    let (r', events) = step r c in let (r'', later) = run r' cs in (r'', events ++ later)

abbrev pub default_evict_timeout : ℕ
default_evict_timeout = 30000000000

-- The registry that `New` starts: an option that is not positive leaves the default.
unfoldable pub new_registry : ℕ → Registry
new_registry timeout = record {
  peers = [];
  evict_timeout = if ltb 0 timeout then timeout else default_evict_timeout;
}

-- `Addr.Unmap`: an IPv4 address in its IPv6 form is taken out of it.
unfoldable pub unmap : List ℕ → List ℕ
unmap a =
    if length a == 16 && bytes_eq (take 12 a) (replicate 10 0 ++ replicate 2 255)
    then drop 12 a
    else a

abbrev pub max_datagram : ℕ
max_datagram = 512

-- What is passed on of a datagram that was decoded, if it is not the own one.
unfoldable pub pass_on : List ℕ → AddrPort → ℕ → Result Error Announcement → Option InAnnounce
pass_on self src now (err e) = none
pass_on self src now (ok ann) =
    if bytes_eq ann.device_id self
    then none
    else some (record {
      device_id = ann.device_id;
      addr = record { addr = unmap src.addr; port = ann.tcp_port };
      at = now;
    })

-- One round of `readLoop`.
unfoldable pub read_datagram : List ℕ → AddrPort → List ℕ → ℕ → Option InAnnounce
read_datagram self src datagram now =
    pass_on self src now (decode_announce (take max_datagram datagram))
