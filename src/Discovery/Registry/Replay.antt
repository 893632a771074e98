-- ===== src/Discovery/Registry/Replay.antt =====
-- The events of the registry against its table.
use merkle_lan_sync.Base.{
  ℕ, ◌-◌, ◌≡◌, refl, ap, ◌∙◌, arith, true, Option, none, some, List, [], ◌∷◌, ◌++◌, ltb,
  if◌then◌else◌, bytes_eq, bytes_eq_iff,
}
use merkle_lan_sync.Base.Maps.{find, IsMap, bytes_key}
use merkle_lan_sync.Discovery.Registry.{
  AddrPort, same_addr, Event, peer_discovered, peer_evicted, PeerEntry, Registry, Peers, Command,
  announced, evict_tick, is_news, handle_announce, sweep_loop, sweep, step, run,
}
use merkle_lan_sync.Discovery.Registry.Laws.{find-step, step-IsMap}

-- What a consumer of the events knows of a device: the address of the last hint, until the peer is
-- evicted.
abbrev pub learn : List ℕ → Option AddrPort → Event → Option AddrPort
learn id known (peer_discovered i a) = if bytes_eq i id then some a else known
learn id known (peer_evicted i) = if bytes_eq i id then none else known

abbrev pub learn_all : List ℕ → Option AddrPort → List Event → Option AddrPort
learn_all id known [] = known
learn_all id known (ev ∷ evs) = learn_all id (learn id known ev) evs

abbrev pub addr_of : Option PeerEntry → Option AddrPort
addr_of none = none
addr_of (some e) = some e.addr

pub learn_all-append :
    (id : List ℕ) (known : Option AddrPort) (xs ys : List Event)
    → learn_all id known (xs ++ ys) ≡ learn_all id (learn_all id known xs) ys
learn_all-append id known [] ys = refl
learn_all-append id known (x ∷ xs) ys = learn_all-append id (learn id known x) xs ys

same_addr_eq : (a b : AddrPort) → same_addr a b ≡ true → a ≡ b
unfolding same_addr
same_addr_eq a b h = ground (arith, bytes_eq_iff a.addr b.addr)

-- What an eviction leaves of the knowledge of a device with this entry.
abbrev left : ℕ → ℕ → Option PeerEntry → Option AddrPort → Option AddrPort
left timeout now none known = known
left timeout now (some e) known = if ltb timeout (now - e.last_seen) then none else known

learn_all-sweep_loop :
    (timeout now : ℕ) (peers : Peers) (id : List ℕ) (known : Option AddrPort)
    → IsMap peers
    → learn_all id known (sweep_loop timeout now peers).1 ≡ left timeout now (find id peers) known
unfolding sweep_loop find
learn_all-sweep_loop timeout now [] id known m = refl
learn_all-sweep_loop timeout now ((k, e) ∷ peers) id known m = ground (
  arith,
  learn_all-sweep_loop timeout now peers id known m.1,
  learn_all-sweep_loop timeout now peers id none m.1,
  bytes_eq_iff k id,
  m.0,
)

learn_all-announced :
    (prev mine : Option PeerEntry) (heard id : List ℕ) (a : AddrPort)
    → (bytes_eq heard id ≡ true → prev ≡ mine)
    → learn_all id (addr_of mine) (if is_news prev a then peer_discovered heard a ∷ [] else [])
      ≡ (if bytes_eq heard id then some a else addr_of mine)
unfolding is_news
learn_all-announced none mine heard id a same = ground arith
learn_all-announced (some prev) mine heard id a same = ground (arith, same_addr_eq prev.addr a)

pub learn_all-step :
    (r : Registry) (c : Command) (id : List ℕ)
    → IsMap r.peers
    → learn_all id (addr_of (find id r.peers)) (step r c).1 ≡ addr_of (find id (step r c).0.peers)
unfolding step handle_announce sweep
learn_all-step r (announced i) id m =
    let events =
      learn_all-announced (find i.device_id r.peers) (find id r.peers) i.device_id id i.addr
        (λ h. ap (λ k. find k r.peers) ((bytes_eq_iff i.device_id id).0 h)) in
    ground (arith, events, find-step r (announced i) id m)
learn_all-step r (evict_tick now) id m =
    let events =
      learn_all-sweep_loop r.evict_timeout now r.peers id (addr_of (find id r.peers)) m in
    ground (arith, find-step r (evict_tick now) id m, events)

-- A consumer that applies the events in their order knows of each device exactly what the registry
-- holds: that it is there and its last address, or that it is not. It is so for every sequence of
-- announcements and ticks, when it is so before them, in a table that is a map.
pub learn_all-run :
    (r : Registry) (cs : List Command) (id : List ℕ)
    → IsMap r.peers
    → learn_all id (addr_of (find id r.peers)) (run r cs).1 ≡ addr_of (find id (run r cs).0.peers)
unfolding run
learn_all-run r [] id m = refl
learn_all-run r (c ∷ cs) id m =
    let r' : Registry = (step r c).0 in
    learn_all-append id (addr_of (find id r.peers)) (step r c).1 (run r' cs).1
    ∙ (ap (λ k. learn_all id k (run r' cs).1) (learn_all-step r c id m)
        ∙ learn_all-run r' cs id (step-IsMap r c m))
