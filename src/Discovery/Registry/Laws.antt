-- ===== src/Discovery/Registry/Laws.antt =====
-- The table of peers, device by device.
use merkle_lan_sync.Base.{
  ℕ, ◌-◌, ◌≡◌, refl, ◌∙◌, arith, Option, none, some, List, [], ◌∷◌, ltb, if◌then◌else◌, bytes_eq,
  bytes_eq_iff,
}
use merkle_lan_sync.Base.Maps.{find, IsMap, find-store, store-IsMap, bytes_key}
use merkle_lan_sync.Discovery.Registry.{
  PeerEntry, Registry, Peers, Command, announced, evict_tick, handle_announce, sweep_loop, sweep,
  step, run,
}

-- What one device alone is to the registry: it is heard, and it is forgotten when a tick finds it
-- silent for longer than the timeout.
abbrev pub view : ℕ → List ℕ → Option PeerEntry → Command → Option PeerEntry
view timeout id e (announced i) =
    if bytes_eq i.device_id id then some (record { addr = i.addr; last_seen = i.at }) else e
view timeout id none (evict_tick now) = none
view timeout id (some e) (evict_tick now) = if ltb timeout (now - e.last_seen) then none else some e

abbrev pub view_all : ℕ → List ℕ → Option PeerEntry → List Command → Option PeerEntry
view_all timeout id e [] = e
view_all timeout id e (c ∷ cs) = view_all timeout id (view timeout id e c) cs

pub find-sweep_loop :
    (timeout now : ℕ) (peers : Peers) (id : List ℕ)
    → IsMap peers
    → find id (sweep_loop timeout now peers).0 ≡ view timeout id (find id peers) (evict_tick now)
unfolding sweep_loop find
find-sweep_loop timeout now [] id m = refl
find-sweep_loop timeout now ((k, e) ∷ peers) id m =
    ground (arith, find-sweep_loop timeout now peers id m.1, bytes_eq_iff k id, m.0)

pub sweep_loop-IsMap :
    (timeout now : ℕ) (peers : Peers) → IsMap peers → IsMap (sweep_loop timeout now peers).0
unfolding sweep_loop
sweep_loop-IsMap timeout now [] m = tt
sweep_loop-IsMap timeout now ((k, e) ∷ peers) m =
    ground
      (arith, sweep_loop-IsMap timeout now peers m.1, find-sweep_loop timeout now peers k m.1, m.0)

pub step-IsMap : (r : Registry) (c : Command) → IsMap r.peers → IsMap (step r c).0.peers
unfolding step handle_announce sweep
step-IsMap r (announced i) m =
    store-IsMap i.device_id (record { addr = i.addr; last_seen = i.at }) r.peers m
step-IsMap r (evict_tick now) m = sweep_loop-IsMap r.evict_timeout now r.peers m

pub timeout-step : (r : Registry) (c : Command) → (step r c).0.evict_timeout ≡ r.evict_timeout
unfolding step handle_announce sweep
timeout-step r (announced i) = refl
timeout-step r (evict_tick now) = refl

pub find-step :
    (r : Registry) (c : Command) (id : List ℕ)
    → IsMap r.peers
    → find id (step r c).0.peers ≡ view r.evict_timeout id (find id r.peers) c
unfolding step handle_announce sweep
find-step r (announced i) id m =
    find-store id i.device_id (record { addr = i.addr; last_seen = i.at }) r.peers
find-step r (evict_tick now) id m = find-sweep_loop r.evict_timeout now r.peers id m

-- Whatever arrives in whatever order, what the registry holds of a device is what that device's own
-- announcements and the ticks give on their own: no other peer disturbs it. The table is a map.
pub find-run :
    (r : Registry) (cs : List Command) (id : List ℕ)
    → IsMap r.peers
    → find id (run r cs).0.peers ≡ view_all r.evict_timeout id (find id r.peers) cs
unfolding run
find-run r [] id m = refl
find-run r (c ∷ cs) id m =
    find-run (step r c).0 cs id (step-IsMap r c m) ∙ rw (timeout-step r c, find-step r c id m) refl
