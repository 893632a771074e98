-- ===== src/Discovery/Registry/Silence.antt =====
-- When a peer is forgotten, and that no event says what was known.
use merkle_lan_sync.Base.{
  ℕ, ◌+◌, ◌≡◌, ◌≢◌, ◌∙◌, refl, arith, Bool, true, false, ◌||◌, Option, none, some, List, [], ◌∷◌,
  ◌++◌, ltb, if◌then◌else◌, bytes_eq, bytes_eq_iff, ap,
}
use merkle_lan_sync.Base.Maps.{find, IsMap, bytes_key}
use merkle_lan_sync.Discovery.Registry.{
  AddrPort, same_addr, Event, peer_discovered, peer_evicted, PeerEntry, Registry, InAnnounce, Peers,
  Command, announced, evict_tick, is_news, handle_announce, sweep_loop, sweep, step, run,
}
use merkle_lan_sync.Discovery.Registry.Laws.{view_all, find-run, step-IsMap}
use merkle_lan_sync.Discovery.Registry.Replay.{learn, learn_all, addr_of, learn_all-step}

-- No announcement of the device is among the commands.
abbrev pub IsSilent : List ℕ → List Command → Type 0
IsSilent id [] = Unit
IsSilent id (announced i ∷ cs) = (bytes_eq i.device_id id ≡ false) × IsSilent id cs
IsSilent id (evict_tick now ∷ cs) = IsSilent id cs

-- Some tick is later than the time.
abbrev pub ticks_after : ℕ → List Command → Bool
ticks_after t [] = false
ticks_after t (announced i ∷ cs) = ticks_after t cs
ticks_after t (evict_tick now ∷ cs) = ltb t now || ticks_after t cs

view_all-none :
    (timeout : ℕ) (id : List ℕ) (cs : List Command)
    → IsSilent id cs
    → view_all timeout id none cs ≡ none
view_all-none timeout id [] quiet = refl
view_all-none timeout id (announced i ∷ cs) quiet =
    ground (arith, view_all-none timeout id cs quiet.1)
view_all-none timeout id (evict_tick now ∷ cs) quiet = view_all-none timeout id cs quiet

view_all-some :
    (timeout : ℕ) (id : List ℕ) (e : PeerEntry) (cs : List Command)
    → IsSilent id cs
    → view_all timeout id (some e) cs
      ≡ (if ticks_after (e.last_seen + timeout) cs then none else some e)
view_all-some timeout id e [] quiet = refl
view_all-some timeout id e (announced i ∷ cs) quiet =
    ground (arith, view_all-some timeout id e cs quiet.1)
view_all-some timeout id e (evict_tick now ∷ cs) quiet =
    ground (arith, view_all-some timeout id e cs quiet, view_all-none timeout id cs quiet)

-- A peer that is heard and then falls silent is kept with its address and the time it was heard, as
-- long as no tick is later than that time and the timeout together, and is gone once one is,
-- whatever the other peers announce meanwhile. The table is a map.
pub find-silence :
    (r : Registry) (i : InAnnounce) (cs : List Command)
    → IsMap r.peers
    → IsSilent i.device_id cs
    → find i.device_id (run r (announced i ∷ cs)).0.peers ≡ (
        if ticks_after (i.at + r.evict_timeout) cs
        then none
        else some (record { addr = i.addr; last_seen = i.at }))
find-silence r i cs m quiet =
    let heard : PeerEntry = record { addr = i.addr; last_seen = i.at } in
    find-run r (announced i ∷ cs) i.device_id m
    ∙ ground (
      arith,
      bytes_eq_iff i.device_id i.device_id,
      view_all-some r.evict_timeout i.device_id heard cs quiet,
    )

abbrev pub device_of : Event → List ℕ
device_of (peer_discovered i a) = i
device_of (peer_evicted i) = i

-- Each event of the device changes what its consumer knows.
abbrev pub IsTerse : List ℕ → Option AddrPort → List Event → Type 0
IsTerse id known [] = Unit
IsTerse id known (ev ∷ evs) =
    (bytes_eq (device_of ev) id ≡ true → learn id known ev ≢ known)
    × IsTerse id (learn id known ev) evs

IsTerse-append :
    (id : List ℕ) (known : Option AddrPort) (xs ys : List Event)
    → IsTerse id known xs
    → IsTerse id (learn_all id known xs) ys
    → IsTerse id known (xs ++ ys)
IsTerse-append id known [] ys hx hy = hy
IsTerse-append id known (x ∷ xs) ys hx hy =
    (hx.0, IsTerse-append id (learn id known x) xs ys hx.1 hy)

sweep_loop-IsTerse :
    (timeout now : ℕ) (peers : Peers) (id : List ℕ) (known : Option AddrPort)
    → IsMap peers
    → (known ≡ none → find id peers ≡ none)
    → IsTerse id known (sweep_loop timeout now peers).1
unfolding sweep_loop find
sweep_loop-IsTerse timeout now [] id known m h = tt
sweep_loop-IsTerse timeout now ((k, e) ∷ peers) id known m h = ground (
  arith,
  sweep_loop-IsTerse timeout now peers id known m.1,
  sweep_loop-IsTerse timeout now peers id none m.1,
  bytes_eq_iff k id,
  m.0,
)

same_addr_self : (a b : AddrPort) → a ≡ b → same_addr b a ≡ true
unfolding same_addr
same_addr_self a b h = rw h (ground (arith, bytes_eq_iff b.addr b.addr))

announced-IsTerse :
    (prev mine : Option PeerEntry) (heard id : List ℕ) (a : AddrPort)
    → (bytes_eq heard id ≡ true → prev ≡ mine)
    → IsTerse id (addr_of mine) (if is_news prev a then peer_discovered heard a ∷ [] else [])
unfolding is_news
announced-IsTerse none mine heard id a same = ground arith
announced-IsTerse (some prev) mine heard id a same = ground (arith, same_addr_self a prev.addr)

addr_of-none : (e : Option PeerEntry) → addr_of e ≡ none → e ≡ none
addr_of-none none h = refl
addr_of-none (some e) h = cc

step-IsTerse :
    (r : Registry) (c : Command) (id : List ℕ)
    → IsMap r.peers
    → IsTerse id (addr_of (find id r.peers)) (step r c).1
unfolding step handle_announce sweep
step-IsTerse r (announced i) id m =
    announced-IsTerse (find i.device_id r.peers) (find id r.peers) i.device_id id i.addr
      (λ h. ap (λ k. find k r.peers) ((bytes_eq_iff i.device_id id).0 h))
step-IsTerse r (evict_tick now) id m =
    sweep_loop-IsTerse r.evict_timeout now r.peers id (addr_of (find id r.peers)) m
      (addr_of-none (find id r.peers))

-- No event is idle: each that is emitted for a device, on whatever is heard and ticked, gives its
-- consumer an address that it did not have, or takes one from it. The table is a map, and the
-- consumer knows its addresses at the start.
pub run-IsTerse :
    (r : Registry) (cs : List Command) (id : List ℕ)
    → IsMap r.peers
    → IsTerse id (addr_of (find id r.peers)) (run r cs).1
unfolding run
run-IsTerse r [] id m = tt
run-IsTerse r (c ∷ cs) id m =
    let r' : Registry = (step r c).0 in
    IsTerse-append id (addr_of (find id r.peers)) (step r c).1 (run r' cs).1 (step-IsTerse r c id m)
      (rw (learn_all-step r c id m) (run-IsTerse r' cs id (step-IsMap r c m)))
