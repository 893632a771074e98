-- ===== src/Discovery/Tests.antt =====
-- Datagrams.
use merkle_lan_sync.Base.{
  ◌≡◌, refl, ◌+◌, ℕ, List, none, some, bytes_eq, if◌then◌else◌, [], ◌∷◌, err,
}
use merkle_lan_sync.Discovery.Announce.{decode_announce, announce_too_short}
use merkle_lan_sync.Base.Maps.{find, bytes_key}
use merkle_lan_sync.Discovery.Registry.{AddrPort, Registry, Command, announced, evict_tick, run}
use merkle_lan_sync.Discovery.Registry.Replay.{learn_all, addr_of, learn_all-run}
use merkle_lan_sync.Discovery.Registry.Silence.{IsSilent, ticks_after, find-silence}

short_test : decode_announce (b'M' ∷ b'S' ∷ []) ≡ err announce_too_short
unfolding decode_announce
short_test = refl

abbrev home : AddrPort
home = record { addr = 10 ∷ 0 ∷ 0 ∷ 2 ∷ []; port = 22000 }

abbrev heard : ℕ → ℕ → Command
heard id time = announced (record { device_id = id ∷ []; addr = home; at = time })

abbrev start : Registry
start = record { peers = []; evict_timeout = 30 }

abbrev day : List Command
day = heard 1 0 ∷ heard 2 10 ∷ heard 1 20 ∷ evict_tick 45 ∷ heard 2 50 ∷ evict_tick 90 ∷ []

learn_all-run_example :
    learn_all (2 ∷ []) (addr_of (find (2 ∷ []) start.peers)) (run start day).1
    ≡ addr_of (find (2 ∷ []) (run start day).0.peers)
learn_all-run_example = learn_all-run start day (2 ∷ []) tt

abbrev silent : List Command
silent = heard 2 10 ∷ evict_tick 45 ∷ evict_tick 90 ∷ []

silent-IsSilent : IsSilent (1 ∷ []) silent
unfolding bytes_eq
silent-IsSilent = (refl, tt)

find-silence_example :
    find (1 ∷ []) (run start (heard 1 20 ∷ silent)).0.peers
    ≡ (if ticks_after (20 + 30) silent then none else some (record { addr = home; last_seen = 20 }))
find-silence_example =
    find-silence start (record { device_id = 1 ∷ []; addr = home; at = 20 }) silent tt
      silent-IsSilent
