-- ===== src/Command.antt =====
-- cmd/msync/main.go: the devices that the daemon is started with. Texts are ASCII.
pub mod Laws
use merkle_lan_sync.Base.{
  ℕ, Bool, true, false, ◌||◌, Option, none, some, List, [], ◌∷◌, ◌++◌, Result, ok, err, ◌>>=◌,
  if◌then◌else◌, ◌==◌, leb, ◌&&◌,
}
use merkle_lan_sync.Protocol.DeviceId.{parse_device_id, short}
use merkle_lan_sync.Protocol.Errors as Protocol
use merkle_lan_sync.Transport.Allowlist.{Allowlist, add, new_allowlist}

-- The white space of ASCII.
unfoldable pub is_space : ℕ → Bool
is_space c = c == 32 || (leb 9 c && leb c 13)

unfoldable pub trim_left : List ℕ → List ℕ
trim_left [] = []
trim_left (c ∷ s) = let rest = trim_left s in if is_space c then rest else c ∷ s

unfoldable pub is_blank : List ℕ → Bool
is_blank [] = true
is_blank (c ∷ s) = is_space c && is_blank s

unfoldable pub trim_end : List ℕ → List ℕ
trim_end [] = []
trim_end (c ∷ s) = let rest = trim_end s in if is_blank (c ∷ s) then [] else c ∷ rest

-- `strings.TrimSpace`
unfoldable pub trim_space : List ℕ → List ℕ
trim_space s = trim_end (trim_left s)

-- `append` to a slice that may be nil.
unfoldable pub append : Option (List (List ℕ)) → List ℕ → Option (List (List ℕ))
append none id = some (id ∷ [])
append (some ids) id = some (ids ++ (id ∷ []))

-- The loop of `run` over the `-peer` flags, with the allow-list and `pairedPeers` so far.
unfoldable pub pair_all :
    List (List ℕ)
    → Allowlist
    → Option (List (List ℕ))
    → Result Protocol.Error (Allowlist × Option (List (List ℕ)))
pair_all [] allow paired = ok (allow, paired)
pair_all (p ∷ peers) allow paired = do
  id ← parse_device_id (trim_space p)
  pair_all peers (add id allow) (append paired id)

-- The allow-list and `pairedPeers` of a run, for its own identity and its flags.
unfoldable pub paired_peers :
    List ℕ → List (List ℕ) → Result Protocol.Error (Allowlist × Option (List (List ℕ)))
paired_peers own peers = pair_all peers (new_allowlist (own ∷ [])) none

unfoldable pub shorts : List (List ℕ) → List ℕ
shorts [] = []
shorts (id ∷ ids) = short id ∷ shorts ids

-- `pairedShorts` as `New` of internal/reconcile/engine.go makes it, none where `pairedKnown` is
-- false.
unfoldable pub paired_shorts : List ℕ → Option (List (List ℕ)) → Option (List ℕ)
paired_shorts own none = none
paired_shorts own (some ids) = some (short own ∷ shorts ids)
