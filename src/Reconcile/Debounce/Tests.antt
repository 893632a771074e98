-- ===== src/Reconcile/Debounce/Tests.antt =====
-- A burst of one path, with another path in between.
use merkle_lan_sync.Base.{◌≡◌, refl, List, [], ◌∷◌, ◌++◌, bytes_eq}
use merkle_lan_sync.Base.Maps.{find, bytes_key}
use merkle_lan_sync.Reconcile.Debounce.{Pending, Command, changed, tick, run}
use merkle_lan_sync.Reconcile.Debounce.Settle.{IsBurst, IsQuiet, count, count-burst}

abbrev saves : List Command
saves = changed (1 ∷ []) 10 ∷ changed (2 ∷ []) 20 ∷ tick 100 ∷ changed (1 ∷ []) 110 ∷ []

abbrev quiet : List Command
quiet = tick 200 ∷ changed (2 ∷ []) 210 ∷ tick 300 ∷ tick 500 ∷ []

abbrev idle : Pending
idle = []

saves-IsBurst : IsBurst 150 (1 ∷ []) (find (1 ∷ []) idle) saves
unfolding bytes_eq find
saves-IsBurst = (refl, tt)

quiet-IsQuiet : IsQuiet (1 ∷ []) quiet
unfolding bytes_eq
quiet-IsQuiet = (refl, tt)

count-burst_example : count (1 ∷ []) (run 150 idle (saves ++ (changed (1 ∷ []) 120 ∷ quiet))).1 ≡ 1
count-burst_example = count-burst 150 120 (1 ∷ []) idle saves quiet tt saves-IsBurst quiet-IsQuiet
