-- ===== src/Reconcile/Debounce.antt =====
-- internal/reconcile/scanloop.go: the debouncer between the watcher and the loop of the engine. Times
-- are nanoseconds of one clock.
mod Tests
pub mod Settle
use merkle_lan_sync.Base.{
  ℕ, ◌+◌, ◌/◌, Bool, Option, none, some, List, [], ◌∷◌, ◌++◌, leb, if◌then◌else◌, ◌==◌, Dict, find,
  store, bytes_key,
}

-- The time of the last event of each path that waits.
abbrev pub Pending : Type 0
Pending = Dict (List ℕ) ℕ

-- What the loop takes off its channels, with the time that the clock shows then.
pub data Command : Type 0 where
  changed : List ℕ → ℕ → Command
  tick : ℕ → Command

-- The loop over the pending paths: what still waits, and what is emitted.
unfoldable pub settle_loop : ℕ → ℕ → Pending → Pending × List (List ℕ)
settle_loop window now [] = ([], [])
settle_loop window now ((p, last) ∷ pending) =
    let (kept, out) = settle_loop window now pending in
    if leb (last + window) now then (kept, p ∷ out) else ((p, last) ∷ kept, out)

unfoldable pub step : ℕ → Pending → Command → Pending × List (List ℕ)
step window pending (changed p now) = (store p now pending, [])
step window pending (tick now) = settle_loop window now pending

unfoldable pub run : ℕ → Pending → List Command → Pending × List (List ℕ)
run window pending [] = (pending, [])
run window pending (c ∷ cs) =
    let (pending', out) = step window pending c in
    let (pending'', later) = run window pending' cs in (pending'', out ++ later)

-- The period of the real ticker.
unfoldable pub tick_every : ℕ → ℕ
tick_every window = let every = window / 2 in if every == 0 then 1000000 else every
