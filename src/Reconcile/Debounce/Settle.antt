-- ===== src/Reconcile/Debounce/Settle.antt =====
-- A path is emitted once for each burst of its events, after it has gone quiet.
use merkle_lan_sync.Base.{
  ℕ, suc, ◌+◌, ◌≡◌, refl, ◌∙◌, arith, Bool, false, ◌||◌, Option, none, some, List, [], ◌∷◌, ◌++◌,
  leb, if◌then◌else◌, bytes_eq, bytes_eq_iff,
}
use merkle_lan_sync.Base.Maps.{find, IsMap, bytes_key, find-store, store-IsMap}
use merkle_lan_sync.Reconcile.Debounce.{Pending, Command, changed, tick, settle_loop, step, run}

-- How often a path is emitted.
abbrev pub count : List ℕ → List (List ℕ) → ℕ
count p [] = 0
count p (q ∷ out) = if bytes_eq q p then suc (count p out) else count p out

-- One path on its own: the time it waits since, if it waits.
abbrev wait : ℕ → List ℕ → Option ℕ → Command → Option ℕ
wait window p since (changed q now) = if bytes_eq q p then some now else since
wait window p none (tick now) = none
wait window p (some last) (tick now) = if leb (last + window) now then none else some last

abbrev due : ℕ → Option ℕ → Command → ℕ
due window since (changed q now) = 0
due window none (tick now) = 0
due window (some last) (tick now) = if leb (last + window) now then 1 else 0

abbrev dues : ℕ → List ℕ → Option ℕ → List Command → ℕ
dues window p since [] = 0
dues window p since (c ∷ cs) = due window since c + dues window p (wait window p since c) cs

count-append : (p : List ℕ) (xs ys : List (List ℕ)) → count p (xs ++ ys) ≡ count p xs + count p ys
count-append p [] ys = omega arith
count-append p (x ∷ xs) ys = ground (arith, count-append p xs ys)

find-settle_loop :
    (window now : ℕ) (pending : Pending) (p : List ℕ)
    → IsMap pending
    → (find p (settle_loop window now pending).0 ≡ wait window p (find p pending) (tick now))
      × (count p (settle_loop window now pending).1 ≡ due window (find p pending) (tick now))
unfolding settle_loop find
find-settle_loop window now [] p m = (refl, refl)
find-settle_loop window now ((q, last) ∷ pending) p m =
    let ih = find-settle_loop window now pending p m.1 in
    (ground (arith, ih, bytes_eq_iff q p, m.0), ground (arith, ih, bytes_eq_iff q p, m.0))

settle_loop-IsMap :
    (window now : ℕ) (pending : Pending) → IsMap pending → IsMap (settle_loop window now pending).0
unfolding settle_loop
settle_loop-IsMap window now [] m = tt
settle_loop-IsMap window now ((q, last) ∷ pending) m = ground (
  arith,
  settle_loop-IsMap window now pending m.1,
  find-settle_loop window now pending q m.1,
  m.0,
)

step-IsMap :
    (window : ℕ) (pending : Pending) (c : Command) → IsMap pending → IsMap (step window pending c).0
unfolding step
step-IsMap window pending (changed q now) m = store-IsMap q now pending m
step-IsMap window pending (tick now) m = settle_loop-IsMap window now pending m

step_alone :
    (window : ℕ) (pending : Pending) (c : Command) (p : List ℕ)
    → IsMap pending
    → (find p (step window pending c).0 ≡ wait window p (find p pending) c)
      × (count p (step window pending c).1 ≡ due window (find p pending) c)
unfolding step
step_alone window pending (changed q now) p m = (find-store p q now pending, refl)
step_alone window pending (tick now) p m = find-settle_loop window now pending p m

count-run :
    (window : ℕ) (pending : Pending) (cs : List Command) (p : List ℕ)
    → IsMap pending
    → count p (run window pending cs).1 ≡ dues window p (find p pending) cs
unfolding run
count-run window pending [] p m = refl
count-run window pending (c ∷ cs) p m =
    let (later, out) = step_alone window pending c p m in
    let (next, first) = (step window pending c) in
    count-append p first (run window next cs).1
    ∙ rw (out, count-run window next cs p (step-IsMap window pending c m), later) refl

-- No event of the path.
abbrev pub IsQuiet : List ℕ → List Command → Type 0
IsQuiet p [] = Unit {0}
IsQuiet p (changed q now ∷ cs) = (bytes_eq q p ≡ false) × IsQuiet p cs
IsQuiet p (tick now ∷ cs) = IsQuiet p cs

-- Some tick is not before the time.
abbrev pub ticks_from : ℕ → List Command → Bool
ticks_from t [] = false
ticks_from t (changed q now ∷ cs) = ticks_from t cs
ticks_from t (tick now ∷ cs) = leb t now || ticks_from t cs

dues-none : (window : ℕ) (p : List ℕ) (cs : List Command) → IsQuiet p cs → dues window p none cs ≡ 0
dues-none window p [] quiet = refl
dues-none window p (changed q now ∷ cs) quiet = ground (arith, dues-none window p cs quiet.1)
dues-none window p (tick now ∷ cs) quiet = ground (arith, dues-none window p cs quiet)

dues-some :
    (window last : ℕ) (p : List ℕ) (cs : List Command)
    → IsQuiet p cs
    → dues window p (some last) cs ≡ (if ticks_from (last + window) cs then 1 else 0)
dues-some window last p [] quiet = refl
dues-some window last p (changed q now ∷ cs) quiet =
    ground (arith, dues-some window last p cs quiet.1)
dues-some window last p (tick now ∷ cs) quiet =
    ground (arith, dues-some window last p cs quiet, dues-none window p cs quiet)

-- A burst: each tick in it finds the path with an event within the window, or not waiting.
abbrev pub IsBurst : ℕ → List ℕ → Option ℕ → List Command → Type 0
IsBurst window p since [] = Unit {0}
IsBurst window p since (changed q now ∷ cs) =
    IsBurst window p (if bytes_eq q p then some now else since) cs
IsBurst window p none (tick now ∷ cs) = IsBurst window p none cs
IsBurst window p (some last) (tick now ∷ cs) =
    (leb (last + window) now ≡ false) × IsBurst window p (some last) cs

dues-burst :
    (window t : ℕ) (p : List ℕ) (since : Option ℕ) (burst rest : List Command)
    → IsBurst window p since burst
    → dues window p since (burst ++ (changed p t ∷ rest)) ≡ dues window p (some t) rest
dues-burst window t p since [] rest busy = ground (arith, bytes_eq_iff p p)
dues-burst window t p since (changed q now ∷ burst) rest busy =
    ground (arith, dues-burst window t p (if bytes_eq q p then some now else since) burst rest busy)
dues-burst window t p none (tick now ∷ burst) rest busy =
    ground (arith, dues-burst window t p none burst rest busy)
dues-burst window t p (some last) (tick now ∷ burst) rest busy =
    ground (arith, busy.0, dues-burst window t p (some last) burst rest busy.1)

-- A burst of events of a path, however many and whatever happens to other paths between them, comes
-- to one emission: none before its last event, and one behind it exactly when a tick comes a whole
-- window or more after that event. In the burst no tick comes so long after an event of the path.
pub count-burst :
    (window t : ℕ) (p : List ℕ) (pending : Pending) (burst rest : List Command)
    → IsMap pending
    → IsBurst window p (find p pending) burst
    → IsQuiet p rest
    → count p (run window pending (burst ++ (changed p t ∷ rest))).1
      ≡ (if ticks_from (t + window) rest then 1 else 0)
count-burst window t p pending burst rest m busy quiet =
    count-run window pending (burst ++ (changed p t ∷ rest)) p m
    ∙ (dues-burst window t p (find p pending) burst rest busy ∙ dues-some window t p rest quiet)
