-- ===== src/Reconcile/Engine/Bounded.antt =====
-- internal/reconcile/engine.go: the queue of a puller is bounded, and each of its tasks is in flight.
use merkle_lan_sync.Base.{
  ℕ, ◌≤◌, ◌≡◌, refl, ◌∙◌, arith, Bool, true, false, not, ◌&&◌, ◌||◌, Option, none, some, List, [],
  ◌∷◌, ◌++◌, if◌then◌else◌, inl, inr, Bool-cases, Option-cases, bytes_eq_iff, length, length-append,
  ltb, All, All-append, All-map,
}
use mathlib.Core.Path.{subst}
use merkle_lan_sync.Merkle.FileInfo.{FileInfo}
use merkle_lan_sync.Merkle.Differ.{DiffEntry, is_type_clash}
use merkle_lan_sync.Reconcile.Engine.Peers.{
  TombInstall, Round, holds, pair_with, pair_step, pair_loop, bucket, bucket_loop, install_all,
  install_tombs, carry_out, carry_out_found, differing_paths, reconcile_with_peer,
}
use merkle_lan_sync.Pathnorm.OsPath.{would_exceed_max_path}
use merkle_lan_sync.Reconcile.Plan.{Plan, no_op, install, conflict, resolve}
use merkle_lan_sync.Reconcile.Engine.{State, Peer, FetchTask, has_key}
use merkle_lan_sync.Reconcile.Engine.Queue.{
  fetch_queue_depth, enqueue, enqueue_fetch, enqueue_conflict, enqueue_rename, execute, take_winner,
  has_local_content, apply_tombstone,
}

-- The queue holds no more than its depth, and the path of each task in it is in flight.
abbrev pub IsBounded : Peer → Type 0
IsBounded ps =
    (length ps.fetch_queue ≤ fetch_queue_depth)
    × All (λ task. has_key ps.inflight task.leaf.path ≡ true) ps.fetch_queue

has_key-append :
    (xs ys : List (List ℕ)) (key : List ℕ)
    → has_key (xs ++ ys) key ≡ (has_key xs key || has_key ys key)
unfolding has_key
has_key-append [] ys key = refl
has_key-append (x ∷ xs) ys key = ground (arith, has_key-append xs ys key)

enqueue-IsBounded :
    (ps : Peer) (task : FetchTask) (keys : List (List ℕ))
    → has_key keys task.leaf.path ≡ true
    → IsBounded ps
    → IsBounded (enqueue ps task keys)
unfolding enqueue
enqueue-IsBounded ps task keys marked h =
    elim (Bool-cases (ltb (length ps.fetch_queue) fetch_queue_depth)) [
      | inr full ↦ rw full h
      | inl room ↦ rw room (
        rw (length-append ps.fetch_queue (task ∷ [])) (ground arith),
        All-append _ ps.fetch_queue (task ∷ [])
            (All-map _ _
              (λ t there. has_key-append keys ps.inflight t.leaf.path ∙ ground (arith, there))
              ps.fetch_queue h.1)
            (has_key-append keys ps.inflight task.leaf.path ∙ ground (arith, marked), tt),
      )
    ]

first_key : (key : List ℕ) (keys : List (List ℕ)) → has_key (key ∷ keys) key ≡ true
unfolding has_key
first_key key keys = ground (arith, bytes_eq_iff key key)

enqueue_fetch-IsBounded :
    (ps : Peer) (leaf : FileInfo) (advertise : Bool)
    → IsBounded ps
    → IsBounded (enqueue_fetch ps leaf advertise)
unfolding enqueue_fetch
enqueue_fetch-IsBounded ps leaf advertise h = elim (Bool-cases (has_key ps.inflight leaf.path)) [
  | inl busy ↦ rw busy h
  | inr free ↦ rw free (enqueue-IsBounded ps _ (leaf.path ∷ []) (first_key leaf.path []) h)
]

enqueue_conflict-IsBounded :
    (ps : Peer) (loser winner : FileInfo)
    → IsBounded ps
    → IsBounded (enqueue_conflict ps loser winner)
unfolding enqueue_conflict
enqueue_conflict-IsBounded ps loser winner h = elim (Bool-cases (has_key ps.inflight winner.path)) [
  | inl busy ↦ rw busy h
  | inr free ↦ rw free (enqueue-IsBounded ps _ (winner.path ∷ []) (first_key winner.path []) h)
]

enqueue_rename-IsBounded :
    (ps : Peer) (c t : FileInfo) → IsBounded ps → IsBounded (enqueue_rename ps c t)
unfolding enqueue_rename
enqueue_rename-IsBounded ps c t h =
    elim (Bool-cases (has_key ps.inflight c.path || has_key ps.inflight t.path)) [
      | inl busy ↦ rw busy h
      | inr free ↦
          rw free (enqueue-IsBounded ps _ (t.path ∷ c.path ∷ []) (first_key t.path (c.path ∷ [])) h)
    ]

either-IsBounded :
    (b : Bool) (x y : State × Peer)
    → IsBounded x.1
    → IsBounded y.1
    → let r : State × Peer = if b then x else y in IsBounded r.1
either-IsBounded true x y hx hy = hx
either-IsBounded false x y hx hy = hy

either_round :
    (b : Bool) (x y : Round)
    → IsBounded x.ps
    → IsBounded y.ps
    → let r : Round = if b then x else y in IsBounded r.ps
either_round true x y hx hy = hx
either_round false x y hx hy = hy

pair_with-IsBounded :
    (ps : Peer) (c : FileInfo) (tombs : List (TombInstall × Bool)) (ps' : Peer)
    (marks : List (TombInstall × Bool))
    → IsBounded ps
    → pair_with ps c tombs ≡ some (ps', marks)
    → IsBounded ps'
unfolding pair_with
pair_with-IsBounded ps c [] ps' marks h e = absurd (cc e)
pair_with-IsBounded ps c ((t, paired) ∷ tombs) ps' marks h e =
    let below = pair_with-IsBounded ps c tombs in
    elim (Bool-cases (not (paired || has_key ps.inflight t.leaf.path) && holds t c.content_hash)) [
      | inl serves ↦
          let same : enqueue_rename ps c t.leaf ≡ ps' = ground (arith, e, serves) in
          subst IsBounded same (enqueue_rename-IsBounded ps c t.leaf h)
      | inr passes ↦ elim (Option-cases (pair_with ps c tombs)) [
        | inl gone ↦ absurd (ground (arith, e, passes, gone))
        | inr ((ps'', marks'), later) ↦
            let same : ps'' ≡ ps' = ground (arith, e, passes, later) in
            subst IsBounded same (below ps'' marks' h later)
      ]
    ]

pair_step-IsBounded :
    (ps : Peer) (marks : List (TombInstall × Bool)) (c : FileInfo)
    → IsBounded ps
    → IsBounded (pair_step ps marks c).0
unfolding pair_step
pair_step-IsBounded ps marks c h = elim (Bool-cases (has_key ps.inflight c.path)) [
  | inl busy ↦ rw busy h
  | inr free ↦ elim (Option-cases (pair_with ps c marks)) [
    | inl gone ↦ rw (free, gone) h
    | inr ((ps', marks'), paired) ↦
        rw (free, paired) (pair_with-IsBounded ps c marks ps' marks' h paired)
  ]
]

pair_loop-IsBounded :
    (creates : List FileInfo) (ps : Peer) (marks : List (TombInstall × Bool))
    → IsBounded ps
    → IsBounded (pair_loop ps marks creates).0
unfolding pair_loop
pair_loop-IsBounded [] ps marks h = h
pair_loop-IsBounded (c ∷ creates) ps marks h =
    pair_loop-IsBounded creates (pair_step ps marks c).0 (pair_step ps marks c).1
      (pair_step-IsBounded ps marks c h)

module _ (sha256 : List ℕ → List ℕ) (root : List ℕ) where
  take_winner-IsBounded :
      (st : State) (ps : Peer) (winner : FileInfo)
      → IsBounded ps
      → IsBounded (take_winner sha256 st ps winner).1
  unfolding take_winner
  take_winner-IsBounded st ps winner h =
      either-IsBounded winner.deleted (apply_tombstone sha256 st winner, ps)
        (st, enqueue_fetch ps winner false) h (enqueue_fetch-IsBounded ps winner false h)

  execute-IsBounded :
      (st : State) (ps : Peer) (p : Plan) → IsBounded ps → IsBounded (execute sha256 root st ps p).1
  unfolding execute
  execute-IsBounded st ps no_op h = h
  execute-IsBounded st ps (install fi) h = take_winner-IsBounded st ps fi h
  execute-IsBounded st ps (conflict winner none) h = take_winner-IsBounded st ps winner h
  execute-IsBounded st ps (conflict winner (some loser)) h =
      elim (Bool-cases (has_local_content st.files loser.content_hash)) [
        | inr lacks ↦ rw lacks (take_winner-IsBounded st ps winner h)
        | inl holds_it ↦ rw holds_it (elim (Bool-cases (would_exceed_max_path root loser.path)) [
          | inl long ↦ rw long h
          | inr fits ↦ rw fits (enqueue_conflict-IsBounded ps loser winner h)
        ])
      ]

module _ (nfc sha256 : List ℕ → List ℕ) (root : List ℕ) where
  bucket-IsBounded :
      (r : Round) (d : DiffEntry) (p : Plan)
      → IsBounded r.ps
      → IsBounded (bucket nfc sha256 root r d p).ps
  unfolding bucket
  bucket-IsBounded r d (install fi) h = elim (Bool-cases fi.deleted) [
    | inl dead ↦ rw dead h
    | inr live ↦ rw live h
  ]
  bucket-IsBounded r d no_op h = execute-IsBounded sha256 root r.st r.ps no_op h
  bucket-IsBounded r d (conflict winner loser) h =
      execute-IsBounded sha256 root r.st r.ps (conflict winner loser) h

  bucket_loop-IsBounded :
      (entries : List DiffEntry) (r : Round)
      → IsBounded r.ps
      → IsBounded (bucket_loop nfc sha256 root r entries).ps
  unfolding bucket_loop
  bucket_loop-IsBounded [] r h = h
  bucket_loop-IsBounded (d ∷ entries) r h = bucket_loop-IsBounded entries _ (
      either_round (is_type_clash d) r (bucket nfc sha256 root r d (resolve nfc d.local d.remote)) h
        (bucket-IsBounded r d (resolve nfc d.local d.remote) h))

  install_all-IsBounded :
      (creates : List FileInfo) (st : State) (ps : Peer)
      → IsBounded ps
      → IsBounded (install_all nfc sha256 root st ps creates).1
  unfolding install_all
  install_all-IsBounded [] st ps h = h
  install_all-IsBounded (fi ∷ creates) st ps h =
      install_all-IsBounded creates _ _ (execute-IsBounded sha256 root st ps (install fi) h)

  install_tombs-IsBounded :
      (tombs : List (TombInstall × Bool)) (st : State) (ps : Peer)
      → IsBounded ps
      → IsBounded (install_tombs nfc sha256 root st ps tombs).1
  unfolding install_tombs
  install_tombs-IsBounded [] st ps h = h
  install_tombs-IsBounded ((t, paired) ∷ tombs) st ps h = install_tombs-IsBounded tombs _ _ (
      either-IsBounded (not paired && not (has_key ps.inflight t.leaf.path))
        (execute sha256 root st ps (install t.leaf)) (st, ps)
        (execute-IsBounded sha256 root st ps (install t.leaf) h) h)

  carry_out-IsBounded :
      (st : State) (ps : Peer) (entries : List DiffEntry)
      → IsBounded ps
      → IsBounded (carry_out nfc sha256 root st ps entries).1
  unfolding carry_out
  carry_out-IsBounded st ps entries h =
      install_tombs-IsBounded _ _ _ (
        install_all-IsBounded _ _ _ (pair_loop-IsBounded _ _ _ (bucket_loop-IsBounded entries _ h)))

  carry_out_found-IsBounded :
      (st : State) (ps : Peer) (found : Option (List DiffEntry))
      → IsBounded ps
      → IsBounded (carry_out_found nfc sha256 root st ps found).1
  unfolding carry_out_found
  carry_out_found-IsBounded st ps none h = h
  carry_out_found-IsBounded st ps (some entries) h = carry_out-IsBounded st ps entries h

  -- The queue of a peer's puller never holds more tasks than its depth, and the path of each task in
  -- it is in flight: reconciling with the peer keeps this of a connection that has it.
  pub reconcile_with_peer-IsBounded :
      (st : State) (ps : Peer)
      → IsBounded ps
      → IsBounded (reconcile_with_peer nfc sha256 root st ps).1
  unfolding reconcile_with_peer
  reconcile_with_peer-IsBounded st ps h =
      carry_out_found-IsBounded st ps (differing_paths nfc sha256 root st ps) h
