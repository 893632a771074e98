-- ===== src/Reconcile/Symmetry.antt =====
-- The tiebreak of a conflict does not depend on which leaf a peer calls its own.
use merkle_lan_sync.Base.{ℕ, ◌≡◌, ◌≢◌, refl, arith, not, List, [], ◌∷◌}
use merkle_lan_sync.Merkle.FileInfo.{FileInfo}
use merkle_lan_sync.Reconcile.Conflict.{bytes_lt, a_wins, winner, loser_of}
use merkle_lan_sync.Reconcile.Plan.{conflict_plan}

bytes_lt_swap : (xs ys : List ℕ) → xs ≢ ys → bytes_lt ys xs ≡ not (bytes_lt xs ys)
unfolding bytes_lt
bytes_lt_swap [] [] ne = absurd (ne refl)
bytes_lt_swap [] (y ∷ ys) ne = refl
bytes_lt_swap (x ∷ xs) [] ne = refl
bytes_lt_swap (x ∷ xs) (y ∷ ys) ne =
    ground (arith, λ (e : x ≡ y). bytes_lt_swap xs ys (λ e'. ne (cc (e, e'))))

-- For leaves with different contents exactly one of `aWins(a, b)` and `aWins(b, a)` holds.
pub a_wins_swap : (a b : FileInfo) → a.content_hash ≢ b.content_hash → a_wins b a ≡ not (a_wins a b)
unfolding a_wins
a_wins_swap a b ne = ground (arith, bytes_lt_swap a.content_hash b.content_hash ne)

-- Two peers that hold the two leaves of a conflict choose the same winner and the same loser,
-- whichever of them is local.
pub winner_comm :
    (a b : FileInfo)
    → a.content_hash ≢ b.content_hash
    → (winner a b ≡ winner b a) × (loser_of a b ≡ loser_of b a)
unfolding winner loser_of
winner_comm a b ne = ground (arith, a_wins_swap a b ne)

-- For leaves of one path with different contents, the plan of a conflict, that is the winner at
-- the path and the loser's copy with its name, is the same on both peers.
pub conflict_plan_comm :
    (nfc : List ℕ → List ℕ)
    → (a b : FileInfo) → a.path ≡ b.path
    → a.content_hash ≢ b.content_hash
    → conflict_plan nfc a b ≡ conflict_plan nfc b a
unfolding conflict_plan
conflict_plan_comm nfc a b same ne = ground (arith, winner_comm a b ne, same)
