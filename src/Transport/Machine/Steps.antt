-- ===== src/Transport/Machine/Steps.antt =====
-- What every proof about a step of a connection goes through.
use merkle_lan_sync.Base.{ℕ, ◌≡◌, inl, inr, some, Option-cases}
use merkle_lan_sync.Base.Maps.{find, number_key}
use merkle_lan_sync.Transport.Conn.{Conn}
use merkle_lan_sync.Transport.Machine.{State, at}

-- A step keeps what its body keeps for a connection that there is.
pub at-keeps :
    (P : State → Type 0) (id : ℕ) (st : State) (f : Conn → State → State)
    → P st
    → ((c : Conn) → find id st.heap ≡ some c → P (f c st))
    → P (at id st f)
unfolding at
at-keeps P id st f here body = elim (Option-cases (find id st.heap)) [
  | inl missing ↦ rw (at, missing) here
  | inr (c, found) ↦ rw (at, found) (body c found)
]
