-- ===== src/Reconcile/Engine/Authorship.antt =====
-- internal/reconcile/engine.go, `onLocalChange`: a version is raised, and sent, for a change made here
-- and for nothing else.
use merkle_lan_sync.Base.{
  ℕ, ◌≡◌, refl, ap, sym, ◌∙◌, arith, false, not, ◌||◌, Option, none, some, List, [], ◌∷◌, ◌++◌,
  if◌then◌else◌, inl, inr, Bool-cases, Result-cases, bytes_eq, bytes_eq_iff, ◌⊎◌, true, ok, err,
  Result,
}
use mathlib.Core.Path.{subst}
use merkle_lan_sync.Protocol.VersionVector.{bump}
use merkle_lan_sync.Merkle.Codec.{Error, encode_file_infos}
use merkle_lan_sync.Merkle.FileInfo.{FileInfo, set_deleted}
use merkle_lan_sync.Merkle.Tree.{build_tree}
use merkle_lan_sync.Reconcile.Tombstone.{lookup}
use merkle_lan_sync.Reconcile.Startup.{put, internal_file}
use merkle_lan_sync.Reconcile.Startup.Laws.{lookup-put}
use merkle_lan_sync.Reconcile.Engine.{
  State, give_batch, broadcast_update, order_creates_before_deletes, sort_leaves, insert_leaf,
  inflight, rebuild, values,
}
use merkle_lan_sync.Reconcile.Engine.Echo.{IsSame, is_echo_sound, is_echo_complete}
use merkle_lan_sync.Reconcile.Engine.Local.{
  Observed, gone, directory, unreadable, found, version_of, is_echo, touch, authored,
  record_and_broadcast, on_gone, on_found, on_local_change,
}
use merkle_lan_sync.Reconcile.Engine.Rescan.{lookup-touch, touched_leaf, touched}

-- Nothing was sent and no version moved.
abbrev pub IsSilent : State → State → Type 0
IsSilent st after =
    (after.outbound ≡ st.outbound)
    × ((q : List ℕ) → version_of (lookup after.files q) ≡ version_of (lookup st.files q))

-- The leaf is given to the connections as a batch of its own, if it can be encoded.
abbrev pub IsGiven : FileInfo → State → State → Type 0
IsGiven fi st after =
    ((body : List ℕ) × (encode_file_infos (fi ∷ []) ≡ ok body)
      × (after.outbound ≡ st.outbound ++ ((fi ∷ []) ∷ [])))
    ⊎ ((e : Error) × (encode_file_infos (fi ∷ []) ≡ err e) × (after.outbound ≡ st.outbound))

-- A tombstone for a path that is gone, and the observed leaf but for its version where one is found.
abbrev pub IsLeafOf : Observed → FileInfo → Type 0
IsLeafOf gone fi = fi.deleted ≡ true
IsLeafOf directory fi = ⊥
IsLeafOf unreadable fi = ⊥
IsLeafOf (found s) fi = fi ≡ record s { version = fi.version }

-- One leaf of what was observed was recorded at the key, with the old version raised by this device,
-- and given to the connections; no other path was touched.
abbrev pub IsAuthored : ℕ → List ℕ → Observed → State → State → Type 0
IsAuthored self key seen st after =
    (fi : FileInfo) × IsLeafOf seen fi
    × IsGiven fi st after
    × (fi.version ≡ bump (version_of (lookup st.files key)) self)
    × ((q : List ℕ)
        → lookup after.files q ≡ (if bytes_eq key q then some fi else lookup st.files q))

-- The path has changed since it was recorded: a live file is gone, or other content is found.
abbrev pub IsNews : Option FileInfo → Observed → Type 0
IsNews none gone = ⊥
IsNews (some prev) gone = prev.deleted ≡ false
IsNews prev directory = ⊥
IsNews prev unreadable = ⊥
IsNews none (found s) = Unit {0}
IsNews (some prev) (found s) = ¬ IsSame prev s

pub rebuild_keeps :
    (sha256 : List ℕ → List ℕ) (st : State)
    → ((rebuild sha256 st).files ≡ st.files) × ((rebuild sha256 st).outbound ≡ st.outbound)
unfolding rebuild
rebuild_keeps sha256 st = elim (Result-cases (build_tree sha256 (values st.files))) [
  | inl (t, built) ↦ (ground (arith, built), ground (arith, built))
  | inr (e, failed) ↦ (ground (arith, failed), ground (arith, failed))
]

give_batch-IsGiven :
    (st : State) (fi : FileInfo)
    → IsGiven fi st (give_batch st (fi ∷ []) (encode_file_infos (fi ∷ [])))
unfolding give_batch
give_batch-IsGiven st fi = elim (Result-cases (encode_file_infos (fi ∷ []))) [
  | inl (body, made) ↦ inl (body, made, ground (arith, made))
  | inr (e, failed) ↦ inr (e, failed, ground (arith, failed))
]

files-give_batch :
    (st : State) (set : List FileInfo) (r : Result Error (List ℕ))
    → (give_batch st set r).files ≡ st.files
unfolding give_batch
files-give_batch st set (err e) = refl
files-give_batch st set (ok body) = refl

record_and_broadcast-IsAuthored :
    (sha256 : List ℕ → List ℕ) (self : ℕ) (st : State) (key : List ℕ) (seen : Observed)
    (fi : FileInfo)
    → IsLeafOf seen fi
    → fi.version ≡ bump (version_of (lookup st.files key)) self
    → IsAuthored self key seen st (record_and_broadcast sha256 self st key fi)
unfolding record_and_broadcast broadcast_update order_creates_before_deletes sort_leaves insert_leaf
record_and_broadcast-IsAuthored sha256 self st key seen fi leaf e =
    let entered = record st { files = put st.files key fi } in
    let (files_kept, outbound_kept) = rebuild_keeps sha256 entered in
    let made = encode_file_infos (fi ∷ []) in
    let given : IsGiven fi st (give_batch (rebuild sha256 entered) (fi ∷ []) made) =
      subst
        (λ o.
          ((body : List ℕ) × (made ≡ ok body)
            × ((give_batch (rebuild sha256 entered) (fi ∷ []) made).outbound
                ≡ o ++ ((fi ∷ []) ∷ [])))
          ⊎ ((x : Error) × (made ≡ err x)
              × ((give_batch (rebuild sha256 entered) (fi ∷ []) made).outbound ≡ o)))
        outbound_kept (give_batch-IsGiven (rebuild sha256 entered) fi) in
    (
      fi,
      leaf,
      given,
      e,
      λ q.
          ap (λ f. lookup f q)
            (files-give_batch (rebuild sha256 entered) (fi ∷ []) made ∙ files_kept)
          ∙ lookup-put st.files key fi q,
    )

touch-IsSilent :
    (self : ℕ) (st : State) (key : List ℕ) (s : FileInfo) (prev : Option FileInfo)
    → lookup st.files key ≡ prev
    → IsSilent st (record st { files = touch st.files key prev s })
touch-IsSilent self st key s prev e =
    (refl, λ q. ap version_of (lookup-touch st.files key s q prev e) ∙ kept q)
  where
    same_version : (o : Option FileInfo) → version_of (touched_leaf o s) ≡ version_of o
    same_version none = unfold touched_leaf in refl
    same_version (some p) = unfold touched_leaf touched version_of in ground arith

    kept :
        (q : List ℕ)
        → version_of (if bytes_eq key q then touched_leaf prev s else lookup st.files q)
          ≡ version_of (lookup st.files q)
    kept q = elim (Bool-cases (bytes_eq key q)) [
      | inr differ ↦ rw differ refl
      | inl same ↦ rw same (
          same_version prev
          ∙ ap version_of (sym e ∙ ap (lookup st.files) ((bytes_eq_iff key q).0 same)))
    ]

-- The change is taken in or nothing happens, as it is news or not.
abbrev IsSettled : ℕ → List ℕ → Observed → State → Option FileInfo → State → Type 0
IsSettled self key seen st prev after =
    (IsNews prev seen × IsAuthored self key seen st after)
    ⊎ ((¬ IsNews prev seen) × IsSilent st after)

gone-authorship :
    (sha256 : List ℕ → List ℕ) (self : ℕ) (st : State) (key : List ℕ) (prev : Option FileInfo)
    → lookup st.files key ≡ prev
    → IsSettled self key gone st prev (on_gone sha256 self st key prev)
unfolding on_gone set_deleted
gone-authorship sha256 self st key none e = inr ((λ h. h), (refl, λ q. refl))
gone-authorship sha256 self st key (some prev) e = elim (Bool-cases prev.deleted) [
  | inl dead ↦ rw dead (inr ((λ h. cc), (refl, λ q. refl)))
  | inr live ↦ rw live (
      inl (
        refl,
        record_and_broadcast-IsAuthored sha256 self st key gone (set_deleted prev self)
            (unfold set_deleted in refl) (rw e (unfold set_deleted version_of in refl)),
      ))
]

found-authorship :
    (sha256 : List ℕ → List ℕ) (self : ℕ) (st : State) (key : List ℕ) (prev : Option FileInfo)
    (s : FileInfo)
    → lookup st.files key ≡ prev
    → IsSettled self key (found s) st prev (on_found sha256 self st key prev s)
unfolding on_found
found-authorship sha256 self st key prev s e = elim (Bool-cases (is_echo prev s)) [
  | inl echo ↦ inr (known prev echo, rw echo (touch-IsSilent self st key s prev e))
  | inr new ↦ inl (
    other prev new,
    rw new (
        record_and_broadcast-IsAuthored sha256 self st key (found s) (authored prev s self)
          (unfold authored in refl) (rw e (unfold authored in refl))),
  )
]
  where
    known : (o : Option FileInfo) → is_echo o s ≡ true → ¬ IsNews o (found s)
    known none echo = absurd (unfold is_echo in cc echo)
    known (some p) echo = λ news. news (is_echo_sound p s echo)

    other : (o : Option FileInfo) → is_echo o s ≡ false → IsNews o (found s)
    other none new = tt
    other (some p) new = λ same. ground (arith, new, is_echo_complete p s same)

-- A hint of the watcher for a path is taken as a change made here exactly where the path is not one
-- of the engine's own files and not in flight, and a live file is gone, or a file is found where none
-- is recorded as live with its hash, type and size. Such a change is recorded at that path alone, as
-- a tombstone or as the observed leaf, with a raised version, and the one leaf is given to the
-- connections if it can be encoded; in all other cases nothing is given and no version moves.
pub on_local_change_authorship :
    (sha256 : List ℕ → List ℕ) (self : ℕ) (st : State) (key : List ℕ) (seen : Observed)
    → let after = on_local_change sha256 self st key seen in
      let free = not (internal_file key || inflight st.peers key) in
      ((free ≡ true) × IsNews (lookup st.files key) seen × IsAuthored self key seen st after)
      ⊎ (((free ≡ false) ⊎ (¬ IsNews (lookup st.files key) seen)) × IsSilent st after)
unfolding on_local_change
on_local_change_authorship sha256 self st key seen = elim (Bool-cases (internal_file key)) [
  | inl own ↦ rw own (inr (inl refl, (refl, λ q. refl)))
  | inr other ↦ rw other (elim (Bool-cases (inflight st.peers key)) [
    | inl busy ↦ rw busy (inr (inl refl, (refl, λ q. refl)))
    | inr free ↦ rw free (elim (by_sight seen) [
      | inl (news, done) ↦ inl (refl, news, done)
      | inr (stale, quiet) ↦ inr (inr stale, quiet)
    ])
  ])
]
  where
    by_sight :
        (o : Observed)
        → IsSettled self key o st (lookup st.files key) (elim o [
          | gone ↦ on_gone sha256 self st key (lookup st.files key)
          | directory ↦ st
          | unreadable ↦ st
          | found s ↦ on_found sha256 self st key (lookup st.files key) s
        ])
    by_sight gone = gone-authorship sha256 self st key (lookup st.files key) refl
    by_sight directory = inr ((λ h. h), (refl, λ q. refl))
    by_sight unreadable = inr ((λ h. h), (refl, λ q. refl))
    by_sight (found s) = found-authorship sha256 self st key (lookup st.files key) s refl
