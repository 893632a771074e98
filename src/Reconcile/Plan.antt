-- ===== src/Reconcile/Plan.antt =====
-- internal/reconcile/apply.go: the verdict for one path on which the two trees differ.
use merkle_lan_sync.Base.{
  Bool, true, false, not, ◌&&◌, Option, none, some, ok, err, List, if◌then◌else◌, bytes_eq, ℕ,
}
use merkle_lan_sync.Protocol.VersionVector.{
  causality, merge, equal, dominates, dominated_by, concurrent,
}
use merkle_lan_sync.Merkle.FileInfo.{FileInfo}
use merkle_lan_sync.Reconcile.Conflict.{winner, loser_of, loser_author, conflict_name}

-- The kinds of a plan with the fields that each uses; the `flag` strings, which are only logged,
-- are left out.
pub data Plan : Type 0 where
  no_op : Plan
  install : FileInfo → Plan
  conflict : FileInfo → Option FileInfo → Plan

unfoldable pub eqb : Bool → Bool → Bool
eqb true b = b
eqb false b = not b

module _ (nfc : List ℕ → List ℕ) where
  unfoldable pub conflict_plan : FileInfo → FileInfo → Plan
  conflict_plan local remote =
      let w = winner local remote in
      let l = loser_of local remote in
      let win = record w { path = local.path } in
      if l.deleted then conflict win none else elim (conflict_name nfc l (loser_author l w)) [
        | err e ↦ no_op
        | ok name ↦ conflict win (some (record l { path = name }))
      ]

  -- `self`, which the code does not read, is left out.
  unfoldable pub resolve : Option FileInfo → Option FileInfo → Plan
  resolve local none = no_op
  resolve none (some remote) = if remote.deleted then no_op else install remote
  resolve (some local) (some remote) =
      let same_content =
        bytes_eq local.content_hash remote.content_hash && eqb local.deleted remote.deleted in
      elim (causality local.version remote.version) [
        | equal ↦ if same_content then no_op else conflict_plan local remote
        | dominates ↦ no_op
        | dominated_by ↦ install (record remote { version = merge local.version remote.version })
        | concurrent ↦
            if same_content
            then install (record local { version = merge local.version remote.version })
            else conflict_plan local remote
      ]
