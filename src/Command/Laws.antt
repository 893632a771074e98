-- ===== src/Command/Laws.antt =====
-- Who may connect, and whose counters are kept.
use merkle_lan_sync.Base.{
  ℕ, ◌≡◌, refl, sym, ap, ◌∙◌, arith, ◌||◌, Option, none, some, List, [], ◌∷◌, ◌++◌, append_assoc,
  append-nil, ok, bind_ok, bytes_eq,
}
use merkle_lan_sync.Protocol.DeviceId.{parse_device_id}
use merkle_lan_sync.Transport.Allowlist.{Allowlist, allowed, add, new_allowlist}
use merkle_lan_sync.Transport.Allowlist.Laws.{is_among, allowed-add, allowed-new_allowlist}
use merkle_lan_sync.Command.{trim_space, append, pair_all, paired_peers}

-- The identifiers of the flags, all of them, in their order.
abbrev pub AreParsed : List (List ℕ) → List (List ℕ) → Type 0
AreParsed [] [] = Unit {0}
AreParsed [] (id ∷ ids) = ⊥
AreParsed (p ∷ peers) [] = ⊥
AreParsed (p ∷ peers) (id ∷ ids) = (parse_device_id (trim_space p) ≡ ok id) × AreParsed peers ids

-- What `append` of all of them leaves of a slice.
abbrev appended : Option (List (List ℕ)) → List (List ℕ) → Option (List (List ℕ))
appended none [] = none
appended none (id ∷ ids) = some (id ∷ ids)
appended (some xs) ids = some (xs ++ ids)

appended-append :
    (paired : Option (List (List ℕ))) (id : List ℕ) (ids : List (List ℕ))
    → appended (append paired id) ids ≡ appended paired (id ∷ ids)
unfolding append
appended-append none id ids = refl
appended-append (some xs) id ids = ap some (append_assoc xs (id ∷ []) ids)

appended-nil : (paired : Option (List (List ℕ))) → paired ≡ appended paired []
appended-nil none = refl
appended-nil (some xs) = ap some (sym (append-nil xs))

pair_all_sound :
    (peers : List (List ℕ)) (allow allow' : Allowlist) (paired paired' : Option (List (List ℕ)))
    → pair_all peers allow paired ≡ ok (allow', paired')
    → (ids : List (List ℕ)) × AreParsed peers ids
      × (paired' ≡ appended paired ids)
      × ((id : List ℕ) → allowed id allow' ≡ (is_among id ids || allowed id allow))
unfolding pair_all
pair_all_sound [] allow allow' paired paired' e =
    let list : allow ≡ allow' = ground arith in
    let slice : paired ≡ paired' = ground arith in
    ([], tt, sym slice ∙ appended-nil paired, λ id. ap (allowed id) (sym list))
pair_all_sound (p ∷ peers) allow allow' paired paired' e =
    let (id, parsed, e₁) = bind_ok (parse_device_id (trim_space p)) _ (allow', paired') e in
    let (ids, all, same, on) =
      pair_all_sound peers (add id allow) allow' (append paired id) paired' e₁ in
    (
      id ∷ ids,
      (parsed, all),
      same ∙ appended-append paired id ids,
      λ x. ground (arith, on x, allowed-add x id allow),
    )

-- Where the daemon starts, each `-peer` flag was read as an identifier, a device may connect exactly
-- when it is this one or one of those, and the set of paired devices is not declared at all when
-- there is no flag, and is those identifiers in their order when there is one.
pub paired_peers_sound :
    (own : List ℕ) (peers : List (List ℕ)) (allow : Allowlist) (paired : Option (List (List ℕ)))
    → paired_peers own peers ≡ ok (allow, paired)
    → (ids : List (List ℕ)) × AreParsed peers ids
      × (paired ≡ appended none ids)
      × ((id : List ℕ) → allowed id allow ≡ (is_among id ids || bytes_eq own id))
unfolding paired_peers
paired_peers_sound own peers allow paired e =
    let (ids, all, same, on) =
      pair_all_sound peers (new_allowlist (own ∷ [])) allow none paired e in
    (ids, all, same, λ id. ground (arith, on id, allowed-new_allowlist id (own ∷ [])))
