-- ===== src/Transport/Allowlist/Laws.antt =====
-- The allow-list as a set.
use merkle_lan_sync.Base.{
  ℕ, ◌≡◌, refl, arith, Bool, false, ◌||◌, List, [], ◌∷◌, bytes_eq, if◌then◌else◌,
}
use merkle_lan_sync.Base.Maps.{find, bytes_key, find-store, find-erase}
use merkle_lan_sync.Transport.Allowlist.{Allowlist, add, add_all, new_allowlist, remove, allowed}

abbrev pub is_among : List ℕ → List (List ℕ) → Bool
is_among id [] = false
is_among id (x ∷ xs) = bytes_eq x id || is_among id xs

pub allowed-add :
    (id other : List ℕ) (a : Allowlist)
    → allowed id (add other a) ≡ (bytes_eq other id || allowed id a)
unfolding allowed add
allowed-add id other a = ground (arith, find-store id other tt a)

pub allowed-remove :
    (id other : List ℕ) (a : Allowlist)
    → allowed id (remove other a) ≡ (if bytes_eq other id then false else allowed id a)
unfolding allowed remove
allowed-remove id other a = ground (arith, find-erase id other a)

allowed-add_all :
    (id : List ℕ) (ids : List (List ℕ)) (a : Allowlist)
    → allowed id (add_all ids a) ≡ (is_among id ids || allowed id a)
unfolding add_all
allowed-add_all id [] a = refl
allowed-add_all id (x ∷ ids) a =
    ground (arith, allowed-add_all id ids (add x a), allowed-add id x a)

allowed-nil : (id : List ℕ) → allowed id [] ≡ false
unfolding allowed find
allowed-nil id = refl

pub allowed-new_allowlist :
    (id : List ℕ) (ids : List (List ℕ)) → allowed id (new_allowlist ids) ≡ is_among id ids
unfolding new_allowlist
allowed-new_allowlist id ids = ground (arith, allowed-add_all id ids [], allowed-nil id)
