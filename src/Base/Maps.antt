-- ===== src/Base/Maps.antt =====
-- Go's maps, as lists of their entries, for every type of key that has a test of equality.
use mathlib.Core.Path.{◌≡◌, refl}
use mathlib.Core.Logic.{◌↔◌, ◌≢◌, inl, inr}
use mathlib.Core.Bool.{Bool, true, false}
use mathlib.Core.List.{List, [], ◌∷◌}
use mathlib.Core.Option.{Option, none, some}
use Prim.Native.Nat.{ℕ}
use native.Mathlib.Omega.{arith}
use merkle_lan_sync.Base.Tests.{◌==◌, if◌then◌else◌, Bool-cases}
use merkle_lan_sync.Base.Lists.{bytes_eq, bytes_eq_iff}

-- Go's `==` on a type of keys, with what it decides.
pub record Key (K : Type 0) : Type 0 where
  pub same : K → K → Bool
  pub same_iff : (a b : K) → (same a b ≡ true) ↔ (a ≡ b)

pub equal_iff : (a b : ℕ) → ((a == b) ≡ true) ↔ (a ≡ b)
equal_iff a b = ground arith

instance abbrev pub number_key : Key ℕ
number_key = record { same = λ a b. a == b; same_iff = equal_iff }

instance abbrev pub bytes_key : Key (List ℕ)
bytes_key = record { same = bytes_eq; same_iff = bytes_eq_iff }

module _ {K : Type 0} ⦃key : Key K⦄ where
  pub same_self : (k : K) → key.same k k ≡ true
  same_self k = (key.same_iff k k).1 refl

  pub same_of_ne : (j k : K) → j ≢ k → key.same j k ≡ false
  same_of_ne j k ne = elim (Bool-cases (key.same j k)) [
    | inl e ↦ absurd (ne ((key.same_iff j k).0 e))
    | inr e ↦ e
  ]

abbrev pub Dict {ℓ} : Type 0 → Type ℓ → Type ℓ
Dict K V = List (K × V)

module _ {ℓ} {K : Type 0} {V : Type ℓ} ⦃key : Key K⦄ where
  -- `v, ok := m[k]`
  unfoldable pub find : K → Dict K V → Option V
  find k [] = none
  find k ((j, v) ∷ m) = let later = find k m in if key.same j k then some v else later

  -- `m[k] = v`
  unfoldable pub store : K → V → Dict K V → Dict K V
  store k v [] = (k, v) ∷ []
  store k v ((j, w) ∷ m) =
      let later = store k v m in if key.same j k then (j, v) ∷ m else (j, w) ∷ later

  -- `delete(m, k)`
  unfoldable pub erase : K → Dict K V → Dict K V
  erase k [] = []
  erase k ((j, v) ∷ m) = let rest = erase k m in if key.same j k then rest else (j, v) ∷ rest

  -- A key has one entry at most, as in a Go map.
  abbrev pub IsMap : Dict K V → Type ℓ
  IsMap [] = Unit
  IsMap ((k, v) ∷ m) = (find k m ≡ none) × IsMap m

  pub find-store :
      (j k : K) (v : V) (m : Dict K V)
      → find j (store k v m) ≡ (if key.same k j then some v else find j m)
  unfolding find store
  find-store j k v [] = ground arith
  find-store j k v ((i, w) ∷ m) =
      ground (arith, find-store j k v m, key.same_iff i k, key.same_iff k j, key.same_iff i j)

  pub find-erase :
      (j k : K) (m : Dict K V) → find j (erase k m) ≡ (if key.same k j then none else find j m)
  unfolding find erase
  find-erase j k [] = ground arith
  find-erase j k ((i, w) ∷ m) =
      ground (arith, find-erase j k m, key.same_iff i k, key.same_iff k j, key.same_iff i j)

  pub store-IsMap : (k : K) (v : V) (m : Dict K V) → IsMap m → IsMap (store k v m)
  unfolding store find
  store-IsMap k v [] h = (refl, tt)
  store-IsMap k v ((i, w) ∷ m) h =
      ground (arith, store-IsMap k v m h.1, find-store i k v m, key.same_iff i k, key.same_iff k i)

  pub erase-IsMap : (k : K) (m : Dict K V) → IsMap m → IsMap (erase k m)
  unfolding erase
  erase-IsMap k [] h = tt
  erase-IsMap k ((i, w) ∷ m) h =
      ground (arith, erase-IsMap k m h.1, find-erase i k m, key.same_iff i k, key.same_iff k i)
