-- ===== src/Base/Dict.antt =====
-- `std::map<std::string, V>` as an association list.
use mathlib.Core.Path.{◌≡◌, refl}
use mathlib.Core.Bool.{Bool, true, false}
use mathlib.Core.List.{List, [], ◌∷◌}
use mathlib.Core.Option.{Option, none, some}
use native.Mathlib.Omega.{arith}
use dmproxy.Base.Tests.{if◌then◌else◌}
use dmproxy.Base.Text.{Bytes, bytes_eq, bytes_eq_iff}

abbrev pub Dict {ℓ} : Type ℓ → Type ℓ
Dict V = List (Bytes × V)

module _ {ℓ} {V : Type ℓ} where
  unfoldable pub lookup : Bytes → Dict V → Option V
  lookup k [] = none
  lookup k ((j, v) ∷ m) = if bytes_eq j k then some v else lookup k m

  -- `m.count(k) != 0`
  unfoldable pub contains : Bytes → Dict V → Bool
  contains k [] = false
  contains k ((j, v) ∷ m) = if bytes_eq j k then true else contains k m

  -- `m[k] = v`
  unfoldable pub assign : Bytes → V → Dict V → Dict V
  assign k v [] = (k, v) ∷ []
  assign k v ((j, w) ∷ m) = if bytes_eq j k then (j, v) ∷ m else (j, w) ∷ assign k v m

  -- `m.insert(make_pair(k, v))`, which keeps the value of a key that is there.
  unfoldable pub insert : Bytes → V → Dict V → Dict V
  insert k v [] = (k, v) ∷ []
  insert k v ((j, w) ∷ m) = if bytes_eq j k then (j, w) ∷ m else (j, w) ∷ insert k v m

  -- `m.erase(k)`
  unfoldable pub erase : Bytes → Dict V → Dict V
  erase k [] = []
  erase k ((j, w) ∷ m) = if bytes_eq j k then erase k m else (j, w) ∷ erase k m

  pub lookup-assign :
      (j k : Bytes) (v : V) (m : Dict V)
      → lookup j (assign k v m) ≡ (if bytes_eq k j then some v else lookup j m)
  unfolding lookup assign
  lookup-assign j k v [] = refl
  lookup-assign j k v ((i, w) ∷ m) =
      ground (arith, bytes_eq_iff k j, bytes_eq_iff i k, bytes_eq_iff i j, lookup-assign j k v m)

  pub lookup-insert :
      (j k : Bytes) (v : V) (m : Dict V)
      → lookup j (insert k v m) ≡ (
          if bytes_eq k j
          then elim (lookup k m) [ none ↦ some v | some w ↦ some w ]
          else lookup j m)
  unfolding lookup insert
  lookup-insert j k v [] = refl
  lookup-insert j k v ((i, w) ∷ m) =
      ground (arith, bytes_eq_iff k j, bytes_eq_iff i k, bytes_eq_iff i j, lookup-insert j k v m)

  pub lookup-erase :
      (j k : Bytes) (m : Dict V)
      → lookup j (erase k m) ≡ (if bytes_eq k j then none else lookup j m)
  unfolding lookup erase
  lookup-erase j k [] = ground arith
  lookup-erase j k ((i, w) ∷ m) =
      ground (arith, bytes_eq_iff k j, bytes_eq_iff i k, bytes_eq_iff i j, lookup-erase j k m)

  pub contains-lookup :
      (k : Bytes) (m : Dict V) → contains k m ≡ elim (lookup k m) [ none ↦ false | some v ↦ true ]
  unfolding lookup contains
  contains-lookup k [] = refl
  contains-lookup k ((i, w) ∷ m) = ground (arith, contains-lookup k m)
