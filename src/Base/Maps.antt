-- ===== src/Base/Maps.antt =====
-- std::unordered_map with string keys, as the list of its entries in iteration order.
use mathlib.Core.Path.{◌≡◌, refl}
use mathlib.Core.List.{List, [], ◌∷◌}
use mathlib.Core.Option.{Option, none, some}
use Prim.Native.String.{String}
use native.Mathlib.Omega.{arith}
use mathlib.Core.Logic.{inl, inr}
use lan_send.Base.Tests.{if◌then◌else◌, Bool-cases}
use lan_send.Base.Texts.{str_eq, eq_iff, eq_refl}
use lan_send.Base.Lists.{length}

abbrev pub Assoc {ℓ} : Type ℓ → Type ℓ
Assoc V = List (String × V)

module _ {ℓ} {V : Type ℓ} where
  -- find, at, operator[] of a present key
  unfoldable pub lookup : String → Assoc V → Option V
  lookup key [] = none
  lookup key (entry ∷ m) = if str_eq entry.0 key then some entry.1 else lookup key m

  -- m[key] = v
  unfoldable pub assign : String → V → Assoc V → Assoc V
  assign key v [] = (key, v) ∷ []
  assign key v (entry ∷ m) = if str_eq entry.0 key then (key, v) ∷ m else entry ∷ assign key v m

  -- m.erase(key)
  unfoldable pub erase : String → Assoc V → Assoc V
  erase key [] = []
  erase key (entry ∷ m) =
      let kept = erase key m in if str_eq entry.0 key then kept else entry ∷ kept

  pub lookup-assign :
      (key other : String) (v : V) (m : Assoc V)
      → lookup other (assign key v m) ≡ (if str_eq key other then some v else lookup other m)
  unfolding assign lookup
  lookup-assign key other v [] = refl
  lookup-assign key other v (entry ∷ m) = ground (
    arith,
    lookup-assign key other v m,
    eq_iff entry.0 other,
    eq_iff entry.0 key,
    eq_iff key other,
  )

  pub lookup-assign_same :
      (key : String) (v : V) (m : Assoc V) → lookup key (assign key v m) ≡ some v
  lookup-assign_same key v m = ground (arith, lookup-assign key key v m, eq_refl key)

  pub lookup-erase :
      (key other : String) (m : Assoc V)
      → lookup other (erase key m) ≡ (if str_eq key other then none else lookup other m)
  unfolding erase lookup
  lookup-erase key other [] = elim (Bool-cases (str_eq key other)) [ inl e ↦ rw e | inr e ↦ rw e ]
  lookup-erase key other (entry ∷ m) =
      ground (
        arith,
        eq_iff entry.0 other,
        eq_iff key other,
        lookup-erase key other m,
        eq_iff entry.0 key,
      )

  -- A write over a present key keeps the number of entries.
  pub length-assign_present :
      (k : String) (v w : V) (m : Assoc V) → lookup k m ≡ some w → length (assign k v m) ≡ length m
  unfolding lookup assign
  length-assign_present k v w [] h = ground arith
  length-assign_present k v w ((i, u) ∷ m) h = ground (arith, length-assign_present k v w m)
