-- ===== src/Base/Map.antt =====
-- Go maps with string keys whose number of entries and order are never observed: a map is its
-- lookup function, so a write or a delete is pointwise, and a `range` that rewrites or deletes
-- every entry by itself is a pointwise map.
use mathlib.Core.Path.{sym, ◌≡◌}
use mathlib.Core.Logic.{inl, inr}
use mathlib.Core.Option.{Option, none, some}
use eu_trust_sdk.Base.Tests.{Text, Bool-cases, text_eq, text_eq_iff, text_eq_refl, if◌then◌else◌}

abbrev pub Map {ℓ} : Type ℓ → Type ℓ
Map V = Text → Option V

module _ {ℓ} {V : Type ℓ} where
  -- `make(map[string]V)`
  abbrev pub empty : Map V
  empty k = none

  -- `m[k] = v`, `m.Store(k, v)`
  abbrev pub insert : Map V → Text → V → Map V
  insert m k v j = if text_eq k j then some v else m j

  -- `delete(m, k)`, `m.Delete(k)`
  abbrev pub remove : Map V → Text → Map V
  remove m k j = if text_eq k j then none else m j

  -- `m[k]`, with the zero value `d` of a missing key
  abbrev pub get_or : Map V → Text → V → V
  get_or m k d = elim (m k) [ none ↦ d | some v ↦ v ]

  pub insert_self : (m : Map V) (k : Text) (v : V) → insert m k v k ≡ some v
  insert_self m k v = rw (text_eq_refl k)

  pub remove_self : (m : Map V) (k : Text) → remove m k k ≡ none
  remove_self m k = rw (text_eq_refl k)

  pub get_or-insert :
      (m : Map V) (k : Text) (v : V) (j : Text) (d : V)
      → get_or (insert m k v) j d ≡ (if text_eq k j then v else get_or m j d)
  get_or-insert m k v j d = elim (Bool-cases (text_eq k j)) [
    | inl same ↦ rw (same, get_or)
    | inr other ↦ rw (other, get_or)
  ]

  pub remove_missing : (m : Map V) (k : Text) → m k ≡ none → (j : Text) → m j ≡ remove m k j
  remove_missing m k missing j = elim (Bool-cases (text_eq k j)) [
    | inl same ↦ rw (same, sym ((text_eq_iff k j).0 same)) missing
    | inr other ↦ rw other
  ]
