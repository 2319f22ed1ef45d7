-- ===== src/Base/Tables.antt =====
-- The JavaScript `Map` with text keys, in insertion order: `get`, `set` and the values in order.
use Prim.Native.String.{String}
use mathlib.Core.Path.{◌≡◌, refl}
use mathlib.Core.Bool.{Bool, false}
use mathlib.Core.Option.{Option, none, some}
use mathlib.Core.List.{List, [], ◌∷◌}
use native.Mathlib.Omega.{arith}
use text.Mathlib.Text.{◌==◌}
use text.Mathlib.TextEquality.{eq_iff}
use mathlib.Core.Logic.{inl, inr}
use crm_silmer.Base.Tests.{Bool-cases, if◌then◌else◌}
use crm_silmer.Base.Lists.{any, find}

abbrev pub Table {ℓ} : Type ℓ → Type ℓ
Table V = List (String × V)

module _ {ℓ} {V : Type ℓ} where
  unfoldable pub lookup : String → Table V → Option V
  lookup k [] = none
  lookup k ((j, v) ∷ m) = if j == k then some v else lookup k m

  -- `Map.set`: a new key goes to the end, an old one keeps its place.
  unfoldable pub put : String → V → Table V → Table V
  put k v [] = (k, v) ∷ []
  put k v ((j, w) ∷ m) = if j == k then (j, v) ∷ m else (j, w) ∷ put k v m

  unfoldable pub values : Table V → List V
  values [] = []
  values ((j, v) ∷ m) = v ∷ values m

  pub lookup-put :
      (k j : String) (v : V) (m : Table V)
      → lookup j (put k v m) ≡ (if k == j then some v else lookup j m)
  unfolding lookup put
  lookup-put k j v [] = refl
  lookup-put k j v ((i, w) ∷ m) =
      ground (arith, eq_iff k j, eq_iff i k, eq_iff i j, lookup-put k j v m)

  -- `some` over the values misses no value that a key finds.
  pub any-false-at :
      (p : V → Bool) (m : Table V) (k : String) {v : V}
      → any p (values m) ≡ false
      → lookup k m ≡ some v
      → p v ≡ false
  unfolding lookup values
  any-false-at p [] k h e = cc
  any-false-at p ((j, w) ∷ m) k {v} h e = ground (arith, any-false-at p m k {v = v})

  -- No key stands twice, as in every `Map`.
  abbrev pub IsMap : Table V → Type ℓ
  IsMap [] = Unit
  IsMap ((k, v) ∷ m) = (lookup k m ≡ none) × IsMap m

  pub put-IsMap : (k : String) (v : V) (m : Table V) → IsMap m → IsMap (put k v m)
  unfolding put lookup
  put-IsMap k v [] h = (refl, tt)
  put-IsMap k v ((j, w) ∷ m) h =
      ground (arith, put-IsMap k v m, lookup-put k j v m, eq_iff j k, eq_iff k j)

  -- What `find` finds among the values stands under some key.
  pub find-lookup :
      (p : V → Bool) (m : Table V) (v : V)
      → IsMap m
      → find p (values m) ≡ some v
      → (k : String) × (lookup k m ≡ some v)
  unfolding values lookup
  find-lookup p [] v h e = cc
  find-lookup p ((j, w) ∷ m) v h e = elim (Bool-cases (p w)) [
    | inl here ↦ (j, ground (arith, eq_iff j j))
    | inr there ↦
        let (k, found) = find-lookup p m v h.1 (ground arith) in (k, ground (arith, eq_iff j k))
  ]
