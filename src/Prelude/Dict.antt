-- ===== src/Prelude/Dict.antt =====
-- `Map` and `Set` with text keys, in insertion order.
use mathlib.Core.Path.{◌≡◌, refl, ap}
use mathlib.Core.Bool.{Bool, true, false}
use mathlib.Core.Option.{Option, none, some}
use mathlib.Core.List.{List, [], ◌∷◌}
use Prim.Native.String.{String}
use native.Mathlib.Omega.{arith}
use text.Mathlib.Text.{◌==◌ as str_eq}
use text.Mathlib.TextEquality.{eq_iff}
use pi_codex_adaptor.Prelude.Tests.{if◌then◌else◌}

abbrev pub Dict {ℓ} : Type ℓ → Type ℓ
Dict V = List (String × V)

module _ {ℓ} {V : Type ℓ} where
  -- `map.get(key)`
  unfoldable pub lookup : String → Dict V → Option V
  lookup k [] = none
  lookup k ((j, v) ∷ d) = if str_eq j k then some v else lookup k d

  -- `map.set(key, value)`: an entry keeps its place.
  unfoldable pub insert : String → V → Dict V → Dict V
  insert k v [] = (k, v) ∷ []
  insert k v ((j, w) ∷ d) = elim (str_eq j k) [ true ↦ (j, v) ∷ d | false ↦ (j, w) ∷ insert k v d ]

  -- `map.delete(key)` for each key that passes a test.
  unfoldable pub erase_where : (String → Bool) → Dict V → Dict V
  erase_where p [] = []
  erase_where p ((j, v) ∷ d) = elim (p j) [
    | true ↦ erase_where p d
    | false ↦ (j, v) ∷ erase_where p d
  ]

  -- `map.delete(key)`
  unfoldable pub erase : String → Dict V → Dict V
  unfolding erase_where
  erase k = erase_where λ j. str_eq j k

  pub lookup-insert :
      (j k : String) (v : V) (d : Dict V)
      → lookup j (insert k v d) ≡ (if str_eq k j then some v else lookup j d)
  unfolding lookup insert
  lookup-insert j k v [] = refl
  lookup-insert j k v ((i, w) ∷ d) =
      ground (arith, eq_iff k j, eq_iff i k, eq_iff i j, lookup-insert j k v d)

  pub lookup-erase_where :
      (p : String → Bool) (k : String) (d : Dict V)
      → lookup k (erase_where p d) ≡ (if p k then none else lookup k d)
  unfolding lookup erase_where
  lookup-erase_where p k [] = ground arith
  lookup-erase_where p k ((j, w) ∷ d) =
      ground (arith, lookup-erase_where p k d, λ (e : str_eq j k ≡ true). ap p ((eq_iff j k).0 e))

  pub lookup-erase :
      (k j : String) (d : Dict V) → lookup k (erase j d) ≡ (if str_eq k j then none else lookup k d)
  unfolding erase
  lookup-erase k j d = lookup-erase_where (λ i. str_eq i j) k d
