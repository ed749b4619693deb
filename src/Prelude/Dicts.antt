-- ===== src/Prelude/Dicts.antt =====
-- Python's `dict` with text keys: the entries in the order of insertion.
use Prim.Native.String.{String}
use mathlib.Core.Path.{◌≡◌, refl}
use mathlib.Core.Option.{Option, none, some}
use mathlib.Core.List.{List, [], ◌∷◌}
use native.Mathlib.Omega.{arith}
use text.Mathlib.Text.{◌==◌ as str_eq}
use text.Mathlib.TextEquality.{eq_iff}
use igthon.Prelude.Tests.{if◌then◌else◌}
use igthon.Prelude.Lists.{All}

abbrev pub Dict {ℓ} : Type ℓ → Type ℓ
Dict V = List (String × V)

module _ {ℓ} {V : Type ℓ} where
  -- `d.get(k)`
  unfoldable pub lookup : String → Dict V → Option V
  lookup k [] = none
  lookup k ((j, v) ∷ d) = if str_eq j k then some v else lookup k d

  -- `d[k] = v`: an existing key keeps its place.
  unfoldable pub insert : String → V → Dict V → Dict V
  insert k v [] = (k, v) ∷ []
  insert k v ((j, w) ∷ d) = if str_eq j k then (j, v) ∷ d else (j, w) ∷ insert k v d

  -- `del d[k]`, `d.pop(k, None)`
  unfoldable pub erase : String → Dict V → Dict V
  erase k [] = []
  erase k ((j, w) ∷ d) = if str_eq j k then erase k d else (j, w) ∷ erase k d

  pub lookup-insert :
      (k j : String) (v : V) (d : Dict V)
      → lookup j (insert k v d) ≡ (if str_eq k j then some v else lookup j d)
  unfolding lookup insert
  lookup-insert k j v [] = refl
  lookup-insert k j v ((i, w) ∷ d) =
      ground (arith, eq_iff k j, eq_iff i k, eq_iff i j, lookup-insert k j v d)

  pub insert-insert : (k : String) (v : V) (d : Dict V) → insert k v (insert k v d) ≡ insert k v d
  unfolding insert
  insert-insert k v [] = ground (arith, eq_iff k k)
  insert-insert k v ((i, w) ∷ d) = ground (arith, eq_iff i k, insert-insert k v d)

  pub lookup-erase :
      (k j : String) (d : Dict V) → lookup j (erase k d) ≡ (if str_eq k j then none else lookup j d)
  unfolding lookup erase
  lookup-erase k j [] = ground arith
  lookup-erase k j ((i, w) ∷ d) =
      ground (arith, eq_iff k j, eq_iff i k, eq_iff i j, lookup-erase k j d)

module _ {ℓ κ} {V : Type ℓ} (P : V → Type κ) where
  -- Every value of the dictionary has the property.
  abbrev pub Values : Dict V → Type κ
  Values = All (λ e. P e.1)

module _ {ℓ κ} {V : Type ℓ} (P : V → Type κ) where
  pub Values-insert : (k : String) (v : V) (d : Dict V) → Values P d → P v → Values P (insert k v d)
  unfolding insert
  Values-insert k v [] h p = (p, tt)
  Values-insert k v ((j, w) ∷ d) h p = ground (arith, Values-insert k v d h.1 p)

  pub Values-erase : (k : String) (d : Dict V) → Values P d → Values P (erase k d)
  unfolding erase
  Values-erase k [] h = tt
  Values-erase k ((j, w) ∷ d) h = ground (arith, Values-erase k d h.1)

  pub Values-lookup : (k : String) (v : V) (d : Dict V) → Values P d → lookup k d ≡ some v → P v
  unfolding lookup
  Values-lookup k v [] h e = cc
  Values-lookup k v ((j, w) ∷ d) h e = ground (arith, Values-lookup k v d h.1)
