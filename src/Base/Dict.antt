-- ===== src/Base/Dict.antt =====
-- JavaScript's `Map`: entries in the order of first insertion, one for each key. `set` on a key
-- that is there keeps its place; `set` on a new key goes to the end; `delete` takes the entry out.
pub mod Laws
use mathlib.Core.Bool.{Bool, not}
use mathlib.Core.Option.{Option, none, some}
use mathlib.Core.List.{List, [], ◌∷◌, map}
use symphony_ts.Base.Tests.{if◌then◌else◌, is_some}
use symphony_ts.Base.Eq.{HasEq, ◌==◌}

abbrev pub Dict {ℓ κ} : Type ℓ → Type κ → Type (ℓ ⊔ κ)
Dict K V = List (K × V)

module _ {ℓ κ} {K : Type ℓ} {V : Type κ} ⦃e : HasEq K⦄ where
  unfoldable pub get : Dict K V → K → Option V
  get [] k = none
  get ((j, v) ∷ m) k = if j == k then some v else get m k

  unfoldable pub has : Dict K V → K → Bool
  unfolding get
  has m k = is_some (get m k)

  unfoldable pub set : Dict K V → K → V → Dict K V
  set [] k v = (k, v) ∷ []
  set ((j, w) ∷ m) k v = if j == k then (j, v) ∷ m else (j, w) ∷ set m k v

  unfoldable pub delete : Dict K V → K → Dict K V
  delete [] k = []
  delete ((j, w) ∷ m) k = let rest = delete m k in if j == k then rest else (j, w) ∷ rest

module _ {ℓ κ} {K : Type ℓ} {V : Type κ} where
  unfoldable pub values : Dict K V → List V
  values m = map (λ p. p.1) m

  unfoldable pub keys : Dict K V → List K
  keys m = map (λ p. p.0) m
