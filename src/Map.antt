-- ===== src/Map.antt =====
-- A map with keys that can be compared, as an association list: the model of `HashMap`. A lookup
-- reads the first entry of its key, an insertion writes over it or adds an entry at the end, and
-- a removal drops every entry of the key. The order of the list stands for the iteration order,
-- which `HashMap` leaves open.
pub mod Laws
pub mod Entries
use rocketsocket.Base.{
  ℕ, suc, Bool, true, false, List, [], ◌∷◌, map, Option, none, some, Eq, ◌==◌, if◌then◌else◌,
  is_some, length,
}

abbrev pub Map {ℓ κ} : Type ℓ → Type κ → Type (ℓ ⊔ κ)
Map K V = List (K × V)

module _ {ℓ κ} {K : Type ℓ} {V : Type κ} where
  abbrev pub empty : Map K V
  empty = []

  abbrev pub keys : Map K V → List K
  keys = map (λ e. e.0)

  abbrev pub values : Map K V → List V
  values = map (λ e. e.1)

  -- `values_mut` with the same change for each value.
  abbrev pub map_values : (V → V) → Map K V → Map K V
  map_values f = map (λ e. (e.0, f e.1))

module _ {ℓ κ} {K : Type ℓ} {V : Type κ} ⦃e : Eq K⦄ where
  unfoldable pub get : Map K V → K → Option V
  get [] k = none
  get ((j, v) ∷ m) k = if j == k then some v else get m k

  abbrev pub contains : Map K V → K → Bool
  contains m k = is_some (get m k)

  unfoldable pub insert : Map K V → K → V → Map K V
  insert [] k v = (k, v) ∷ []
  insert ((j, w) ∷ m) k v = if j == k then (k, v) ∷ m else (j, w) ∷ insert m k v

  unfoldable pub remove : Map K V → K → Map K V
  remove [] k = []
  remove ((j, w) ∷ m) k = let rest = remove m k in if j == k then rest else (j, w) ∷ rest
