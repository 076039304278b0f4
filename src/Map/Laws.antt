-- ===== src/Map/Laws.antt =====
-- What a read of the map sees after each operation, and the number of its entries.
use rocketsocket.Base.{
  ◌≡◌, refl, ap, ◌≢◌, true, suc, length, [], ◌∷◌, none, some, Eq, ◌==◌, if◌then◌else◌, arith,
}
use rocketsocket.Map.{Map, map_values, get, insert, remove, contains}
use mathlib.Core.Option

pub eq_self {ℓ} : {K : Type ℓ} ⦃e : Eq K⦄ (k : K) → (k == k) ≡ true
eq_self ⦃e⦄ k = (e.eq_iff k k).1 refl

module _ {ℓ κ} {K : Type ℓ} {V : Type κ} ⦃e : Eq K⦄ where
  pub get-insert :
      (m : Map K V) (k j : K) (v : V) → get (insert m k v) j ≡ (if k == j then some v else get m j)
  unfolding get insert
  get-insert [] k j v = refl
  get-insert ((i, w) ∷ m) k j v =
      ground (arith, e.eq_iff k j, e.eq_iff i k, e.eq_iff i j, get-insert m k j v)

  pub get-remove : (m : Map K V) (k j : K) → get (remove m k) j ≡ (if k == j then none else get m j)
  unfolding get remove
  get-remove [] k j = ground arith
  get-remove ((i, w) ∷ m) k j =
      ground (arith, e.eq_iff k j, e.eq_iff i k, e.eq_iff i j, get-remove m k j)

  pub get-map_values :
      (f : V → V) (m : Map K V) (k : K) → get (map_values f m) k ≡ Option.map f (get m k)
  unfolding get
  get-map_values f [] k = refl
  get-map_values f ((i, w) ∷ m) k = ground (arith, get-map_values f m k)

  pub get-insert_self : (m : Map K V) (k : K) (v : V) → get (insert m k v) k ≡ some v
  get-insert_self m k v = rw (get-insert, eq_self) refl

  pub get-remove_self : (m : Map K V) (k : K) → get (remove m k) k ≡ none
  get-remove_self m k = rw (get-remove, eq_self) refl

  pub get-insert_ne : (m : Map K V) (k j : K) (v : V) → k ≢ j → get (insert m k v) j ≡ get m j
  get-insert_ne m k j v h = ground (arith, get-insert m k j v, e.eq_iff k j)

  pub get-remove_ne : (m : Map K V) (k j : K) → k ≢ j → get (remove m k) j ≡ get m j
  get-remove_ne m k j h = ground (arith, get-remove m k j, e.eq_iff k j)

  -- No key has two entries.
  abbrev pub IsFunctional : Map K V → Type κ
  IsFunctional [] = Unit
  IsFunctional ((j, v) ∷ m) = (get m j ≡ none) × IsFunctional m

  pub insert-IsFunctional :
      (m : Map K V) (k : K) (v : V) → IsFunctional m → IsFunctional (insert m k v)
  unfolding get insert
  insert-IsFunctional [] k v f = ground arith
  insert-IsFunctional ((i, w) ∷ m) k v f =
      ground (arith, e.eq_iff i k, e.eq_iff k i, get-insert m k i v, insert-IsFunctional m k v f.1)

  pub remove-IsFunctional : (m : Map K V) (k : K) → IsFunctional m → IsFunctional (remove m k)
  unfolding get remove
  remove-IsFunctional [] k f = tt
  remove-IsFunctional ((i, w) ∷ m) k f =
      ground (arith, get-remove m k i, remove-IsFunctional m k f.1)

  pub map_values-IsFunctional :
      (f : V → V) (m : Map K V) → IsFunctional m → IsFunctional (map_values f m)
  map_values-IsFunctional f [] h = tt
  map_values-IsFunctional f ((i, w) ∷ m) h =
      (rw (get-map_values f m i, h.0) refl, map_values-IsFunctional f m h.1)

  pub length-map_values : (f : V → V) (m : Map K V) → length (map_values f m) ≡ length m
  length-map_values f [] = refl
  length-map_values f ((i, w) ∷ m) = ap suc (length-map_values f m)

  pub length-insert :
      (m : Map K V) (k : K) (v : V)
      → length (insert m k v) ≡ (if contains m k then length m else suc (length m))
  unfolding get insert
  length-insert [] k v = refl
  length-insert ((i, w) ∷ m) k v = ground (arith, length-insert m k v)

  pub remove_absent : (m : Map K V) (k : K) → get m k ≡ none → remove m k ≡ m
  unfolding get remove
  remove_absent [] k h = refl
  remove_absent ((i, w) ∷ m) k h = ground (arith, remove_absent m k)

  pub length-remove :
      (m : Map K V) (k : K)
      → IsFunctional m
      → length m ≡ (if contains m k then suc (length (remove m k)) else length (remove m k))
  unfolding get remove
  length-remove [] k f = refl
  length-remove ((i, w) ∷ m) k f =
      ground (arith, e.eq_iff i k, length-remove m k f.1, remove_absent m k)
