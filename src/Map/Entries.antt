-- ===== src/Map/Entries.antt =====
-- Properties of every entry of a map.
use mathlib.Core.Path.{subst₂}
use mathlib.Core.Option.{some-injective}
use rocketsocket.Base.{
  ◌≡◌, refl, ◌≢◌, [], ◌∷◌, none, some, Eq, ◌==◌, arith, All, Bool-cases, inl, inr,
}
use rocketsocket.Map.{Map, get, insert, remove}

module _ {ℓ κ μ} {K : Type ℓ} {V : Type κ} ⦃e : Eq K⦄ (P : K × V → Type μ) where
  pub All-insert : (m : Map K V) (k : K) (v : V) → All P m → P (k, v) → All P (insert m k v)
  unfolding insert
  All-insert [] k v h p = (p, tt)
  All-insert ((j, w) ∷ m) k v h p = elim (Bool-cases (j == k)) [
    | inl same ↦ rw same (p, h.1)
    | inr other ↦ rw other (h.0, All-insert m k v h.1 p)
  ]

  pub All-remove : (m : Map K V) (k : K) → All P m → All P (remove m k)
  unfolding remove
  All-remove [] k h = tt
  All-remove ((j, w) ∷ m) k h = elim (Bool-cases (j == k)) [
    | inl same ↦ rw same (All-remove m k h.1)
    | inr other ↦ rw other (h.0, All-remove m k h.1)
  ]

  pub All-get : (m : Map K V) (k : K) (v : V) → All P m → get m k ≡ some v → P (k, v)
  unfolding get
  All-get [] k v h g = cc
  All-get ((j, w) ∷ m) k v h g = elim (Bool-cases (j == k)) [
    | inl same ↦
        subst₂ (λ a b. P (a, b)) ((e.eq_iff j k).0 same) (some-injective w v (rw same at g)) h.0
    | inr other ↦ All-get m k v h.1 (rw other at g)
  ]

module _ {ℓ κ} {K : Type ℓ} {V : Type κ} ⦃e : Eq K⦄ where
  pub get-eq-none : (m : Map K V) (k : K) → All (λ x. x.0 ≢ k) m → get m k ≡ none
  unfolding get
  get-eq-none [] k h = refl
  get-eq-none ((j, w) ∷ m) k h = ground (arith, e.eq_iff j k, get-eq-none m k h.1)

  pub All-map {μ ν} :
      {P : K × V → Type μ} {Q : K × V → Type ν} (m : Map K V)
      → ((x : K × V) → P x → Q x)
      → All P m
      → All Q m
  All-map [] f h = tt
  All-map (x ∷ m) f h = (f x h.0, All-map m f h.1)
