-- ===== src/Cache/DashMap.antt =====
-- `dashmap::DashMap` with texts for keys, which the cache is built on: a parameter, with what its
-- documentation says of each operation that the cache calls. An entry's operations run under the
-- lock of its shard, so each is one step.
use rocketsocket.Base.{
  ℕ, suc, String, ◌≡◌, Option, none, some, if◌then◌else◌, ◌==◌, ℕ_eq, String_eq, is_some, Option_eq,
}

pub record DashMap : Type 1 where
  pub Table : Type 0 → Type 0
  pub new : (V : Type 0) → Table V
  pub get : (V : Type 0) → Table V → String → Option V
  pub insert : (V : Type 0) → Table V → String → V → Table V
  pub remove : (V : Type 0) → Table V → String → Table V
  pub len : (V : Type 0) → Table V → ℕ
  pub get-new : (V : Type 0) (k : String) → get V (new V) k ≡ none
  pub get-insert :
      (V : Type 0) (m : Table V) (k j : String) (v : V)
      → get V (insert V m k v) j ≡ (if k == j then some v else get V m j)
  pub get-remove :
      (V : Type 0) (m : Table V) (k j : String)
      → get V (remove V m k) j ≡ (if k == j then none else get V m j)
  pub len-new : (V : Type 0) → len V (new V) ≡ 0
  pub len-insert :
      (V : Type 0) (m : Table V) (k : String) (v : V)
      → len V (insert V m k v) ≡ (if is_some (get V m k) then len V m else suc (len V m))
  pub len-remove :
      (V : Type 0) (m : Table V) (k : String)
      → len V m ≡ (if is_some (get V m k) then suc (len V (remove V m k)) else len V (remove V m k))
