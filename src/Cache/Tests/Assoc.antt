-- ===== src/Cache/Tests/Assoc.antt =====
-- Association lists without a repeated key, as a `DashMap`.
use rocketsocket.Base.{String, ◌≡◌, refl, none, [], ℕ_eq, String_eq, length, Option_eq}
use rocketsocket.Map
use rocketsocket.Map.{Map}
use rocketsocket.Map.Laws.{
  IsFunctional, insert-IsFunctional, remove-IsFunctional, get-insert, get-remove, length-insert,
  length-remove,
}
use rocketsocket.Cache.DashMap.{DashMap}

pub get-empty : {V : Type 0} (k : String) → Map.get {V = V} [] k ≡ none
unfolding Map.get
get-empty k = refl

abbrev pub assoc : DashMap
assoc = record {
  Table = λ V. (m : Map String V) × IsFunctional m;
  new = λ V. ([], tt);
  get = λ V m k. Map.get m.0 k;
  insert = λ V m k v. (Map.insert m.0 k v, insert-IsFunctional m.0 k v m.1);
  remove = λ V m k. (Map.remove m.0 k, remove-IsFunctional m.0 k m.1);
  len = λ V m. length m.0;
  get-new = λ V k. get-empty k;
  get-insert = λ V m k j v. get-insert m.0 k j v;
  get-remove = λ V m k j. get-remove m.0 k j;
  len-new = λ V. refl;
  len-insert = λ V m k v. length-insert m.0 k v;
  len-remove = λ V m k. length-remove m.0 k m.1;
}
