-- ===== src/Cache/Merge.antt =====
-- crates/rocketsocket-cache/src/merge.rs: merging a projected document into a cached one. The JSON
-- values and the conversions that `serde` derives for an entity are parameters.
pub mod Overlay
use rocketsocket.Base.{
  if◌then◌else◌, ◌==◌, String, ◌≡◌, Option, none, some, [], ◌∷◌, ℕ_eq, String_eq, Option_eq,
}
use rocketsocket.Map
use rocketsocket.Map.{Map}
use rocketsocket.Map.Laws.{IsFunctional}

-- `serde_json::Value`, as far as `Value::Object` goes, with its `serde_json::Map`: `as_object` is a
-- match on the value, and `entries` are what an iteration over the map gives, in its order.
pub record Json : Type 1 where
  pub Value : Type 0
  pub Object : Type 0
  pub object : Object → Value
  pub as_object : Value → Option Object
  pub get : Object → String → Option Value
  pub insert : Object → String → Value → Object
  pub entries : Object → Map String Value
  pub as_object-object : (m : Object) → as_object (object m) ≡ some m
  pub get-insert :
      (m : Object) (k j : String) (v : Value)
      → get (insert m k v) j ≡ (if k == j then some v else get m j)
  pub get-entries : (m : Object) (k : String) → Map.get (entries m) k ≡ get m k
  pub entries-IsFunctional : (m : Object) → IsFunctional (entries m)

-- `Serialize` and `DeserializeOwned` of a type: `serde_json::to_value` and `from_value`.
pub record Serde (J : Json) (T : Type 0) : Type 0 where
  pub to_value : T → Option J.Value
  pub from_value : J.Value → Option T

-- The loop over the patch: each of its keys is written over the merged object's.
unfoldable pub overlay : (J : Json) → J.Object → Map String J.Value → J.Object
overlay J merged [] = merged
overlay J merged ((key, value) ∷ patch) = overlay J (J.insert merged key value) patch

module _ {J : Json} {T : Type 0} (s : Serde J T) where
  -- The object that a document serializes to, if it does.
  unfoldable pub object_of : T → Option J.Object
  object_of t = elim (s.to_value t) [ none ↦ none | some v ↦ J.as_object v ]

  -- The merged document, or `incoming` where it does not decode.
  unfoldable pub decode_or : J.Object → T → T
  decode_or merged incoming = elim (s.from_value (J.object merged)) [ none ↦ incoming | some t ↦ t ]

  unfoldable pub merge_objects : Option J.Object → Option J.Object → T → T
  unfolding decode_or
  merge_objects (some merged) (some patch) incoming =
      decode_or (overlay J merged (J.entries patch)) incoming
  merge_objects (some merged) none incoming = incoming
  merge_objects none patch incoming = incoming

  unfoldable pub merge_documents : T → T → T
  unfolding merge_objects object_of
  merge_documents cached incoming = merge_objects (object_of cached) (object_of incoming) incoming
