-- ===== src/Cache/Tests/Values.antt =====
-- JSON values of texts and objects, and documents that serialize to themselves.
use rocketsocket.Base.{
  String, ◌≡◌, refl, sym, ap, ◌∙◌, Option, none, some, [], ◌∷◌, arith, ℕ_eq, String_eq, Option_eq,
}
use rocketsocket.Map.{Map, get, insert, remove}
use rocketsocket.Map.Laws.{
  get-insert, get-remove, get-remove_self, IsFunctional, remove-IsFunctional,
}
use rocketsocket.Cache.Merge.{Json, Serde, object_of, overlay}
use rocketsocket.Cache.Merge.Overlay.{KeepsFields, or_else}

pub data Value : Type 0 where
  leaf : String → Value
  empty : Value
  field : String → Value → Value → Value

unfoldable pub object : Map String Value → Value
object [] = empty
object ((k, v) ∷ m) = field k v (object m)

unfoldable pub as_object : Value → Option (Map String Value)
as_object (leaf s) = none
as_object empty = some []
as_object (field k v rest) = elim (as_object rest) [ none ↦ none | some m ↦ some ((k, v) ∷ m) ]

pub as_object-object : (m : Map String Value) → as_object (object m) ≡ some m
unfolding object as_object
as_object-object [] = refl
as_object-object ((k, v) ∷ m) = rw (as_object-object m, as_object) refl

-- The entries of an association list, each key once.
abbrev pub entries : Map String Value → Map String Value
entries [] = []
entries ((k, v) ∷ m) = (k, v) ∷ remove (entries m) k

pub get-entries : (m : Map String Value) (k : String) → get (entries m) k ≡ get m k
unfolding get
get-entries [] k = refl
get-entries ((j, v) ∷ m) k = ground (arith, get-remove (entries m) j k, get-entries m k)

pub entries-IsFunctional : (m : Map String Value) → IsFunctional (entries m)
entries-IsFunctional [] = tt
entries-IsFunctional ((k, v) ∷ m) =
    (get-remove_self (entries m) k, remove-IsFunctional (entries m) k (entries-IsFunctional m))

abbrev pub json : Json
json = record {
  Value = Value;
  Object = Map String Value;
  object = object;
  as_object = as_object;
  get = get;
  insert = insert;
  entries = entries;
  as_object-object = as_object-object;
  get-insert = λ m k j v. get-insert m k j v;
  get-entries = get-entries;
  entries-IsFunctional = entries-IsFunctional;
}

-- A document with an id and, where there is one, a topic.
pub record Document : Type 0 where
  pub id : String
  pub topic : Option String

abbrev text_of : Option Value → Option String
text_of (some (leaf s)) = some s
text_of _ = none

abbrev pub field_list : String → Option String → Map String Value
field_list id none = ("_id", leaf id) ∷ []
field_list id (some topic) = ("_id", leaf id) ∷ ("topic", leaf topic) ∷ []

abbrev pub fields_of : Document → Map String Value
fields_of d = field_list d.id d.topic

abbrev read_from : Map String Value → Option Document
read_from m = elim (text_of (get m "_id")) [
  | none ↦ none
  | some id ↦ some (record { id = id; topic = text_of (get m "topic") })
]

-- A topic that is not there is skipped.
abbrev pub document : Serde json Document
document = record {
  to_value = λ d. some (object (fields_of d));
  from_value = λ v. elim (as_object v) [ none ↦ none | some m ↦ read_from m ];
}

abbrev written : Document → Document → Document
written a b = record { id = b.id; topic = or_else b.topic a.topic }

serializes : (d : Document) → object_of document d ≡ some (fields_of d)
unfolding object_of
serializes d = as_object-object (fields_of d)

-- The object of one document written over another's.
written_over :
    (i j : String) (o p : Option String)
    → overlay json (field_list i o) (entries (field_list j p)) ≡ field_list j (or_else p o)
unfolding overlay insert remove
written_over i j none none = refl
written_over i j none (some t) = refl
written_over i j (some s) none = refl
written_over i j (some s) (some t) = refl

reads :
    (i : String) (o : Option String)
    → document.from_value (object (field_list i o)) ≡ some (record { id = i; topic = o })
unfolding get as_object object
reads i none = refl
reads i (some t) = refl

pub document-KeepsFields : KeepsFields document
document-KeepsFields = record {
  fields = fields_of;
  serializes = serializes;
  decode = written;
  decodes = λ a b.
      ap (λ m. document.from_value (object m)) (written_over a.id b.id a.topic b.topic)
      ∙ reads b.id (or_else b.topic a.topic);
  keeps = λ a b k. ap (λ m. get m k) (sym (written_over a.id b.id a.topic b.topic));
}
