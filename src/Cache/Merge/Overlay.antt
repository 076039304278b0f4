-- ===== src/Cache/Merge/Overlay.antt =====
-- What a merged document carries.
use rocketsocket.Base.{
  String, ◌≡◌, refl, sym, ap, ◌∙◌, inl, inr, Option, none, some, List, [], ◌∷◌, ◌==◌, ℕ_eq,
  String_eq, Bool-cases, Option_eq,
}
use rocketsocket.Map
use rocketsocket.Map.{Map, contains}
use rocketsocket.Map.Laws.{IsFunctional}
use rocketsocket.Cache.Merge.{
  Json, Serde, overlay, object_of, merge_documents, merge_objects, decode_or,
}

-- The first of two, or else the second.
abbrev pub or_else : {A : Type 0} → Option A → Option A → Option A
or_else (some a) o = some a
or_else none o = o

-- A field of the patch wins, and one that the patch lacks stays.
get-overlay :
    (J : Json) (patch : Map String J.Value) (merged : J.Object) (k : String)
    → IsFunctional patch
    → J.get (overlay J merged patch) k ≡ or_else (Map.get patch k) (J.get merged k)
unfolding overlay Map.get
get-overlay json [] merged k f = refl
get-overlay json ((key, value) ∷ patch) merged k f =
    let later = get-overlay json patch (json.insert merged key value) k f.1 in
    let written = json.get-insert merged key k value in
    elim (Bool-cases (key == k)) [
      | inl same ↦
          let once : Map.get patch k ≡ none =
            ap (Map.get patch) (sym ((String_eq.eq_iff key k).0 same)) ∙ f.0 in
          rw (later, once, written, same) refl
      | inr other ↦ rw (later, written, other) refl
    ]

module _ {J : Json} {T : Type 0} (s : Serde J T) where
  -- A type whose documents serialize to objects, and for which the object that comes from writing
  -- the fields of one document over another's decodes to a document with these fields.
  pub record KeepsFields : Type 0 where
    pub fields : T → J.Object
    pub serializes : (t : T) → object_of s t ≡ some (fields t)
    pub decode : T → T → T
    pub decodes :
        (a b : T)
        → s.from_value (J.object (overlay J (fields a) (J.entries (fields b)))) ≡ some (decode a b)
    pub keeps :
        (a b : T) (k : String)
        → J.get (fields (decode a b)) k ≡ J.get (overlay J (fields a) (J.entries (fields b))) k

  -- The document after a series of payloads.
  abbrev pub merge_all : List T → T → T
  merge_all [] cached = cached
  merge_all (incoming ∷ later) cached = merge_all later (merge_documents s cached incoming)

  module _ (keeps : KeepsFields) where
    -- The field of the last payload that carries it.
    abbrev pub last_carried : List T → String → Option J.Value
    last_carried [] k = none
    last_carried (incoming ∷ later) k =
        or_else (last_carried later k) (J.get (keeps.fields incoming) k)

    merge_documents_field :
        (cached incoming : T) (k : String)
        → J.get (keeps.fields (merge_documents s cached incoming)) k
          ≡ or_else (J.get (keeps.fields incoming) k) (J.get (keeps.fields cached) k)
    unfolding merge_documents merge_objects decode_or
    merge_documents_field cached incoming k =
        rw (keeps.serializes cached, keeps.serializes incoming, merge_objects)
          (rw (keeps.decodes cached incoming, decode_or)
            (keeps.keeps cached incoming k
              ∙ get-overlay J (J.entries (keeps.fields incoming)) (keeps.fields cached) k
                  (J.entries-IsFunctional (keeps.fields incoming))
              ∙ ap (λ o. or_else o (J.get (keeps.fields cached) k))
                  (J.get-entries (keeps.fields incoming) k)))

    or_else_assoc :
        {A : Type 0} (a b c : Option A) → or_else a (or_else b c) ≡ or_else (or_else a b) c
    or_else_assoc none b c = refl
    or_else_assoc (some a) b c = refl

    -- Where the type's documents keep their fields through JSON, after any series of payloads a
    -- field of the document is that of the last payload that carried it, and that of the cached
    -- document if none did.
    pub merge_all_field :
        (payloads : List T) (cached : T) (k : String)
        → J.get (keeps.fields (merge_all payloads cached)) k
          ≡ or_else (last_carried payloads k) (J.get (keeps.fields cached) k)
    merge_all_field [] cached k = refl
    merge_all_field (incoming ∷ later) cached k =
        merge_all_field later (merge_documents s cached incoming) k
        ∙ ap (or_else (last_carried later k)) (merge_documents_field cached incoming k)
        ∙ or_else_assoc (last_carried later k) _ _
