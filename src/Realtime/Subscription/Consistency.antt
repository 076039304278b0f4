-- ===== src/Realtime/Subscription/Consistency.antt =====
-- Every operation of the registry keeps its routing index consistent with what is remembered.
use rocketsocket.Base.{
  String, ◌≡◌, refl, sym, ap, ◌∙◌, ◌↔◌, inl, inr, true, Option, none, some, List, [], ◌∷◌, ◌++◌,
  arith, ℕ_eq, String_eq, Option-cases, elem, elem-append, elem-retain, Option_eq,
}
use mathlib.Core.Option.{some-injective}
use rocketsocket.Map.{Map, get, insert, remove, map_values}
use rocketsocket.Map.Laws.{get-insert, get-remove, get-map_values}
use rocketsocket.Realtime.Subscription.{
  StreamKey, StreamKey_eq, key_eq_iff, SubState, Entry, Registry, new, ids_of, drop_id, rename_id,
  subscribe, mark_ready, forget, with_state, connection_lost, mark_replayed, rekey, subscribers,
  pending, inactive, ready,
}
use rocketsocket.Realtime.Subscription.Index.{
  has_key, IsConsistent, elem-rename, ids_of-insert, ids_of-drop_id, ids_of-rename_id,
}

module _ {V : Type 0} where
  new-IsConsistent : IsConsistent (new {V = V})
  unfolding elem get
  new-IsConsistent = record { listed = λ id k. refl }

  subscribe_listed :
      (r : Registry V) (id x : String) (key k : StreamKey) (params : List V)
      → get r.by_id id ≡ none
      → elem (ids_of r.by_key key) x ≡ has_key (get r.by_id x) key
      → elem (ids_of r.by_key k) x ≡ has_key (get r.by_id x) k
      → elem (ids_of (subscribe r id key params).by_key k) x
        ≡ has_key (get (subscribe r id key params).by_id x) k
  unfolding subscribe elem
  subscribe_listed r id x key k params fresh h h' =
      let e : Entry V = record { key = key; params = params; state = pending } in
      ground (
        arith,
        ids_of-insert r.by_key key k (ids_of r.by_key key ++ (id ∷ [])),
        elem-append (ids_of r.by_key key) (id ∷ []) x,
        get-insert r.by_id id x e,
        key_eq_iff key k,
        String_eq.eq_iff id x,
      )

  forget_listed :
      (r : Registry V) (id x : String) (e : Entry V) (k : StreamKey)
      → get r.by_id id ≡ some e
      → elem (ids_of r.by_key k) x ≡ has_key (get r.by_id x) k
      → elem (ids_of (drop_id r.by_key e.key id) k) x ≡ has_key (get (remove r.by_id id) x) k
  forget_listed r id x e k known h = ground (
    arith,
    ids_of-drop_id r.by_key e.key k id,
    elem-retain id x (ids_of r.by_key k),
    get-remove r.by_id id x,
    key_eq_iff e.key k,
    String_eq.eq_iff id x,
  )

  rekey_listed :
      (r : Registry V) (old fresh x : String) (e : Entry V) (k : StreamKey)
      → get r.by_id old ≡ some e
      → get r.by_id fresh ≡ none
      → elem (ids_of r.by_key k) old ≡ has_key (get r.by_id old) k
      → elem (ids_of r.by_key k) x ≡ has_key (get r.by_id x) k
      → elem (ids_of (rename_id r.by_key e.key old fresh) k) x
        ≡ has_key (get (insert (remove r.by_id old) fresh (with_state pending e)) x) k
  rekey_listed r old fresh x e k known unknown h h' = ground (
    arith,
    ids_of-rename_id r.by_key e.key k old fresh,
    elem-rename old fresh x (ids_of r.by_key k),
    get-insert (remove r.by_id old) fresh x (with_state pending e),
    get-remove r.by_id old x,
    key_eq_iff e.key k,
    String_eq.eq_iff old x,
    String_eq.eq_iff fresh x,
  )

  subscribe-IsConsistent :
      (r : Registry V) (id : String) (key : StreamKey) (params : List V)
      → get r.by_id id ≡ none
      → IsConsistent r
      → IsConsistent (subscribe r id key params)
  subscribe-IsConsistent r id key params fresh c = record {
    listed = λ x k. subscribe_listed r id x key k params fresh (c.listed x key) (c.listed x k);
  }

  forget-IsConsistent :
      (r : Registry V) (id : String) → IsConsistent r → IsConsistent (forget r id).0
  unfolding forget
  forget-IsConsistent r id c = elim (Option-cases (get r.by_id id)) [
    | inl e ↦ rw (e, forget) c
    | inr (found, e) ↦
        rw (e, forget) (record { listed = λ x k. forget_listed r id x found k e (c.listed x k) })
  ]

  rekey-IsConsistent :
      (r : Registry V) (old fresh : String)
      → get r.by_id fresh ≡ none
      → IsConsistent r
      → IsConsistent (rekey r old fresh).0
  unfolding rekey
  rekey-IsConsistent r old fresh unknown c = elim (Option-cases (get r.by_id old)) [
    | inl e ↦ rw (e, rekey) c
    | inr (found, e) ↦
        rw (e, rekey)
          (record {
            listed =
                λ x k. rekey_listed r old fresh x found k e unknown (c.listed old k) (c.listed x k);
          })
  ]

  has_key-insert :
      (m : Map String (Entry V)) (id x : String) (e : Entry V) (s : SubState) (k : StreamKey)
      → get m id ≡ some e
      → has_key (get (insert m id (with_state s e)) x) k ≡ has_key (get m x) k
  has_key-insert m id x e s k found =
      ground (arith, get-insert m id x (with_state s e), String_eq.eq_iff id x)

  mark_ready-IsConsistent :
      (r : Registry V) (id : String) → IsConsistent r → IsConsistent (mark_ready r id).0
  unfolding mark_ready
  mark_ready-IsConsistent r id c = elim (Option-cases (get r.by_id id)) [
    | inl e ↦ rw (e, mark_ready) c
    | inr (found, e) ↦
        rw (e, mark_ready)
          (record {
            listed = λ x k. c.listed x k ∙ sym (has_key-insert r.by_id id x found ready k e);
          })
  ]

  has_key-map_values :
      (m : Map String (Entry V)) (x : String) (s : SubState) (k : StreamKey)
      → has_key (get (map_values (with_state s) m) x) k ≡ has_key (get m x) k
  has_key-map_values m x s k =
      ap (λ o. has_key o k) (get-map_values (with_state s) m x) ∙ ground arith

  with_states-IsConsistent :
      (r : Registry V) (s : SubState)
      → IsConsistent r
      → IsConsistent (record r { by_id = map_values (with_state s) r.by_id })
  with_states-IsConsistent r s c = record {
    listed = λ x k. c.listed x k ∙ sym (has_key-map_values r.by_id x s k);
  }

-- An operation of the registry; a subscription and a replay are issued under an id that is not in
-- use.
pub data Step (V : Type 0) (r : Registry V) : Registry V → Type 0 where
  subscribes :
      (id : String) (key : StreamKey) (params : List V)
      → get r.by_id id ≡ none
      → Step V r (subscribe r id key params)
  acknowledges : (id : String) → Step V r (mark_ready r id).0
  forgets : (id : String) → Step V r (forget r id).0
  rekeys : (old fresh : String) → get r.by_id fresh ≡ none → Step V r (rekey r old fresh).0
  loses : Step V r (connection_lost r)
  replays : Step V r (mark_replayed r)

pub data Reach (V : Type 0) (r : Registry V) : Registry V → Type 0 where
  here : Reach V r r
  next : {s t : Registry V} → Reach V r s → Step V s t → Reach V r t

Step-IsConsistent : {V : Type 0} {r s : Registry V} → Step V r s → IsConsistent r → IsConsistent s
unfolding connection_lost mark_replayed
Step-IsConsistent {r = r} (subscribes id key params fresh) c =
    subscribe-IsConsistent r id key params fresh c
Step-IsConsistent {r = r} (acknowledges id) c = mark_ready-IsConsistent r id c
Step-IsConsistent {r = r} (forgets id) c = forget-IsConsistent r id c
Step-IsConsistent {r = r} (rekeys old fresh unknown) c = rekey-IsConsistent r old fresh unknown c
Step-IsConsistent {r = r} loses c = with_states-IsConsistent r inactive c
Step-IsConsistent {r = r} replays c = with_states-IsConsistent r pending c

Reach-IsConsistent : {V : Type 0} {r s : Registry V} → IsConsistent r → Reach V r s → IsConsistent s
Reach-IsConsistent c here = c
Reach-IsConsistent c (next reach step) = Step-IsConsistent step (Reach-IsConsistent c reach)

has_key_iff :
    {V : Type 0} (o : Option (Entry V)) (k : StreamKey)
    → (has_key o k ≡ true) ↔ ((e : Entry V) × (o ≡ some e) × (e.key ≡ k))
has_key_iff none k = ((λ h. cc), (λ (e, h, j). cc))
has_key_iff {V} (some e) k = (
  (λ h. (e, refl, (key_eq_iff e.key k).0 h)),
  (λ (f, h, j). (key_eq_iff e.key k).1 (ap (λ (x : Entry V). x.key) (some-injective e f h) ∙ j)),
)

-- In every registry that the operations reach from an empty one, where those that add or rename a
-- subscription take an id that is not remembered yet, an event is routed to an id exactly when the
-- id is remembered, under the key of the event.
pub subscribers-reached :
    {V : Type 0} (r : Registry V) (id : String) (k : StreamKey)
    → Reach V new r
    → (elem (subscribers r k) id ≡ true) ↔ ((e : Entry V) × (get r.by_id id ≡ some e) × (e.key ≡ k))
unfolding subscribers
subscribers-reached r id k reach =
    let c = Reach-IsConsistent new-IsConsistent reach in
    let (forth, back) = has_key_iff (get r.by_id id) k in
    ((λ h. forth (sym (c.listed id k) ∙ h)), (λ x. c.listed id k ∙ back x))
