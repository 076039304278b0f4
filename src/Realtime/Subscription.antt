-- ===== src/Realtime/Subscription.antt =====
-- crates/rocketsocket-realtime/src/subscription.rs: the subscription registry and the routing of
-- stream events. `V` is `serde_json::Value`, a parameter.
mod Tests
pub mod Index
pub mod Consistency
use rocketsocket.Base.{
  map, ℕ, zero, suc, ◌+◌, ◌-◌, ◌*◌, ◌/◌, ◌%◌, ◌^◌, ◌≤◌, ◌<◌, String, ◌≡◌, refl, sym, ap, ◌∙◌, ◌≢◌,
  ◌↔◌, ◌⊎◌, inl, inr, Bool, true, false, not, ◌&&◌, ◌||◌, Option, none, some, List, [], ◌∷◌, ◌++◌,
  arith, ltb, leb, nat_eq, if◌then◌else◌, Eq, ◌==◌, ℕ_eq, String_eq, Bool-cases, Option-cases,
  is_some, is_some_and, Result, ok, err, map_err, length, All, retain, elem, option_eq,
  option_eq_iff, Option_eq,
}
use Prim.Native.String.{◌++◌ as append, compare}
use Prim.Native.Nat.{Ordering}
use rocketsocket.Map.{Map, empty, get, insert, remove, map_values}

pub record StreamKey : Type 0 where
  pub stream : String
  pub event : String

unfoldable pub publication : StreamKey → String
publication k = append "stream-" k.stream

unfoldable pub key_eq : StreamKey → StreamKey → Bool
key_eq a b = (a.stream == b.stream) && (a.event == b.event)

pub key_eq_iff : (a b : StreamKey) → (key_eq a b ≡ true) ↔ (a ≡ b)
unfolding key_eq
key_eq_iff a b =
    ground (arith, String_eq.eq_iff a.stream b.stream, String_eq.eq_iff a.event b.event)

instance abbrev pub StreamKey_eq : Eq StreamKey
StreamKey_eq = record { eq = key_eq; eq_iff = key_eq_iff }

pub data SubState : Type 0 where
  pending ready inactive : SubState

-- `Entry_` of the source.
pub record Entry (V : Type 0) : Type 0 where
  pub key : StreamKey
  pub params : List V
  pub state : SubState

pub record Registry (V : Type 0) : Type 0 where
  pub by_id : Map String (Entry V)
  pub by_key : Map StreamKey (List String)

abbrev pub or_nil : Option (List String) → List String
or_nil none = []
or_nil (some ids) = ids

-- The ids under a key, none for a key that has no entry.
abbrev pub ids_of : Map StreamKey (List String) → StreamKey → List String
ids_of m k = or_nil (get m k)

-- The key's entry with its remaining ids: it goes with the last of them.
unfoldable pub put_back :
    Map StreamKey (List String) → StreamKey → List String → Map StreamKey (List String)
put_back m k [] = remove m k
put_back m k (id ∷ ids) = insert m k (id ∷ ids)

-- `retain` on the ids of a key that has an entry.
unfoldable pub drop_id :
    Map StreamKey (List String) → StreamKey → String → Map StreamKey (List String)
drop_id m k id = elim (get m k) [
  | none ↦ m
  | some ids ↦ put_back m k (retain (λ candidate. not (candidate == id)) ids)
]

-- The ids with one of them renamed.
unfoldable pub rename : String → String → List String → List String
rename old new = map (λ id. if id == old then new else id)

unfoldable pub rename_id :
    Map StreamKey (List String) → StreamKey → String → String → Map StreamKey (List String)
unfolding rename
rename_id m k old new = elim (get m k) [ none ↦ m | some ids ↦ insert m k (rename old new ids) ]

-- Texts by their bytes, as `Ord for String` compares them.
abbrev pub text_le : String → String → Bool
text_le a b = elim (compare a b) [ Ordering.gt ↦ false | _ ↦ true ]

module _ {V : Type 0} where
  abbrev pub new : Registry V
  new = record { by_id = empty; by_key = empty }

  unfoldable pub len : Registry V → ℕ
  len r = length r.by_id

  unfoldable pub is_empty : Registry V → Bool
  is_empty r = elim r.by_id [ [] ↦ true | x ∷ xs ↦ false ]

  -- `Registry::insert`.
  unfoldable pub subscribe : Registry V → String → StreamKey → List V → Registry V
  subscribe r id key params = record {
    by_id = insert r.by_id id (record { key = key; params = params; state = pending });
    by_key = insert r.by_key key (ids_of r.by_key key ++ (id ∷ []));
  }

  unfoldable pub state : Registry V → String → Option SubState
  state r id = elim (get r.by_id id) [ none ↦ none | some e ↦ some e.state ]

  unfoldable pub mark_ready : Registry V → String → Registry V × Bool
  mark_ready r id = elim (get r.by_id id) [
    | none ↦ (r, false)
    | some e ↦ (record r { by_id = insert r.by_id id (record e { state = ready }) }, true)
  ]

  -- `Registry::remove`.
  unfoldable pub forget : Registry V → String → Registry V × Bool
  unfolding drop_id
  forget r id = elim (get r.by_id id) [
    | none ↦ (r, false)
    | some e ↦ (record { by_id = remove r.by_id id; by_key = drop_id r.by_key e.key id }, true)
  ]

  abbrev pub with_state : SubState → Entry V → Entry V
  with_state s e = record e { state = s }

  unfoldable pub connection_lost : Registry V → Registry V
  connection_lost r = record r { by_id = map_values (with_state inactive) r.by_id }

  unfoldable pub mark_replayed : Registry V → Registry V
  mark_replayed r = record r { by_id = map_values (with_state pending) r.by_id }

  -- `sort_by` on the ids.
  unfoldable pub insert_sorted :
      String × StreamKey × List V
      → List (String × StreamKey × List V)
      → List (String × StreamKey × List V)
  insert_sorted x [] = x ∷ []
  insert_sorted x (y ∷ ys) = if text_le x.0 y.0 then x ∷ y ∷ ys else y ∷ insert_sorted x ys

  unfoldable pub sort_by_id :
      List (String × StreamKey × List V) → List (String × StreamKey × List V)
  unfolding insert_sorted
  sort_by_id [] = []
  sort_by_id (x ∷ xs) = insert_sorted x (sort_by_id xs)

  unfoldable pub to_replay : Registry V → List (String × StreamKey × List V)
  unfolding sort_by_id
  to_replay r = sort_by_id (map (λ x. (x.0, x.1.key, x.1.params)) r.by_id)

  unfoldable pub rekey : Registry V → String → String → Registry V × Bool
  unfolding rename_id
  rekey r old new = elim (get r.by_id old) [
    | none ↦ (r, false)
    | some e ↦ (
      record {
        by_id = insert (remove r.by_id old) new (record e { state = pending });
        by_key = rename_id r.by_key e.key old new;
      },
      true,
    )
  ]

  unfoldable pub subscribers : Registry V → StreamKey → List String
  subscribers r k = ids_of r.by_key k
