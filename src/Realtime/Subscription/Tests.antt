-- ===== src/Realtime/Subscription/Tests.antt =====
-- A registry with one subscription, renamed after a new connection.
use rocketsocket.Base.{ℕ, ◌≡◌, refl, ◌↔◌, true, some, [], ◌∷◌, ℕ_eq, String_eq, elem, Option_eq}
use rocketsocket.Map.{get, empty}
use rocketsocket.Realtime.Subscription.{
  StreamKey, Entry, Registry, new, subscribe, rekey, connection_lost, subscribers,
}
use rocketsocket.Realtime.Subscription.Consistency.{
  Reach, here, next, subscribes, loses, rekeys, subscribers-reached,
}

abbrev room_key : StreamKey
room_key = record { stream = "stream-room-messages"; event = "GENERAL" }

abbrev renamed : Registry ℕ
renamed = (rekey (connection_lost (subscribe new "s0" room_key (1 ∷ []))) "s0" "s1").0

renamed_reached : Reach ℕ new renamed
unfolding get connection_lost subscribe rocketsocket.Map.insert
renamed_reached =
    next (next (next here (subscribes "s0" room_key (1 ∷ []) refl)) loses) (rekeys "s0" "s1" refl)

subscribers-reached_example :
    (elem (subscribers renamed room_key) "s1" ≡ true)
    ↔ ((e : Entry ℕ) × (get renamed.by_id "s1" ≡ some e) × (e.key ≡ room_key))
subscribers-reached_example = subscribers-reached renamed "s1" room_key renamed_reached
