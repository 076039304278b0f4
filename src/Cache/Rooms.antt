-- ===== src/Cache/Rooms.antt =====
-- crates/rocketsocket-cache/src/cache.rs: the operations on rooms and on subscriptions.
use rocketsocket.Base.{
  String, Option, none, List, if◌then◌else◌, ℕ_eq, String_eq, and_then, Option_eq,
}
use rocketsocket.Cache.DashMap.{DashMap}
use rocketsocket.Cache.Merge.{Json}
use rocketsocket.Cache.Entity.{Room, Subscription, Message, Entities}
use rocketsocket.Cache.Resource
use rocketsocket.Cache.Store.{
  Cache, StoreMode, merge, replace, wants, upsert, reindex, drop_name, remove_all, ring_of,
}

abbrev pub name_of : {R : Type 0} → Option (Room R) → Option String
name_of o = and_then o (λ r. r.name)

module _ {D : DashMap} {R : Type 0} where
  unfoldable pub room : Cache D R → String → Option (Room R)
  room c id = D.get (Room R) c.rooms id

  unfoldable pub room_id_by_name : Cache D R → String → Option String
  room_id_by_name c name = D.get String c.rooms_by_name name

  unfoldable pub room_by_name : Cache D R → String → Option (Room R)
  unfolding room_id_by_name room
  room_by_name c name = and_then (room_id_by_name c name) (room c)

  unfoldable pub subscription : Cache D R → String → Option (Subscription R)
  subscription c room_id = D.get (Subscription R) c.subscriptions room_id

  unfoldable pub remove_room : Cache D R → String → Cache D R × Option (Room R)
  remove_room c id =
      let removed = D.get (Room R) c.rooms id in
      (
        record c {
          rooms = D.remove (Room R) c.rooms id;
          rooms_by_name = drop_name D c.rooms_by_name (name_of removed) id;
          subscriptions = D.remove (Subscription R) c.subscriptions id;
          messages = remove_all D (Message R) c.messages (ring_of D c.room_messages id);
          room_messages = D.remove (List String) c.room_messages id;
        },
        removed,
      )

  unfoldable pub remove_subscription : Cache D R → String → Cache D R × Option (Subscription R)
  remove_subscription c room_id = (
    record c { subscriptions = D.remove (Subscription R) c.subscriptions room_id },
    D.get (Subscription R) c.subscriptions room_id,
  )

  module _ {J : Json} (E : Entities J R) where
    -- The body of `store_room` where rooms are cached.
    unfoldable pub put_room : Cache D R → Room R → StoreMode → Cache D R × Option (Room R)
    put_room c incoming mode =
        let (rooms, previous, new_name) =
          upsert D E.room c.rooms incoming.id incoming mode (λ r. r.name) in
        (
          record c {
            rooms = rooms;
            rooms_by_name = reindex D c.rooms_by_name (name_of previous) new_name incoming.id;
          },
          previous,
        )

    unfoldable pub store_room : Cache D R → Room R → StoreMode → Cache D R × Option (Room R)
    unfolding put_room
    store_room c incoming mode =
        if wants c Resource.room then put_room c incoming mode else (c, none)

    unfoldable pub replace_room : Cache D R → Room R → Cache D R × Option (Room R)
    unfolding store_room
    replace_room c incoming = store_room c incoming replace

    unfoldable pub merge_room : Cache D R → Room R → Cache D R × Option (Room R)
    unfolding store_room
    merge_room c incoming = store_room c incoming merge

    unfoldable pub put_subscription :
        Cache D R → Subscription R → StoreMode → Cache D R × Option (Subscription R)
    put_subscription c incoming mode =
        let (subscriptions, previous, _) =
          upsert D E.subscription c.subscriptions incoming.rid incoming mode (λ _. tt {0}) in
        (record c { subscriptions = subscriptions }, previous)

    unfoldable pub store_subscription :
        Cache D R → Subscription R → StoreMode → Cache D R × Option (Subscription R)
    unfolding put_subscription
    store_subscription c incoming mode =
        if wants c Resource.subscription then put_subscription c incoming mode else (c, none)

    unfoldable pub replace_subscription :
        Cache D R → Subscription R → Cache D R × Option (Subscription R)
    unfolding store_subscription
    replace_subscription c incoming = store_subscription c incoming replace
