-- ===== src/Cache/History/Rooms.antt =====
-- The operations on rooms and on subscriptions keep a cache well formed.
use rocketsocket.Base.{
  String, inl, inr, Option, arith, ◌==◌, ℕ_eq, String_eq, Bool-cases, if-keeps, Option_eq,
}
use rocketsocket.Cache.DashMap.{DashMap}
use rocketsocket.Cache.Merge.{Json}
use rocketsocket.Cache.Entity.{Room, Subscription, Entities}
use rocketsocket.Cache.Resource
use rocketsocket.Cache.Store.{Cache, StoreMode, wants, upsert, stored}
use rocketsocket.Cache.Names.{drop_name-Sound, reindex-Sound}
use rocketsocket.Cache.Invariant.{IsValid}
use rocketsocket.Cache.Rooms.{
  remove_room, remove_subscription, put_room, store_room, put_subscription, store_subscription,
}

module _ {D : DashMap} {R : Type 0} where
  pub remove_room-IsValid : (c : Cache D R) (id : String) → IsValid c → IsValid (remove_room c id).0
  unfolding remove_room
  remove_room-IsValid c id v = record {
    rooms_named = drop_name-Sound D (λ r. r.name) c.rooms c.rooms_by_name id v.rooms_named;
    users_named = v.users_named;
    users_queued = v.users_queued;
    rings_bounded = λ room_id. elim (Bool-cases (id == room_id)) [
      | inl same ↦ rw (D.get-remove, same) (omega arith)
      | inr apart ↦ rw (D.get-remove, apart) (v.rings_bounded room_id)
    ];
  }

  pub remove_subscription-IsValid :
      (c : Cache D R) (room_id : String) → IsValid c → IsValid (remove_subscription c room_id).0
  unfolding remove_subscription
  remove_subscription-IsValid c room_id v = record {
    rooms_named = v.rooms_named;
    users_named = v.users_named;
    users_queued = v.users_queued;
    rings_bounded = v.rings_bounded;
  }

  module _ {J : Json} (E : Entities J R) where
    put_room-IsValid :
        (c : Cache D R) (r : Room R) (mode : StoreMode)
        → IsValid c
        → IsValid (put_room E c r mode).0
    unfolding put_room upsert
    put_room-IsValid c r mode v = record {
      rooms_named =
          reindex-Sound D (λ r. r.name) c.rooms c.rooms_by_name r.id
            (stored E.room mode (D.get (Room R) c.rooms r.id) r) v.rooms_named;
      users_named = v.users_named;
      users_queued = v.users_queued;
      rings_bounded = v.rings_bounded;
    }

    pub store_room-IsValid :
        (c : Cache D R) (r : Room R) (mode : StoreMode)
        → IsValid c
        → IsValid (store_room E c r mode).0
    unfolding store_room
    store_room-IsValid c r mode v =
        if-keeps (λ (p : Cache D R × Option (Room R)). IsValid p.0) (wants c Resource.room)
          (put_room-IsValid c r mode v) v

    put_subscription-IsValid :
        (c : Cache D R) (s : Subscription R) (mode : StoreMode)
        → IsValid c
        → IsValid (put_subscription E c s mode).0
    unfolding put_subscription upsert
    put_subscription-IsValid c s mode v = record {
      rooms_named = v.rooms_named;
      users_named = v.users_named;
      users_queued = v.users_queued;
      rings_bounded = v.rings_bounded;
    }

    pub store_subscription-IsValid :
        (c : Cache D R) (s : Subscription R) (mode : StoreMode)
        → IsValid c
        → IsValid (store_subscription E c s mode).0
    unfolding store_subscription
    store_subscription-IsValid c s mode v =
        if-keeps (λ (p : Cache D R × Option (Subscription R)). IsValid p.0)
          (wants c Resource.subscription) (put_subscription-IsValid c s mode v) v
