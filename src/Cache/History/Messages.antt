-- ===== src/Cache/History/Messages.antt =====
-- The operations on messages keep a cache well formed.
use rocketsocket.Base.{
  ◌≤◌, String, ◌≡◌, refl, ap, not, ◌||◌, Option, none, some, List, [], ◌∷◌, arith, ◌==◌, ℕ_eq,
  String_eq, if-keeps, is_some, length, retain, Option_eq,
}
use rocketsocket.Cache.DashMap.{DashMap}
use rocketsocket.Cache.Merge.{Json}
use rocketsocket.Cache.Entity.{Message, Entities, is_deleted_tombstone}
use rocketsocket.Cache.Config
use rocketsocket.Cache.Resource
use rocketsocket.Cache.Config.{TombstonePolicy, evict}
use rocketsocket.Cache.Store.{Cache, StoreMode, replace, wants, upsert, or_nil, stored}
use rocketsocket.Cache.Messages.{
  link_message, put_ring, unlink_message, remove_message, remove_message_in, put_message,
  put_tombstone, store_message, without,
}
use rocketsocket.Cache.Messages.Rings.{length-retain, link_message-IsBounded, put_ring-IsBounded}
use rocketsocket.Cache.Invariant.{IsValid}

module _ {D : DashMap} {R : Type 0} where
  link_message-IsValid :
      (c : Cache D R) (room_id id : String) → IsValid c → IsValid (link_message c room_id id)
  unfolding link_message
  link_message-IsValid c room_id id valid = record {
    rooms_named = valid.rooms_named;
    users_named = valid.users_named;
    users_queued = valid.users_queued;
    rings_bounded = link_message-IsBounded c room_id id valid.rings_bounded;
  }

  put_ring-IsValid :
      (c : Cache D R) (room_id : String) (ring : List String)
      → length ring ≤ c.config.message_cache_size
      → IsValid c
      → IsValid (put_ring c room_id ring)
  unfolding put_ring
  put_ring-IsValid c room_id [] h valid = record {
    rooms_named = valid.rooms_named;
    users_named = valid.users_named;
    users_queued = valid.users_queued;
    rings_bounded = put_ring-IsBounded c room_id [] h valid.rings_bounded;
  }
  put_ring-IsValid c room_id (x ∷ ring) h valid = record {
    rooms_named = valid.rooms_named;
    users_named = valid.users_named;
    users_queued = valid.users_queued;
    rings_bounded = put_ring-IsBounded c room_id (x ∷ ring) h valid.rings_bounded;
  }

  without-IsValid : (c : Cache D R) (id : String) → IsValid c → IsValid (without c id)
  without-IsValid c id valid = record {
    rooms_named = valid.rooms_named;
    users_named = valid.users_named;
    users_queued = valid.users_queued;
    rings_bounded = valid.rings_bounded;
  }

  pub unlink_message-IsValid :
      (c : Cache D R) (room_id id : String) → IsValid c → IsValid (unlink_message c room_id id)
  unfolding unlink_message
  unlink_message-IsValid c room_id id valid = go (D.get (List String) c.room_messages room_id) refl
    where
      go :
          (o : Option (List String))
          → D.get (List String) c.room_messages room_id ≡ o
          → IsValid (elim o [
            | none ↦ c
            | some ring ↦ put_ring c room_id (retain (λ candidate. not (candidate == id)) ring)
          ])
      go none e = valid
      go (some ring) e =
          put_ring-IsValid c room_id (retain (λ candidate. not (candidate == id)) ring)
            (omega (
              arith,
              length-retain (λ candidate. not (candidate == id)) ring,
              ap (λ o. length (or_nil o)) e,
              valid.rings_bounded room_id,
            ))
            valid

  pub remove_message-IsValid :
      (c : Cache D R) (id : String) → IsValid c → IsValid (remove_message c id).0
  unfolding remove_message
  remove_message-IsValid c id valid = go (D.get (Message R) c.messages id)
    where
      go :
          (o : Option (Message R))
          → IsValid
              (elim o [ none ↦ without c id | some m ↦ unlink_message (without c id) m.rid id ])
      go none = without-IsValid c id valid
      go (some m) = unlink_message-IsValid (without c id) m.rid id (without-IsValid c id valid)

  pub remove_message_in-IsValid :
      (c : Cache D R) (room_id id : String) → IsValid c → IsValid (remove_message_in c room_id id).0
  unfolding remove_message_in
  remove_message_in-IsValid c room_id id valid =
      unlink_message-IsValid (without c id) room_id id (without-IsValid c id valid)

  module _ {J : Json} (E : Entities J R) where
    put_message-IsValid :
        (c : Cache D R) (m : Message R) (mode : StoreMode)
        → IsValid c
        → IsValid (put_message E c m mode).0
    unfolding put_message upsert
    put_message-IsValid c m mode valid =
        let written : Cache D R = record c {
          messages =
              D.insert (Message R) c.messages m.id
                (stored E.message mode (D.get (Message R) c.messages m.id) m);
        } in
        let written-IsValid : IsValid written = record {
          rooms_named = valid.rooms_named;
          users_named = valid.users_named;
          users_queued = valid.users_queued;
          rings_bounded = valid.rings_bounded;
        } in
        if-keeps IsValid (is_some (D.get (Message R) c.messages m.id)) written-IsValid
          (link_message-IsValid written m.rid m.id written-IsValid)

    put_tombstone-IsValid :
        (c : Cache D R) (m : Message R) (policy : TombstonePolicy)
        → IsValid c
        → IsValid (put_tombstone E c m policy).0
    unfolding put_tombstone
    put_tombstone-IsValid c m evict valid = remove_message_in-IsValid c m.rid m.id valid
    put_tombstone-IsValid c m Config.replace valid = put_message-IsValid c m replace valid

    pub store_message-IsValid :
        (c : Cache D R) (m : Message R) (mode : StoreMode)
        → IsValid c
        → IsValid (store_message E c m mode).0
    unfolding store_message
    store_message-IsValid c m mode valid =
        if-keeps (λ (r : Cache D R × Option (Message R)). IsValid r.0)
          (not (wants c Resource.message) || c.config.message_cache_size == 0) valid
          (if-keeps (λ (r : Cache D R × Option (Message R)). IsValid r.0) (is_deleted_tombstone m)
            (put_tombstone-IsValid c m c.config.tombstone_policy valid)
            (put_message-IsValid c m mode valid))
