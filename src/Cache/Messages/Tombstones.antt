-- ===== src/Cache/Messages/Tombstones.antt =====
-- What a tombstone leaves of a message where the cache evicts.
use rocketsocket.Base.{
  String, ◌≡◌, refl, ap, ◌∙◌, true, false, not, Option, none, some, List, [], ◌∷◌, arith, ◌==◌,
  ℕ_eq, String_eq, elem-retain, retain, elem, Option_eq,
}
use rocketsocket.Cache.DashMap.{DashMap}
use rocketsocket.Cache.Merge.{Json}
use rocketsocket.Cache.Entity.{Message, Entities, is_deleted_tombstone}
use rocketsocket.Cache.Config.{evict}
use rocketsocket.Cache.Resource
use rocketsocket.Cache.Store.{Cache, StoreMode, wants, or_nil, ring_of}
use rocketsocket.Cache.Messages.{
  put_ring, unlink_message, remove_message_in, put_tombstone, store_message, message,
  room_message_ids, without,
}

module _ {D : DashMap} {R : Type 0} where
  ring_of-put_ring :
      (c : Cache D R) (room_id : String) (ring : List String)
      → ring_of D (put_ring c room_id ring).room_messages room_id ≡ ring
  unfolding put_ring
  ring_of-put_ring c room_id [] =
      ap or_nil (D.get-remove (List String) c.room_messages room_id room_id)
      ∙ ground (arith, String_eq.eq_iff room_id room_id)
  ring_of-put_ring c room_id (x ∷ ring) =
      ap or_nil (D.get-insert (List String) c.room_messages room_id room_id (x ∷ ring))
      ∙ ground (arith, String_eq.eq_iff room_id room_id)

  messages-put_ring :
      (c : Cache D R) (room_id : String) (ring : List String)
      → (put_ring c room_id ring).messages ≡ c.messages
  unfolding put_ring
  messages-put_ring c room_id [] = refl
  messages-put_ring c room_id (x ∷ ring) = refl

  unlink_lem :
      (c : Cache D R) (room_id id : String)
      → (elem (room_message_ids (unlink_message c room_id id) room_id) id ≡ false)
        × ((unlink_message c room_id id).messages ≡ c.messages)
  unfolding unlink_message room_message_ids elem
  unlink_lem c room_id id = go (D.get (List String) c.room_messages room_id) refl
    where
      go :
          (o : Option (List String))
          → D.get (List String) c.room_messages room_id ≡ o
          → let d : Cache D R = elim o [
            | none ↦ c
            | some ring ↦ put_ring c room_id (retain (λ candidate. not (candidate == id)) ring)
          ] in
            (elem (ring_of D d.room_messages room_id) id ≡ false) × (d.messages ≡ c.messages)
      go none e = (ap (λ o. elem (or_nil o) id) e ∙ refl, refl)
      go (some ring) e = (
        ap (λ r. elem r id)
              (ring_of-put_ring c room_id (retain (λ candidate. not (candidate == id)) ring))
            ∙ elem-retain id id ring
            ∙ ground (arith, String_eq.eq_iff id id),
        messages-put_ring c room_id (retain (λ candidate. not (candidate == id)) ring),
      )

  evicting_eq :
      {J : Json} (E : Entities J R) (c : Cache D R) (m : Message R) (mode : StoreMode)
      → wants c Resource.message ≡ true
      → (c.config.message_cache_size == 0) ≡ false
      → c.config.tombstone_policy ≡ evict
      → is_deleted_tombstone m ≡ true
      → store_message E c m mode ≡ remove_message_in c m.rid m.id
  unfolding store_message put_tombstone
  evicting_eq E c m mode wanted size policy tombstone =
      rw (wanted, size, tombstone) (ap (put_tombstone E c m) policy)

  removed_lem :
      (c : Cache D R) (room_id id : String)
      → let d : Cache D R = (remove_message_in c room_id id).0 in
        (message d id ≡ none) × (elem (room_message_ids d room_id) id ≡ false)
  unfolding remove_message_in message
  removed_lem c room_id id =
      let (absent, same) = unlink_lem (without c id) room_id id in
      (
        ap (λ t. D.get (Message R) t id) same
            ∙ D.get-remove (Message R) c.messages id id
            ∙ ground (arith, String_eq.eq_iff id id),
        absent,
      )

  -- Where messages are cached and a tombstone evicts, a tombstone leaves neither the message nor
  -- its id in its room's ring, and returns the message that was cached.
  pub store_message_evicts :
      {J : Json} (E : Entities J R) (c : Cache D R) (m : Message R) (mode : StoreMode)
      → wants c Resource.message ≡ true
      → (c.config.message_cache_size == 0) ≡ false
      → c.config.tombstone_policy ≡ evict
      → is_deleted_tombstone m ≡ true
      → let d : Cache D R = (store_message E c m mode).0 in
        (message d m.id ≡ none)
        × ((elem (room_message_ids d m.rid) m.id ≡ false)
            × ((store_message E c m mode).1 ≡ message c m.id))
  unfolding remove_message_in message
  store_message_evicts E c m mode wanted size policy tombstone =
      let (gone, absent) = removed_lem c m.rid m.id in
      rw (evicting_eq E c m mode wanted size policy tombstone) (gone, (absent, refl))
