-- ===== src/Cache/Messages.antt =====
-- crates/rocketsocket-cache/src/cache.rs: the operations on messages, and the ring of ids that
-- bounds those of each room, newest first.
use rocketsocket.Base.{
  ℕ, zero, suc, String, true, false, not, ◌||◌, Option, none, some, List, [], ◌∷◌, ◌++◌, ltb,
  if◌then◌else◌, ◌==◌, ℕ_eq, String_eq, is_some, length, retain, Option_eq,
}
pub mod Rings
pub mod Tombstones
use rocketsocket.Cache.DashMap.{DashMap}
use rocketsocket.Cache.Merge.{Json}
use rocketsocket.Cache.Entity.{Message, Entities, is_deleted_tombstone}
use rocketsocket.Cache.Config
use rocketsocket.Cache.Config.{TombstonePolicy, evict}
use rocketsocket.Cache.Resource
use rocketsocket.Cache.Store.{Cache, StoreMode, merge, replace, wants, upsert, remove_all, ring_of}

-- `VecDeque::pop_back`: the last element, and what is before it.
unfoldable pub pop_back : List String → Option (String × List String)
pop_back [] = none
pop_back (x ∷ ring) = elim (pop_back ring) [ none ↦ some (x, []) | some (y, ys) ↦ some (y, x ∷ ys) ]

-- The loop of `link_message`, with the ids that it has evicted. Each turn takes one id off the
-- ring, so the length of the ring is fuel enough.
unfoldable pub trim : ℕ → ℕ → List String → List String → List String × List String
unfolding pop_back
trim zero capacity ring evicted = (ring, evicted)
trim (suc fuel) capacity ring evicted = elim (ltb capacity (length ring)) [
  | false ↦ (ring, evicted)
  | true ↦ elim (pop_back ring) [
    | none ↦ (ring, evicted)
    | some (oldest, left) ↦ trim fuel capacity left (evicted ++ (oldest ∷ []))
  ]
]

module _ {D : DashMap} {R : Type 0} where
  unfoldable pub message : Cache D R → String → Option (Message R)
  message c id = D.get (Message R) c.messages id

  unfoldable pub room_message_ids : Cache D R → String → List String
  room_message_ids c room_id = ring_of D c.room_messages room_id

  unfoldable pub newest_message_id : Cache D R → String → Option String
  unfolding room_message_ids
  newest_message_id c room_id = elim (room_message_ids c room_id) [ [] ↦ none | id ∷ _ ↦ some id ]

  unfoldable pub link_message : Cache D R → String → String → Cache D R
  unfolding trim
  link_message c room_id id =
      let ring = id ∷ ring_of D c.room_messages room_id in
      let (kept, evicted) = trim (length ring) c.config.message_cache_size ring [] in
      record c {
        room_messages = D.insert (List String) c.room_messages room_id kept;
        messages = remove_all D (Message R) c.messages evicted;
      }

  -- The two writes of `unlink_message`, where the room has a ring.
  unfoldable pub put_ring : Cache D R → String → List String → Cache D R
  put_ring c room_id [] = record c {
    room_messages = D.remove (List String) c.room_messages room_id;
  }
  put_ring c room_id (x ∷ ring) = record c {
    room_messages = D.insert (List String) c.room_messages room_id (x ∷ ring);
  }

  unfoldable pub unlink_message : Cache D R → String → String → Cache D R
  unfolding put_ring
  unlink_message c room_id id = elim (D.get (List String) c.room_messages room_id) [
    | none ↦ c
    | some ring ↦ put_ring c room_id (retain (λ candidate. not (candidate == id)) ring)
  ]

  -- The messages without the one of that id.
  abbrev pub without : Cache D R → String → Cache D R
  without c id = record c { messages = D.remove (Message R) c.messages id }

  unfoldable pub remove_message : Cache D R → String → Cache D R × Option (Message R)
  unfolding unlink_message
  remove_message c id =
      let removed = D.get (Message R) c.messages id in
      (
        elim removed [ none ↦ without c id | some m ↦ unlink_message (without c id) m.rid id ],
        removed,
      )

  unfoldable pub remove_message_in : Cache D R → String → String → Cache D R × Option (Message R)
  unfolding unlink_message
  remove_message_in c room_id id =
      (unlink_message (without c id) room_id id, D.get (Message R) c.messages id)

  module _ {J : Json} (E : Entities J R) where
    -- The body of `store_message` once the mode is settled.
    unfoldable pub put_message : Cache D R → Message R → StoreMode → Cache D R × Option (Message R)
    unfolding link_message
    put_message c incoming mode =
        let (messages, previous, _) =
          upsert D E.message c.messages incoming.id incoming mode (λ _. tt {0}) in
        let stored = record c { messages = messages } in
        (
          if is_some previous then stored else link_message stored incoming.rid incoming.id,
          previous,
        )

    -- A tombstone, by what the cache is configured to do with it.
    unfoldable pub put_tombstone :
        Cache D R → Message R → TombstonePolicy → Cache D R × Option (Message R)
    unfolding remove_message_in put_message
    put_tombstone c incoming evict = remove_message_in c incoming.rid incoming.id
    put_tombstone c incoming Config.replace = put_message c incoming replace

    unfoldable pub store_message :
        Cache D R → Message R → StoreMode → Cache D R × Option (Message R)
    unfolding put_message put_tombstone is_deleted_tombstone
    store_message c incoming mode =
        if not (wants c Resource.message) || c.config.message_cache_size == 0
        then (c, none)
        else if is_deleted_tombstone incoming
        then put_tombstone c incoming c.config.tombstone_policy
        else put_message c incoming mode

    unfoldable pub replace_message : Cache D R → Message R → Cache D R × Option (Message R)
    unfolding store_message
    replace_message c incoming = store_message c incoming replace

    unfoldable pub merge_message : Cache D R → Message R → Cache D R × Option (Message R)
    unfolding store_message
    merge_message c incoming = store_message c incoming merge
